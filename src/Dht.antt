-- ===== src/Dht.antt =====
-- dht/consistent_hash.hpp and dht/consistent_hash.cpp: the ring of storage nodes.
-- `std::map<int, std::string>` is the list of its entries in the order of its iterator, and an
-- iterator is the rest of that list.
pub mod Ring
pub mod Hash
pub mod Lookup
pub mod Owner
pub mod Changes
pub mod Order
pub mod Successors
pub mod Replicas
pub mod Members
pub mod Balance
