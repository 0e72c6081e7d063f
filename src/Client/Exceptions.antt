-- ===== src/Client/Exceptions.antt =====
-- Exceptions that leave `Client::uploadFile` and `Client::downloadFile`: `std::stoi` on the port of an
-- address, and a key for which the ring has no node.
pub mod Upload
pub mod Download
pub mod Calls
use distributed_file_storage.Base.{
  ℕ, ◌+◌, ◌≡◌, ◌≢◌, refl, Bool, true, false, Option, none, some, List, [], ◌∷◌, Bytes, All, subst,
  sym, if◌then◌else◌, zero, suc,
}
use distributed_file_storage.Base.Int.{pos}
use distributed_file_storage.Client.Address.{Address, no_colon, throws, endpoint, parse_address}
use distributed_file_storage.Client.Availability.{Readable}
use distributed_file_storage.Client.Download.{
  Client, Outcome, went_on, returned, threw, or_throw, metadata_at, get_metadata_from_node,
  is_found, found_or, find_metadata, chunk_at, download_chunk, or_rest, first_copy, chunk_of,
  download_chunks, backwards, download_file,
}
use distributed_file_storage.Client.Download.{◌>>=◌ as then_outcome}
use distributed_file_storage.Client.Upload.{
  Ending, gives, returns, throwing, ◌>>=◌, upload_to, upload_chunk, upload_copies, replicas,
  some_copy, upload_chunks, put_to, put_metadata_to_node, or_next, upload_metadata, upload_split,
  upload_file, metadata_of_file,
}
use distributed_file_storage.Cluster.{Cluster}
use distributed_file_storage.Dht.Lookup.{IsRing}
use distributed_file_storage.Dht.Members.{get_nodes_for_key-All}
use distributed_file_storage.Dht.Ring.{Ring, get_nodes_for_key, get_all_nodes}
use distributed_file_storage.Dht.Successors.{get_nodes_for_key-eq-take}
use distributed_file_storage.Files.{Chunk, split_file_into_chunks}
use distributed_file_storage.Hashing.{hash_all_chunks}
use distributed_file_storage.Metadata.{FileMetadata}

-- No exception leaves the method.
abbrev pub NoThrow {ℓ} : {A : Type ℓ} → Ending A → Type 0
NoThrow (gives a c) = Unit
NoThrow (returns c) = Unit
NoThrow (throwing c) = ⊥

abbrev pub NoThrowOutcome {ℓ} : {A : Type ℓ} → Outcome A → Type 0
NoThrowOutcome (went_on a) = Unit
NoThrowOutcome returned = Unit
NoThrowOutcome threw = ⊥

pub bind-NoThrow {ℓ κ} :
    {A : Type ℓ} {B : Type κ} (o : Ending A) (next : A → Cluster → Ending B)
    → NoThrow o
    → ((a : A) (c : Cluster) → o ≡ gives a c → NoThrow (next a c))
    → NoThrow (o >>= next)
bind-NoThrow (gives a c) next h later = later a c refl
bind-NoThrow (returns c) next h later = tt
bind-NoThrow (throwing c) next h later = absurd h

pub bind-NoThrowOutcome {ℓ κ} :
    {A : Type ℓ} {B : Type κ} (o : Outcome A) (next : A → Outcome B)
    → NoThrowOutcome o
    → ((a : A) → o ≡ went_on a → NoThrowOutcome (next a))
    → NoThrowOutcome (then_outcome o next)
bind-NoThrowOutcome (went_on a) next h later = later a refl
bind-NoThrowOutcome returned next h later = tt
bind-NoThrowOutcome threw next h later = absurd h

pub named :
    (key : Bytes) (ring : Ring)
    → IsRing ring
    → (nodes : List Bytes) × (get_nodes_for_key key (pos 2) ring ≡ some nodes)
named key ring h = (_, get_nodes_for_key-eq-take key (pos 2) ring h)

-- The addresses that the client was made with can be read, and its ring is well-formed.
pub record IsConfigured (client : Client) : Type 0 where
  pub ring : IsRing client.dht
  pub storage_readable : All Readable (get_all_nodes client.dht)
  pub metadata_readable : All Readable client.metadata_nodes
