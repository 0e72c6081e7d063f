-- ===== src/Experiments/Clear.antt =====
-- The ports of a deployment before `startCluster`, and a node that has been told to die.
use distributed_file_storage.Base.{
  ℕ, ◌+◌, ◌<◌, ◌≡◌, ◌≢◌, refl, Bool-cases, inl, inr, false, none, codes, arith,
}
use distributed_file_storage.Base.Equality.{◌==◌, Bytes_eq, bytes_eq, ℕ_eq}
use distributed_file_storage.Cluster.{Cluster, Link_eq, link_eq_iff}
use distributed_file_storage.Experiments.Deploy.{local_link, is_taken}
use distributed_file_storage.Storage.{StorageNode, handle_command}
use distributed_file_storage.Storage.{dispatch as dispatch_storage}
use distributed_file_storage.Streams.{read_word}

-- No node listens at the port.
pub record IsFree (port : ℕ) (c : Cluster) : Type 0 where
  pub no_storage : c.storage_nodes (local_link port) ≡ none
  pub no_metadata : c.metadata_nodes (local_link port) ≡ none

pub die_storage : (n : StorageNode) → (handle_command (codes "DIE") n).node.running ≡ false
unfolding handle_command dispatch_storage bytes_eq read_word
die_storage n = ground arith

-- The ports of a cluster with so many storage nodes are free.
pub record IsClear (storage_count : ℕ) (c : Cluster) : Type 0 where
  pub storage_free : (k : ℕ) → k < storage_count → IsFree (8001 + k) c
  pub head_free : IsFree 9001 c
  pub middle_free : IsFree 9002 c
  pub tail_free : IsFree 9003 c

pub same_port : (port other : ℕ) → local_link port ≡ local_link other → port ≡ other
same_port port other e = cc

pub local_link_apart :
    (port other : ℕ) → port ≢ other → (local_link port == local_link other) ≡ false
local_link_apart port other differ = elim (Bool-cases (local_link port == local_link other)) [
  | inl same ↦
      absurd
        (differ (same_port port other ((link_eq_iff (local_link port) (local_link other)).0 same)))
  | inr apart ↦ apart
]

pub is_taken_free : (port : ℕ) (c : Cluster) → IsFree port c → is_taken (local_link port) c ≡ false
is_taken_free port c free = rw (free.no_storage, free.no_metadata) refl
