-- ===== src/Cluster/Chunks.antt =====
-- The chunks that the storage nodes of a cluster keep, and the transfer of one chunk.
use distributed_file_storage.Base.{
  ℕ, ◌≡◌, refl, sym, ap, ◌∙◌, Bool, true, false, ◌&&◌, Bool-cases, inl, inr, Option, none, some, [],
  ◌∷◌, Bytes, subst, if◌then◌else◌,
}
use distributed_file_storage.Base.Assoc.{lookup, lookup-insert}
use distributed_file_storage.Base.Equality.{◌==◌, Bytes_eq, bytes_eq_iff}
use distributed_file_storage.Client.Chunks.{
  not_empty, stored_bytes, upload_chunk_to_node_lem, download_chunk_from_node_lem,
}
use distributed_file_storage.Cluster.{
  Cluster, Link_eq, at_link, store_at, fetch_at, store_with, fetch_from,
}
use distributed_file_storage.Metadata.{Link}
use distributed_file_storage.Sha256.{sha256}
use distributed_file_storage.Storage.{StorageNode}
use distributed_file_storage.Storage.Conversation.{with_chunk}
use distributed_file_storage.Streams.Words.{IsWord}

-- The node with the chunk, where it runs and the chunk has a byte in it; else the node as it is.
abbrev pub after_store : Bytes → Bytes → StorageNode → StorageNode
after_store hash bytes n = if n.running && not_empty bytes then with_chunk hash bytes n else n

abbrev pub stored_at : Bytes → Bytes → Link → Cluster → Option StorageNode → Bool × Cluster
stored_at hash bytes link c none = (false, c)
stored_at hash bytes link c (some n) = (
  n.running && not_empty bytes,
  record c { storage_nodes = at_link link (after_store hash bytes n) c.storage_nodes },
)

-- A STORE at a link under a hash that is a word succeeds if a running node listens there and the
-- chunk has a byte in it. That node then has the chunk; else the cluster is as it was.
pub store_at_lem :
    (hash bytes : Bytes) (link : Link) (c : Cluster)
    → IsWord hash
    → store_at hash bytes link c ≡ stored_at hash bytes link c (c.storage_nodes link)
unfolding store_at
store_at_lem hash bytes link c h = of_node (c.storage_nodes link)
  where
    of_node :
        (found : Option StorageNode)
        → store_with hash bytes link c found ≡ stored_at hash bytes link c found
    of_node none = refl
    of_node (some n) =
        rw (upload_chunk_to_node_lem hash bytes n h)
          (elim (Bool-cases (n.running && not_empty bytes)) [
            | inl e ↦ rw e refl
            | inr e ↦ rw e refl
          ])

abbrev pub fetched : Bytes → Option StorageNode → Bytes
fetched hash none = []
fetched hash (some n) = if n.running then stored_bytes (lookup hash n.storage) else []

pub fetch_at_lem :
    (hash : Bytes) (link : Link) (c : Cluster)
    → IsWord hash
    → fetch_at hash link c ≡ fetched hash (c.storage_nodes link)
unfolding fetch_at
fetch_at_lem hash link c h = of_node (c.storage_nodes link)
  where
    of_node : (found : Option StorageNode) → fetch_from hash found ≡ fetched hash found
    of_node none = refl
    of_node (some n) = download_chunk_from_node_lem hash n h

abbrev pub chunk_under : Bytes → Option StorageNode → Option Bytes
chunk_under hash none = none
chunk_under hash (some n) = lookup hash n.storage

abbrev pub IsAddressed : Bytes → Option Bytes → Type 0
IsAddressed hash none = Unit
IsAddressed hash (some bytes) = sha256 bytes ≡ hash

-- Every chunk that a storage node has under a hash has that hash.
abbrev pub ContentAddressed : Cluster → Type 0
ContentAddressed c =
    (link : Link) (hash : Bytes) → IsAddressed hash (chunk_under hash (c.storage_nodes link))

if_running :
    (up : Bool) (found : Option Bytes) (b : ℕ) (bytes : Bytes)
    → (if up then stored_bytes found else []) ≡ b ∷ bytes
    → found ≡ some (b ∷ bytes)
if_running false found b bytes e = cc
if_running true none b bytes e = cc
if_running true (some bs) b bytes e = ap some e

fetched-chunk_under :
    (hash : Bytes) (b : ℕ) (bytes : Bytes) (found : Option StorageNode)
    → fetched hash found ≡ b ∷ bytes
    → chunk_under hash found ≡ some (b ∷ bytes)
fetched-chunk_under hash b bytes none e = cc
fetched-chunk_under hash b bytes (some n) e = if_running n.running (lookup hash n.storage) b bytes e

-- What is fetched from a content-addressed cluster under a word has the hash that was asked for.
pub fetch_at-sha256 :
    (hash : Bytes) (b : ℕ) (bytes : Bytes) (link : Link) (c : Cluster)
    → IsWord hash
    → ContentAddressed c
    → fetch_at hash link c ≡ b ∷ bytes
    → sha256 (b ∷ bytes) ≡ hash
fetch_at-sha256 hash b bytes link c h addressed e =
    subst (IsAddressed hash)
      (fetched-chunk_under hash b bytes (c.storage_nodes link)
        (sym (fetch_at_lem hash link c h) ∙ e))
      (addressed link hash)

pub at_link-ContentAddressed :
    (link : Link) (n : StorageNode) (c : Cluster)
    → ((hash : Bytes) → IsAddressed hash (lookup hash n.storage))
    → ContentAddressed c
    → ContentAddressed (record c { storage_nodes = at_link link n c.storage_nodes })
at_link-ContentAddressed link n c new old other hash = elim (Bool-cases (link == other)) [
  | inl same ↦ rw same (new hash)
  | inr apart ↦ rw apart (old other hash)
]

with_chunk-IsAddressed :
    (hash bytes : Bytes) (n : StorageNode)
    → sha256 bytes ≡ hash
    → ((other : Bytes) → IsAddressed other (lookup other n.storage))
    → (other : Bytes) → IsAddressed other (lookup other (with_chunk hash bytes n).storage)
with_chunk-IsAddressed hash bytes n e old other = elim (Bool-cases (hash == other)) [
  | inl same ↦
      rw (lookup-insert hash other bytes n.storage, same) (e ∙ (bytes_eq_iff hash other).0 same)
  | inr apart ↦ rw (lookup-insert hash other bytes n.storage, apart) (old other)
]

after_store-IsAddressed :
    (hash bytes : Bytes) (n : StorageNode)
    → sha256 bytes ≡ hash
    → ((other : Bytes) → IsAddressed other (lookup other n.storage))
    → (other : Bytes) → IsAddressed other (lookup other (after_store hash bytes n).storage)
after_store-IsAddressed hash bytes n e old other =
    elim (Bool-cases (n.running && not_empty bytes)) [
      | inl stored ↦ rw stored (with_chunk-IsAddressed hash bytes n e old other)
      | inr refused ↦ rw refused (old other)
    ]

-- A cluster stays content-addressed when a chunk is stored under its hash.
pub store_at-ContentAddressed :
    (hash bytes : Bytes) (link : Link) (c : Cluster)
    → IsWord hash
    → sha256 bytes ≡ hash
    → ContentAddressed c
    → ContentAddressed (store_at hash bytes link c).1
store_at-ContentAddressed hash bytes link c h e addressed =
    rw (store_at_lem hash bytes link c h)
      (of_node (c.storage_nodes link) (λ other. addressed link other))
  where
    of_node :
        (found : Option StorageNode)
        → ((other : Bytes) → IsAddressed other (chunk_under other found))
        → ContentAddressed (stored_at hash bytes link c found).1
    of_node none old = addressed
    of_node (some n) old =
        at_link-ContentAddressed link (after_store hash bytes n) c
          (after_store-IsAddressed hash bytes n e old) addressed
