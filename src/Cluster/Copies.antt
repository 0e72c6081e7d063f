-- ===== src/Cluster/Copies.antt =====
-- The copies of a chunk that can be fetched, and that no store takes away.
use distributed_file_storage.Base.{
  ℕ, ◌≡◌, refl, sym, ap, ◌∙◌, Bool, true, ◌&&◌, Bool-cases, inl, inr, Option, none, some, [], ◌∷◌,
  Bytes, arith, subst,
}
use distributed_file_storage.Base.Assoc.{lookup-insert, lookup-insert_self}
use distributed_file_storage.Base.Equality.{◌==◌, Bytes_eq, eq_refl}
use distributed_file_storage.Client.Chunks.{not_empty}
use distributed_file_storage.Cluster.{Cluster, Link_eq, link_eq_iff, at_link, store_at, fetch_at}
use distributed_file_storage.Cluster.Chunks.{
  after_store, stored_at, store_at_lem, fetched, fetch_at_lem,
}
use distributed_file_storage.Metadata.{Link}
use distributed_file_storage.Storage.{StorageNode}
use distributed_file_storage.Storage.Conversation.{with_chunk, Holds}
use distributed_file_storage.Streams.Words.{IsWord}

-- A running node that has the chunk.
abbrev pub Serves : Bytes → Option StorageNode → Type 0
Serves hash none = ⊥
Serves hash (some n) = (n.running ≡ true) × Holds hash n

-- A running node listens at the link and has the chunk.
abbrev pub ServedAt : Bytes → Cluster → Link → Type 0
ServedAt hash c link = Serves hash (c.storage_nodes link)

Serves-fetched :
    (hash : Bytes) (found : Option StorageNode)
    → Serves hash found
    → (b : ℕ) × (bytes : Bytes) × (fetched hash found ≡ b ∷ bytes)
Serves-fetched hash none h = absurd h
Serves-fetched hash (some n) (up, (b, bytes, stored)) = (b, bytes, rw (up, stored))

pub fetch_at-ServedAt :
    (hash : Bytes) (link : Link) (c : Cluster)
    → IsWord hash
    → ServedAt hash c link
    → (b : ℕ) × (bytes : Bytes) × (fetch_at hash link c ≡ b ∷ bytes)
fetch_at-ServedAt hash link c word h =
    let (b, bytes, e) = Serves-fetched hash (c.storage_nodes link) h in
    (b, bytes, fetch_at_lem hash link c word ∙ e)

with_chunk-Holds :
    (hash bytes other : Bytes) (n : StorageNode)
    → not_empty bytes ≡ true
    → Holds other n
    → Holds other (with_chunk hash bytes n)
with_chunk-Holds hash [] other n some_byte h = cc
with_chunk-Holds hash (b ∷ bytes) other n some_byte (d, ds, stored) =
    elim (Bool-cases (hash == other)) [
      | inl same ↦ (b, bytes, lookup-insert hash other (b ∷ bytes) n.storage ∙ rw same refl)
      | inr apart ↦ (d, ds, lookup-insert hash other (b ∷ bytes) n.storage ∙ rw apart stored)
    ]

after_store-Serves :
    (hash bytes other : Bytes) (n : StorageNode)
    → Serves other (some n)
    → Serves other (some (after_store hash bytes n))
after_store-Serves hash bytes other n (up, h) = elim (Bool-cases (not_empty bytes)) [
  | inl some_byte ↦ rw (up, some_byte) (refl, with_chunk-Holds hash bytes other n some_byte h)
  | inr empty ↦ rw (up, empty) (refl, h)
]

at_link-Serves :
    (hash : Bytes) (link other : Link) (n m : StorageNode) (nodes : Link → Option StorageNode)
    → nodes link ≡ some n
    → (Serves hash (some n) → Serves hash (some m))
    → Serves hash (nodes other)
    → Serves hash (at_link link m nodes other)
at_link-Serves hash link other n m nodes found keeps h = elim (Bool-cases (link == other)) [
  | inl same ↦
      rw same
        (keeps (subst (Serves hash) (ap nodes (sym ((link_eq_iff link other).0 same)) ∙ found) h))
  | inr apart ↦ rw apart h
]

-- A store, whether it succeeds or not, leaves every copy that can be fetched.
pub store_at-ServedAt :
    (hash bytes other : Bytes) (link at : Link) (c : Cluster)
    → IsWord hash
    → ServedAt other c at
    → ServedAt other (store_at hash bytes link c).1 at
store_at-ServedAt hash bytes other link at c word h =
    rw (store_at_lem hash bytes link c word) (of_node (c.storage_nodes link) refl)
  where
    of_node :
        (found : Option StorageNode)
        → c.storage_nodes link ≡ found
        → ServedAt other (stored_at hash bytes link c found).1 at
    of_node none e = h
    of_node (some n) e =
        at_link-Serves other link at n (after_store hash bytes n) c.storage_nodes e
          (after_store-Serves hash bytes other n) h

if_both : (up : Bool) → (up && true) ≡ true → up ≡ true
if_both up e = ground arith

stored_at-ServedAt :
    (hash bytes : Bytes) (link : Link) (c : Cluster) (found : Option StorageNode)
    → (stored_at hash bytes link c found).0 ≡ true
    → ServedAt hash (stored_at hash bytes link c found).1 link
stored_at-ServedAt hash bytes link c none e = cc
stored_at-ServedAt hash [] link c (some n) e = absurd (ground arith)
stored_at-ServedAt hash (b ∷ bytes) link c (some n) e =
    let up = if_both n.running e in
    rw (eq_refl link, up) (refl, (b, bytes, lookup-insert_self hash (b ∷ bytes) n.storage))

-- After a store that succeeds the chunk can be fetched there.
pub store_at_served :
    (hash bytes : Bytes) (link : Link) (c : Cluster)
    → IsWord hash
    → (store_at hash bytes link c).0 ≡ true
    → ServedAt hash (store_at hash bytes link c).1 link
store_at_served hash bytes link c word e = rw (store_at_lem hash bytes link c word) (
    stored_at-ServedAt hash bytes link c (c.storage_nodes link)
      (sym (ap (λ r. r.0) (store_at_lem hash bytes link c word)) ∙ e))
