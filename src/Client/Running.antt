-- ===== src/Client/Running.antt =====
-- Storage nodes that run, and go on running while chunks are stored.
use distributed_file_storage.Base.{
  ◌≡◌, ◌≢◌, inl, inr, refl, sym, ap, ◌∙◌, subst, true, Bool-cases, Option, none, some, List, [],
  ◌∷◌, Bytes, All,
}
use distributed_file_storage.Base.Equality.{◌==◌}
use distributed_file_storage.Client.Availability.{Readable}
use distributed_file_storage.Client.Address.{Address, no_colon, throws, endpoint, parse_address}
use distributed_file_storage.Client.Chunks.{not_empty}
use distributed_file_storage.Cluster.{Cluster, Link_eq, link_eq_iff, store_at}
use distributed_file_storage.Cluster.Chunks.{after_store, stored_at, store_at_lem}
use distributed_file_storage.Metadata.{Link}
use distributed_file_storage.Storage.{StorageNode}
use distributed_file_storage.Streams.Words.{IsWord}

abbrev pub IsUp : Option StorageNode → Type 0
IsUp none = ⊥
IsUp (some n) = n.running ≡ true

abbrev pub Reaches : Cluster → Address → Type 0
Reaches c no_colon = ⊥
Reaches c throws = ⊥
Reaches c (endpoint link) = IsUp (c.storage_nodes link)

-- A storage node that runs listens at the address.
abbrev pub RunsAt : Cluster → Bytes → Type 0
RunsAt c address = Reaches c (parse_address address)

after_store-IsUp :
    (hash bytes : Bytes) (n : StorageNode)
    → n.running ≡ true
    → (after_store hash bytes n).running ≡ true
after_store-IsUp hash bytes n up = elim (Bool-cases (not_empty bytes)) [
  | inl some_byte ↦ rw (up, some_byte) refl
  | inr empty ↦ rw (up, empty) refl
]

module _ (hash bytes : Bytes) (word : IsWord hash) where
  store_at-IsUp :
      (link at : Link) (c : Cluster)
      → IsUp (c.storage_nodes at)
      → IsUp ((store_at hash bytes link c).1.storage_nodes at)
  store_at-IsUp link at c h =
      rw (store_at_lem hash bytes link c word) (of_node (c.storage_nodes link) refl)
    where
      of_node :
          (found : Option StorageNode)
          → c.storage_nodes link ≡ found
          → IsUp ((stored_at hash bytes link c found).1.storage_nodes at)
      of_node none e = h
      of_node (some n) e = elim (Bool-cases (link == at)) [
        | inl same ↦ rw same (
            after_store-IsUp hash bytes n
              (subst IsUp (ap c.storage_nodes (sym ((link_eq_iff link at).0 same)) ∙ e) h))
        | inr apart ↦ rw apart h
      ]

  store_at-Reaches :
      (link : Link) (c : Cluster) (address : Address)
      → Reaches c address
      → Reaches (store_at hash bytes link c).1 address
  store_at-Reaches link c no_colon h = h
  store_at-Reaches link c throws h = h
  store_at-Reaches link c (endpoint at) h = store_at-IsUp link at c h

  pub store_at-RunsAt :
      (addresses : List Bytes) (link : Link) (c : Cluster)
      → All (RunsAt c) addresses
      → All (RunsAt (store_at hash bytes link c).1) addresses
  store_at-RunsAt [] link c h = tt
  store_at-RunsAt (address ∷ addresses) link c (ha, h) =
      (store_at-Reaches link c (parse_address address) ha, store_at-RunsAt addresses link c h)

  pub store_at_up :
      (link : Link) (c : Cluster)
      → not_empty bytes ≡ true
      → IsUp (c.storage_nodes link)
      → (store_at hash bytes link c).0 ≡ true
  store_at_up link c some_byte h =
      rw (store_at_lem hash bytes link c word) (of_node (c.storage_nodes link) h)
    where
      of_node :
          (found : Option StorageNode) → IsUp found → (stored_at hash bytes link c found).0 ≡ true
      of_node none up = absurd up
      of_node (some n) up = rw (up, some_byte) refl

Reaches-Readable : (c : Cluster) (address : Address) → Reaches c address → address ≢ throws
Reaches-Readable c no_colon h e = absurd h
Reaches-Readable c throws h e = absurd h
Reaches-Readable c (endpoint link) h e = cc

-- The address of a node that runs can be read.
pub RunsAt-Readable :
    (c : Cluster) (addresses : List Bytes) → All (RunsAt c) addresses → All Readable addresses
RunsAt-Readable c [] h = tt
RunsAt-Readable c (address ∷ addresses) (ha, h) =
    (Reaches-Readable c (parse_address address) ha, RunsAt-Readable c addresses h)
