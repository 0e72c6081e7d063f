-- ===== src/Metadata/Races.antt =====
-- Two PUTs at the same time: a handler stores the metadata under `storeMutex_` and forwards the command
-- without it, so another handler may come in between.
use distributed_file_storage.Base.{
  ◌≡◌, refl, ap, ◌∙◌, subst, true, Option, some, List, [], ◌∷◌, ◌++◌, Bytes, if◌then◌else◌,
}
use distributed_file_storage.Base.Assoc.{lookup, lookup-insert_self}
use distributed_file_storage.Base.Equality.{Bytes_eq}
use distributed_file_storage.Metadata.{FileMetadata, MetadataNode, forwards, put_metadata}

-- A node, the one behind it, and what its handlers have stored and not yet forwarded.
pub record Neighbours : Type 0 where
  pub front : MetadataNode
  pub back : MetadataNode
  pub under_way : List FileMetadata

-- A handler of the node in front stores metadata, which it forwards only if the node is no tail and has
-- a next node, or one of them gets its command to the node behind.
pub data RaceStep : Neighbours → Neighbours → Type 0 where
  store_first :
      (s : Neighbours) (meta : FileMetadata)
      → RaceStep s (record s {
        front = put_metadata meta s.front;
        under_way = if forwards s.front then s.under_way ++ meta ∷ [] else s.under_way;
      })
  forward_one :
      (s : Neighbours) (before : List FileMetadata) (meta : FileMetadata)
      (after : List FileMetadata)
      → s.under_way ≡ before ++ meta ∷ after
      → RaceStep s (record s { back = put_metadata meta s.back; under_way = before ++ after })

pub data Race (s : Neighbours) : Neighbours → Type 0 where
  begin : Race s s
  then_step : {t u : Neighbours} → Race s t → RaceStep t u → Race s u

abbrev pub at_rest : MetadataNode → MetadataNode → Neighbours
at_rest front back = record { front = front; back = back; under_way = [] }

abbrev pub stored : Bytes → MetadataNode → Option FileMetadata
stored filename n = lookup filename n.metadata_store

-- A node that forwards has the metadata under way behind the store.
forwarded_store :
    (s : Neighbours) (meta : FileMetadata)
    → forwards s.front ≡ true
    → RaceStep s
        (record s { front = put_metadata meta s.front; under_way = s.under_way ++ meta ∷ [] })
forwarded_store s meta onward =
    subst (RaceStep s)
      (ap
        (λ b. record s {
          front = put_metadata meta s.front;
          under_way = if b then s.under_way ++ meta ∷ [] else s.under_way;
        })
        onward)
      (store_first s meta)

-- From any state in which nothing is under way, and the node in front is no tail and has a next node,
-- two PUTs of one file can come to their end so that the node in front is left with the second and the
-- node behind it with the first.
pub race_diverges :
    (front back : MetadataNode) (first second : FileMetadata)
    → forwards front ≡ true
    → first.filename ≡ second.filename
    → (t : Neighbours) × Race (at_rest front back) t
      × (t.under_way ≡ [])
      × (stored first.filename t.front ≡ some second)
      × (stored first.filename t.back ≡ some first)
race_diverges front back first second onward same =
    let one = then_step begin (forwarded_store (at_rest front back) first onward) in
    let both = then_step one (forwarded_store _ second onward) in
    let overtaken = then_step both (forward_one _ (first ∷ []) second [] refl) in
    (
      at_rest (put_metadata second (put_metadata first front))
          (put_metadata first (put_metadata second back)),
      then_step overtaken (forward_one _ [] first [] refl),
      refl,
      ap (λ name. stored name (put_metadata second (put_metadata first front))) same
          ∙ lookup-insert_self second.filename second (put_metadata first front).metadata_store,
      lookup-insert_self first.filename first (put_metadata second back).metadata_store,
    )
