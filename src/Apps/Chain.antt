-- ===== src/Apps/Chain.antt =====
-- The metadata nodes that are started from one configuration are a chain.
use distributed_file_storage.Apps.Nodes.{
  Launch, exits_at, throws_out, starts, is_missing, start_at, start_metadata, metadata_with,
  main_metadata_node,
}
use distributed_file_storage.Base.{
  ◌≡◌, refl, sym, ap, ◌∙◌, subst, true, false, Bool-cases, inl, inr, Option, none, some, List, [],
  ◌∷◌, All, if◌then◌else◌, Bytes, append-nil,
}
use distributed_file_storage.Base.Equality.{◌==◌, eq_refl}
use distributed_file_storage.Base.Int.{ℤ, eqb_ℤ, eqb_ℤ_refl, minus_one}
use distributed_file_storage.Base.Sorting.{sort}
use distributed_file_storage.Cluster.{Link_eq, link_eq_iff, MetadataNodes}
use distributed_file_storage.Cluster.Puts.{on_route, IsRoute, on_route-IsRoute}
use distributed_file_storage.Config.{
  NodeInfo, load_config, find_node, metadata_nodes, by_id, link_of_first, node_behind, next_node,
}
use distributed_file_storage.Streams.{read_int, to_string}
use distributed_file_storage.Streams.Numbers.{Fits, read_int-to_string}
use distributed_file_storage.Metadata.{Link, MetadataNode, no_link, is_set, is_last, new_node}

abbrev pub link_of : NodeInfo → Link
link_of n = record { ip = n.host; port = n.port }

abbrev pub links_of : List NodeInfo → List Link
links_of [] = []
links_of (n ∷ nodes) = link_of n ∷ links_of nodes

abbrev pub node_of : Launch MetadataNode → Option MetadataNode
node_of (exits_at code) = none
node_of throws_out = none
node_of (starts n port) = some n

-- Each of the nodes `started` is started from the configuration `nodes`, and listens at its link.
abbrev pub launched : List NodeInfo → List NodeInfo → MetadataNodes
launched nodes [] link = none
launched nodes (n ∷ started) link =
    if link_of n == link then node_of (start_metadata n.id nodes) else launched nodes started link

-- Nodes whose ids and links are all different, and that have a port and are in the configuration.
abbrev pub AreApart : List NodeInfo → List NodeInfo → Type 0
AreApart nodes [] = Unit
AreApart nodes (n ∷ rest) =
    All (λ m. eqb_ℤ n.id m.id ≡ false) rest
    × (on_route (link_of n) (links_of rest) ≡ false)
    × (is_set (link_of n) ≡ true)
    × (is_missing n ≡ false)
    × (find_node n.id nodes ≡ n)
    × AreApart nodes rest

-- The one behind each of the nodes is the next of the list.
abbrev Behind : List NodeInfo → List NodeInfo → Type 0
Behind whole [] = Unit
Behind whole (n ∷ rest) = (node_behind n.id whole ≡ link_of_first rest) × Behind whole rest

node_behind_first :
    (n : NodeInfo) (rest : List NodeInfo) → node_behind n.id (n ∷ rest) ≡ link_of_first rest
unfolding node_behind
node_behind_first n rest = rw (eqb_ℤ_refl n.id)

node_behind_later :
    (id : ℤ) (n : NodeInfo) (rest : List NodeInfo)
    → eqb_ℤ n.id id ≡ false
    → node_behind id (n ∷ rest) ≡ node_behind id rest
unfolding node_behind
node_behind_later id n rest h = rw h refl

cons-Behind :
    (n : NodeInfo) (whole rest : List NodeInfo)
    → All (λ m. eqb_ℤ n.id m.id ≡ false) rest
    → Behind whole rest
    → Behind (n ∷ whole) rest
cons-Behind n whole [] apart h = tt
cons-Behind n whole (m ∷ rest) (differ, apart) (hm, h) =
    (node_behind_later m.id n whole differ ∙ hm, cons-Behind n whole rest apart h)

AreApart-Behind : (nodes l : List NodeInfo) → AreApart nodes l → Behind l l
AreApart-Behind nodes [] h = tt
AreApart-Behind nodes (n ∷ rest) (ids, _, _, _, _, h) =
    (node_behind_first n rest, cons-Behind n rest rest ids (AreApart-Behind nodes rest h))

start_metadata_found :
    (n : NodeInfo) (nodes : List NodeInfo) (next : Link)
    → find_node n.id nodes ≡ n
    → is_missing n ≡ false
    → next_node n.id nodes ≡ next
    → node_of (start_metadata n.id nodes) ≡ some (new_node next n.port)
unfolding start_metadata
start_metadata_found n nodes next found there behind =
    ap (λ m. node_of (start_at m (next_node n.id nodes))) found
    ∙ ap (λ l. node_of (start_at n l)) behind
    ∙ rw there refl

next_node_step :
    (id : ℤ) (nodes : List NodeInfo)
    → next_node id nodes ≡ node_behind id (sort by_id (metadata_nodes nodes))
unfolding next_node
next_node_step id nodes = refl

set-is_last :
    (next n : NodeInfo)
    → is_set (link_of next) ≡ true
    → is_last (new_node (link_of next) n.port).role ≡ false
set-is_last next n h = elim (Bool-cases (eqb_ℤ next.port minus_one)) [
  | inl none_there ↦ cc (rw none_there at h)
  | inr there ↦ rw there refl
]

module _ (nodes : List NodeInfo) where
  launched_first :
      (n : NodeInfo) (rest : List NodeInfo)
      → find_node n.id nodes ≡ n
      → is_missing n ≡ false
      → node_behind n.id (sort by_id (metadata_nodes nodes)) ≡ link_of_first rest
      → launched nodes (n ∷ rest) (link_of n) ≡ some (new_node (link_of_first rest) n.port)
  launched_first n rest found there behind = rw (eq_refl (link_of n)) (
      start_metadata_found n nodes (link_of_first rest) found there
        (next_node_step n.id nodes ∙ behind))

  launched_later :
      (n : NodeInfo) (rest : List NodeInfo) (link : Link)
      → on_route (link_of n) (links_of rest) ≡ false
      → on_route link (links_of rest) ≡ true
      → launched nodes (n ∷ rest) link ≡ launched nodes rest link
  launched_later n rest link apart on = elim (Bool-cases (link_of n == link)) [
    | inl same ↦ cc (apart, on, (link_eq_iff (link_of n) link).0 same)
    | inr differ ↦ rw differ refl
  ]

  launched-IsRoute :
      (n : NodeInfo) (rest : List NodeInfo)
      → AreApart nodes (n ∷ rest)
      → Behind (sort by_id (metadata_nodes nodes)) (n ∷ rest)
      → IsRoute (launched nodes (n ∷ rest)) (links_of (n ∷ rest))
  launched-IsRoute n [] (_, _, _, there, found, _) (behind, _) =
      (new_node no_link n.port, launched_first n [] found there behind, refl, refl)
  launched-IsRoute n (m ∷ rest) (_, apart, set, there, found, others) (behind, h) = (
    new_node (link_of m) n.port,
    launched_first n (m ∷ rest) found there behind,
    refl,
    set-is_last m n others.2,
    refl,
    others.2,
    apart,
    on_route-IsRoute (launched nodes (m ∷ rest)) (launched nodes (n ∷ m ∷ rest))
        (links_of (m ∷ rest)) (λ link on. launched_later n (m ∷ rest) link apart on)
        (launched-IsRoute m rest others h),
  )

-- Let the metadata nodes of a configuration, in the order of their ids, be `first` and `rest`, with
-- ids and links that are all different, each with a port, and each the one that its id finds. Once
-- `main_metadata_node` has started every one of them, they are a chain in that order: each has the
-- next as its next node, and the last is the tail.
pub launched_chain :
    (nodes : List NodeInfo) (first : NodeInfo) (rest : List NodeInfo)
    → sort by_id (metadata_nodes nodes) ≡ first ∷ rest
    → AreApart nodes (first ∷ rest)
    → IsRoute (launched nodes (first ∷ rest)) (links_of (first ∷ rest))
launched_chain nodes first rest sorted apart = launched-IsRoute nodes first rest apart (
    subst (λ whole. Behind whole (first ∷ rest)) (sym sorted)
      (AreApart-Behind nodes (first ∷ rest) apart))

-- Given the id of a node as its argument, `main_metadata_node` starts it so.
pub main_metadata_node_lem :
    (file : Bytes) (id : ℤ) (lines_of : Bytes → List Bytes)
    → Fits 32 id
    → main_metadata_node (file ∷ to_string id ∷ []) lines_of
      ≡ start_metadata id (load_config (lines_of file))
unfolding main_metadata_node
main_metadata_node_lem file id lines_of fits =
    ap (metadata_with (lines_of file))
      (ap (read_int 32) (sym (append-nil (to_string id))) ∙ read_int-to_string 32 id [] fits tt)
