-- ===== src/Dht/Ring.antt =====
-- The members of `ConsistentHash`, and the operations of `std::map` that they call.
use distributed_file_storage.Base.{
  ℕ, zero, suc, ◌+◌, ◌%◌, Bool, true, false, Option, none, some, List, [], ◌∷◌, ◌++◌, if◌then◌else◌,
  length, get_elem?, Bytes,
}
use distributed_file_storage.Base.Int.{ℤ, pos, ltb_ℤ, eqb_ℤ}
use distributed_file_storage.Base.Equality.{◌==◌, Bytes_eq}
use distributed_file_storage.Dht.Hash.{hash_key}

abbrev pub Ring : Type 0
Ring = List (ℤ × Bytes)

-- `ring_[k] = v`
unfoldable pub insert : ℤ → Bytes → Ring → Ring
insert k v [] = (k, v) ∷ []
insert k v ((j, w) ∷ ring) =
    if ltb_ℤ k j
    then (k, v) ∷ (j, w) ∷ ring
    else if ltb_ℤ j k
    then (j, w) ∷ insert k v ring
    else (k, v) ∷ ring

-- `ring_.erase(k)`
unfoldable pub erase : ℤ → Ring → Ring
erase k [] = []
erase k ((j, w) ∷ ring) = if eqb_ℤ j k then ring else (j, w) ∷ erase k ring

-- `ring_.at(k)`: an absent key throws `std::out_of_range`.
unfoldable pub at : ℤ → Ring → Option Bytes
at k [] = none
at k ((j, w) ∷ ring) = if eqb_ℤ j k then some w else at k ring

-- `ring_.lower_bound(k)`
unfoldable pub lower_bound : ℤ → Ring → Ring
lower_bound k [] = []
lower_bound k ((j, w) ∷ ring) = if ltb_ℤ j k then lower_bound k ring else (j, w) ∷ ring

unfoldable pub add_node : Bytes → Ring → Ring
unfolding insert hash_key
add_node address ring = insert (hash_key address) address ring

unfoldable pub remove_node : Bytes → Ring → Ring
unfolding erase hash_key
remove_node address ring = erase (hash_key address) ring

-- `if (it == ring_.end()) it = ring_.begin();`
abbrev pub wrapped : Ring → Ring → Ring
wrapped ring [] = ring
wrapped ring (entry ∷ rest) = entry ∷ rest

abbrev pub value_at : Ring → Bytes
value_at [] = []
value_at ((_, node) ∷ _) = node

unfoldable pub get_node_for_key : Bytes → Ring → Bytes
unfolding lower_bound hash_key
get_node_for_key key [] = []
get_node_for_key key (entry ∷ ring) =
    value_at (wrapped (entry ∷ ring) (lower_bound (hash_key key) (entry ∷ ring)))

unfoldable pub get_all_nodes : Ring → List Bytes
get_all_nodes [] = []
get_all_nodes ((_, node) ∷ ring) = node ∷ get_all_nodes ring

unfoldable pub get_node_count : Ring → ℕ
get_node_count ring = length ring

unfoldable pub has_node : Bytes → Ring → Bool
unfolding at hash_key
has_node address ring = elim (at (hash_key address) ring) [ none ↦ false | some _ ↦ true ]

-- `for (const auto& p : ring_) keys.push_back(p.first);`
abbrev pub keys_of : Ring → List ℤ
keys_of [] = []
keys_of ((k, _) ∷ ring) = k ∷ keys_of ring

-- The first `i` with `keys[i] == first`; 0 when there is none.
unfoldable pub start_index : List ℤ → ℤ → ℕ → ℕ
start_index [] first i = 0
start_index (k ∷ keys) first i =
    let rest = start_index keys first (i + 1) in if eqb_ℤ k first then i else rest

-- `std::find(nodes.begin(), nodes.end(), node) != nodes.end()`
unfoldable pub contains : List Bytes → Bytes → Bool
contains [] node = false
contains (n ∷ nodes) node = if n == node then true else contains nodes node

abbrev pub push_new : List Bytes → Bytes → List Bytes
push_new nodes node = if contains nodes node then nodes else nodes ++ node ∷ []

-- The last loop of `getNodesForKey`, with `rounds` left of its `keys.size()` rounds.
unfoldable pub collect : Ring → List ℤ → ℤ → ℕ → ℕ → ℕ → List Bytes → Option (List Bytes)
unfolding at contains
collect ring keys k start i zero nodes = some nodes
collect ring keys k start i (suc rounds) nodes =
    if ltb_ℤ (pos (length nodes)) k
    then elim (get_elem? keys ((start + i) % length keys)) [
      | none ↦ none
      | some position ↦ elim (at position ring) [
        | none ↦ none
        | some node ↦ collect ring keys k start (i + 1) rounds (push_new nodes node)
      ]
    ]
    else some nodes

-- The body of `getNodesForKey` from the iterator `it` on; `it->first` is read only from an entry.
unfoldable pub nodes_from : Ring → ℤ → Ring → Option (List Bytes)
unfolding start_index collect
nodes_from ring k [] = none
nodes_from ring k ((position, _) ∷ _) =
    let keys = keys_of ring in collect ring keys k (start_index keys position 0) 0 (length keys) []

-- `none` is the exception of `ring_.at`.
unfoldable pub get_nodes_for_key : Bytes → ℤ → Ring → Option (List Bytes)
unfolding lower_bound hash_key nodes_from
get_nodes_for_key key k [] = some []
get_nodes_for_key key k (entry ∷ ring) =
    nodes_from (entry ∷ ring) k (wrapped (entry ∷ ring) (lower_bound (hash_key key) (entry ∷ ring)))
