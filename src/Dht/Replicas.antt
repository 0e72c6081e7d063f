-- ===== src/Dht/Replicas.antt =====
-- What a client may rely on when it asks for the replicas of a key.
use mathlib.Core.List.{Nodup}
use mathlib.Core.List.Nodup
use mathlib.Core.Option.{some-injective}
use distributed_file_storage.Base.{
  ℕ, zero, suc, ◌<◌, ◌≡◌, ◌≢◌, refl, sym, ap, ◌∙◌, subst, some, List, [], ◌∷◌, ◌++◌, arith, Bytes,
  length, take, drop, take-append-drop, length-take, min,
}
use distributed_file_storage.Base.Index.{rotate, length-rotate, drop-get_elem?}
use distributed_file_storage.Base.Int.{ℤ, pos_part}
use distributed_file_storage.Dht.Hash.{hash_key}
use distributed_file_storage.Dht.Ring.{
  Ring, lower_bound, wrapped, value_at, get_all_nodes, get_node_count, get_nodes_for_key,
  get_node_for_key,
}
use distributed_file_storage.Dht.Lookup.{IsRing}
use distributed_file_storage.Dht.Successors.{
  walk, start_of, start_of-lt, wrapped-drop, walk-Nodup, get_nodes_for_key-eq-take,
}

length-get_all_nodes : (ring : Ring) → length (get_all_nodes ring) ≡ length ring
unfolding get_all_nodes
length-get_all_nodes [] = refl
length-get_all_nodes ((_, _) ∷ ring) = ap suc (length-get_all_nodes ring)

length-walk : (key : Bytes) (ring : Ring) → length (walk key ring) ≡ get_node_count ring
unfolding walk get_node_count
length-walk key ring =
    length-get_all_nodes (rotate (start_of (hash_key key) ring) ring)
    ∙ length-rotate (start_of (hash_key key) ring) ring

-- On a well-formed ring the replicas are as many as asked for, or all the nodes if there are fewer,
-- and no node is named twice.
pub get_nodes_for_key_distinct :
    (key : Bytes) (k : ℤ) (ring : Ring) (nodes : List Bytes)
    → IsRing ring
    → get_nodes_for_key key k ring ≡ some nodes
    → (length nodes ≡ min (pos_part k) (get_node_count ring)) × Nodup nodes
get_nodes_for_key_distinct key k ring nodes h e =
    let same =
      some-injective (take (pos_part k) (walk key ring)) nodes
        (sym (get_nodes_for_key-eq-take key k ring h) ∙ e) in
    subst (λ l. (length l ≡ min (pos_part k) (get_node_count ring)) × Nodup l) same
      (
        length-take (pos_part k) (walk key ring) ∙ ap (min (pos_part k)) (length-walk key ring),
        Nodup.of_append_left (drop (pos_part k) (walk key ring)) (
            subst Nodup (sym (take-append-drop (pos_part k) (walk key ring)))
              (walk-Nodup key ring h)),
      )

get_node_for_key_step :
    (key : Bytes) (first : ℤ × Bytes) (rest : Ring)
    → get_node_for_key key (first ∷ rest)
      ≡ value_at (wrapped (first ∷ rest) (lower_bound (hash_key key) (first ∷ rest)))
unfolding get_node_for_key
get_node_for_key_step key first rest = refl

-- The walk starts at the node that `getNodeForKey` names.
walk-cons :
    (key : Bytes) (first : ℤ × Bytes) (rest : Ring)
    → (others : List Bytes) × (walk key (first ∷ rest)
        ≡ get_node_for_key key (first ∷ rest) ∷ others)
unfolding walk get_all_nodes
walk-cons key first rest =
    let s = start_of (hash_key key) (first ∷ rest) in
    let ((j, v), found, split) =
      drop-get_elem? (first ∷ rest) s (start_of-lt (hash_key key) first rest) in
    (
      get_all_nodes (drop (suc s) (first ∷ rest) ++ take s (first ∷ rest)),
      rw (get_node_for_key_step key first rest, wrapped-drop (hash_key key) first rest, split),
    )

take_front :
    (n : ℕ) (x : Bytes) (xs ys : List Bytes)
    → 0 < n
    → ys ≡ x ∷ xs
    → (rest : List Bytes) × (take n ys ≡ x ∷ rest)
take_front zero x xs ys h e = absurd (omega arith)
take_front (suc n) x xs ys h e = (take n xs, rw e)

-- On a well-formed ring that is not empty, the first of one or more replicas is the node of
-- `getNodeForKey`.
pub get_nodes_for_key_first :
    (key : Bytes) (k : ℤ) (ring : Ring)
    → IsRing ring
    → ring ≢ []
    → 0 < pos_part k
    → (others : List Bytes) × (get_nodes_for_key key k ring
        ≡ some (get_node_for_key key ring ∷ others))
get_nodes_for_key_first key k [] h some_node hk = absurd (some_node refl)
get_nodes_for_key_first key k (first ∷ rest) h some_node hk =
    let (others, split) = walk-cons key first rest in
    let (taken, e) = take_front (pos_part k) _ others _ hk split in
    (taken, get_nodes_for_key-eq-take key k (first ∷ rest) h ∙ ap some e)
