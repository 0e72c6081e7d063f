-- ===== src/Dht/Members.antt =====
-- The nodes that the ring gives out are nodes of the ring.
use distributed_file_storage.Base.{
  ℕ, zero, suc, ◌+◌, ◌%◌, ◌≡◌, refl, sym, ◌∙◌, Bool-cases, inl, inr, some, List, [], ◌∷◌, Bytes,
  All, All-append, length, get_elem?, subst, Option-cases,
}
use distributed_file_storage.Base.Int.{ℤ, pos, eqb_ℤ, ltb_ℤ}
use distributed_file_storage.Dht.Ring.{
  Ring, at, contains, push_new, collect, start_index, keys_of, wrapped, lower_bound, nodes_from,
  get_all_nodes, get_nodes_for_key,
}
use distributed_file_storage.Dht.Hash.{hash_key}
use mathlib.Core.Option.{some-injective}

module _ (P : Bytes → Type 0) where
  at-All :
      (k : ℤ) (ring : Ring) (node : Bytes)
      → All P (get_all_nodes ring)
      → at k ring ≡ some node
      → P node
  unfolding at get_all_nodes
  at-All k [] node h e = cc
  at-All k ((j, w) ∷ ring) node (hw, h) e = elim (Bool-cases (eqb_ℤ j k)) [
    | inl same ↦ subst P (some-injective w node (sym (rw same refl) ∙ e)) hw
    | inr apart ↦ at-All k ring node h (sym (rw apart refl) ∙ e)
  ]

  push_new-All :
      (nodes : List Bytes) (node : Bytes) → All P nodes → P node → All P (push_new nodes node)
  push_new-All nodes node h p = elim (Bool-cases (contains nodes node)) [
    | inl there ↦ rw there h
    | inr absent ↦ rw absent (All-append P nodes (node ∷ []) h (p, tt))
  ]

  collect-All :
      (ring : Ring) (keys : List ℤ) (k : ℤ) (s i rounds : ℕ) (nodes result : List Bytes)
      → All P (get_all_nodes ring)
      → All P nodes
      → collect ring keys k s i rounds nodes ≡ some result
      → All P result
  unfolding collect
  collect-All ring keys k s i zero nodes result hr h e = subst (All P) (some-injective _ _ e) h
  collect-All ring keys k s i (suc rounds) nodes result hr h e =
      elim (Bool-cases (ltb_ℤ (pos (length nodes)) k)) [
        | inr enough ↦ subst (All P) (some-injective _ _ (rw enough at e)) h
        | inl more ↦ elim (Option-cases (get_elem? keys ((s + i) % length keys))) [
          | inl none_there ↦ cc (rw (collect, more, none_there) at e)
          | inr (p, key) ↦ elim (Option-cases (at p ring)) [
            | inl gone ↦ cc (rw (collect, more, key, gone) at e)
            | inr (node, found) ↦
                collect-All ring keys k s (i + 1) rounds (push_new nodes node) result hr
                  (push_new-All nodes node h (at-All p ring node hr found))
                  (rw (collect, more, key, found) at e)
          ]
        ]
      ]

  nodes_from-All :
      (ring : Ring) (k : ℤ) (it : Ring) (result : List Bytes)
      → All P (get_all_nodes ring)
      → nodes_from ring k it ≡ some result
      → All P result
  unfolding nodes_from
  nodes_from-All ring k [] result hr e = cc
  nodes_from-All ring k ((position, _) ∷ _) result hr e =
      collect-All ring (keys_of ring) k (start_index (keys_of ring) position 0) 0
        (length (keys_of ring)) [] result hr tt e

  -- What holds of every node of the ring holds of the replicas of a key.
  pub get_nodes_for_key-All :
      (key : Bytes) (k : ℤ) (ring : Ring) (nodes : List Bytes)
      → All P (get_all_nodes ring)
      → get_nodes_for_key key k ring ≡ some nodes
      → All P nodes
  unfolding get_nodes_for_key
  get_nodes_for_key-All key k [] nodes hr e = subst (All P) (some-injective _ _ e) tt
  get_nodes_for_key-All key k (entry ∷ ring) nodes hr e =
      nodes_from-All (entry ∷ ring) k
        (wrapped (entry ∷ ring) (lower_bound (hash_key key) (entry ∷ ring))) nodes hr e
