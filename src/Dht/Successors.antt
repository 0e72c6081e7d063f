-- ===== src/Dht/Successors.antt =====
-- `getNodesForKey`: the replicas of a key are the nodes that a walk round the ring meets first.
use mathlib.Core.List.{
  Mem, Nodup, mem-cons, not-mem-nil, Nodup-cons, Nodup-append, Nodup-nil, mem-cons_self,
  perm_append_comm,
}
use mathlib.Core.List.Perm
use mathlib.Core.Option.{some-injective}
use mathlib.Core.Logic.Or
use native.Mathlib.Bridge.{le_prop}
use native.Mathlib.Numerals.{add-one}
use native.Mathlib.Nat.{zero-add, sub-zero}
use distributed_file_storage.Base.{
  ℕ, zero, suc, ◌+◌, ◌-◌, ◌%◌, ◌≤◌, ◌<◌, ◌≡◌, refl, sym, ap, ◌∙◌, true, Bool-cases, inl, inr, some,
  List, [], ◌∷◌, ◌++◌, append-nil, append_assoc, arith, if◌then◌else◌, Bytes, length, take, drop,
  get_elem?, ltb, length-append, subst, take-nil, take-append-drop,
}
use distributed_file_storage.Base.Index.{
  rotate, length-rotate, get_elem?-rotate, drop-get_elem?, drop-length,
}
use distributed_file_storage.Base.Int.{ℤ, pos, pos_part, ◌<ℤ◌, ltb_ℤ, eqb_ℤ_refl, eqb_ℤ_lt}
use distributed_file_storage.Base.Equality.{bytes_eq, bytes_eq_iff}
use distributed_file_storage.Dht.Hash.{hash_key}
use distributed_file_storage.Dht.Ring.{
  Ring, at, lower_bound, wrapped, get_all_nodes, keys_of, start_index, contains, push_new, collect,
  nodes_from, get_nodes_for_key,
}
use distributed_file_storage.Dht.Lookup.{IsSorted, IsPlaced, IsRing, Above}
use distributed_file_storage.Dht.Owner.{at_head, at_tail}

-- How many entries stand before `p`, and the index where the walk for `p` starts.
before : ℤ → Ring → ℕ
before p [] = 0
before p ((k, _) ∷ ring) = if ltb_ℤ k p then suc (before p ring) else 0

pub start_of : ℤ → Ring → ℕ
start_of p ring = if ltb (before p ring) (length ring) then before p ring else 0

-- All the nodes, from the key's owner once round the ring.
unfoldable pub walk : Bytes → Ring → List Bytes
walk key ring = get_all_nodes (rotate (start_of (hash_key key) ring) ring)

lower_bound-drop : (p : ℤ) (ring : Ring) → lower_bound p ring ≡ drop (before p ring) ring
unfolding lower_bound before
lower_bound-drop p [] = refl
lower_bound-drop p ((k, v) ∷ ring) = ground (arith, lower_bound-drop p ring)

pub start_of-lt : (p : ℤ) (e : ℤ × Bytes) (ring : Ring) → start_of p (e ∷ ring) < length (e ∷ ring)
unfolding start_of
start_of-lt p e ring = ground arith

pub wrapped-drop :
    (p : ℤ) (e : ℤ × Bytes) (ring : Ring)
    → wrapped (e ∷ ring) (lower_bound p (e ∷ ring)) ≡ drop (start_of p (e ∷ ring)) (e ∷ ring)
unfolding start_of
wrapped-drop p e ring = elim (Bool-cases (ltb (before p (e ∷ ring)) (length (e ∷ ring)))) [
  | inl inside ↦
      let (x, _, split) = drop-get_elem? (e ∷ ring) (before p (e ∷ ring)) (ground arith) in
      rw (lower_bound-drop p (e ∷ ring), inside, split)
  | inr past ↦ rw (
    lower_bound-drop p (e ∷ ring),
    past,
    drop-length (before p (e ∷ ring)) (e ∷ ring) (ground arith),
  )
]

-- The entry at an index is what `at` finds at its key.
at-get_elem? :
    (ring : Ring) (i : ℕ) (e : ℤ × Bytes)
    → IsSorted ring
    → get_elem? ring i ≡ some e
    → at e.0 ring ≡ some e.1
at-get_elem? [] i e s found = cc
at-get_elem? ((j, w) ∷ ring) zero e s found =
    subst (λ (x : ℤ × Bytes). at x.0 ((j, w) ∷ ring) ≡ some x.1) (some-injective (j, w) e found)
      (at_head j w ring)
at-get_elem? ((j, w) ∷ ring) (suc i) e (above, s) found =
    at_tail e.0 j w ring above (at-get_elem? ring i e s found)

get_elem?-keys_of :
    (ring : Ring) (i : ℕ) (e : ℤ × Bytes)
    → get_elem? ring i ≡ some e
    → get_elem? (keys_of ring) i ≡ some e.0
get_elem?-keys_of [] i e found = cc
get_elem?-keys_of ((j, w) ∷ ring) zero e found =
    ap (λ (x : ℤ × Bytes). some x.0) (some-injective (j, w) e found)
get_elem?-keys_of ((j, w) ∷ ring) (suc i) e found = get_elem?-keys_of ring i e found

length-keys_of : (ring : Ring) → length (keys_of ring) ≡ length ring
length-keys_of [] = refl
length-keys_of ((_, _) ∷ ring) = ap suc (length-keys_of ring)

-- The loop over the entries that it meets, in place of their indices.
gather : ℤ → Ring → List Bytes → List Bytes
gather k [] nodes = nodes
gather k (e ∷ rest) nodes =
    let go = gather k rest (push_new nodes e.1) in
    if ltb_ℤ (pos (length nodes)) k then go else nodes

collect_step :
    (ring : Ring) (keys : List ℤ) (k : ℤ) (s i rounds : ℕ) (nodes : List Bytes) (p : ℤ)
    (node : Bytes)
    → get_elem? keys ((s + i) % length keys) ≡ some p
    → at p ring ≡ some node
    → collect ring keys k s i (suc rounds) nodes ≡ (
        if ltb_ℤ (pos (length nodes)) k
        then collect ring keys k s (i + 1) rounds (push_new nodes node)
        else some nodes)
unfolding collect
collect_step ring keys k s i rounds nodes p node key found = rw (key, found)

gather_step :
    (k : ℤ) (e : ℤ × Bytes) (rest : Ring) (nodes : List Bytes)
    → (if ltb_ℤ (pos (length nodes)) k
        then some (gather k rest (push_new nodes e.1))
        else some nodes)
      ≡ some (gather k (e ∷ rest) nodes)
unfolding gather
gather_step k e rest nodes = ground arith

collect-gather :
    (ring : Ring) (k : ℤ) (s i rounds : ℕ) (nodes : List Bytes)
    → IsSorted ring
    → s < length ring
    → i + rounds ≡ length ring
    → collect ring (keys_of ring) k s i rounds nodes
      ≡ some (gather k (drop i (rotate s ring)) nodes)
collect-gather ring k s i zero nodes sorted hs h =
    rw (drop-length i (rotate s ring) (omega (arith, length-rotate s ring)))
      (unfold collect gather in refl)
collect-gather ring k s i (suc rounds) nodes sorted hs h =
    let (e, found, split) =
      drop-get_elem? (rotate s ring) i (omega (arith, length-rotate s ring)) in
    let here = sym (get_elem?-rotate s ring i hs (omega arith)) ∙ found in
    collect_step ring (keys_of ring) k s i rounds nodes e.0 e.1
      (rw (length-keys_of ring) (get_elem?-keys_of ring _ e here))
      (at-get_elem? ring _ e sorted here)
    ∙ rw
        (
          add-one i,
          collect-gather ring k s (suc i) rounds (push_new nodes e.1) sorted hs (omega arith),
          split,
        )
        (gather_step k e (drop (suc i) (rotate s ring)) nodes)

take_zero : (a b : ℕ) (xs : List Bytes) → a ≤ b → take (a - b) xs ≡ []
take_zero a b xs h = let none_left : a - b ≡ 0 = omega arith in rw none_left

take_one :
    (a b : ℕ) (x : Bytes) (xs : List Bytes)
    → b < a
    → take (a - b) (x ∷ xs) ≡ x ∷ take (a - (b + 1)) xs
take_one a b x xs h = let one_more : a - b ≡ suc (a - (b + 1)) = omega arith in rw one_more

contains-Mem : (nodes : List Bytes) (node : Bytes) → contains nodes node ≡ true → Mem node nodes
unfolding contains
contains-Mem [] node h = cc
contains-Mem (n ∷ nodes) node h = elim (Bool-cases (bytes_eq n node)) [
  | inl same ↦ mem-cons.1 (Or.inl (sym ((bytes_eq_iff n node).0 same)))
  | inr differ ↦ mem-cons.1 (Or.inr (contains-Mem nodes node (rw differ at h)))
]

push_new-append :
    (nodes : List Bytes) (node : Bytes)
    → ¬ Mem node nodes
    → push_new nodes node ≡ nodes ++ node ∷ []
push_new-append nodes node absent = elim (Bool-cases (contains nodes node)) [
  | inl found ↦ absurd (absent (contains-Mem nodes node found))
  | inr fresh ↦ rw fresh
]

Nodup-middle :
    (nodes rest : List Bytes) (node : Bytes) → Nodup (nodes ++ node ∷ rest) → ¬ Mem node nodes
Nodup-middle nodes rest node h m = (Nodup-append.0 h).2 _ m mem-cons_self

-- With no node twice on the way, the loop takes nodes until it has `k` of them.
gather-take :
    (k : ℤ) (rest : Ring) (nodes : List Bytes)
    → Nodup (nodes ++ get_all_nodes rest)
    → gather k rest nodes ≡ nodes ++ take (pos_part k - length nodes) (get_all_nodes rest)
unfolding gather get_all_nodes
gather-take k [] nodes h = rw (take-nil (pos_part k - length nodes), append-nil)
gather-take k ((j, v) ∷ rest) nodes h = elim (Bool-cases (ltb_ℤ (pos (length nodes)) k)) [
  | inl more ↦
      let pushed = push_new-append nodes v (Nodup-middle nodes (get_all_nodes rest) v h) in
      let ih =
        gather-take k rest (nodes ++ v ∷ [])
          (rw (append_assoc nodes (v ∷ []) (get_all_nodes rest)) h) in
      rw (
        more,
        pushed,
        ih,
        length-append nodes (v ∷ []),
        append_assoc nodes (v ∷ []),
        take_one (pos_part k) (length nodes) v (get_all_nodes rest) (ground arith),
      )
  | inr full ↦
      rw (full, take_zero (pos_part k) (length nodes) (v ∷ get_all_nodes rest) (ground arith))
        (sym (append-nil nodes))
]

get_all_nodes-append :
    (xs ys : Ring) → get_all_nodes (xs ++ ys) ≡ get_all_nodes xs ++ get_all_nodes ys
unfolding get_all_nodes
get_all_nodes-append [] ys = refl
get_all_nodes-append ((j, v) ∷ xs) ys = rw (get_all_nodes-append xs ys)

above_hash :
    (k : ℤ) (w : Bytes) (ring : Ring)
    → Above k ring
    → IsPlaced ring
    → Mem w (get_all_nodes ring)
    → k <ℤ hash_key w
unfolding get_all_nodes
above_hash k w [] a p m = absurd (not-mem-nil m)
above_hash k w ((j, v) ∷ ring) (aj, a) (pj, p) m =
    Or.elim le_prop (mem-cons.0 m) (λ same. rw same (rw pj at aj)) (above_hash k w ring a p)

irrefl : (k : ℤ) → ¬ (k <ℤ k)
irrefl k h = omega arith

get_all_nodes-Nodup : (ring : Ring) → IsSorted ring → IsPlaced ring → Nodup (get_all_nodes ring)
unfolding get_all_nodes
get_all_nodes-Nodup [] s p = Nodup-nil
get_all_nodes-Nodup ((k, v) ∷ ring) (above, s) (pk, p) = Nodup-cons.1 (
  (λ m. irrefl (hash_key v) (subst (λ x. x <ℤ hash_key v) pk (above_hash k v ring above p m))),
  get_all_nodes-Nodup ring s p,
)

rotate-Nodup :
    (s : ℕ) (ring : Ring) → Nodup (get_all_nodes ring) → Nodup (get_all_nodes (rotate s ring))
rotate-Nodup s ring h = rw (get_all_nodes-append (drop s ring) (take s ring)) (
    Perm.nodup (perm_append_comm (get_all_nodes (take s ring)) (get_all_nodes (drop s ring)))
      (rw (← get_all_nodes-append (take s ring) (drop s ring), take-append-drop s ring) h))

pub walk-Nodup : (key : Bytes) (ring : Ring) → IsRing ring → Nodup (walk key ring)
unfolding walk
walk-Nodup key ring h =
    rotate-Nodup (start_of (hash_key key) ring) ring (get_all_nodes-Nodup ring h.sorted h.placed)

-- An entry further on stands above the first.
get_elem?-Above :
    (k : ℤ) (ring : Ring) (s : ℕ) (e : ℤ × Bytes)
    → Above k ring
    → get_elem? ring s ≡ some e
    → k <ℤ e.0
get_elem?-Above k [] s e a found = cc
get_elem?-Above k (x ∷ ring) zero e (ax, a) found =
    subst (λ (y : ℤ × Bytes). k <ℤ y.0) (some-injective x e found) ax
get_elem?-Above k (x ∷ ring) (suc s) e (ax, a) found = get_elem?-Above k ring s e a found

start_index-keys_of :
    (ring : Ring) (s i : ℕ) (e : ℤ × Bytes)
    → IsSorted ring
    → get_elem? ring s ≡ some e
    → start_index (keys_of ring) e.0 i ≡ i + s
unfolding start_index
start_index-keys_of [] s i e sorted found = cc
start_index-keys_of ((j, w) ∷ ring) zero i e sorted found =
    rw (← some-injective (j, w) e found, eqb_ℤ_refl j) (omega arith)
start_index-keys_of ((j, w) ∷ ring) (suc s) i e (above, sorted) found =
    rw
      (
        eqb_ℤ_lt j e.0 (get_elem?-Above j ring s e above found),
        start_index-keys_of ring s (i + 1) e sorted found,
      )
      (omega arith)

nodes_from-gather :
    (k : ℤ) (ring : Ring) (s : ℕ) (e : ℤ × Bytes) (behind : Ring)
    → s < length ring
    → IsSorted ring
    → get_elem? ring s ≡ some e
    → nodes_from ring k (e ∷ behind) ≡ some (gather k (rotate s ring) [])
unfolding nodes_from gather
nodes_from-gather k ring s (p, v) behind hs sorted found =
    rw (start_index-keys_of ring s 0 (p, v) sorted found, zero-add s, length-keys_of ring)
      (collect-gather ring k s 0 (length ring) [] sorted hs (omega arith))

get_nodes_for_key_step :
    (key : Bytes) (k : ℤ) (first : ℤ × Bytes) (rest : Ring)
    → get_nodes_for_key key k (first ∷ rest)
      ≡ nodes_from
          (first ∷ rest)
          k
          (wrapped (first ∷ rest) (lower_bound (hash_key key) (first ∷ rest)))
unfolding get_nodes_for_key
get_nodes_for_key_step key k first rest = refl

-- On a well-formed ring `getNodesForKey` does not throw, and returns the first `k` nodes of the
-- walk round the ring from the key's owner on, all of them if there are fewer, none if `k` is
-- negative.
pub get_nodes_for_key-eq-take :
    (key : Bytes) (k : ℤ) (ring : Ring)
    → IsRing ring
    → get_nodes_for_key key k ring ≡ some (take (pos_part k) (walk key ring))
unfolding walk
get_nodes_for_key-eq-take key k [] h =
    unfold get_nodes_for_key start_of get_all_nodes before in sym (ap some (take-nil (pos_part k)))
get_nodes_for_key-eq-take key k (first ∷ rest) h =
    let s = start_of (hash_key key) (first ∷ rest) in
    let hs = start_of-lt (hash_key key) first rest in
    let (e, found, split) = drop-get_elem? (first ∷ rest) s hs in
    get_nodes_for_key_step key k first rest
    ∙ ap (nodes_from (first ∷ rest) k) (wrapped-drop (hash_key key) first rest ∙ split)
    ∙ nodes_from-gather k (first ∷ rest) s e _ hs h.sorted found
    ∙ ap some (gather-take k (rotate s (first ∷ rest)) [] (walk-Nodup key (first ∷ rest) h))
    ∙ ap (λ n. some (take n (walk key (first ∷ rest)))) (sub-zero (pos_part k))
