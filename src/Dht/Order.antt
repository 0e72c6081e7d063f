-- ===== src/Dht/Order.antt =====
-- The constructor of the client adds the storage nodes to the ring: their order is forgotten.
use mathlib.Core.List.{Mem, Perm, Permᴰ, mem-cons_self, mem-cons_of_mem}
use mathlib.Core.List.Permᴰ
use mathlib.Core.Option.{some-injective}
use mathlib.Core.Logic.{∥∥₁_elim}
use distributed_file_storage.Base.{
  ◌≡◌, ◌⊎◌, refl, sym, ap, ◌∙◌, subst, Bool-cases, inl, inr, false, none, some, List, [], ◌∷◌,
  Bytes, arith, if◌then◌else◌,
}
use distributed_file_storage.Base.Int.{ℤ, eqb_ℤ, eqb_ℤ-eq, eqb_ℤ_refl, eq_of_parts, ltb_ℤ, ◌<ℤ◌}
use distributed_file_storage.Client.Upload.{add_nodes, new_client}
use distributed_file_storage.Dht.Hash.{hash_key}
use distributed_file_storage.Dht.Lookup.{
  IsRing, IsSorted, Above, at-Above, at-insert, insert-IsSorted, add_node-IsRing,
}
use distributed_file_storage.Dht.Ring.{Ring, insert, at, add_node}

at_first : (i : ℤ) (v : Bytes) (ring : Ring) → at i ((i, v) ∷ ring) ≡ some v
unfolding at
at_first i v ring = rw (eqb_ℤ_refl i) refl

at_later :
    (i k : ℤ) (v : Bytes) (ring : Ring) → eqb_ℤ i k ≡ false → at k ((i, v) ∷ ring) ≡ at k ring
unfolding at
at_later i k v ring apart = rw apart refl

at_below :
    (i j : ℤ) (w : Bytes) (ring : Ring)
    → i <ℤ j
    → IsSorted ((j, w) ∷ ring)
    → at i ((j, w) ∷ ring) ≡ none
at_below i j w ring below (above, sorted) =
    at-Above i ((j, w) ∷ ring) (below, lower i j ring below above)
  where
    lower : (i j : ℤ) (ring : Ring) → i <ℤ j → Above j ring → Above i ring
    lower i j [] below h = tt
    lower i j (entry ∷ ring) below (first, h) = (omega arith, lower i j ring below h)

three_ways : (i j : ℤ) → (i <ℤ j) ⊎ ((i ≡ j) ⊎ (j <ℤ i))
three_ways i j = elim (Bool-cases (ltb_ℤ i j)) [
  | inl below ↦ inl (ground arith)
  | inr not_below ↦ elim (Bool-cases (ltb_ℤ j i)) [
    | inl above ↦ inr (inr (ground arith))
    | inr not_above ↦ inr (inl (eq_of_parts i j (ground arith)))
  ]
]

-- Two rings in ascending order that hold the same at each position are one.
pub ring_ext : (r s : Ring) → IsSorted r → IsSorted s → ((k : ℤ) → at k r ≡ at k s) → r ≡ s
ring_ext [] [] hr hs same = refl
ring_ext [] ((j, w) ∷ s) hr hs same = cc (sym (at-Above j [] tt) ∙ same j ∙ at_first j w s)
ring_ext ((i, v) ∷ r) [] hr hs same = cc (sym (at_first i v r) ∙ same i ∙ at-Above i [] tt)
ring_ext ((i, v) ∷ r) ((j, w) ∷ s) (above_r, hr) (above_s, hs) same = elim (three_ways i j) [
  | inl below ↦ cc (sym (at_first i v r) ∙ same i ∙ at_below i j w s below (above_s, hs))
  | inr (inr above) ↦
      cc (sym (at_first j w s) ∙ sym (same j) ∙ at_below j i v r above (above_r, hr))
  | inr (inl here) ↦
      let value : v ≡ w =
        some-injective v w
          (sym (at_first i v r) ∙ same i ∙ ap (λ k. at k ((j, w) ∷ s)) here ∙ at_first j w s) in
      let tails : (k : ℤ) → at k r ≡ at k s = λ k. elim (Bool-cases (eqb_ℤ i k)) [
        | inl first ↦
            let at_i = eqb_ℤ-eq i k first in
            at-Above k r (subst (λ l. Above l r) at_i above_r)
            ∙ sym (at-Above k s (subst (λ l. Above l s) (sym here ∙ at_i) above_s))
        | inr apart ↦
            sym (at_later i k v r apart)
            ∙ same k
            ∙ at_later j k w s (ap (λ l. eqb_ℤ l k) (sym here) ∙ apart)
      ] in
      ap (λ k. (k, v) ∷ r) here
      ∙ ap (λ x. (j, x) ∷ r) value
      ∙ ap (λ l. (j, w) ∷ l) (ring_ext r s hr hs tails)
]

-- Different addresses of the list have different hashes.
abbrev pub NoClash : List Bytes → Type 0
NoClash addresses =
    (a b : Bytes) → Mem a addresses → Mem b addresses → hash_key a ≡ hash_key b → a ≡ b

insert-insert :
    (j k : ℤ) (v w : Bytes) (ring : Ring)
    → IsSorted ring
    → eqb_ℤ j k ≡ false
    → insert j v (insert k w ring) ≡ insert k w (insert j v ring)
insert-insert j k v w ring sorted apart =
    ring_ext (insert j v (insert k w ring)) (insert k w (insert j v ring))
      (insert-IsSorted j v (insert k w ring) (insert-IsSorted k w ring sorted))
      (insert-IsSorted k w (insert j v ring) (insert-IsSorted j v ring sorted))
      λ i.
        at-insert i j v (insert k w ring)
        ∙ ap (λ o. if eqb_ℤ j i then some v else o) (at-insert i k w ring)
        ∙ one_of_two i
        ∙ sym (
            at-insert i k w (insert j v ring)
            ∙ ap (λ o. if eqb_ℤ k i then some w else o) (at-insert i j v ring))
  where
    one_of_two :
        (i : ℤ)
        → (if eqb_ℤ j i then some v else (if eqb_ℤ k i then some w else at i ring))
          ≡ (if eqb_ℤ k i then some w else (if eqb_ℤ j i then some v else at i ring))
    one_of_two i = elim (Bool-cases (eqb_ℤ j i)) [
      | inr other ↦ rw other refl
      | inl here ↦ elim (Bool-cases (eqb_ℤ k i)) [
        | inr other ↦ rw (here, other) refl
        | inl also ↦ cc (apart, eqb_ℤ_refl j, eqb_ℤ-eq j i here ∙ sym (eqb_ℤ-eq k i also))
      ]
    ]

add_node-add_node :
    (a b : Bytes) (ring : Ring)
    → IsRing ring
    → (hash_key a ≡ hash_key b → a ≡ b)
    → add_node a (add_node b ring) ≡ add_node b (add_node a ring)
unfolding add_node
add_node-add_node a b ring h clash = elim (Bool-cases (eqb_ℤ (hash_key a) (hash_key b))) [
  | inl same ↦
      let equal = clash (eqb_ℤ-eq (hash_key a) (hash_key b) same) in
      ap (λ x. add_node x (add_node b ring)) equal
      ∙ ap (λ x. add_node b (add_node x ring)) (sym equal)
  | inr apart ↦ insert-insert (hash_key a) (hash_key b) a b ring h.sorted apart
]

add_nodes-Permᴰ :
    {xs ys : List Bytes} (ring : Ring)
    → Permᴰ xs ys
    → NoClash xs
    → IsRing ring
    → add_nodes xs ring ≡ add_nodes ys ring
unfolding add_nodes
add_nodes-Permᴰ ring Permᴰ.nil clash h = refl
add_nodes-Permᴰ ring (Permᴰ.cons {a = a} {b = b} {l₁ = xs} {l₂ = ys} e p) clash h =
    add_nodes-Permᴰ (add_node a ring) p
      (λ x y mx my. clash x y (mem-cons_of_mem a mx) (mem-cons_of_mem a my))
      (add_node-IsRing a ring h)
    ∙ ap (λ x. add_nodes ys (add_node x ring)) e
add_nodes-Permᴰ ring (Permᴰ.swap {a = a} {b = b} {a' = c} {b' = d} {l = l} e f) clash h =
    ap (add_nodes l) (
      add_node-add_node b a ring h (clash b a (mem-cons_of_mem a mem-cons_self) (mem-cons_self))
      ∙ ap (λ x. add_node x (add_node b ring)) e
      ∙ ap (λ x. add_node d (add_node x ring)) f)
add_nodes-Permᴰ ring (Permᴰ.trans p q) clash h =
    add_nodes-Permᴰ ring p clash h
    ∙ add_nodes-Permᴰ ring q
        (λ x y mx my. clash x y (Permᴰ.mem (Permᴰ.symm p) mx) (Permᴰ.mem (Permᴰ.symm p) my)) h

Ring_set : IsSet Ring
Ring_set = hlevel

-- A client's ring is the same for any order of its storage nodes, provided that different addresses
-- among them have different hashes.
pub new_client-perm :
    (xs ys metadata_nodes : List Bytes)
    → Perm xs ys
    → NoClash xs
    → new_client xs metadata_nodes ≡ new_client ys metadata_nodes
unfolding new_client
new_client-perm xs ys metadata_nodes p clash =
    ap (λ ring. record { dht = ring; metadata_nodes = metadata_nodes })
      (∥∥₁_elim p (Ring_set (add_nodes xs []) (add_nodes ys []))
        λ d. add_nodes-Permᴰ [] d clash (record { sorted = tt; placed = tt }))
