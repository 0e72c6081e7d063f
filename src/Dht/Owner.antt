-- ===== src/Dht/Owner.antt =====
-- `getNodeForKey` against the textbook rule of consistent hashing: a key belongs to the first node
-- that is met clockwise from the key's position on the circle of 2 ^ 32 positions.
use distributed_file_storage.Base.{
  ℕ, ◌+◌, ◌-◌, ◌%◌, ◌^◌, ◌≤◌, ◌≡◌, ◌≢◌, refl, subst, false, ◌⊎◌, inl, inr, Bool-cases, ltb→lt,
  cons_head, some, [], ◌∷◌, arith, Bytes,
}
use distributed_file_storage.Base.Int.{
  ℤ, ltb_ℤ, pos_part, neg_part, ◌≤ℤ◌, ◌<ℤ◌, eq_of_parts, IsInt32,
}
use distributed_file_storage.Dht.Hash.{hash_key, hash_key-IsInt32}
use distributed_file_storage.Dht.Ring.{Ring, at, lower_bound, value_at, wrapped, get_node_for_key}
use distributed_file_storage.Dht.Lookup.{IsSorted, IsPlaced, IsRing, Above, at-IsPlaced}

-- How far `to` lies clockwise from `from`.
abbrev pub clockwise : ℤ → ℤ → ℕ
clockwise from to = (pos_part to + neg_part from + 2 ^ 32 - (neg_part to + pos_part from)) % 2 ^ 32

-- `node` stands at position `k` and is the first one met clockwise from `p`.
pub record IsOwner (p : ℤ) (ring : Ring) (k : ℤ) (node : Bytes) : Type 0 where
  pub present : at k ring ≡ some node
  pub nearest : (j : ℤ) (w : Bytes) → at j ring ≡ some w → clockwise p k ≤ clockwise p j

at-IsInt32 : (k : ℤ) (w : Bytes) (ring : Ring) → IsPlaced ring → at k ring ≡ some w → IsInt32 k
at-IsInt32 k w ring h e = rw (at-IsPlaced k w ring h e) (hash_key-IsInt32 w)

clockwise-injective :
    (p j k : ℤ) → IsInt32 p → IsInt32 j → IsInt32 k → clockwise p j ≡ clockwise p k → j ≡ k
clockwise-injective p j k hp hj hk e = eq_of_parts j k (omega arith)

lower_bound-nil :
    (p j : ℤ) (w : Bytes) (ring : Ring) → lower_bound p ring ≡ [] → at j ring ≡ some w → j <ℤ p
unfolding lower_bound at
lower_bound-nil p j w [] e found = cc
lower_bound-nil p j w ((i, v) ∷ ring) e found = ground (arith, lower_bound-nil p j w ring)

-- What is found above `k` is found at a position above `k`.
present-Above : (j k : ℤ) (w : Bytes) (ring : Ring) → Above k ring → at j ring ≡ some w → k <ℤ j
unfolding at
present-Above j k w [] h e = cc
present-Above j k w ((i, u) ∷ ring) (hi, h) e =
    ground (arith, present-Above j k w ring h, eq_of_parts i j)

pub at_head : (k : ℤ) (v : Bytes) (ring : Ring) → at k ((k, v) ∷ ring) ≡ some v
unfolding at
at_head k v ring = ground arith

first_least :
    (k : ℤ) (v : Bytes) (ring : Ring) (j : ℤ) (w : Bytes)
    → Above k ring
    → at j ((k, v) ∷ ring) ≡ some w
    → k ≤ℤ j
unfolding at
first_least k v ring j w above found = ground (arith, present-Above j k w ring above)

-- The entry at which the search for `p` stops.
record IsBound (p k : ℤ) (v : Bytes) (ring : Ring) : Type 0 where
  present : at k ring ≡ some v
  reached : p ≤ℤ k
  least : (j : ℤ) (w : Bytes) → at j ring ≡ some w → (j <ℤ p) ⊎ (k ≤ℤ j)

pub at_tail :
    (j i : ℤ) (u : Bytes) (ring : Ring) {w : Bytes}
    → Above i ring
    → at j ring ≡ some w
    → at j ((i, u) ∷ ring) ≡ some w
unfolding at
at_tail j i u ring {w} above e = ground (arith, present-Above j i w ring above e)

at_inv :
    (j i : ℤ) (u : Bytes) (ring : Ring) {w : Bytes}
    → at j ((i, u) ∷ ring) ≡ some w
    → (j ≡ i) ⊎ (at j ring ≡ some w)
unfolding at
at_inv j i u ring e = ground (arith, eq_of_parts j i)

IsBound-tail :
    (p k i : ℤ) (v u : Bytes) (ring : Ring)
    → Above i ring
    → i <ℤ p
    → IsBound p k v ring
    → IsBound p k v ((i, u) ∷ ring)
IsBound-tail p k i v u ring above lt b = record {
  present = at_tail k i u ring above b.present;
  reached = b.reached;
  least = λ j w e. elim (at_inv j i u ring e) [
    | inl same ↦ inl (rw same lt)
    | inr found ↦ b.least j w found
  ];
}

IsBound-here :
    (p i : ℤ) (u : Bytes) (ring : Ring)
    → Above i ring
    → ltb_ℤ i p ≡ false
    → IsBound p i u ((i, u) ∷ ring)
IsBound-here p i u ring above stop = record {
  present = at_head i u ring;
  reached = ground arith;
  least = λ j w e. inr (first_least i u ring j w above e);
}

lower_bound-IsBound :
    (p k : ℤ) (v : Bytes) (ring rest : Ring)
    → IsSorted ring
    → lower_bound p ring ≡ (k, v) ∷ rest
    → IsBound p k v ring
unfolding lower_bound
lower_bound-IsBound p k v [] rest s e = cc
lower_bound-IsBound p k v ((i, u) ∷ ring) rest (above, s) e = elim (Bool-cases (ltb_ℤ i p)) [
  | inl lt ↦
      IsBound-tail p k i v u ring above (ltb→lt _ _ lt)
        (lower_bound-IsBound p k v ring rest s (rw lt at e))
  | inr ge ↦
      subst (λ (x : ℤ × Bytes). IsBound p x.0 x.1 ((i, u) ∷ ring))
        (cons_head (i, u) (k, v) ring rest (rw ge at e)) (IsBound-here p i u ring above ge)
]

IsBound-IsOwner :
    (p k : ℤ) (v : Bytes) (ring : Ring)
    → IsInt32 p
    → IsPlaced ring
    → IsBound p k v ring
    → IsOwner p ring k v
IsBound-IsOwner p k v ring hp placed b = record {
  present = b.present;
  nearest = λ j w e. omega (
    arith,
    at-IsInt32 k v ring placed b.present,
    at-IsInt32 j w ring placed e,
    b.reached,
    b.least j w e,
  );
}

-- When every entry stands before `p`, the search goes on at the first entry of the ring.
IsOwner-wrapped :
    (p k : ℤ) (v : Bytes) (ring : Ring)
    → IsInt32 p
    → IsRing ((k, v) ∷ ring)
    → lower_bound p ((k, v) ∷ ring) ≡ []
    → IsOwner p ((k, v) ∷ ring) k v
IsOwner-wrapped p k v ring hp h e = record {
  present = at_head k v ring;
  nearest = λ j w found. omega (
    arith,
    at-IsInt32 k v ((k, v) ∷ ring) h.placed (at_head k v ring),
    at-IsInt32 j w ((k, v) ∷ ring) h.placed found,
    first_least k v ring j w h.sorted.0 found,
    lower_bound-nil p j w ((k, v) ∷ ring) e found,
    lower_bound-nil p k v ((k, v) ∷ ring) e (at_head k v ring),
  );
}

IsOwner-of_rest :
    (p : ℤ) (e : ℤ × Bytes) (ring lower : Ring)
    → IsInt32 p
    → IsRing (e ∷ ring)
    → lower_bound p (e ∷ ring) ≡ lower
    → (k : ℤ) × IsOwner p (e ∷ ring) k (value_at (wrapped (e ∷ ring) lower))
IsOwner-of_rest p (k, v) ring [] hp h eq = (k, IsOwner-wrapped p k v ring hp h eq)
IsOwner-of_rest p e ring ((k, v) ∷ rest) hp h eq = (
  k,
  IsBound-IsOwner p k v (e ∷ ring) hp h.placed
      (lower_bound-IsBound p k v (e ∷ ring) rest h.sorted eq),
)

-- On a well-formed ring that is not empty `getNodeForKey` returns the node that is first clockwise
-- from the hash of the key.
pub get_node_for_key-IsOwner :
    (key : Bytes) (ring : Ring)
    → IsRing ring
    → ring ≢ []
    → (k : ℤ) × IsOwner (hash_key key) ring k (get_node_for_key key ring)
unfolding get_node_for_key
get_node_for_key-IsOwner key [] h some_node = absurd (some_node refl)
get_node_for_key-IsOwner key (e ∷ ring) h some_node =
    IsOwner-of_rest (hash_key key) e ring _ (hash_key-IsInt32 key) h refl

-- There is one owner.
pub IsOwner-unique :
    (p : ℤ) (ring : Ring) {j k : ℤ} {v w : Bytes}
    → IsInt32 p
    → IsPlaced ring
    → IsOwner p ring j v
    → IsOwner p ring k w
    → v ≡ w
IsOwner-unique p ring {j} {k} {v} {w} hp placed a b =
    let same =
      clockwise-injective p j k hp (at-IsInt32 j v ring placed a.present)
        (at-IsInt32 k w ring placed b.present)
        (omega (arith, a.nearest k w b.present, b.nearest j v a.present)) in
    cc (a.present, b.present, same)

-- The owner of a key decides which node the key is sent to.
pub get_node_for_key_unique :
    (key : Bytes) (ring : Ring) {k : ℤ} {node : Bytes}
    → IsRing ring
    → IsOwner (hash_key key) ring k node
    → get_node_for_key key ring ≡ node
get_node_for_key_unique key [] h own = unfold at in cc own.present
get_node_for_key_unique key (e ∷ ring) h own =
    let (_, found) = get_node_for_key-IsOwner key (e ∷ ring) h (cc) in
    IsOwner-unique (hash_key key) (e ∷ ring) (hash_key-IsInt32 key) h.placed found own
