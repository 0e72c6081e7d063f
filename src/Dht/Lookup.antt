-- ===== src/Dht/Lookup.antt =====
-- The invariant of the ring: the keys ascend, and each node stands at its own hash. With it the
-- list behaves as the `std::map` that it models.
use distributed_file_storage.Base.{◌≡◌, refl, none, some, [], ◌∷◌, arith, if◌then◌else◌, Bytes, All}
use distributed_file_storage.Base.Int.{ℤ, ◌<ℤ◌, eqb_ℤ, eq_of_parts}
use distributed_file_storage.Dht.Hash.{hash_key}
use distributed_file_storage.Dht.Ring.{Ring, insert, erase, at, add_node, remove_node}

abbrev pub Above : ℤ → Ring → Type 0
Above k = All (λ entry. k <ℤ entry.0)

abbrev pub IsSorted : Ring → Type 0
IsSorted [] = Unit
IsSorted ((k, _) ∷ ring) = Above k ring × IsSorted ring

abbrev pub IsPlaced : Ring → Type 0
IsPlaced = All (λ entry. entry.0 ≡ hash_key entry.1)

pub record IsRing (ring : Ring) : Type 0 where
  pub sorted : IsSorted ring
  pub placed : IsPlaced ring

Above-trans : (j k : ℤ) (ring : Ring) → j <ℤ k → Above k ring → Above j ring
Above-trans j k [] lt h = tt
Above-trans j k (e ∷ ring) lt (he, h) = (omega arith, Above-trans j k ring lt h)

insert-Above :
    (j k : ℤ) (v : Bytes) (ring : Ring) → j <ℤ k → Above j ring → Above j (insert k v ring)
unfolding insert
insert-Above j k v [] lt h = (lt, tt)
insert-Above j k v ((i, w) ∷ ring) lt (hi, h) = ground (arith, insert-Above j k v ring lt h)

pub insert-IsSorted : (k : ℤ) (v : Bytes) (ring : Ring) → IsSorted ring → IsSorted (insert k v ring)
unfolding insert
insert-IsSorted k v [] h = (tt, tt)
insert-IsSorted k v ((j, w) ∷ ring) (above, h) = ground (
  arith,
  insert-IsSorted k v ring h,
  insert-Above j k v ring,
  Above-trans k j ring,
  eq_of_parts j k,
)

insert-IsPlaced : (v : Bytes) (ring : Ring) → IsPlaced ring → IsPlaced (insert (hash_key v) v ring)
unfolding insert
insert-IsPlaced v [] h = (refl, tt)
insert-IsPlaced v ((j, w) ∷ ring) (hj, h) = ground (arith, insert-IsPlaced v ring h)

erase-Above : (j k : ℤ) (ring : Ring) → Above j ring → Above j (erase k ring)
unfolding erase
erase-Above j k [] h = tt
erase-Above j k ((i, w) ∷ ring) (hi, h) = ground (arith, erase-Above j k ring h)

erase-IsSorted : (k : ℤ) (ring : Ring) → IsSorted ring → IsSorted (erase k ring)
unfolding erase
erase-IsSorted k [] h = tt
erase-IsSorted k ((j, w) ∷ ring) (above, h) =
    ground (arith, erase-IsSorted k ring h, erase-Above j k ring above)

erase-IsPlaced : (k : ℤ) (ring : Ring) → IsPlaced ring → IsPlaced (erase k ring)
unfolding erase
erase-IsPlaced k [] h = tt
erase-IsPlaced k ((j, w) ∷ ring) (hj, h) = ground (arith, erase-IsPlaced k ring h)

-- Adding a node keeps the keys ascending and each node at its own hash.
pub add_node-IsRing : (address : Bytes) (ring : Ring) → IsRing ring → IsRing (add_node address ring)
unfolding add_node
add_node-IsRing address ring h = record {
  sorted = insert-IsSorted (hash_key address) address ring h.sorted;
  placed = insert-IsPlaced address ring h.placed;
}

-- Removing a node keeps the keys ascending and each node at its own hash.
pub remove_node-IsRing :
    (address : Bytes) (ring : Ring) → IsRing ring → IsRing (remove_node address ring)
unfolding remove_node
remove_node-IsRing address ring h = record {
  sorted = erase-IsSorted (hash_key address) ring h.sorted;
  placed = erase-IsPlaced (hash_key address) ring h.placed;
}

-- A key below every entry is absent.
pub at-Above : (k : ℤ) (ring : Ring) → Above k ring → at k ring ≡ none
unfolding at
at-Above k [] h = refl
at-Above k ((j, w) ∷ ring) (hj, h) = ground (arith, at-Above k ring h)

pub at-insert :
    (j k : ℤ) (v : Bytes) (ring : Ring)
    → at j (insert k v ring) ≡ (if eqb_ℤ k j then some v else at j ring)
unfolding at insert
at-insert j k v [] = refl
at-insert j k v ((i, w) ∷ ring) = ground (arith, at-insert j k v ring)

pub at-erase :
    (j k : ℤ) (ring : Ring)
    → IsSorted ring
    → at j (erase k ring) ≡ (if eqb_ℤ k j then none else at j ring)
unfolding at erase
at-erase j k [] h = ground arith
at-erase j k ((i, w) ∷ ring) (above, h) =
    ground (arith, at-erase j k ring h, at-Above i ring above, eq_of_parts i j, eq_of_parts i k)

-- What stands at a position has that position as its hash.
pub at-IsPlaced :
    (k : ℤ) (node : Bytes) (ring : Ring) → IsPlaced ring → at k ring ≡ some node → k ≡ hash_key node
unfolding at
at-IsPlaced k node [] h e = cc
at-IsPlaced k node ((j, w) ∷ ring) (hj, h) e =
    ground (arith, at-IsPlaced k node ring h, eq_of_parts j k)
