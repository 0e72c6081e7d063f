-- ===== src/Base/Assoc.antt =====
-- `std::map` where the program looks keys up, writes them and erases them: an association list. A
-- new key goes to the end, which is the order of the iterator where the keys come in ascending order.
use distributed_file_storage.Base.{
  ◌≡◌, refl, Option, none, some, List, [], ◌∷◌, arith, if◌then◌else◌,
}
use distributed_file_storage.Base.Equality.{Eq, ◌==◌}

abbrev pub Assoc {ℓ κ} : Type ℓ → Type κ → Type (ℓ ⊔ κ)
Assoc K V = List (K × V)

module _ {ℓ κ} {K : Type ℓ} {V : Type κ} ⦃e : Eq K⦄ where
  -- `m.find(key)`
  unfoldable pub lookup : K → Assoc K V → Option V
  lookup key [] = none
  lookup key ((other, value) ∷ entries) = if other == key then some value else lookup key entries

  -- `m[k] = v`
  unfoldable pub insert : K → V → Assoc K V → Assoc K V
  insert key value [] = (key, value) ∷ []
  insert key value ((other, old) ∷ entries) =
      if other == key then (key, value) ∷ entries else (other, old) ∷ insert key value entries

  -- `m.erase(key)`; every entry of the key goes, and a map has at most one.
  unfoldable pub erase : K → Assoc K V → Assoc K V
  erase key [] = []
  erase key ((other, value) ∷ entries) =
      let rest = erase key entries in if other == key then rest else (other, value) ∷ rest

  pub lookup-insert :
      (key other : K) (value : V) (entries : Assoc K V)
      → lookup other (insert key value entries)
        ≡ (if key == other then some value else lookup other entries)
  unfolding lookup insert
  lookup-insert key other value [] = refl
  lookup-insert key other value ((first, old) ∷ entries) = ground (
    arith,
    e.equal_iff key other,
    e.equal_iff first key,
    e.equal_iff first other,
    lookup-insert key other value entries,
  )

  pub lookup-erase :
      (key other : K) (entries : Assoc K V)
      → lookup other (erase key entries) ≡ (if key == other then none else lookup other entries)
  unfolding lookup erase
  lookup-erase key other [] = ground arith
  lookup-erase key other ((first, old) ∷ entries) = ground (
    arith,
    e.equal_iff key other,
    e.equal_iff first key,
    e.equal_iff first other,
    lookup-erase key other entries,
  )

  pub lookup-insert_self :
      (key : K) (value : V) (entries : Assoc K V)
      → lookup key (insert key value entries) ≡ some value
  lookup-insert_self key value entries =
      ground (arith, lookup-insert key key value entries, e.equal_iff key key)
