-- ===== src/Base/Sorting.antt =====
-- `std::sort` with a comparison. The order of elements that the comparison does not tell apart is
-- open in C++; this is one of the permitted results.
use mathlib.Core.List.{Mem, Perm, mem-cons, not-mem-nil}
use mathlib.Core.List.Perm
use mathlib.Core.Logic.Or
use distributed_file_storage.Base.{
  ◌≡◌, Bool, true, false, Bool-cases, inl, inr, List, [], ◌∷◌, All, arith, if◌then◌else◌,
}

module _ {ℓ} {A : Type ℓ} (lt : A → A → Bool) where
  unfoldable pub place : A → List A → List A
  place x [] = x ∷ []
  place x (y ∷ ys) = if lt y x then y ∷ place x ys else x ∷ y ∷ ys

  unfoldable pub sort : List A → List A
  unfolding place
  sort [] = []
  sort (x ∷ xs) = place x (sort xs)

  abbrev pub IsAscending : List A → Type ℓ
  IsAscending [] = Unit
  IsAscending (x ∷ xs) = All (λ y. lt y x ≡ false) xs × IsAscending xs

  place-perm : (x : A) (l : List A) → Perm (place x l) (x ∷ l)
  unfolding place
  place-perm x [] = Perm.refl (x ∷ [])
  place-perm x (y ∷ ys) = elim (Bool-cases (lt y x)) [
    | inl before ↦ rw before (Perm.trans (Perm.cons y (place-perm x ys)) (Perm.swap x y ys))
    | inr after ↦ rw after (Perm.refl (x ∷ y ∷ ys))
  ]

  pub sort-perm : (l : List A) → Perm (sort l) l
  unfolding sort
  sort-perm [] = Perm.refl []
  sort-perm (x ∷ xs) = Perm.trans (place-perm x (sort xs)) (Perm.cons x (sort-perm xs))

-- A strict weak order, as `std::sort` asks for.
pub record IsStrict {ℓ} {A : Type ℓ} (lt : A → A → Bool) : Type ℓ where
  pub asym : (x y : A) → lt x y ≡ true → lt y x ≡ false
  pub neg_trans : (x y z : A) → lt y x ≡ false → lt z y ≡ false → lt z x ≡ false

module _ {ℓ} {A : Type ℓ} {lt : A → A → Bool} (o : IsStrict lt) where
  All-trans :
      (x y : A) (l : List A)
      → lt y x ≡ false
      → All (λ z. lt z y ≡ false) l
      → All (λ z. lt z x ≡ false) l
  All-trans x y [] h _ = tt
  All-trans x y (z ∷ l) h (hz, hl) = (o.neg_trans x y z h hz, All-trans x y l h hl)

  place-All :
      (x y : A) (l : List A)
      → lt x y ≡ false
      → All (λ z. lt z y ≡ false) l
      → All (λ z. lt z y ≡ false) (place lt x l)
  unfolding place
  place-All x y [] h _ = (h, tt)
  place-All x y (z ∷ l) h (hz, hl) = ground (arith, place-All x y l h hl)

  place-IsAscending : (x : A) (l : List A) → IsAscending lt l → IsAscending lt (place lt x l)
  unfolding place
  place-IsAscending x [] h = (tt, tt)
  place-IsAscending x (y ∷ l) (above, h) = elim (Bool-cases (lt y x)) [
    | inl before ↦ rw before (place-All x y l (o.asym y x before) above, place-IsAscending x l h)
    | inr after ↦ rw after ((after, All-trans x y l after above), (above, h))
  ]

  pub sort-IsAscending : (l : List A) → IsAscending lt (sort lt l)
  unfolding sort
  sort-IsAscending [] = tt
  sort-IsAscending (x ∷ xs) = place-IsAscending x (sort lt xs) (sort-IsAscending xs)

-- What a predicate holds of all members, it holds of each.
pub All-mem {ℓ κ} :
    {A : Type ℓ} {P : A → Type κ} (prop : (a : A) → IsProp (P a)) (x : A) (l : List A)
    → All P l
    → Mem x l
    → P x
All-mem prop x [] h m = absurd (not-mem-nil m)
All-mem {P} prop x (y ∷ l) (hy, h) m =
    Or.elim (prop x) (mem-cons.0 m) (λ e. rw e hy) (All-mem prop x l h)
