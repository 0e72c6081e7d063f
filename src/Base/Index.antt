-- ===== src/Base/Index.antt =====
-- Where an index leads in a part of a list, and in a list that starts over at its end.
use Prim.Native.Nat.add
use native.Mathlib.Nat.{zero-add}
use distributed_file_storage.Base.{
  ℕ, zero, suc, ◌+◌, ◌-◌, ◌%◌, ◌≤◌, ◌<◌, ◌≡◌, refl, sym, ◌∙◌, ap, Bool-cases, ltb, inl, inr, some,
  List, [], ◌∷◌, ◌++◌, arith, length, get_elem?, take, drop, replicate, take-nil, length-drop,
  length-take, length-append,
}

wrap_below : (s i n : ℕ) → s + i < n → (s + i) % n ≡ s + i
wrap_below s i n h = grind arith

wrap_above : (s i n : ℕ) → s < n → i < n → n ≤ s + i → (s + i) % n ≡ s + i - n
wrap_above s i n hs hi h = grind arith

module _ {ℓ} {A : Type ℓ} where
  pub get_elem?-append_left :
      (xs ys : List A) (i : ℕ) → i < length xs → get_elem? (xs ++ ys) i ≡ get_elem? xs i
  get_elem?-append_left [] ys i h = absurd (omega arith)
  get_elem?-append_left (x ∷ xs) ys zero h = refl
  get_elem?-append_left (x ∷ xs) ys (suc i) h = get_elem?-append_left xs ys i (omega arith)

  pub get_elem?-append_right :
      (xs ys : List A) (i : ℕ) → get_elem? (xs ++ ys) (length xs + i) ≡ get_elem? ys i
  get_elem?-append_right [] ys i = ap (get_elem? ys) (omega arith)
  get_elem?-append_right (x ∷ xs) ys i =
      ap (get_elem? (x ∷ (xs ++ ys))) (add.suc (length xs) i) ∙ get_elem?-append_right xs ys i

  pub get_elem?-drop :
      (s : ℕ) (xs : List A) (i : ℕ) → get_elem? (drop s xs) i ≡ get_elem? xs (s + i)
  get_elem?-drop zero xs i = ap (get_elem? xs) (omega arith)
  get_elem?-drop (suc s) [] i = refl
  get_elem?-drop (suc s) (x ∷ xs) i =
      get_elem?-drop s xs i ∙ ap (get_elem? (x ∷ xs)) (sym (add.suc s i))

  pub get_elem?-take :
      (s : ℕ) (xs : List A) (i : ℕ) → i < s → get_elem? (take s xs) i ≡ get_elem? xs i
  get_elem?-take zero xs i h = absurd (omega arith)
  get_elem?-take (suc s) [] i h = refl
  get_elem?-take (suc s) (x ∷ xs) zero h = refl
  get_elem?-take (suc s) (x ∷ xs) (suc i) h = get_elem?-take s xs i (omega arith)

  -- An index inside a list has an element, and the rest of the list starts with it.
  pub drop-get_elem? :
      (xs : List A) (i : ℕ)
      → i < length xs
      → (x : A) × (get_elem? xs i ≡ some x) × (drop i xs ≡ x ∷ drop (suc i) xs)
  drop-get_elem? [] i h = absurd (omega arith)
  drop-get_elem? (x ∷ xs) zero h = (x, refl, refl)
  drop-get_elem? (x ∷ xs) (suc i) h = drop-get_elem? xs i (omega arith)

  pub drop-length : (n : ℕ) (xs : List A) → length xs ≤ n → drop n xs ≡ []
  drop-length zero [] h = refl
  drop-length zero (x ∷ xs) h = absurd (omega arith)
  drop-length (suc n) [] h = refl
  drop-length (suc n) (x ∷ xs) h = drop-length n xs (omega arith)

  pub take-length : (n : ℕ) (xs : List A) → length xs ≤ n → take n xs ≡ xs
  take-length zero [] h = refl
  take-length zero (x ∷ xs) h = absurd (omega arith)
  take-length (suc n) [] h = refl
  take-length (suc n) (x ∷ xs) h = ap (λ l. x ∷ l) (take-length n xs (omega arith))

  -- The list that starts at index `s` and goes on from the front.
  abbrev pub rotate : ℕ → List A → List A
  rotate s xs = drop s xs ++ take s xs

  pub length-rotate : (s : ℕ) (xs : List A) → length (rotate s xs) ≡ length xs
  length-rotate s xs =
      omega (arith, length-append (drop s xs) (take s xs), length-drop s xs, length-take s xs)

  pub get_elem?-rotate :
      (s : ℕ) (xs : List A) (i : ℕ)
      → s < length xs
      → i < length xs
      → get_elem? (rotate s xs) i ≡ get_elem? xs ((s + i) % length xs)
  get_elem?-rotate s xs i hs hi = elim (Bool-cases (ltb (s + i) (length xs))) [
    | inl below ↦
        get_elem?-append_left (drop s xs) (take s xs) i (ground (arith, length-drop s xs))
        ∙ get_elem?-drop s xs i
        ∙ ap (get_elem? xs) (sym (wrap_below s i (length xs) (ground arith)))
    | inr above ↦
        let j = s + i - length xs in
        ap (get_elem? (rotate s xs)) (ground (arith, length-drop s xs))
        ∙ get_elem?-append_right (drop s xs) (take s xs) j
        ∙ get_elem?-take s xs j (ground arith)
        ∙ ap (get_elem? xs) (sym (wrap_above s i (length xs) hs hi (ground arith)))
  ]

module _ {ℓ} {A : Type ℓ} where
  pub drop-drop : (m n : ℕ) (xs : List A) → drop m (drop n xs) ≡ drop (n + m) xs
  drop-drop m zero xs = ap (λ k. drop k xs) (sym (zero-add m))
  drop-drop m (suc n) [] = drop_nil m ∙ ap (λ k. drop k []) (sym (add.suc n m))
    where
      drop_nil : (k : ℕ) → drop {A = A} k [] ≡ []
      drop_nil zero = refl
      drop_nil (suc k) = refl
  drop-drop m (suc n) (x ∷ xs) = drop-drop m n xs ∙ ap (λ k. drop k (x ∷ xs)) (sym (add.suc n m))

  pub take-append_left : (n : ℕ) (xs ys : List A) → n ≤ length xs → take n (xs ++ ys) ≡ take n xs
  take-append_left zero xs ys h = refl
  take-append_left (suc n) [] ys h = absurd (omega arith)
  take-append_left (suc n) (x ∷ xs) ys h = ap (λ l. x ∷ l) (take-append_left n xs ys (omega arith))

  pub drop-append_left :
      (n : ℕ) (xs ys : List A) → n ≤ length xs → drop n (xs ++ ys) ≡ drop n xs ++ ys
  drop-append_left zero xs ys h = refl
  drop-append_left (suc n) [] ys h = absurd (omega arith)
  drop-append_left (suc n) (x ∷ xs) ys h = drop-append_left n xs ys (omega arith)

  pub replicate-add : (m n : ℕ) (a : A) → replicate (m + n) a ≡ replicate m a ++ replicate n a
  replicate-add zero n a = ap (λ k. replicate k a) (zero-add n)
  replicate-add (suc m) n a =
      ap (λ k. replicate k a) (add.suc m n) ∙ ap (λ l. a ∷ l) (replicate-add m n a)

  pub take-add : (m n : ℕ) (xs : List A) → take (m + n) xs ≡ take m xs ++ take n (drop m xs)
  take-add zero n xs = ap (λ k. take k xs) (zero-add n)
  take-add (suc m) n [] = ap (λ k. take k []) (add.suc m n) ∙ sym (take-nil n)
  take-add (suc m) n (x ∷ xs) =
      ap (λ k. take k (x ∷ xs)) (add.suc m n) ∙ ap (λ l. x ∷ l) (take-add m n xs)
