-- ===== src/Streams/Numbers.antt =====
-- Reading a number that was written.
use distributed_file_storage.Base.{
  ℕ, zero, suc, ◌+◌, ◌-◌, ◌*◌, ◌/◌, ◌%◌, ◌^◌, ◌<◌, ◌≤◌, ◌≡◌, refl, sym, ap, ◌∙◌, Bool, true, false,
  some, [], ◌∷◌, ◌++◌, append-nil, arith, Bytes, All, All-append, ltb, lt→ltb, Bool-cases, inl, inr,
  subst,
}
use distributed_file_storage.Base.Int.{ℤ, pos, negsuc, pos_part, neg_part}
use distributed_file_storage.Streams.{
  is_digit, skip_spaces, span, decimal_value, read_digits, read_int, digits_of, to_string,
}
use distributed_file_storage.Streams.Words.{span-append, span-All, skip_spaces-letter}

pub digits_of-All : (fuel n : ℕ) → All (λ c. is_digit c ≡ true) (digits_of fuel n)
unfolding digits_of
digits_of-All zero n = tt
digits_of-All (suc fuel) n = elim (Bool-cases (ltb n 10)) [
  | inl small ↦ rw small (ground arith, tt)
  | inr large ↦ rw large (
      All-append (λ c. is_digit c ≡ true) (digits_of fuel (n / 10)) ((b'0' + n % 10) ∷ [])
        (digits_of-All fuel (n / 10)) (ground arith, tt))
]

decimal_value-append :
    (n : ℕ) (s : Bytes) (c : ℕ)
    → decimal_value n (s ++ c ∷ []) ≡ 10 * decimal_value n s + (c - b'0')
unfolding decimal_value
decimal_value-append n [] c = refl
decimal_value-append n (d ∷ s) c = decimal_value-append (10 * n + (d - b'0')) s c

decimal_value-digits_of : (fuel n : ℕ) → n < fuel → decimal_value 0 (digits_of fuel n) ≡ n
unfolding digits_of
decimal_value-digits_of zero n h = absurd (omega arith)
decimal_value-digits_of (suc fuel) n h = elim (Bool-cases (ltb n 10)) [
  | inl small ↦ rw small (unfold decimal_value in omega arith)
  | inr large ↦
      rw
        (
          large,
          decimal_value-append 0 (digits_of fuel (n / 10)) (b'0' + n % 10),
          decimal_value-digits_of fuel (n / 10) (ground arith),
        )
        (omega arith)
]

pub digits_of-cons : (fuel n : ℕ) → (c : ℕ) × (s : Bytes) × (digits_of (suc fuel) n ≡ c ∷ s)
unfolding digits_of
digits_of-cons zero n = elim (Bool-cases (ltb n 10)) [
  | inl small ↦ (b'0' + n, [], rw small refl)
  | inr large ↦ (b'0' + n % 10, [], rw large refl)
]
digits_of-cons (suc fuel) n = elim (Bool-cases (ltb n 10)) [
  | inl small ↦ (b'0' + n, [], rw small refl)
  | inr large ↦
      let (c, s, e) = digits_of-cons fuel (n / 10) in
      (c, s ++ (b'0' + n % 10) ∷ [], rw (large, e) refl)
]

-- What is not a digit ends a number.
abbrev pub IsEnd : Bytes → Type 0
IsEnd [] = Unit
IsEnd (c ∷ s) = is_digit c ≡ false

span-digits :
    (w s : Bytes) → All (λ c. is_digit c ≡ true) w → IsEnd s → span is_digit (w ++ s) ≡ (w, s)
span-digits w [] h stop = rw (append-nil w) (span-All is_digit w h)
span-digits w (c ∷ s) h stop = span-append is_digit w c s h stop

-- A digit is neither a sign nor white space.
read_int-digit :
    (width c : ℕ) (s : Bytes)
    → is_digit c ≡ true
    → read_int width (c ∷ s) ≡ read_digits width false (span is_digit (c ∷ s))
unfolding read_int
read_int-digit width c s h = rw (skip_spaces-letter c s (ground arith)) (ground arith)

read_int-minus :
    (width : ℕ) (s : Bytes) → read_int width (b'-' ∷ s) ≡ read_digits width true (span is_digit s)
unfolding read_int skip_spaces
read_int-minus width s = refl

pub read_int-space : (width : ℕ) (s : Bytes) → read_int width (b' ' ∷ s) ≡ read_int width s
unfolding read_int
read_int-space width s = refl

read_digits-pos :
    (width n c : ℕ) (digits s : Bytes)
    → decimal_value 0 (c ∷ digits) ≡ n
    → n < 2 ^ (width - 1)
    → read_digits width false (c ∷ digits, s) ≡ some (pos n, s)
unfolding read_digits
read_digits-pos width n c digits s e h = rw e (rw (lt→ltb n (2 ^ (width - 1)) h) refl)

read_digits-negsuc :
    (width n c : ℕ) (digits s : Bytes)
    → decimal_value 0 (c ∷ digits) ≡ suc n
    → suc n ≤ 2 ^ (width - 1)
    → read_digits width true (c ∷ digits, s) ≡ some (negsuc n, s)
unfolding read_digits
read_digits-negsuc width n c digits s e h = rw e (ground arith)

read_digits-digits_of :
    (width fuel n : ℕ) (negative : Bool) (s : Bytes) (z : ℤ)
    → IsEnd s
    → ((c : ℕ) (digits : Bytes)
        → decimal_value 0 (c ∷ digits) ≡ n
        → read_digits width negative (c ∷ digits, s) ≡ some (z, s))
    → n < suc fuel
    → read_digits width negative (span is_digit (digits_of (suc fuel) n ++ s)) ≡ some (z, s)
read_digits-digits_of width fuel n negative s z stop read h =
    let (c, digits, e) = digits_of-cons fuel n in
    ap (read_digits width negative)
      (span-digits (digits_of (suc fuel) n) s (digits_of-All (suc fuel) n) stop)
    ∙ rw e (read c digits (sym (ap (decimal_value 0) e) ∙ decimal_value-digits_of (suc fuel) n h))

-- What `to_string` writes does begin with a digit.
read_int-digits_of :
    (width fuel n : ℕ) (s : Bytes)
    → read_int width (digits_of (suc fuel) n ++ s)
      ≡ read_digits width false (span is_digit (digits_of (suc fuel) n ++ s))
read_int-digits_of width fuel n s =
    let (c, digits, e) = digits_of-cons fuel n in
    let first : is_digit c ≡ true =
      (subst (All (λ x. is_digit x ≡ true)) e (digits_of-All (suc fuel) n)).0 in
    rw e (read_int-digit width c (digits ++ s) first)

-- The integers of `width` bits with a sign.
abbrev pub Fits : ℕ → ℤ → Type 0
Fits width z = (pos_part z < 2 ^ (width - 1)) × (neg_part z ≤ 2 ^ (width - 1))

-- A number that `to_string` has written is read back by `>>`, if it fits the type read into and no
-- digit follows.
pub read_int-to_string :
    (width : ℕ) (z : ℤ) (s : Bytes)
    → Fits width z
    → IsEnd s
    → read_int width (to_string z ++ s) ≡ some (z, s)
unfolding to_string
read_int-to_string width (pos n) s (fits, _) stop =
    read_int-digits_of width n n s
    ∙ read_digits-digits_of width n n false s (pos n) stop
        (λ c digits e. read_digits-pos width n c digits s e fits) (omega arith)
read_int-to_string width (negsuc n) s (_, fits) stop =
    read_int-minus width (digits_of (suc (suc n)) (suc n) ++ s)
    ∙ read_digits-digits_of width (suc n) (suc n) true s (negsuc n) stop
        (λ c digits e. read_digits-negsuc width n c digits s e fits) (omega arith)
