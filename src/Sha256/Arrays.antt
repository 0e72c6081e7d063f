-- ===== src/Sha256/Arrays.antt =====
-- What the loops of `sha256` write into the 64-byte array, as lists.
use distributed_file_storage.Base.{
  ℕ, zero, suc, ◌+◌, ◌/◌, ◌%◌, ◌^◌, ◌≤◌, ◌≡◌, refl, ap, ◌∙◌, [], ◌∷◌, ◌++◌, append_assoc, arith,
  Bytes, length, drop, set, replicate, length-append,
}
use distributed_file_storage.Base.BigEndian.{be_bytes}
use distributed_file_storage.Base.Index.{take-length}
use distributed_file_storage.Sha256.{memcpy, zero_fill, put_length}

pub set-append :
    (xs : Bytes) (y v : ℕ) (ys : Bytes) (i : ℕ)
    → i ≡ length xs
    → set (xs ++ y ∷ ys) i v ≡ xs ++ v ∷ ys
set-append [] y v ys i e = rw e
set-append (x ∷ xs) y v ys i e = rw e (ap (λ l. x ∷ l) (set-append xs y v ys (length xs) refl))

pub drop-append : (xs ys : Bytes) → drop (length xs) (xs ++ ys) ≡ ys
drop-append [] ys = refl
drop-append (x ∷ xs) ys = drop-append xs ys

-- Filling from the end of `xs` on overwrites what is behind it, whatever it is.
pub zero_fill-append :
    (rounds : ℕ) (xs ys : Bytes) (rem : ℕ)
    → rem ≡ length xs
    → rounds ≤ length ys
    → zero_fill rounds rem (xs ++ ys) ≡ xs ++ (replicate rounds 0 ++ drop rounds ys)
unfolding zero_fill
zero_fill-append zero xs ys rem e h = refl
zero_fill-append (suc rounds) xs [] rem e h = absurd (omega arith)
zero_fill-append (suc rounds) xs (y ∷ ys) rem e h =
    rw
      (
        set-append xs y 0 ys rem e,
        ← append_assoc xs (0 ∷ []) ys,
        zero_fill-append rounds (xs ++ 0 ∷ []) ys (rem + 1)
            (omega (arith, length-append xs (0 ∷ []))) (omega arith),
      )
      (append_assoc xs (0 ∷ []) (replicate rounds 0 ++ drop rounds ys))

split_last :
    (j : ℕ) (ys : Bytes)
    → length ys ≡ suc j
    → (us : Bytes) × (y : ℕ) × (ys ≡ us ++ y ∷ []) × (length us ≡ j)
split_last j [] h = absurd (omega arith)
split_last zero (y ∷ []) h = ([], y, refl, refl)
split_last zero (y ∷ z ∷ ys) h = absurd (omega arith)
split_last (suc j) (x ∷ ys) h =
    let (us, y, e, hu) = split_last j ys (omega arith) in (x ∷ us, y, ap (λ l. x ∷ l) e, ap suc hu)

-- Writing the `j`-th of the bytes behind `xs`.
set_behind :
    (j v : ℕ) (xs us : Bytes) (y : ℕ) (zs : Bytes)
    → length xs ≡ 56
    → length us ≡ j
    → set (xs ++ ((us ++ y ∷ []) ++ zs)) (56 + j) v ≡ xs ++ (us ++ v ∷ zs)
set_behind j v xs us y zs hx hu =
    rw (append_assoc us (y ∷ []) zs, ← append_assoc xs us (y ∷ zs))
      (set-append (xs ++ us) y v zs (56 + j) (omega (arith, length-append xs us))
        ∙ append_assoc xs us (v ∷ zs))

-- The last loop writes the length behind the first 56 bytes.
pub put_length-append :
    (j bits : ℕ) (xs ys zs : Bytes)
    → length xs ≡ 56
    → length ys ≡ j
    → put_length j bits (xs ++ (ys ++ zs)) ≡ xs ++ (be_bytes j bits ++ zs)
unfolding put_length be_bytes
put_length-append zero bits xs [] zs hx hy = refl
put_length-append zero bits xs (y ∷ ys) zs hx hy = absurd (omega arith)
put_length-append (suc j) bits xs ys zs hx hy =
    let (us, y, e, hu) = split_last j ys hy in
    rw (
      e,
      set_behind j (bits % 2 ^ 8) xs us y zs hx hu,
      put_length-append j (bits / 2 ^ 8) xs us ((bits % 2 ^ 8) ∷ zs) hx hu,
      append_assoc (be_bytes j (bits / 2 ^ 8)) ((bits % 2 ^ 8) ∷ []) zs,
    )

-- `n` bytes of a source of which there are exactly `n`.
pub memcpy_all :
    (block source : Bytes) (n : ℕ)
    → length source ≡ n
    → memcpy block source n ≡ source ++ drop n block
unfolding memcpy
memcpy_all block source n e = rw (take-length n source (omega arith))
