-- ===== src/Sha256/Schedule.antt =====
-- The message schedule of a block: the array `w` of `sha256_transform`, whatever it holds before.
use distributed_file_storage.Base.{
  ℕ, zero, suc, ◌+◌, ◌-◌, ◌≤◌, ◌<◌, ◌≡◌, refl, sym, ap, ◌∙◌, ltb, lt→ltb, false, List, [], ◌∷◌,
  ◌++◌, Bytes, append_assoc, append-nil, arith, length, length-append, get_or, set, drop,
  length-drop, if◌then◌else◌,
}
use distributed_file_storage.Sha256.Arrays.{set-append}
use distributed_file_storage.Sha256.Block.{u32, big_endian, gam0, gam1, load_words, extend_words}

-- The word behind `words`, of which there are `n`: a word of the block, or the recurrence of the
-- standard.
abbrev pub next_word : ℕ → Bytes → List ℕ → ℕ
next_word n block words =
    if ltb n 16
    then big_endian block n
    else u32 (
        gam1 (get_or words (n - 2) 0)
        + get_or words (n - 7) 0
        + gam0 (get_or words (n - 15) 0)
        + get_or words (n - 16) 0)

-- The first `n` words of the schedule.
abbrev pub schedule : ℕ → Bytes → List ℕ
schedule zero block = []
schedule (suc n) block = let words = schedule n block in words ++ next_word n block words ∷ []

length-schedule : (n : ℕ) (block : Bytes) → length (schedule n block) ≡ n
length-schedule zero block = refl
length-schedule (suc n) block = omega (
  arith,
  length-schedule n block,
  length-append (schedule n block) (next_word n block (schedule n block) ∷ []),
)

get_or-append : (xs ys : List ℕ) (i : ℕ) → i < length xs → get_or (xs ++ ys) i 0 ≡ get_or xs i 0
get_or-append [] ys i h = absurd (omega arith)
get_or-append (x ∷ xs) ys zero h = refl
get_or-append (x ∷ xs) ys (suc i) h = get_or-append xs ys i (omega arith)

-- A round of either loop writes the next word behind the ones before.
write_next :
    (i v : ℕ) (block : Bytes) (y : ℕ) (ys : List ℕ)
    → v ≡ next_word i block (schedule i block)
    → set (schedule i block ++ y ∷ ys) i v ≡ schedule (suc i) block ++ ys
write_next i v block y ys same =
    set-append (schedule i block) y v ys i (sym (length-schedule i block))
    ∙ ap (λ x. schedule i block ++ x ∷ ys) same
    ∙ sym (append_assoc (schedule i block) (next_word i block (schedule i block) ∷ []) ys)

suc_plus : (i r : ℕ) → suc i + r ≡ i + suc r
suc_plus i r = omega arith

plus_zero : (i : ℕ) → i ≡ i + 0
plus_zero i = omega arith

plus_one : (i : ℕ) → i + 1 ≡ suc i
plus_one i = omega arith

load_words-schedule :
    (rounds i : ℕ) (block : Bytes) (rest : List ℕ)
    → i + rounds ≤ 16
    → rounds ≤ length rest
    → load_words rounds i block (schedule i block ++ rest)
      ≡ schedule (i + rounds) block ++ drop rounds rest
unfolding load_words
load_words-schedule zero i block rest h more = ap (λ n. schedule n block ++ rest) (plus_zero i)
load_words-schedule (suc rounds) i block [] h more = absurd (omega arith)
load_words-schedule (suc rounds) i block (y ∷ ys) h more =
    let word : big_endian block i ≡ next_word i block (schedule i block) =
      rw (lt→ltb i 16 (omega arith)) refl in
    ap (load_words rounds (i + 1) block) (write_next i (big_endian block i) block y ys word)
    ∙ ap (λ n. load_words rounds n block (schedule (suc i) block ++ ys)) (plus_one i)
    ∙ load_words-schedule rounds (suc i) block ys (omega arith) (omega arith)
    ∙ ap (λ n. schedule n block ++ drop rounds ys) (suc_plus i rounds)

-- Behind the block, the loop reads words that have been written.
recurrence :
    (i : ℕ) (block : Bytes) (rest : List ℕ)
    → 16 ≤ i
    → let w = schedule i block ++ rest in
      u32 (
        gam1 (get_or w (i - 2) 0)
        + get_or w (i - 7) 0
        + gam0 (get_or w (i - 15) 0)
        + get_or w (i - 16) 0)
      ≡ next_word i block (schedule i block)
recurrence i block rest h =
    let many = length-schedule i block in
    let read : (j : ℕ)
        → j < i
        → get_or (schedule i block ++ rest) j 0 ≡ get_or (schedule i block) j 0 =
      λ j below. get_or-append (schedule i block) rest j (omega (arith, many, below)) in
    rw
      (
        read (i - 2) (omega (arith, h)),
        read (i - 7) (omega (arith, h)),
        read (i - 15) (omega (arith, h)),
        read (i - 16) (omega (arith, h)),
        not_first i h,
      )
      refl
  where
    not_first : (i : ℕ) → 16 ≤ i → ltb i 16 ≡ false
    not_first i h = ground arith

extend_words-schedule :
    (rounds i : ℕ) (block : Bytes) (rest : List ℕ)
    → 16 ≤ i
    → rounds ≤ length rest
    → extend_words rounds i (schedule i block ++ rest)
      ≡ schedule (i + rounds) block ++ drop rounds rest
unfolding extend_words
extend_words-schedule zero i block rest h more = ap (λ n. schedule n block ++ rest) (plus_zero i)
extend_words-schedule (suc rounds) i block [] h more = absurd (omega arith)
extend_words-schedule (suc rounds) i block (y ∷ ys) h more =
    ap (extend_words rounds (i + 1)) (write_next i _ block y ys (recurrence i block (y ∷ ys) h))
    ∙ ap (λ n. extend_words rounds n (schedule (suc i) block ++ ys)) (plus_one i)
    ∙ extend_words-schedule rounds (suc i) block ys (omega arith) (omega arith)
    ∙ ap (λ n. schedule n block ++ drop rounds ys) (suc_plus i rounds)

drop_all : (n : ℕ) (l : List ℕ) → length l ≤ n → drop n l ≡ []
drop_all zero [] h = refl
drop_all zero (x ∷ l) h = absurd (omega arith)
drop_all (suc n) [] h = refl
drop_all (suc n) (x ∷ l) h = drop_all n l (omega arith)

-- Whatever the 64 words of the array `w` are when `sha256_transform` begins, its two loops leave the
-- message schedule of the standard in them: the 16 words of the block, and 48 by the recurrence.
pub extend_words-eq-schedule :
    (block : Bytes) (before : List ℕ)
    → length before ≡ 64
    → extend_words 48 16 (load_words 16 0 block before) ≡ schedule 64 block
extend_words-eq-schedule block before many =
    ap (extend_words 48 16) (load_words-schedule 16 0 block before (omega arith) (omega arith))
    ∙ extend_words-schedule 48 16 block (drop 16 before) (omega arith)
        (omega (arith, length-drop 16 before, many))
    ∙ ap (λ l. schedule 64 block ++ l)
        (drop_all 48 (drop 16 before) (omega (arith, length-drop 16 before, many)))
    ∙ append-nil (schedule 64 block)
