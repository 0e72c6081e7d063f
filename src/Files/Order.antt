-- ===== src/Files/Order.antt =====
-- `reconstructFile` and the order in which the chunks arrive.
use mathlib.Core.List.{Perm, mem-cons, mem-cons_self}
use mathlib.Core.List.Perm
use mathlib.Core.Logic.Or
use native.Mathlib.Bridge.{le_prop}
use native.Mathlib.Decide.{ℕ_discrete}
use mathlib.Core.HLevel.{hedberg}
use mathlib.Core.Bool.{Bool-set}
use mathlib.Core.Path.{ap₂}
use distributed_file_storage.Base.{
  subst, ◌↔◌, ℕ, ◌+◌, ◌≤◌, ◌≡◌, ◌≢◌, refl, ap, ◌∙◌, sym, Bool-cases, inl, inr, Bool, true, false,
  Option, none, some, List, [], ◌∷◌, arith, Bytes, All, if◌then◌else◌,
}
use distributed_file_storage.Base.Sorting.{
  sort, sort-perm, sort-IsAscending, IsStrict, IsAscending, All-mem,
}
use distributed_file_storage.Files.{Chunk, by_index, indexes_match, write_chunks, reconstruct_file}

by_index-IsStrict : IsStrict by_index
by_index-IsStrict = record { asym = λ x y h. ground arith; neg_trans = λ x y z h k. ground arith }

Chunk-discrete : Discrete Chunk
Chunk-discrete = hlevel ℕ_discrete

Chunk-set : IsSet Chunk
Chunk-set = hedberg Chunk-discrete

-- Chunks numbered from `i` on without a gap.
abbrev pub Numbered : ℕ → List Chunk → Type 0
Numbered i [] = Unit
Numbered i (c ∷ chunks) = (c.index ≡ i) × Numbered (i + 1) chunks

pub indexes_match-Numbered :
    (i : ℕ) (chunks : List Chunk) → indexes_match i chunks ≡ true → Numbered i chunks
unfolding indexes_match
indexes_match-Numbered i [] h = tt
indexes_match-Numbered i (c ∷ chunks) h = ground (arith, indexes_match-Numbered (i + 1) chunks)

pub Numbered-indexes_match :
    (i : ℕ) (chunks : List Chunk) → Numbered i chunks → indexes_match i chunks ≡ true
unfolding indexes_match
Numbered-indexes_match i [] h = refl
Numbered-indexes_match i (c ∷ chunks) (hc, h) =
    ground (arith, Numbered-indexes_match (i + 1) chunks h)

not_both : (x y : Chunk) → by_index x y ≡ false → x.index + 1 ≤ y.index → ⊥
not_both x y h k = ground arith

Numbered-All :
    (low i : ℕ) (chunks : List Chunk)
    → low ≤ i
    → Numbered i chunks
    → All (λ c. low ≤ c.index) chunks
Numbered-All low i [] le h = tt
Numbered-All low i (c ∷ chunks) le (hc, h) =
    (omega arith, Numbered-All low (i + 1) chunks (omega arith) h)

heads_equal :
    (x y : Chunk) (s t : List Chunk)
    → Numbered (x.index + 1) s
    → All (λ c. by_index c y ≡ false) t
    → Perm (x ∷ s) (y ∷ t)
    → x ≡ y
heads_equal x y s t n below p =
    Or.elim (Chunk-set x y) (mem-cons.0 (Perm.subset p x mem-cons_self)) (λ e. e)
      λ in_t.
        Or.elim (Chunk-set x y) (mem-cons.0 (Perm.subset (Perm.symm p) y mem-cons_self)) sym λ in_s.
          let first = All-mem (λ c. Bool-set (by_index c y) false) x t below in_t in
          let later =
            All-mem (λ c. le_prop) y s (Numbered-All (x.index + 1) (x.index + 1) s (omega arith) n)
              in_s in
          absurd (not_both x y first later)

-- Two ascending lists of the same chunks are one list, if the chunks are numbered without a gap.
Numbered-unique :
    (i : ℕ) (s t : List Chunk) → Numbered i s → IsAscending by_index t → Perm s t → s ≡ t
Numbered-unique i [] t n a p = sym (Perm.eq-nil (Perm.symm p))
Numbered-unique i (x ∷ s) [] n a p = Perm.eq-nil p
Numbered-unique i (x ∷ s) (y ∷ t) (nx, n) (below, a) p =
    let same = heads_equal x y s t (rw nx n) below p in
    ap₂ (λ c l. c ∷ l) same
      (Numbered-unique (i + 1) s t n a
        (Perm.cons_inv (subst (λ c. Perm (x ∷ s) (c ∷ t)) (sym same) p)))

-- A sorted list that passes the test is what any sort of the same chunks gives.
sorted_unique :
    (cs ds : List Chunk)
    → Perm cs ds
    → indexes_match 0 (sort by_index cs) ≡ true
    → sort by_index cs ≡ sort by_index ds
sorted_unique cs ds p ok =
    Numbered-unique 0 _ _ (indexes_match-Numbered 0 _ ok) (sort-IsAscending by_index-IsStrict ds)
      (Perm.trans (sort-perm by_index cs) (Perm.trans p (Perm.symm (sort-perm by_index ds))))

-- The file that is written for the sorted chunks `sorted`.
abbrev output : Bool → List Chunk → Option Bytes
output writable sorted =
    if indexes_match 0 sorted then if writable then some (write_chunks sorted) else none else none

reconstruct_file-output :
    (writable : Bool) (cs : List Chunk)
    → cs ≢ []
    → reconstruct_file writable cs ≡ output writable (sort by_index cs)
unfolding reconstruct_file
reconstruct_file-output writable [] h = absurd (h refl)
reconstruct_file-output writable (c ∷ cs) h = refl

output_perm :
    (writable : Bool) (cs ds : List Chunk)
    → Perm cs ds
    → output writable (sort by_index cs) ≡ output writable (sort by_index ds)
output_perm writable cs ds p = elim (Bool-cases (indexes_match 0 (sort by_index cs))) [
  | inl ok ↦ ap (output writable) (sorted_unique cs ds p ok)
  | inr bad ↦ elim (Bool-cases (indexes_match 0 (sort by_index ds))) [
    | inl ok ↦ ap (output writable) (sym (sorted_unique ds cs (Perm.symm p) ok))
    | inr bad' ↦ rw (bad, bad')
  ]
]

-- The chunks may be handed over in any order: the file that is written, or the refusal, is the same.
pub reconstruct_file-perm :
    (writable : Bool) (cs ds : List Chunk)
    → Perm cs ds
    → reconstruct_file writable cs ≡ reconstruct_file writable ds
reconstruct_file-perm writable [] ds p =
    ap (reconstruct_file writable) (sym (Perm.eq-nil (Perm.symm p)))
reconstruct_file-perm writable (c ∷ cs) [] p = ap (reconstruct_file writable) (Perm.eq-nil p)
reconstruct_file-perm writable (c ∷ cs) (d ∷ ds) p =
    reconstruct_file-output writable (c ∷ cs) (cc)
    ∙ output_perm writable (c ∷ cs) (d ∷ ds) p
    ∙ sym (reconstruct_file-output writable (d ∷ ds) (cc))

output-none :
    (writable : Bool) (sorted : List Chunk) {some_chunk : Type 0}
    → some_chunk
    → (output writable sorted ≢ none) ↔ ((writable ≡ true) × some_chunk × Numbered 0 sorted)
output-none writable sorted given = elim (Bool-cases (indexes_match 0 sorted)) [
  | inl ok ↦ elim (Bool-cases writable) [
    | inl open_file ↦
        rw (ok, open_file) (λ h. (refl, given, indexes_match-Numbered 0 sorted ok), λ h e. cc)
    | inr shut ↦ rw (ok, shut) (λ h. absurd (h refl), λ h. cc)
  ]
  | inr bad ↦ rw bad (λ h. absurd (h refl), λ (_, _, n). cc (Numbered-indexes_match 0 sorted n))
]

-- A file is written exactly when the output can be created, there is a chunk, and sorting numbers
-- the chunks 0, 1, 2 and so on: none is missing and none is there twice.
pub reconstruct_file_written :
    (writable : Bool) (cs : List Chunk)
    → (reconstruct_file writable cs ≢ none)
      ↔ ((writable ≡ true) × (cs ≢ []) × Numbered 0 (sort by_index cs))
reconstruct_file_written writable [] = (
  λ h. absurd (h (unfold reconstruct_file in refl)),
  λ (_, some_chunk, _). absurd (some_chunk refl),
)
reconstruct_file_written writable (c ∷ cs) =
    rw (reconstruct_file-output writable (c ∷ cs) (cc))
      (output-none writable (sort by_index (c ∷ cs)) (cc))

-- Chunks that are numbered from 0 in order are written as they stand.
pub reconstruct_file-Numbered :
    (c : Chunk) (cs : List Chunk)
    → Numbered 0 (c ∷ cs)
    → reconstruct_file true (c ∷ cs) ≡ some (write_chunks (c ∷ cs))
reconstruct_file-Numbered c cs n =
    let same =
      Numbered-unique 0 (c ∷ cs) (sort by_index (c ∷ cs)) n
        (sort-IsAscending by_index-IsStrict (c ∷ cs)) (Perm.symm (sort-perm by_index (c ∷ cs))) in
    reconstruct_file-output true (c ∷ cs) (cc)
    ∙ ap (output true) (sym same)
    ∙ rw (Numbered-indexes_match 0 (c ∷ cs) n)
