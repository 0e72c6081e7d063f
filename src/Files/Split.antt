-- ===== src/Files/Split.antt =====
-- The chunks of a file: their sizes, their indexes, and that they spell the file.
use distributed_file_storage.Base.{
  ltb, ℕ, zero, suc, ◌+◌, ◌≤◌, ◌<◌, ◌≡◌, ◌≢◌, refl, sym, Bool-cases, inl, inr, true, false, Option,
  none, some, List, [], ◌∷◌, arith, Bytes, length, take, drop, length-take, length-drop,
  take-append-drop,
}
use distributed_file_storage.Base.Tests.{◌==◌}
use distributed_file_storage.Base.Index.{take-length, drop-length}
use distributed_file_storage.Files.{
  Chunk, chunk_size, read_loop, split_file_into_chunks, write_chunks,
}

-- Chunks of at most `n` bytes each, numbered from `i`, of which only the last may be short.
abbrev pub AreChunks : ℕ → ℕ → List Chunk → Type 0
AreChunks n i [] = Unit
AreChunks n i (c ∷ chunks) =
    (c.index ≡ i)
    × (c.size ≡ length c.contents)
    × (0 < c.size)
    × (c.size ≤ n)
    × (chunks ≢ [] → c.size ≡ n)
    × AreChunks n (i + 1) chunks

read_loop-nil : (fuel n i : ℕ) → read_loop fuel n [] i ≡ []
unfolding read_loop
read_loop-nil zero n i = refl
read_loop-nil (suc fuel) zero i = refl
read_loop-nil (suc fuel) (suc n) i = refl

-- If a round leaves something to read, it was a full one.
full_round :
    (fuel n : ℕ) (file : Bytes) (i : ℕ)
    → read_loop fuel n (drop n file) i ≢ []
    → length (take n file) ≡ n
full_round fuel n file i more = elim (Bool-cases (ltb n (length file))) [
  | inl long ↦ ground (arith, length-take n file)
  | inr short ↦ absurd (more (rw (drop-length n file (ground arith)) (read_loop-nil fuel n i)))
]

read_loop-AreChunks : (fuel n : ℕ) (file : Bytes) (i : ℕ) → AreChunks n i (read_loop fuel n file i)
unfolding read_loop
read_loop-AreChunks zero n file i = tt
read_loop-AreChunks (suc fuel) n file i = elim (Bool-cases (length (take n file) == 0)) [
  | inl done ↦ rw done tt
  | inr more ↦ rw more (
    refl,
    refl,
    ground arith,
    omega (arith, length-take n file),
    full_round fuel n file (i + 1),
    read_loop-AreChunks fuel n (drop n file) (i + 1),
  )
]

nothing_read : (n : ℕ) (file : Bytes) → 0 < n → (length (take n file) == 0) ≡ true → file ≡ []
nothing_read n [] hn h = refl
nothing_read n (b ∷ file) hn h = absurd (ground (arith, length-take n (b ∷ file)))

shrinks :
    (n : ℕ) (file : Bytes) (fuel : ℕ)
    → (length (take n file) == 0) ≡ false
    → length file ≤ suc fuel
    → length (drop n file) ≤ fuel
shrinks n file fuel more h = ground (arith, length-take n file, length-drop n file)

write_round :
    (fuel n : ℕ) (file : Bytes) (i : ℕ)
    → 0 < n
    → ((length (take n file) == 0) ≡ false
        → write_chunks (read_loop fuel n (drop n file) (i + 1)) ≡ drop n file)
    → write_chunks (read_loop (suc fuel) n file i) ≡ file
unfolding read_loop write_chunks
write_round fuel n file i hn rest = elim (Bool-cases (length (take n file) == 0)) [
  | inl done ↦ rw done (sym (nothing_read n file hn done))
  | inr more ↦
      rw (more, rest more, take-length (length (take n file)) (take n file) (omega arith))
        (take-append-drop n file)
]

-- Writing the chunks that a read makes gives the file back.
pub write_chunks-read_loop :
    (fuel n : ℕ) (file : Bytes) (i : ℕ)
    → 0 < n
    → length file ≤ fuel
    → write_chunks (read_loop fuel n file i) ≡ file
write_chunks-read_loop zero n [] i hn h = unfold read_loop write_chunks in refl
write_chunks-read_loop zero n (b ∷ file) i hn h = absurd (omega arith)
write_chunks-read_loop (suc fuel) n file i hn h =
    write_round fuel n file i hn
      λ more. write_chunks-read_loop fuel n (drop n file) (i + 1) hn (shrinks n file fuel more h)

-- Every chunk of a split holds between one byte and the chunk size, all but the last hold exactly
-- that many, and the indexes count up from 0.
pub split_file_into_chunks-AreChunks :
    (file : Option Bytes) → AreChunks chunk_size 0 (split_file_into_chunks file)
unfolding split_file_into_chunks
split_file_into_chunks-AreChunks none = tt
split_file_into_chunks-AreChunks (some file) =
    read_loop-AreChunks (suc (length file)) chunk_size file 0
