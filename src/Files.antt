-- ===== src/Files.antt =====
-- common/chunk.hpp, common/file_utils.hpp and common/file_utils.cpp: a file as a list of chunks.
-- A file is the list of its bytes, and `none` where it cannot be opened. Indexes and sizes are `int`
-- in the source and stay far below 2 ^ 31 for any file below 2 ^ 51 bytes.
pub mod Split
pub mod Order
pub mod RoundTrip
use distributed_file_storage.Base.{
  ℕ, zero, suc, ◌+◌, Bool, true, false, Option, none, some, List, [], ◌∷◌, ◌++◌, Bytes, ltb,
  if◌then◌else◌, length, take, drop,
}
use distributed_file_storage.Base.Tests.{◌==◌}
use distributed_file_storage.Base.Sorting.{sort}

pub record Chunk : Type 0 where
  pub index : ℕ
  pub hash : Bytes
  pub contents : Bytes
  pub size : ℕ

abbrev pub chunk_size : ℕ
chunk_size = 1048576

-- What one round pushes: the bytes read, `gcount()` of them; the hash is still empty.
abbrev pub fresh_chunk : ℕ → Bytes → Chunk
fresh_chunk index bytes = record { index = index; hash = []; contents = bytes; size = length bytes }

-- The `while` loop over a file of which `file` is still unread, reading `n` bytes a round.
unfoldable pub read_loop : ℕ → ℕ → Bytes → ℕ → List Chunk
read_loop zero n file index = []
read_loop (suc fuel) n file index =
    let bytes = take n file in
    let rest = read_loop fuel n (drop n file) (index + 1) in
    if length bytes == 0 then [] else fresh_chunk index bytes ∷ rest

-- Each round but the last reads a byte, so the length of the file is fuel enough.
unfoldable pub split_file_into_chunks : Option Bytes → List Chunk
unfolding read_loop
split_file_into_chunks none = []
split_file_into_chunks (some file) = read_loop (suc (length file)) chunk_size file 0

abbrev pub by_index : Chunk → Chunk → Bool
by_index a b = ltb a.index b.index

-- `sortedChunks[i].index != i` for no `i`.
unfoldable pub indexes_match : ℕ → List Chunk → Bool
indexes_match i [] = true
indexes_match i (c ∷ chunks) = if c.index == i then indexes_match (i + 1) chunks else false

unfoldable pub write_chunks : List Chunk → Bytes
write_chunks [] = []
write_chunks (c ∷ chunks) = take c.size c.contents ++ write_chunks chunks

-- The bytes of the output file, or `none` where the source returns false. `writable` says whether
-- the output file can be created.
unfoldable pub reconstruct_file : Bool → List Chunk → Option Bytes
unfolding sort indexes_match write_chunks
reconstruct_file writable [] = none
reconstruct_file writable (c ∷ chunks) =
    let sorted = sort by_index (c ∷ chunks) in
    if indexes_match 0 sorted then if writable then some (write_chunks sorted) else none else none
