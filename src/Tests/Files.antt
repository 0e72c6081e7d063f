-- ===== src/Tests/Files.antt =====
-- Files of one chunk, and chunks that come in the wrong order.
use mathlib.Core.List.Perm
use distributed_file_storage.Base.{◌≡◌, ◌≢◌, refl, true, some, [], ◌∷◌, codes}
use distributed_file_storage.Files.{Chunk, chunk_size, split_file_into_chunks, reconstruct_file}
use distributed_file_storage.Files.Split.{AreChunks, split_file_into_chunks-AreChunks}
use distributed_file_storage.Files.Order.{reconstruct_file-perm}
use distributed_file_storage.Files.RoundTrip.{reconstruct_file-split}

abbrev first_chunk : Chunk
first_chunk = record { index = 0; hash = []; contents = codes "one "; size = 4 }

abbrev second_chunk : Chunk
second_chunk = record { index = 1; hash = []; contents = codes "two"; size = 3 }

swapped : reconstruct_file true (second_chunk ∷ first_chunk ∷ []) ≡ some (codes "one two")
unfolding reconstruct_file
swapped = refl

hello-ne-nil : codes "hello" ≢ []
hello-ne-nil = λ e. cc

split_file_into_chunks-AreChunks_example :
    AreChunks chunk_size 0 (split_file_into_chunks (some (codes "hello")))
split_file_into_chunks-AreChunks_example = split_file_into_chunks-AreChunks (some (codes "hello"))

reconstruct_file-split_example :
    reconstruct_file true (split_file_into_chunks (some (codes "hello"))) ≡ some (codes "hello")
reconstruct_file-split_example =
    reconstruct_file-split (codes "hello") (split_file_into_chunks (some (codes "hello")))
      hello-ne-nil (Perm.refl _)

reconstruct_file-perm_example :
    reconstruct_file true (second_chunk ∷ first_chunk ∷ [])
    ≡ reconstruct_file true (first_chunk ∷ second_chunk ∷ [])
reconstruct_file-perm_example =
    reconstruct_file-perm true (second_chunk ∷ first_chunk ∷ []) (first_chunk ∷ second_chunk ∷ [])
      (Perm.swap _ _ _)
