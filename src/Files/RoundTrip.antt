-- ===== src/Files/RoundTrip.antt =====
-- A file that is split and put together again.
use mathlib.Core.List.{Perm}
use distributed_file_storage.Base.{
  ℕ, suc, ◌+◌, ◌≡◌, ◌≢◌, refl, ap, ◌∙◌, sym, true, some, List, [], ◌∷◌, arith, Bytes, length,
}
use distributed_file_storage.Files.{
  Chunk, chunk_size, split_file_into_chunks, write_chunks, reconstruct_file,
}
use distributed_file_storage.Files.Split.{
  AreChunks, split_file_into_chunks-AreChunks, write_chunks-read_loop,
}
use distributed_file_storage.Files.Order.{
  Numbered, reconstruct_file-perm, reconstruct_file-Numbered,
}

AreChunks-Numbered : (n i : ℕ) (cs : List Chunk) → AreChunks n i cs → Numbered i cs
AreChunks-Numbered n i [] h = tt
AreChunks-Numbered n i (c ∷ cs) (hc, _, _, _, _, h) = (hc, AreChunks-Numbered n (i + 1) cs h)

pub write_chunks-split : (file : Bytes) → write_chunks (split_file_into_chunks (some file)) ≡ file
unfolding split_file_into_chunks
write_chunks-split file =
    write_chunks-read_loop (suc (length file)) chunk_size file 0 (omega arith) (omega arith)

write_chunks-nil : write_chunks [] ≡ []
unfolding write_chunks
write_chunks-nil = refl

-- A file with a byte in it has a chunk.
pub split-ne-nil : (file : Bytes) → file ≢ [] → split_file_into_chunks (some file) ≢ []
split-ne-nil file some_byte empty =
    some_byte (sym (write_chunks-split file) ∙ ap write_chunks empty ∙ write_chunks-nil)

rebuilt :
    (file : Bytes) (cs : List Chunk)
    → Numbered 0 cs
    → write_chunks cs ≡ file
    → file ≢ []
    → reconstruct_file true cs ≡ some file
rebuilt file [] n e some_byte = absurd (some_byte (sym e ∙ unfold write_chunks in refl))
rebuilt file (c ∷ cs) n e some_byte = reconstruct_file-Numbered c cs n ∙ ap some e

-- A file with a byte in it is rebuilt from its chunks exactly, in whatever order they come.
pub reconstruct_file-split :
    (file : Bytes) (chunks : List Chunk)
    → file ≢ []
    → Perm chunks (split_file_into_chunks (some file))
    → reconstruct_file true chunks ≡ some file
reconstruct_file-split file chunks some_byte p =
    reconstruct_file-perm true chunks _ p
    ∙ rebuilt file _
        (AreChunks-Numbered chunk_size 0 _ (split_file_into_chunks-AreChunks (some file)))
        (write_chunks-split file) some_byte
