-- ===== src/Metadata/Codec.antt =====
-- What the client writes the metadata nodes read, and the other way round.
use distributed_file_storage.Base.{
  ℕ, ◌≡◌, ◌≢◌, refl, ◌∙◌, false, some, List, [], ◌∷◌, ◌++◌, arith, Bytes, codes, All, All-append,
  length, length-append, lt→ltb,
}
use distributed_file_storage.Base.Int.{ℤ}
use distributed_file_storage.Base.Equality.{bytes_eq, Bytes_eq}
use distributed_file_storage.Streams.{is_space, read_word, read_int, to_string, join_hashes}
use distributed_file_storage.Streams.Words.{
  IsWord, read_word-space, read_word-append, read_word_last,
}
use distributed_file_storage.Streams.Numbers.{Fits, read_int-space, read_int-to_string}
use distributed_file_storage.Streams.Fields.{IsField, split_hashes-join_hashes}
use distributed_file_storage.Metadata.{FileMetadata, parse_put, found_message}
use distributed_file_storage.Client.{put_command, read_metadata, metadata_of_response}

-- Metadata whose texts stay apart in a message: names and hashes are words, a hash has no comma, and
-- the numbers fit their types.
pub record IsStorable (meta : FileMetadata) : Type 0 where
  pub name_word : IsWord meta.filename
  pub root_word : IsWord meta.root_hash
  pub size_fits : Fits 64 meta.file_size
  pub chunk_fits : Fits 32 meta.chunk_size
  pub total_fits : Fits 32 meta.total_chunks
  pub some_hash : meta.chunk_hashes ≢ []
  pub hash_fields : All IsField meta.chunk_hashes
  pub hash_words : All IsWord meta.chunk_hashes

join_hashes-letters :
    (hashes : List Bytes) → All IsWord hashes → All (λ c. is_space c ≡ false) (join_hashes hashes)
unfolding join_hashes
join_hashes-letters [] h = tt
join_hashes-letters (w ∷ []) (hw, h) = hw.letters
join_hashes-letters (w ∷ v ∷ hashes) (hw, h) =
    All-append (λ c. is_space c ≡ false) w _ hw.letters (refl, join_hashes-letters (v ∷ hashes) h)

cons-append-ne-nil : (w s : Bytes) → w ≢ [] → w ++ s ≢ []
cons-append-ne-nil [] s h = absurd (h refl)
cons-append-ne-nil (c ∷ w) s h = λ e. cc

join_hashes-IsWord :
    (hashes : List Bytes) → hashes ≢ [] → All IsWord hashes → IsWord (join_hashes hashes)
unfolding join_hashes
join_hashes-IsWord [] e h = absurd (e refl)
join_hashes-IsWord (w ∷ []) e (hw, h) = hw
join_hashes-IsWord (w ∷ v ∷ hashes) e (hw, h) = record {
  some_letter = cons-append-ne-nil w _ hw.some_letter;
  letters = join_hashes-letters (w ∷ v ∷ hashes) (hw, h);
}

read_next_word : (w s : Bytes) → IsWord w → read_word (b' ' ∷ (w ++ b' ' ∷ s)) ≡ some (w, b' ' ∷ s)
read_next_word w s h = read_word-space (w ++ b' ' ∷ s) ∙ read_word-append w s h

read_next_int :
    (width : ℕ) (z : ℤ) (s : Bytes)
    → Fits width z
    → read_int width (b' ' ∷ (to_string z ++ b' ' ∷ s)) ≡ some (z, b' ' ∷ s)
read_next_int width z s h =
    read_int-space width (to_string z ++ b' ' ∷ s) ∙ read_int-to_string width z (b' ' ∷ s) h refl

read_last_word : (w : Bytes) → IsWord w → read_word (b' ' ∷ w) ≡ some (w, [])
read_last_word w h = read_word-space w ∙ read_word_last w h

put-IsWord : IsWord (codes "PUT")
put-IsWord = record { some_letter = λ e. cc; letters = (refl, (refl, (refl, tt))) }

-- What follows a number or a word in a message.
module _ (meta : FileMetadata) where
  abbrev from_hashes : Bytes
  from_hashes = join_hashes meta.chunk_hashes

  abbrev from_root : Bytes
  from_root = meta.root_hash ++ b' ' ∷ from_hashes

  abbrev from_total : Bytes
  from_total = to_string meta.total_chunks ++ b' ' ∷ from_root

  abbrev from_chunk : Bytes
  from_chunk = to_string meta.chunk_size ++ b' ' ∷ from_total

  abbrev from_size : Bytes
  from_size = to_string meta.file_size ++ b' ' ∷ from_chunk

-- From the command that a client writes for storable metadata a metadata node reads that metadata.
pub parse_put-put_command :
    (meta : FileMetadata) → IsStorable meta → parse_put (put_command meta) ≡ some meta
unfolding parse_put put_command
parse_put-put_command meta h =
    rw
      (
        read_word-append (codes "PUT") (meta.filename ++ b' ' ∷ from_size meta) put-IsWord,
        read_next_word meta.filename (from_size meta) h.name_word,
        read_next_int 64 meta.file_size (from_chunk meta) h.size_fits,
        read_next_int 32 meta.chunk_size (from_total meta) h.chunk_fits,
        read_next_int 32 meta.total_chunks (from_root meta) h.total_fits,
        read_next_word meta.root_hash (from_hashes meta) h.root_word,
        read_last_word (from_hashes meta)
            (join_hashes-IsWord meta.chunk_hashes h.some_hash h.hash_words),
        split_hashes-join_hashes meta.chunk_hashes h.hash_fields,
      )
      refl

read_metadata_lem :
    (filename : Bytes) (meta : FileMetadata)
    → IsStorable meta
    → read_metadata filename (from_size meta) ≡ some (record meta { filename = filename })
unfolding read_metadata
read_metadata_lem filename meta h =
    rw
      (
        read_int-to_string 64 meta.file_size (b' ' ∷ from_chunk meta) h.size_fits refl,
        read_next_int 32 meta.chunk_size (from_total meta) h.chunk_fits,
        read_next_int 32 meta.total_chunks (from_root meta) h.total_fits,
        read_next_word meta.root_hash (from_hashes meta) h.root_word,
        read_last_word (from_hashes meta)
            (join_hashes-IsWord meta.chunk_hashes h.some_hash h.hash_words),
        split_hashes-join_hashes meta.chunk_hashes h.hash_fields,
      )
      refl

metadata_of_response-found :
    (filename s t : Bytes) (c : ℕ)
    → metadata_of_response filename (codes "FOUND " ++ (s ++ c ∷ t))
      ≡ read_metadata filename (s ++ c ∷ t)
unfolding metadata_of_response bytes_eq
metadata_of_response-found filename s t c =
    rw (lt→ltb 6 (length (codes "FOUND " ++ (s ++ c ∷ t))) (omega (arith, length-append s (c ∷ t))))
      refl

-- From the answer to a GET that a node writes for storable metadata the client reads that metadata,
-- under the file name that it asked for.
pub metadata_of_response-found_message :
    (filename : Bytes) (meta : FileMetadata)
    → IsStorable meta
    → metadata_of_response filename (found_message meta)
      ≡ some (record meta { filename = filename })
unfolding found_message
metadata_of_response-found_message filename meta h =
    metadata_of_response-found filename (to_string meta.file_size) (from_chunk meta) b' '
    ∙ read_metadata_lem filename meta h
