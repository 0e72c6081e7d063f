-- ===== src/Hashing/Digests.antt =====
-- The digests that the program computes, as words and fields of a message.
use distributed_file_storage.Base.{
  ◌≡◌, ◌≢◌, ap, false, List, [], ◌∷◌, arith, ℕ, Bytes, All, length, take,
}
use distributed_file_storage.Base.Tests.{◌==◌}
use distributed_file_storage.Files.{Chunk}
use distributed_file_storage.Hashing.{hash_all_chunks, chunk_hashes, compute_root_hash, combine}
use distributed_file_storage.Sha256.{sha256}
use distributed_file_storage.Sha256.Digest.{IsHexDigit, sha256_hex}
use distributed_file_storage.Streams.{is_space}
use distributed_file_storage.Streams.Fields.{IsField}
use distributed_file_storage.Streams.Words.{IsWord}

All-weaken : {P Q : ℕ → Type 0} (weaken : (c : ℕ) → P c → Q c) (s : Bytes) → All P s → All Q s
All-weaken weaken [] h = tt
All-weaken weaken (c ∷ s) (hc, h) = (weaken c hc, All-weaken weaken s h)

hex-not_space : (c : ℕ) → IsHexDigit c → is_space c ≡ false
hex-not_space c h = ground arith

hex-not_comma : (c : ℕ) → IsHexDigit c → (c == b',') ≡ false
hex-not_comma c h = ground arith

sha256-not_empty : (input : Bytes) → sha256 input ≢ []
sha256-not_empty input e = omega (arith, ap length e, (sha256_hex input).0)

pub sha256-IsWord : (input : Bytes) → IsWord (sha256 input)
sha256-IsWord input = record {
  some_letter = sha256-not_empty input;
  letters = All-weaken hex-not_space (sha256 input) (sha256_hex input).1;
}

pub sha256-IsField : (input : Bytes) → IsField (sha256 input)
sha256-IsField input = record {
  some_letter = sha256-not_empty input;
  letters = All-weaken hex-not_comma (sha256 input) (sha256_hex input).1;
}

pub compute_root_hash-IsWord : (hashes : List Bytes) → IsWord (compute_root_hash hashes)
unfolding compute_root_hash
compute_root_hash-IsWord hashes = sha256-IsWord (combine hashes)

pub chunk_hashes-IsWord : (cs : List Chunk) → All IsWord (chunk_hashes (hash_all_chunks cs))
unfolding chunk_hashes hash_all_chunks
chunk_hashes-IsWord [] = tt
chunk_hashes-IsWord (c ∷ cs) = (sha256-IsWord (take c.size c.contents), chunk_hashes-IsWord cs)

pub chunk_hashes-IsField : (cs : List Chunk) → All IsField (chunk_hashes (hash_all_chunks cs))
unfolding chunk_hashes hash_all_chunks
chunk_hashes-IsField [] = tt
chunk_hashes-IsField (c ∷ cs) = (sha256-IsField (take c.size c.contents), chunk_hashes-IsField cs)
