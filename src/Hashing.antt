-- ===== src/Hashing.antt =====
-- common/hash_utils.hpp, common/hash_utils.cpp and client/verify_files.cpp: the hashes of chunks and
-- the root hash of a file.
pub mod Cid
pub mod Digests
use distributed_file_storage.Base.{Bool, Option, List, [], ◌∷◌, ◌++◌, Bytes, take}
use distributed_file_storage.Files.{Chunk, split_file_into_chunks}
use distributed_file_storage.Sha256.{sha256}

-- Both overloads of `computeSHA256`.
unfoldable pub compute_sha256 : Bytes → Bytes
compute_sha256 input = sha256 input

-- The first `size` bytes are hashed.
unfoldable pub hash_chunk : Chunk → Chunk
unfolding compute_sha256
hash_chunk c = record c { hash = compute_sha256 (take c.size c.contents) }

unfoldable pub hash_all_chunks : List Chunk → List Chunk
unfolding hash_chunk
hash_all_chunks [] = []
hash_all_chunks (c ∷ chunks) = hash_chunk c ∷ hash_all_chunks chunks

-- `for (const auto& h : chunkHashes) combined += h;`
unfoldable pub combine : List Bytes → Bytes
combine [] = []
combine (h ∷ hashes) = h ++ combine hashes

unfoldable pub compute_root_hash : List Bytes → Bytes
unfolding combine compute_sha256
compute_root_hash hashes = compute_sha256 (combine hashes)

-- `for (const auto& c : chunks) hashes.push_back(c.hash);`
unfoldable pub chunk_hashes : List Chunk → List Bytes
chunk_hashes [] = []
chunk_hashes (c ∷ chunks) = c.hash ∷ chunk_hashes chunks

-- `computeCID` behind the split; the empty text stands for a file that is empty or not there.
unfoldable pub cid_of_chunks : List Chunk → Bytes
unfolding hash_all_chunks chunk_hashes compute_root_hash
cid_of_chunks [] = []
cid_of_chunks (c ∷ chunks) = compute_root_hash (chunk_hashes (hash_all_chunks (c ∷ chunks)))

unfoldable pub compute_cid : Option Bytes → Bytes
unfolding cid_of_chunks split_file_into_chunks
compute_cid file = cid_of_chunks (split_file_into_chunks file)
