-- ===== src/Client/Download.antt =====
-- `Client::downloadFile` and the methods that it calls.
use distributed_file_storage.Base.{
  ℕ, ◌+◌, Bool, true, false, ◌||◌, Option, none, some, List, [], ◌∷◌, Bytes, length,
}
use distributed_file_storage.Base.Int.{pos}
use distributed_file_storage.Client.{metadata_of_response}
use distributed_file_storage.Client.Address.{Address, no_colon, throws, endpoint, parse_address}
use distributed_file_storage.Client.Chunks.{not_empty}
use distributed_file_storage.Cluster.{Cluster, get_at, fetch_at}
use distributed_file_storage.Dht.Ring.{Ring, get_nodes_for_key}
use distributed_file_storage.Files.{Chunk, reconstruct_file}
use distributed_file_storage.Metadata.{FileMetadata}

-- The members of `Client`.
pub record Client : Type 0 where
  pub dht : Ring
  pub metadata_nodes : List Bytes

-- What a part of a method comes to: it goes on, the method returns early, or an exception leaves it.
pub data Outcome {ℓ} (A : Type ℓ) : Type ℓ where
  went_on : A → Outcome A
  returned : Outcome A
  threw : Outcome A

infixl 5 ◌>>=◌
abbrev pub ◌>>=◌ {ℓ κ} : {A : Type ℓ} {B : Type κ} → Outcome A → (A → Outcome B) → Outcome B
went_on a >>= next = next a
returned >>= next = returned
threw >>= next = threw

abbrev pub or_throw {ℓ} : {A : Type ℓ} → Option A → Outcome A
or_throw none = threw
or_throw (some a) = went_on a

abbrev pub response_metadata : Bytes → Option Bytes → Option FileMetadata
response_metadata filename none = none
response_metadata filename (some response) = metadata_of_response filename response

-- `getMetadataFromNode` at an address that has been read.
abbrev pub metadata_at : Address → Bytes → Cluster → Outcome (Option FileMetadata)
metadata_at no_colon filename c = went_on none
metadata_at throws filename c = threw
metadata_at (endpoint link) filename c =
    went_on (response_metadata filename (get_at filename link c.metadata_nodes))

unfoldable pub get_metadata_from_node : Bytes → Bytes → Cluster → Outcome (Option FileMetadata)
get_metadata_from_node address filename c = metadata_at (parse_address address) filename c

-- `!meta.filename.empty() || !meta.chunkHashes.empty()`
abbrev pub is_found : Option FileMetadata → Bool
is_found none = false
is_found (some meta) = not_empty meta.filename || not_empty meta.chunk_hashes

-- `found`, and what the loop goes on with where it is not set.
abbrev pub found_or : Bool → Option FileMetadata → Outcome FileMetadata → Outcome FileMetadata
found_or false meta next = next
found_or true none next = returned
found_or true (some meta) next = went_on meta

-- The first loop, on the addresses that are left, the last of `metadataNodes_` first.
unfoldable pub find_metadata : List Bytes → Bytes → Cluster → Outcome FileMetadata
unfolding get_metadata_from_node
find_metadata [] filename c = returned
find_metadata (address ∷ addresses) filename c = do
  meta ← get_metadata_from_node address filename c
  found_or (is_found meta) meta (find_metadata addresses filename c)

-- `downloadChunkFromNode` at an address that has been read.
abbrev pub chunk_at : Address → Bytes → Cluster → Outcome Bytes
chunk_at no_colon hash c = went_on []
chunk_at throws hash c = threw
chunk_at (endpoint link) hash c = went_on (fetch_at hash link c)

unfoldable pub download_chunk : Bytes → Bytes → Cluster → Outcome Bytes
download_chunk hash address c = chunk_at (parse_address address) hash c

-- `if (!data.empty()) break;`
abbrev pub or_rest : Bytes → Outcome Bytes → Outcome Bytes
or_rest [] rest = rest
or_rest (b ∷ bytes) rest = went_on (b ∷ bytes)

-- The loop over the nodes of a chunk, up to the first that gives it.
unfoldable pub first_copy : List Bytes → Bytes → Cluster → Outcome Bytes
unfolding download_chunk
first_copy [] hash c = went_on []
first_copy (address ∷ addresses) hash c = do
  bytes ← download_chunk hash address c
  or_rest bytes (first_copy addresses hash c)

abbrev pub chunk_with : ℕ → Bytes → Bytes → Chunk
chunk_with index hash bytes = record {
  index = index;
  hash = hash;
  contents = bytes;
  size = length bytes;
}

-- The chunk of a round; without a byte the method returns.
abbrev pub chunk_of : ℕ → Bytes → Bytes → Outcome Chunk
chunk_of index hash [] = returned
chunk_of index hash (b ∷ bytes) = went_on (chunk_with index hash (b ∷ bytes))

-- The loop over the hashes.
unfoldable pub download_chunks : Ring → ℕ → List Bytes → Cluster → Outcome (List Chunk)
unfolding get_nodes_for_key first_copy
download_chunks ring index [] c = went_on []
download_chunks ring index (hash ∷ hashes) c = do
  nodes ← or_throw (get_nodes_for_key hash (pos 2) ring)
  bytes ← first_copy nodes hash c
  chunk ← chunk_of index hash bytes
  chunks ← download_chunks ring (index + 1) hashes c
  went_on (chunk ∷ chunks)

abbrev pub backwards {ℓ} : {A : Type ℓ} → List A → List A → List A
backwards [] done = done
backwards (x ∷ xs) done = backwards xs (x ∷ done)

-- The bytes that are written to the output file, if it is written. `writable` says whether the
-- output file can be created.
unfoldable pub download_file : Client → Bytes → Bool → Cluster → Outcome (Option Bytes)
unfolding find_metadata download_chunks reconstruct_file
download_file client filename writable c = do
  meta ← find_metadata (backwards client.metadata_nodes []) filename c
  chunks ← download_chunks client.dht 0 meta.chunk_hashes c
  went_on (reconstruct_file writable chunks)
