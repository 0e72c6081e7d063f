-- ===== src/Client/Upload.antt =====
-- `Client::uploadFile` and the methods that it calls.
use distributed_file_storage.Base.{
  ℕ, zero, suc, ◌+◌, Bool, true, false, ◌||◌, Option, none, some, List, [], ◌∷◌, Bytes, codes,
  length, if◌then◌else◌,
}
use distributed_file_storage.Base.Equality.{◌==◌, Bytes_eq, ℕ_eq}
use distributed_file_storage.Base.Int.{pos}
use distributed_file_storage.Client.{put_command}
use distributed_file_storage.Client.Address.{Address, no_colon, throws, endpoint, parse_address}
use distributed_file_storage.Client.Download.{Client}
use distributed_file_storage.Cluster.{arrived, Cluster, put_at, store_at}
use distributed_file_storage.Dht.Ring.{Ring, add_node, get_nodes_for_key}
use distributed_file_storage.Files.{Chunk, chunk_size, split_file_into_chunks}
use distributed_file_storage.Hashing.{hash_all_chunks, chunk_hashes, compute_root_hash}
use distributed_file_storage.Metadata.{FileMetadata}

unfoldable pub add_nodes : List Bytes → Ring → Ring
unfolding add_node
add_nodes [] ring = ring
add_nodes (node ∷ nodes) ring = add_nodes nodes (add_node node ring)

-- The constructor.
unfoldable pub new_client : List Bytes → List Bytes → Client
unfolding add_nodes
new_client storage_nodes metadata_nodes = record {
  dht = add_nodes storage_nodes [];
  metadata_nodes = metadata_nodes;
}

-- How a call ends, and the cluster that it leaves: an exception, an early return, or what it gives.
pub data Ending {ℓ} (A : Type ℓ) : Type ℓ where
  gives : A → Cluster → Ending A
  returns : Cluster → Ending A
  throwing : Cluster → Ending A

infixl 5 ◌>>=◌
abbrev pub ◌>>=◌ {ℓ κ} : {A : Type ℓ} {B : Type κ} → Ending A → (A → Cluster → Ending B) → Ending B
gives a c >>= next = next a c
returns c >>= next = returns c
throwing c >>= next = throwing c

-- `uploadChunkToNode` at an address that has been read.
abbrev pub upload_to : Address → Chunk → Cluster → Ending Bool
upload_to no_colon chunk c = gives false c
upload_to throws chunk c = throwing c
upload_to (endpoint link) chunk c =
    let stored = store_at chunk.hash chunk.contents link c in gives stored.0 stored.1

unfoldable pub upload_chunk : Chunk → Bytes → Cluster → Ending Bool
upload_chunk chunk address c = upload_to (parse_address address) chunk c

-- The loop over the nodes of a chunk, which counts the successes.
unfoldable pub upload_copies : Chunk → List Bytes → ℕ → Cluster → Ending ℕ
unfolding upload_chunk
upload_copies chunk [] successes c = gives successes c
upload_copies chunk (address ∷ addresses) successes c =
    upload_chunk chunk address c >>= λ stored c'.
    upload_copies chunk addresses (if stored then successes + 1 else successes) c'

abbrev pub replicas : Option (List Bytes) → Cluster → Ending (List Bytes)
replicas none c = throwing c
replicas (some nodes) c = gives nodes c

-- `if (successCount == 0) return;`
abbrev pub some_copy : ℕ → Cluster → Ending (Unit {0})
some_copy zero c = returns c
some_copy (suc n) c = gives tt c

-- The loop over the chunks.
unfoldable pub upload_chunks : Ring → List Chunk → Cluster → Ending (Unit {0})
unfolding get_nodes_for_key upload_copies
upload_chunks ring [] c = gives tt c
upload_chunks ring (chunk ∷ chunks) c =
    replicas (get_nodes_for_key chunk.hash (pos 2) ring) c >>= λ nodes c'.
    upload_copies chunk nodes 0 c' >>= λ successes c'.
    some_copy successes c' >>= λ done c'. upload_chunks ring chunks c'

abbrev pub is_slash : ℕ → Bool
is_slash c = c == b'/' || c == b'\\'

-- What follows the last slash or backslash of a path, if it has one.
unfoldable pub after_slash : Bytes → Option Bytes
after_slash [] = none
after_slash (c ∷ path) = elim (after_slash path) [
  | some name ↦ some name
  | none ↦ if is_slash c then some path else none
]

abbrev pub or_whole : Bytes → Option Bytes → Bytes
or_whole path none = path
or_whole path (some name) = name

unfoldable pub base_name : Bytes → Bytes
unfolding after_slash
base_name path = or_whole path (after_slash path)

-- The local variables of `putMetadataToNode`; `file` is what stands at the path.
unfoldable pub metadata_of_file : Bytes → Bytes → List Chunk → FileMetadata
unfolding base_name chunk_hashes compute_root_hash
metadata_of_file path file chunks = record {
  filename = base_name path;
  root_hash = compute_root_hash (chunk_hashes chunks);
  file_size = pos (length file);
  chunk_size = pos chunk_size;
  total_chunks = pos (length chunks);
  chunk_hashes = chunk_hashes chunks;
}

abbrev pub is_ack : Option Bytes → Bool
is_ack none = false
is_ack (some response) = response == codes "ACK"

-- `putMetadataToNode` at an address that has been read.
abbrev pub put_to : ℕ → Address → FileMetadata → Cluster → Ending Bool
put_to fuel no_colon meta c = gives false c
put_to fuel throws meta c = throwing c
put_to fuel (endpoint link) meta c =
    let put = put_at fuel (arrived (put_command meta)) link c.metadata_nodes in
    gives (is_ack put.0) (record c { metadata_nodes = put.1 })

unfoldable pub put_metadata_to_node : ℕ → Bytes → FileMetadata → Cluster → Ending Bool
put_metadata_to_node fuel address meta c = put_to fuel (parse_address address) meta c

-- `break` behind an acknowledgement.
abbrev pub or_next : Bool → Cluster → Ending Bool → Ending Bool
or_next true c next = gives true c
or_next false c next = next

-- The loop over the metadata nodes, up to the first that acknowledges.
unfoldable pub upload_metadata : ℕ → List Bytes → FileMetadata → Cluster → Ending Bool
unfolding put_metadata_to_node
upload_metadata fuel [] meta c = gives false c
upload_metadata fuel (address ∷ addresses) meta c =
    put_metadata_to_node fuel address meta c >>= λ acknowledged c'.
    or_next acknowledged c' (upload_metadata fuel addresses meta c')

-- Behind the check for an empty file.
abbrev pub upload_parts : ℕ → Client → Bytes → Bytes → List Chunk → Cluster → Ending Bool
upload_parts fuel client path file chunks c = upload_chunks client.dht chunks c >>= λ done c'.
    upload_metadata fuel client.metadata_nodes (metadata_of_file path file chunks) c'

-- `if (chunks.empty()) return;`
abbrev pub upload_split : ℕ → Client → Bytes → Bytes → List Chunk → Cluster → Ending Bool
upload_split fuel client path file [] c = returns c
upload_split fuel client path file (chunk ∷ chunks) c =
    upload_parts fuel client path file (hash_all_chunks (chunk ∷ chunks)) c

-- `true` where the source prints that the upload is complete. `fuel` bounds the forwarding of the
-- metadata, and has to be the number of nodes of the chain.
unfoldable pub upload_file : ℕ → Client → Bytes → Option Bytes → Cluster → Ending Bool
unfolding split_file_into_chunks
upload_file fuel client path none c = returns c
upload_file fuel client path (some file) c =
    upload_split fuel client path file (split_file_into_chunks (some file)) c
