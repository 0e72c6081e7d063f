-- ===== src/Client/Exceptions/Upload.antt =====
-- No exception leaves an upload.
use distributed_file_storage.Base.{
  ℕ, ◌+◌, ◌≢◌, refl, Bool, true, false, List, [], ◌∷◌, Bytes, All, if◌then◌else◌, zero, suc,
}
use distributed_file_storage.Base.Int.{pos}
use distributed_file_storage.Client.Address.{Address, no_colon, throws, endpoint, parse_address}
use distributed_file_storage.Client.Availability.{Readable}
use distributed_file_storage.Client.Download.{Client}
use distributed_file_storage.Client.Upload.{
  Ending, upload_to, upload_chunk, upload_copies, some_copy, upload_chunks, put_to,
  put_metadata_to_node, or_next, upload_metadata, upload_split, metadata_of_file,
}
use distributed_file_storage.Cluster.{Cluster}
use distributed_file_storage.Dht.Lookup.{IsRing}
use distributed_file_storage.Dht.Members.{get_nodes_for_key-All}
use distributed_file_storage.Dht.Ring.{Ring, get_all_nodes}
use distributed_file_storage.Files.{Chunk}
use distributed_file_storage.Hashing.{hash_all_chunks}
use distributed_file_storage.Metadata.{FileMetadata}
use distributed_file_storage.Client.Exceptions.{NoThrow, bind-NoThrow, named, IsConfigured}

upload_to-NoThrow :
    (address : Address) (chunk : Chunk) (c : Cluster)
    → address ≢ throws
    → NoThrow (upload_to address chunk c)
upload_to-NoThrow no_colon chunk c h = tt
upload_to-NoThrow throws chunk c h = h refl
upload_to-NoThrow (endpoint link) chunk c h = tt

upload_copies-NoThrow :
    (chunk : Chunk) (addresses : List Bytes) (s : ℕ) (c : Cluster)
    → All Readable addresses
    → NoThrow (upload_copies chunk addresses s c)
unfolding upload_copies upload_chunk
upload_copies-NoThrow chunk [] s c h = tt
upload_copies-NoThrow chunk (address ∷ addresses) s c (ha, h) =
    bind-NoThrow (upload_to (parse_address address) chunk c) _
      (upload_to-NoThrow (parse_address address) chunk c ha)
      λ stored c' e. upload_copies-NoThrow chunk addresses (if stored then s + 1 else s) c' h

some_copy-NoThrow : (n : ℕ) (c : Cluster) → NoThrow (some_copy n c)
some_copy-NoThrow zero c = tt
some_copy-NoThrow (suc n) c = tt

module _ (ring : Ring) (well_formed : IsRing ring)
    (readable : All Readable (get_all_nodes ring)) where
  upload_chunks-NoThrow :
      (chunks : List Chunk) (c : Cluster) → NoThrow (upload_chunks ring chunks c)
  unfolding upload_chunks
  upload_chunks-NoThrow [] c = tt
  upload_chunks-NoThrow (chunk ∷ chunks) c =
      let (nodes, found) = named chunk.hash ring well_formed in
      let all_readable =
        get_nodes_for_key-All Readable chunk.hash (pos 2) ring nodes readable found in
      rw found (
        bind-NoThrow (upload_copies chunk nodes 0 c) _
          (upload_copies-NoThrow chunk nodes 0 c all_readable)
          λ successes c2 e2.
            bind-NoThrow (some_copy successes c2) _ (some_copy-NoThrow successes c2)
              λ done c3 e3. upload_chunks-NoThrow chunks c3)

put_to-NoThrow :
    (fuel : ℕ) (address : Address) (meta : FileMetadata) (c : Cluster)
    → address ≢ throws
    → NoThrow (put_to fuel address meta c)
put_to-NoThrow fuel no_colon meta c h = tt
put_to-NoThrow fuel throws meta c h = h refl
put_to-NoThrow fuel (endpoint link) meta c h = tt

or_next-NoThrow :
    (acknowledged : Bool) (c : Cluster) (next : Ending Bool)
    → NoThrow next
    → NoThrow (or_next acknowledged c next)
or_next-NoThrow true c next h = tt
or_next-NoThrow false c next h = h

upload_metadata-NoThrow :
    (fuel : ℕ) (addresses : List Bytes) (meta : FileMetadata) (c : Cluster)
    → All Readable addresses
    → NoThrow (upload_metadata fuel addresses meta c)
unfolding upload_metadata put_metadata_to_node
upload_metadata-NoThrow fuel [] meta c h = tt
upload_metadata-NoThrow fuel (address ∷ addresses) meta c (ha, h) =
    bind-NoThrow (put_to fuel (parse_address address) meta c) _
      (put_to-NoThrow fuel (parse_address address) meta c ha)
      λ acknowledged c' e.
        or_next-NoThrow acknowledged c' (upload_metadata fuel addresses meta c')
          (upload_metadata-NoThrow fuel addresses meta c' h)

pub upload_split-NoThrow :
    (fuel : ℕ) (client : Client) (path f : Bytes) (chunks : List Chunk) (c : Cluster)
    → IsConfigured client
    → NoThrow (upload_split fuel client path f chunks c)
upload_split-NoThrow fuel client path f [] c h = tt
upload_split-NoThrow fuel client path f (chunk ∷ chunks) c h =
    let hashed = hash_all_chunks (chunk ∷ chunks) in
    bind-NoThrow (upload_chunks client.dht hashed c) _
      (upload_chunks-NoThrow client.dht h.ring h.storage_readable hashed c)
      λ done c' e.
        upload_metadata-NoThrow fuel client.metadata_nodes (metadata_of_file path f hashed) c'
          h.metadata_readable
