-- ===== src/Client/Exceptions/Download.antt =====
-- No exception leaves a download.
use distributed_file_storage.Base.{
  ℕ, ◌+◌, ◌≢◌, refl, Bool, true, false, Option, none, some, List, [], ◌∷◌, Bytes, All,
}
use distributed_file_storage.Base.Int.{pos}
use distributed_file_storage.Client.Address.{Address, no_colon, throws, endpoint, parse_address}
use distributed_file_storage.Client.Availability.{Readable}
use distributed_file_storage.Client.Download.{
  Outcome, metadata_at, get_metadata_from_node, is_found, found_or, find_metadata, chunk_at,
  download_chunk, or_rest, first_copy, chunk_of, download_chunks, backwards,
}
use distributed_file_storage.Cluster.{Cluster}
use distributed_file_storage.Dht.Lookup.{IsRing}
use distributed_file_storage.Dht.Members.{get_nodes_for_key-All}
use distributed_file_storage.Dht.Ring.{Ring, get_all_nodes}
use distributed_file_storage.Metadata.{FileMetadata}
use distributed_file_storage.Client.Exceptions.{NoThrowOutcome, bind-NoThrowOutcome, named}

module _ (ring : Ring) (well_formed : IsRing ring)
    (readable : All Readable (get_all_nodes ring)) where
  first_copy-NoThrow :
      (hash : Bytes) (addresses : List Bytes) (c : Cluster)
      → All Readable addresses
      → NoThrowOutcome (first_copy addresses hash c)
  unfolding first_copy download_chunk
  first_copy-NoThrow hash [] c h = tt
  first_copy-NoThrow hash (address ∷ addresses) c (ha, h) =
      bind-NoThrowOutcome (chunk_at (parse_address address) hash c) _
        (at_address (parse_address address) ha)
        λ bytes e.
          or_more bytes (first_copy addresses hash c) (first_copy-NoThrow hash addresses c h)
    where
      at_address : (a : Address) → a ≢ throws → NoThrowOutcome (chunk_at a hash c)
      at_address no_colon h = tt
      at_address throws h = h refl
      at_address (endpoint link) h = tt

      or_more :
          (bytes : Bytes) (rest : Outcome Bytes)
          → NoThrowOutcome rest
          → NoThrowOutcome (or_rest bytes rest)
      or_more [] rest h = h
      or_more (b ∷ bytes) rest h = tt

  pub download_chunks-NoThrow :
      (index : ℕ) (hashes : List Bytes) (c : Cluster)
      → NoThrowOutcome (download_chunks ring index hashes c)
  unfolding download_chunks
  download_chunks-NoThrow index [] c = tt
  download_chunks-NoThrow index (hash ∷ hashes) c =
      let (nodes, found) = named hash ring well_formed in
      let all_readable = get_nodes_for_key-All Readable hash (pos 2) ring nodes readable found in
      rw found (
        bind-NoThrowOutcome (first_copy nodes hash c) _
          (first_copy-NoThrow hash nodes c all_readable)
          λ bytes e. bind-NoThrowOutcome (chunk_of index hash bytes) _ (of_bytes bytes) λ chunk e'.
            bind-NoThrowOutcome (download_chunks ring (index + 1) hashes c) _
              (download_chunks-NoThrow (index + 1) hashes c) λ chunks e''. tt)
    where
      of_bytes : (bytes : Bytes) → NoThrowOutcome (chunk_of index hash bytes)
      of_bytes [] = tt
      of_bytes (b ∷ bytes) = tt

metadata_at-NoThrow :
    (address : Address) (filename : Bytes) (c : Cluster)
    → address ≢ throws
    → NoThrowOutcome (metadata_at address filename c)
metadata_at-NoThrow no_colon filename c h = tt
metadata_at-NoThrow throws filename c h = h refl
metadata_at-NoThrow (endpoint link) filename c h = tt

found_or-NoThrow :
    (found : Bool) (meta : Option FileMetadata) (next : Outcome FileMetadata)
    → NoThrowOutcome next
    → NoThrowOutcome (found_or found meta next)
found_or-NoThrow false meta next h = h
found_or-NoThrow true none next h = tt
found_or-NoThrow true (some meta) next h = tt

pub find_metadata-NoThrow :
    (addresses : List Bytes) (filename : Bytes) (c : Cluster)
    → All Readable addresses
    → NoThrowOutcome (find_metadata addresses filename c)
unfolding find_metadata get_metadata_from_node
find_metadata-NoThrow [] filename c h = tt
find_metadata-NoThrow (address ∷ addresses) filename c (ha, h) =
    bind-NoThrowOutcome (metadata_at (parse_address address) filename c) _
      (metadata_at-NoThrow (parse_address address) filename c ha)
      λ meta e.
        found_or-NoThrow (is_found meta) meta (find_metadata addresses filename c)
          (find_metadata-NoThrow addresses filename c h)

pub backwards-All :
    (P : Bytes → Type 0) (l done : List Bytes) → All P l → All P done → All P (backwards l done)
backwards-All P [] done h k = k
backwards-All P (x ∷ l) done (hx, h) k = backwards-All P l (x ∷ done) h (hx, k)
