-- ===== src/Client/Answers.antt =====
-- A download depends on what the nodes answer, and not on how they came to it.
use mathlib.Core.Path.{fun_ext}
use distributed_file_storage.Base.{ℕ, ◌+◌, ◌≡◌, refl, ap, ◌∙◌, List, [], ◌∷◌, Bool, Bytes}
use distributed_file_storage.Base.Int.{pos}
use distributed_file_storage.Client.Address.{Address, no_colon, throws, endpoint, parse_address}
use distributed_file_storage.Client.Download.{
  Client, went_on, ◌>>=◌, or_throw, chunk_at, download_chunk, or_rest, first_copy, chunk_of,
  download_chunks, metadata_at, get_metadata_from_node, is_found, found_or, find_metadata,
  backwards, download_file,
}
use distributed_file_storage.Cluster.{Cluster, fetch_at}
use distributed_file_storage.Dht.Ring.{Ring, get_nodes_for_key}
use distributed_file_storage.Files.{reconstruct_file}
use distributed_file_storage.Metadata.{Link}

module _ (c d : Cluster)
    (same_chunks : (hash : Bytes) (link : Link) → fetch_at hash link c ≡ fetch_at hash link d) where
  chunk_at_same :
      (address : Address) (hash : Bytes) → chunk_at address hash c ≡ chunk_at address hash d
  chunk_at_same no_colon hash = refl
  chunk_at_same throws hash = refl
  chunk_at_same (endpoint link) hash = ap went_on (same_chunks hash link)

  download_chunk_same :
      (hash address : Bytes) → download_chunk hash address c ≡ download_chunk hash address d
  unfolding download_chunk
  download_chunk_same hash address = chunk_at_same (parse_address address) hash

  first_copy_same :
      (addresses : List Bytes) (hash : Bytes)
      → first_copy addresses hash c ≡ first_copy addresses hash d
  unfolding first_copy
  first_copy_same [] hash = refl
  first_copy_same (address ∷ addresses) hash =
      ap (λ o. o >>= λ bytes. or_rest bytes (first_copy addresses hash c))
        (download_chunk_same hash address)
      ∙ ap (λ rest. download_chunk hash address d >>= λ bytes. or_rest bytes rest)
          (first_copy_same addresses hash)

  download_chunks_same :
      (ring : Ring) (index : ℕ) (hashes : List Bytes)
      → download_chunks ring index hashes c ≡ download_chunks ring index hashes d
  unfolding download_chunks
  download_chunks_same ring index [] = refl
  download_chunks_same ring index (hash ∷ hashes) =
      ap
        (λ copy. or_throw (get_nodes_for_key hash (pos 2) ring) >>= λ nodes. copy nodes >>= λ bytes.
          chunk_of index hash bytes >>= λ chunk.
          download_chunks ring (index + 1) hashes c >>= λ chunks. went_on (chunk ∷ chunks))
        (fun_ext λ nodes. first_copy_same nodes hash)
      ∙ ap
          (λ rest. or_throw (get_nodes_for_key hash (pos 2) ring) >>= λ nodes.
            first_copy nodes hash d >>= λ bytes.
            chunk_of index hash bytes >>= λ chunk. rest >>= λ chunks. went_on (chunk ∷ chunks))
          (download_chunks_same ring (index + 1) hashes)

  module _ (same_metadata : c.metadata_nodes ≡ d.metadata_nodes) where
    find_metadata_same :
        (addresses : List Bytes) (filename : Bytes)
        → find_metadata addresses filename c ≡ find_metadata addresses filename d
    unfolding find_metadata get_metadata_from_node
    find_metadata_same [] filename = refl
    find_metadata_same (address ∷ addresses) filename =
        ap
          (λ nodes.
            metadata_at (parse_address address) filename (record c { metadata_nodes = nodes })
            >>= λ meta. found_or (is_found meta) meta (find_metadata addresses filename c))
          same_metadata
        ∙ elim_address (parse_address address)
        ∙ ap
            (λ rest. metadata_at (parse_address address) filename d >>= λ meta.
              found_or (is_found meta) meta rest)
            (find_metadata_same addresses filename)
      where
        elim_address :
            (a : Address)
            → (metadata_at a filename (record c { metadata_nodes = d.metadata_nodes }) >>= λ meta.
                found_or (is_found meta) meta (find_metadata addresses filename c))
              ≡ (metadata_at a filename d >>= λ meta.
                  found_or (is_found meta) meta (find_metadata addresses filename c))
        elim_address no_colon = refl
        elim_address throws = refl
        elim_address (endpoint link) = refl

    -- Two clusters whose storage nodes give the same chunks, with the same metadata nodes, give a client
    -- the same download.
    pub download_file_same :
        (client : Client) (filename : Bytes) (writable : Bool)
        → download_file client filename writable c ≡ download_file client filename writable d
    unfolding download_file
    download_file_same client filename writable =
        ap
          (λ found. found >>= λ meta. download_chunks client.dht 0 meta.chunk_hashes c >>= λ chunks.
            went_on (reconstruct_file writable chunks))
          (find_metadata_same (backwards client.metadata_nodes []) filename)
        ∙ ap
            (λ gathered. find_metadata (backwards client.metadata_nodes []) filename d >>= λ meta.
              gathered meta.chunk_hashes >>= λ chunks. went_on (reconstruct_file writable chunks))
            (fun_ext λ hashes. download_chunks_same client.dht 0 hashes)
