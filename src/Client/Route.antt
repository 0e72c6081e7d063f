-- ===== src/Client/Route.antt =====
-- The metadata of a file on its way to the chain, and back from its end.
use distributed_file_storage.Base.{
  ℕ, ◌%◌, ◌^◌, ◌<◌, ◌≤◌, ◌≡◌, ◌≢◌, refl, sym, ap, ◌∙◌, take, subst, true, some, List, [], ◌∷◌,
  Bytes, arith, length,
}
use distributed_file_storage.Base.Index.{take-length}
use distributed_file_storage.Base.Int.{pos}
use distributed_file_storage.Base.Equality.{bytes_eq}
use distributed_file_storage.Client.{put_command}
use distributed_file_storage.Client.Address.{Address, endpoint, parse_address}
use distributed_file_storage.Client.Availability.{none_split}
use distributed_file_storage.Client.Chunks.{not_empty}
use distributed_file_storage.Client.Download.{
  went_on, get_metadata_from_node, find_metadata, backwards,
}
use distributed_file_storage.Client.Upload.{
  gives, base_name, metadata_of_file, put_to, put_metadata_to_node, upload_metadata,
}
use distributed_file_storage.Cluster.{Cluster, MetadataNodes, arrived}
use distributed_file_storage.Cluster.Gets.{last_link, get_at-put_on}
use distributed_file_storage.Cluster.Puts.{IsRoute, put_on, put_at-put_on}
use distributed_file_storage.Files.{Chunk, split_file_into_chunks}
use distributed_file_storage.Files.RoundTrip.{write_chunks-split}
use distributed_file_storage.Hashing.{hash_all_chunks, chunk_hashes}
use distributed_file_storage.Hashing.Digests.{
  compute_root_hash-IsWord, chunk_hashes-IsWord, chunk_hashes-IsField,
}
use distributed_file_storage.Metadata.{FileMetadata, Link}
use distributed_file_storage.Metadata.Codec.{IsStorable, parse_put-put_command}
use distributed_file_storage.Streams.Numbers.{Fits}
use distributed_file_storage.Streams.Words.{IsWord}

-- The metadata nodes of a client: the first of its addresses is that of the head of a chain, and the
-- last that of the end. The chain is no longer than `fuel`.
pub record IsChainOf (fuel : ℕ) (addresses : List Bytes) (nodes : MetadataNodes) : Type 0 where
  pub first : Bytes
  pub later : List Bytes
  pub starts : addresses ≡ first ∷ later
  pub last : Bytes
  pub before : List Bytes
  pub ends : backwards addresses [] ≡ last ∷ before
  pub head : Link
  pub links : List Link
  pub route : IsRoute nodes (head ∷ links)
  pub short : length (head ∷ links) ≤ fuel
  pub first_names : parse_address first ≡ endpoint head
  pub last_names : parse_address last ≡ endpoint (last_link head links)

length-hash_all_chunks : (chunks : List Chunk) → length (hash_all_chunks chunks) ≡ length chunks
unfolding hash_all_chunks
length-hash_all_chunks [] = refl
length-hash_all_chunks (c ∷ chunks) = ap ℕ.suc (length-hash_all_chunks chunks)

-- Metadata that the nodes can read, and whose command goes into one frame.
pub record IsPutable (meta : FileMetadata) : Type 0 where
  pub storable : IsStorable meta
  pub in_frame : length (put_command meta) < 2 ^ 32

abbrev pub PutFits : Bytes → Bytes → Type 0
PutFits path f =
    length
      (put_command (metadata_of_file path f (hash_all_chunks (split_file_into_chunks (some f)))))
    < 2 ^ 32

-- A file name without white space, and a file whose numbers fit their types, make metadata that the
-- nodes can read.
metadata_of_file-IsStorable :
    (path f : Bytes)
    → f ≢ []
    → IsWord (base_name path)
    → Fits 64 (pos (length f))
    → Fits 32 (pos (length (split_file_into_chunks (some f))))
    → IsStorable (metadata_of_file path f (hash_all_chunks (split_file_into_chunks (some f))))
unfolding metadata_of_file
metadata_of_file-IsStorable path f some_byte name size total =
    let chunks = split_file_into_chunks (some f) in
    record {
      name_word = name;
      root_word = compute_root_hash-IsWord (chunk_hashes (hash_all_chunks chunks));
      size_fits = size;
      chunk_fits = (omega arith, omega arith);
      total_fits = subst (λ n. Fits 32 (pos n)) (sym (length-hash_all_chunks chunks)) total;
      some_hash = none_split f chunks some_byte (write_chunks-split f);
      hash_fields = chunk_hashes-IsField chunks;
      hash_words = chunk_hashes-IsWord chunks;
    }

pub metadata_of_file-IsPutable :
    (path f : Bytes)
    → f ≢ []
    → IsWord (base_name path)
    → Fits 64 (pos (length f))
    → Fits 32 (pos (length (split_file_into_chunks (some f))))
    → PutFits path f
    → IsPutable (metadata_of_file path f (hash_all_chunks (split_file_into_chunks (some f))))
metadata_of_file-IsPutable path f some_byte name size total frame = record {
  storable = metadata_of_file-IsStorable path f some_byte name size total;
  in_frame = frame;
}

-- A message below 4 GiB arrives whole.
arrived_whole : (message : Bytes) → length message < 2 ^ 32 → arrived message ≡ message
arrived_whole message h =
    let same : length message % 2 ^ 32 ≡ length message = omega arith in
    ap (λ n. take n message) same ∙ take-length (length message) message (omega arith)

put_to_route :
    (fuel : ℕ) (address : Address) (meta : FileMetadata) (c : Cluster) (head : Link)
    (links : List Link)
    → IsPutable meta
    → address ≡ endpoint head
    → IsRoute c.metadata_nodes (head ∷ links)
    → length (head ∷ links) ≤ fuel
    → put_to fuel address meta c
      ≡ gives true (record c { metadata_nodes = put_on meta (head ∷ links) c.metadata_nodes })
unfolding bytes_eq
put_to_route fuel address meta c head links h names route short =
    rw
      (
        names,
        arrived_whole (put_command meta) h.in_frame,
        put_at-put_on (put_command meta) meta (parse_put-put_command meta h.storable) fuel head
            links c.metadata_nodes route short,
      )
      refl

-- The metadata is taken by the head of the chain, which is the first that the client asks.
pub upload_metadata_route :
    (fuel : ℕ) (addresses : List Bytes) (meta : FileMetadata) (c : Cluster)
    → IsPutable meta
    → (chain : IsChainOf fuel addresses c.metadata_nodes)
    → upload_metadata fuel addresses meta c
      ≡ gives true
          (record c { metadata_nodes = put_on meta (chain.head ∷ chain.links) c.metadata_nodes })
unfolding upload_metadata put_metadata_to_node
upload_metadata_route fuel addresses meta c h chain =
    rw
      (
        chain.starts,
        put_to_route fuel (parse_address chain.first) meta c chain.head chain.links h
            chain.first_names chain.route chain.short,
      )
      refl

not_empty-ne-nil : (s : Bytes) → s ≢ [] → not_empty s ≡ true
not_empty-ne-nil [] h = absurd (h refl)
not_empty-ne-nil (c ∷ s) h = refl

-- The client finds it at the end of the chain, which is the first that it asks then.
pub find_metadata_route :
    (fuel : ℕ) (addresses : List Bytes) (meta : FileMetadata) (c : Cluster)
    → IsPutable meta
    → (chain : IsChainOf fuel addresses c.metadata_nodes)
    → find_metadata
        (backwards addresses [])
        meta.filename
        (record c { metadata_nodes = put_on meta (chain.head ∷ chain.links) c.metadata_nodes })
      ≡ went_on meta
unfolding find_metadata get_metadata_from_node
find_metadata_route fuel addresses meta c h chain =
    rw
      (
        chain.ends,
        chain.last_names,
        get_at-put_on meta chain.head chain.links c.metadata_nodes h.storable chain.route,
      )
      (rw (not_empty-ne-nil meta.filename h.storable.name_word.some_letter) refl)
