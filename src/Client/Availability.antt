-- ===== src/Client/Availability.antt =====
-- A download while one copy of each chunk is left.
use distributed_file_storage.Base.{
  ℕ, ◌+◌, ◌≡◌, ◌≢◌, ◌⊎◌, inl, inr, refl, sym, ap, ◌∙◌, true, some, List, [], ◌∷◌, Bytes, All, subst,
}
use distributed_file_storage.Base.Int.{pos}
use distributed_file_storage.Client.Address.{Address, no_colon, throws, endpoint, parse_address}
use distributed_file_storage.Client.Copies.{CopyAt, HasCopy, Copied}
use distributed_file_storage.Client.Download.{
  Client, went_on, chunk_at, download_chunk, or_rest, first_copy, chunk_with, download_chunks,
  find_metadata, backwards, download_file,
}
use distributed_file_storage.Client.Integrity.{
  download_file_intact, download_chunks-hashes, no_hashes,
}
use distributed_file_storage.Cluster.{Cluster, fetch_at}
use distributed_file_storage.Cluster.Chunks.{ContentAddressed}
use distributed_file_storage.Cluster.Copies.{fetch_at-ServedAt}
use distributed_file_storage.Dht.Members.{get_nodes_for_key-All}
use distributed_file_storage.Dht.Ring.{Ring, get_all_nodes}
use distributed_file_storage.Files.{Chunk, split_file_into_chunks, reconstruct_file, write_chunks}
use distributed_file_storage.Files.Order.{Numbered, reconstruct_file-Numbered}
use distributed_file_storage.Files.RoundTrip.{write_chunks-split}
use distributed_file_storage.Hashing.{hash_all_chunks, chunk_hashes}
use distributed_file_storage.Hashing.Cid.{WrittenCollision}
use distributed_file_storage.Hashing.Digests.{chunk_hashes-IsWord}
use distributed_file_storage.Metadata.{FileMetadata}
use distributed_file_storage.Streams.Words.{IsWord}

-- The port of the address does not make `std::stoi` throw.
abbrev pub Readable : Bytes → Type 0
Readable address = parse_address address ≢ throws

chunk_at_readable :
    (address : Address) (hash : Bytes) (c : Cluster)
    → address ≢ throws
    → (bytes : Bytes) × (chunk_at address hash c ≡ went_on bytes)
chunk_at_readable no_colon hash c h = ([], refl)
chunk_at_readable throws hash c h = absurd (h refl)
chunk_at_readable (endpoint link) hash c h = (fetch_at hash link c, refl)

module _ (hash : Bytes) (c : Cluster) (word : IsWord hash) where
  chunk_at-CopyAt :
      (address : Address)
      → CopyAt hash c address
      → (b : ℕ) × (bytes : Bytes) × (chunk_at address hash c ≡ went_on (b ∷ bytes))
  chunk_at-CopyAt no_colon h = absurd h
  chunk_at-CopyAt throws h = absurd h
  chunk_at-CopyAt (endpoint link) h =
      let (b, bytes, e) = fetch_at-ServedAt hash link c word h in (b, bytes, ap went_on e)

  first_copy_found :
      (address : Bytes) (addresses : List Bytes) (bytes : Bytes)
      → chunk_at (parse_address address) hash c ≡ went_on bytes
      → first_copy (address ∷ addresses) hash c ≡ or_rest bytes (first_copy addresses hash c)
  unfolding first_copy download_chunk
  first_copy_found address addresses bytes e = rw e refl

  or_rest_some :
      (first : Bytes) (b : ℕ) (bytes : Bytes)
      → (d : ℕ) × (ds : Bytes) × (or_rest first (went_on (b ∷ bytes)) ≡ went_on (d ∷ ds))
  or_rest_some [] b bytes = (b, bytes, refl)
  or_rest_some (d ∷ ds) b bytes = (d, ds, refl)

  first_copy-HasCopy :
      (addresses : List Bytes)
      → All Readable addresses
      → HasCopy hash addresses c
      → (b : ℕ) × (bytes : Bytes) × (first_copy addresses hash c ≡ went_on (b ∷ bytes))
  first_copy-HasCopy [] readable h = absurd h
  first_copy-HasCopy (address ∷ addresses) readable (inl here) =
      let (b, bytes, e) = chunk_at-CopyAt (parse_address address) here in
      (b, bytes, first_copy_found address addresses (b ∷ bytes) e)
  first_copy-HasCopy (address ∷ addresses) (read, readable) (inr there) =
      let (first, e) = chunk_at_readable (parse_address address) hash c read in
      let (b, bytes, later) = first_copy-HasCopy addresses readable there in
      let (d, ds, e') = or_rest_some first b bytes in
      (d, ds, first_copy_found address addresses first e ∙ ap (or_rest first) later ∙ e')

download_chunks-Copied :
    (ring : Ring) (index : ℕ) (hashes : List Bytes) (c : Cluster)
    → All Readable (get_all_nodes ring)
    → All IsWord hashes
    → All (Copied ring c) hashes
    → (chunks : List Chunk) × (download_chunks ring index hashes c ≡ went_on chunks)
unfolding download_chunks
download_chunks-Copied ring index [] c readable words copied = ([], refl)
download_chunks-Copied ring index (hash ∷ hashes) c readable (word, words)
      ((nodes, found, copy), copied) =
    let all_readable = get_nodes_for_key-All Readable hash (pos 2) ring nodes readable found in
    let (b, bytes, first) = first_copy-HasCopy hash c word nodes all_readable copy in
    let (rest, later) = download_chunks-Copied ring (index + 1) hashes c readable words copied in
    (chunk_with index hash (b ∷ bytes) ∷ rest, rw (found, first, later) refl)

pub none_split :
    (f : Bytes) (l : List Chunk)
    → f ≢ []
    → write_chunks l ≡ f
    → chunk_hashes (hash_all_chunks l) ≢ []
unfolding write_chunks hash_all_chunks chunk_hashes
none_split f [] some_byte w h = some_byte (sym w)
none_split f (x ∷ l) some_byte w h = cc

some_chunk :
    (f : Bytes) (chunks : List Chunk)
    → f ≢ []
    → chunk_hashes (hash_all_chunks chunks)
      ≡ chunk_hashes (hash_all_chunks (split_file_into_chunks (some f)))
    → chunks ≢ []
some_chunk f chunks some_byte e empty =
    none_split f (split_file_into_chunks (some f)) some_byte (write_chunks-split f)
      (sym e ∙ ap (λ l. chunk_hashes (hash_all_chunks l)) empty ∙ no_hashes)

written :
    (chunks : List Chunk)
    → chunks ≢ []
    → Numbered 0 chunks
    → (g : Bytes) × (reconstruct_file true chunks ≡ some g)
written [] h n = absurd (h refl)
written (c ∷ chunks) h n = (write_chunks (c ∷ chunks), reconstruct_file-Numbered c chunks n)

-- A file that is not empty, whose metadata can be read and lists the hashes of its chunks, is
-- written by a download as long as one of the two nodes that the ring names for each hash runs and
-- has a copy, whatever has become of the others. What is written is the file, or a part of it and a
-- chunk of the file differ and have one SHA-256 digest. The addresses in the ring are to be readable, and the nodes are
-- to have every chunk under its hash.
pub download_file_available :
    (client : Client) (filename f : Bytes) (c : Cluster) (meta : FileMetadata)
    → f ≢ []
    → ContentAddressed c
    → All Readable (get_all_nodes client.dht)
    → find_metadata (backwards client.metadata_nodes []) filename c ≡ went_on meta
    → meta.chunk_hashes ≡ chunk_hashes (hash_all_chunks (split_file_into_chunks (some f)))
    → All (Copied client.dht c) meta.chunk_hashes
    → (g : Bytes) × (download_file client filename true c ≡ went_on (some g))
      × ((g ≡ f) ⊎ WrittenCollision g f)
unfolding download_file
download_file_available client filename f c meta some_byte addressed readable known listed copied =
    let words =
      subst (All IsWord) (sym listed) (chunk_hashes-IsWord (split_file_into_chunks (some f))) in
    let (chunks, gathered) =
      download_chunks-Copied client.dht 0 meta.chunk_hashes c readable words copied in
    let (of_hashes, numbered) =
      download_chunks-hashes client.dht 0 meta.chunk_hashes c chunks words addressed gathered in
    let (g, out) = written chunks (some_chunk f chunks some_byte (of_hashes ∙ listed)) numbered in
    let downloaded : download_file client filename true c ≡ went_on (some g) =
      rw (known, gathered) (ap went_on out) in
    (
      g,
      downloaded,
      download_file_intact client filename f g true c meta addressed known listed downloaded,
    )
