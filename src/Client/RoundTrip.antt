-- ===== src/Client/RoundTrip.antt =====
-- An upload to the head of a chain, and the download of the file afterwards.
use distributed_file_storage.Base.{
  ℕ, ◌≡◌, ◌≢◌, ◌⊎◌, inl, inr, refl, sym, ap, ◌∙◌, subst, true, Option, none, some, List, [], ◌∷◌,
  Bytes, All, length,
}
use distributed_file_storage.Base.Int.{pos}
use distributed_file_storage.Client.Address.{Address, no_colon, throws, endpoint, parse_address}
use distributed_file_storage.Client.Availability.{Readable, download_file_available}
use distributed_file_storage.Client.Copies.{
  CopyAt, HasCopy, Copied, gives_inv, gives-injective, upload_chunks-Copied,
}
use distributed_file_storage.Client.Download.{
  Client, went_on, find_metadata, backwards, download_file,
}
use distributed_file_storage.Client.Upload.{
  gives, base_name, metadata_of_file, upload_metadata, upload_chunks, upload_split, upload_file,
}
use distributed_file_storage.Client.Uploads.{
  left_cluster, IsHashed, hash_all_chunks-IsHashed, upload_chunks_keeps,
  upload_file-ContentAddressed,
}
use distributed_file_storage.Cluster.{Cluster, MetadataNodes, store_with, store_at}
use distributed_file_storage.Cluster.Chunks.{ContentAddressed}
use distributed_file_storage.Dht.Ring.{Ring, get_all_nodes}
use distributed_file_storage.Files.{Chunk, chunk_size, split_file_into_chunks}
use distributed_file_storage.Files.Split.{split_file_into_chunks-AreChunks}
use distributed_file_storage.Hashing.{hash_all_chunks, chunk_hashes}
use distributed_file_storage.Hashing.Cid.{WrittenCollision}
use distributed_file_storage.Metadata.{Link}
use distributed_file_storage.Storage.{StorageNode}
use distributed_file_storage.Streams.Numbers.{Fits}
use distributed_file_storage.Streams.Words.{IsWord}
use distributed_file_storage.Client.Route.{
  PutFits, IsPutable, IsChainOf, metadata_of_file-IsPutable, upload_metadata_route,
  find_metadata_route,
}

HasCopy-metadata :
    (hash : Bytes) (addresses : List Bytes) (c : Cluster) (nodes : MetadataNodes)
    → HasCopy hash addresses c
    → HasCopy hash addresses (record c { metadata_nodes = nodes })
HasCopy-metadata hash [] c nodes h = h
HasCopy-metadata hash (address ∷ addresses) c nodes (inr there) =
    inr (HasCopy-metadata hash addresses c nodes there)
HasCopy-metadata hash (address ∷ addresses) c nodes (inl here) =
    inl (at_address (parse_address address) here)
  where
    at_address :
        (a : Address) → CopyAt hash c a → CopyAt hash (record c { metadata_nodes = nodes }) a
    at_address no_colon h = h
    at_address throws h = h
    at_address (endpoint link) h = h

Copied-chunk_hashes :
    (ring : Ring) (chunks : List Chunk) (c : Cluster) (nodes : MetadataNodes)
    → All (λ chunk. Copied ring c chunk.hash) chunks
    → All (Copied ring (record c { metadata_nodes = nodes })) (chunk_hashes chunks)
unfolding chunk_hashes
Copied-chunk_hashes ring [] c nodes h = tt
Copied-chunk_hashes ring (chunk ∷ chunks) c nodes ((at, found, copy), h) = (
  (at, found, HasCopy-metadata chunk.hash at c nodes copy),
  Copied-chunk_hashes ring chunks c nodes h,
)

store_at-metadata_nodes :
    (hash bytes : Bytes) (link : Link) (c : Cluster)
    → (store_at hash bytes link c).1.metadata_nodes ≡ c.metadata_nodes
unfolding store_at
store_at-metadata_nodes hash bytes link c = of_node (c.storage_nodes link)
  where
    of_node :
        (found : Option StorageNode)
        → (store_with hash bytes link c found).1.metadata_nodes ≡ c.metadata_nodes
    of_node none = refl
    of_node (some n) = refl

-- Uploading chunks does not touch the metadata nodes.
pub upload_chunks-metadata_nodes :
    (ring : Ring) (chunks : List Chunk) (c d : Cluster)
    → All IsHashed chunks
    → upload_chunks ring chunks c ≡ gives tt d
    → d.metadata_nodes ≡ c.metadata_nodes
upload_chunks-metadata_nodes ring chunks c d hashed e =
    ap (λ x. (left_cluster x).metadata_nodes) (sym e)
    ∙ upload_chunks_keeps (λ x. x.metadata_nodes ≡ c.metadata_nodes)
        (λ k _ link x h. store_at-metadata_nodes k.hash k.contents link x ∙ h) ring chunks c hashed
        refl

-- An upload that is complete has uploaded every chunk, and then put the metadata on the chain.
pub upload_split_inv :
    (fuel : ℕ) (client : Client) (path f : Bytes) (chunks : List Chunk) (c d : Cluster)
    → upload_split fuel client path f chunks c ≡ gives true d
    → (c1 : Cluster) × (upload_chunks client.dht (hash_all_chunks chunks) c ≡ gives tt c1)
      × (upload_metadata fuel client.metadata_nodes
            (metadata_of_file path f (hash_all_chunks chunks))
            c1
          ≡ gives true d)
upload_split_inv fuel client path f [] c d e = cc
upload_split_inv fuel client path f (chunk ∷ chunks) c d e =
    let (_, c1, e1, e2) =
      gives_inv (upload_chunks client.dht (hash_all_chunks (chunk ∷ chunks)) c) _ true d e in
    (c1, e1, e2)

-- After a complete upload the client finds the metadata, and each chunk has a copy.
upload_split_found :
    (fuel : ℕ) (client : Client) (path f : Bytes) (chunks : List Chunk) (c d : Cluster)
    → All IsHashed (hash_all_chunks chunks)
    → IsPutable (metadata_of_file path f (hash_all_chunks chunks))
    → IsChainOf fuel client.metadata_nodes c.metadata_nodes
    → upload_split fuel client path f chunks c ≡ gives true d
    → (find_metadata (backwards client.metadata_nodes []) (base_name path) d
        ≡ went_on (metadata_of_file path f (hash_all_chunks chunks)))
      × All (Copied client.dht d) (chunk_hashes (hash_all_chunks chunks))
unfolding metadata_of_file
upload_split_found fuel client path f chunks c d hashed h chain e =
    let meta = metadata_of_file path f (hash_all_chunks chunks) in
    let (c1, stored, put) = upload_split_inv fuel client path f chunks c d e in
    let chain1 =
      subst (IsChainOf fuel client.metadata_nodes)
        (sym (upload_chunks-metadata_nodes client.dht (hash_all_chunks chunks) c c1 hashed stored))
        chain in
    let (_, left) =
      gives-injective _ _ _ _
        (sym (upload_metadata_route fuel client.metadata_nodes meta c1 h chain1) ∙ put) in
    subst
      (λ x.
        (find_metadata (backwards client.metadata_nodes []) (base_name path) x ≡ went_on meta)
        × All (Copied client.dht x) (chunk_hashes (hash_all_chunks chunks)))
      left
      (
        find_metadata_route fuel client.metadata_nodes meta c1 h chain1,
        Copied-chunk_hashes client.dht (hash_all_chunks chunks) c1 _
            (upload_chunks-Copied client.dht (hash_all_chunks chunks) c c1 hashed stored),
      )

pub upload_file_step :
    (fuel : ℕ) (client : Client) (path f : Bytes) (c : Cluster)
    → upload_file fuel client path (some f) c
      ≡ upload_split fuel client path f (split_file_into_chunks (some f)) c
unfolding upload_file
upload_file_step fuel client path f c = refl

-- A complete upload leaves the metadata where the client looks for it, and a copy of each chunk.
pub upload_file_found :
    (fuel : ℕ) (client : Client) (path f : Bytes) (c d : Cluster)
    → f ≢ []
    → IsWord (base_name path)
    → Fits 64 (pos (length f))
    → Fits 32 (pos (length (split_file_into_chunks (some f))))
    → PutFits path f
    → IsChainOf fuel client.metadata_nodes c.metadata_nodes
    → upload_file fuel client path (some f) c ≡ gives true d
    → let hashed = hash_all_chunks (split_file_into_chunks (some f)) in
      (find_metadata (backwards client.metadata_nodes []) (base_name path) d
        ≡ went_on (metadata_of_file path f hashed))
      × All (Copied client.dht d) (chunk_hashes hashed)
upload_file_found fuel client path f c d some_byte name size total frame chain e =
    let chunks = split_file_into_chunks (some f) in
    upload_split_found fuel client path f chunks c d
      (hash_all_chunks-IsHashed chunk_size 0 chunks (split_file_into_chunks-AreChunks (some f)))
      (metadata_of_file-IsPutable path f some_byte name size total frame) chain
      (sym (upload_file_step fuel client path f c) ∙ e)

pub listed_hashes :
    (path f : Bytes) (chunks : List Chunk)
    → (metadata_of_file path f chunks).chunk_hashes ≡ chunk_hashes chunks
unfolding metadata_of_file
listed_hashes path f chunks = refl

-- A file with a byte in it is uploaded to a cluster whose metadata nodes are a chain with its head
-- first and its end last in the client's list, and whose storage nodes have every chunk under its
-- hash. If the upload is complete, a download of the file name then writes a file: the one that was
-- uploaded, or one with a part that differs from a chunk of it and has the same SHA-256 digest. The
-- name is to be a word, the size and the number of chunks are to fit their types, and the PUT of
-- the metadata is to be below 4 GiB, and the addresses in the ring are to be readable.
pub upload_file_then_download :
    (fuel : ℕ) (client : Client) (path f : Bytes) (c d : Cluster)
    → f ≢ []
    → IsWord (base_name path)
    → Fits 64 (pos (length f))
    → Fits 32 (pos (length (split_file_into_chunks (some f))))
    → PutFits path f
    → All Readable (get_all_nodes client.dht)
    → ContentAddressed c
    → IsChainOf fuel client.metadata_nodes c.metadata_nodes
    → upload_file fuel client path (some f) c ≡ gives true d
    → (g : Bytes) × (download_file client (base_name path) true d ≡ went_on (some g))
      × ((g ≡ f) ⊎ WrittenCollision g f)
upload_file_then_download fuel client path f c d some_byte name size total frame readable addressed
      chain e =
    let hashed = hash_all_chunks (split_file_into_chunks (some f)) in
    let (found, copied) =
      upload_file_found fuel client path f c d some_byte name size total frame chain e in
    let kept =
      subst ContentAddressed (ap left_cluster e)
        (upload_file-ContentAddressed fuel client path (some f) c addressed) in
    let listed = listed_hashes path f hashed in
    download_file_available client (base_name path) f d (metadata_of_file path f hashed) some_byte
      kept readable found listed (subst (All (Copied client.dht d)) (sym listed) copied)
