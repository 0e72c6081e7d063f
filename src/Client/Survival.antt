-- ===== src/Client/Survival.antt =====
-- A file that is downloaded although a storage node has been lost.
use distributed_file_storage.Base.{
  ℕ, ◌≤◌, ◌≡◌, ◌≢◌, ◌⊎◌, inl, inr, refl, sym, ap, ◌∙◌, subst, Bool-cases, true, some, List, [], ◌∷◌,
  Bytes, All, arith, length,
}
use distributed_file_storage.Base.Equality.{◌==◌}
use distributed_file_storage.Base.Int.{pos}
use distributed_file_storage.Client.Address.{Address, no_colon, throws, endpoint, parse_address}
use distributed_file_storage.Client.Availability.{download_file_available}
use distributed_file_storage.Client.Completion.{hash_all_chunks-IsFull, upload_file_complete}
use distributed_file_storage.Client.Copies.{CopyAt, Copied}
use distributed_file_storage.Client.Download.{
  Client, went_on, ◌>>=◌, metadata_at, get_metadata_from_node, found_or, is_found, find_metadata,
  backwards, download_file,
}
use distributed_file_storage.Client.Replication.{AllCopies, Replicated, upload_chunks-Replicated}
use distributed_file_storage.Client.Route.{PutFits, IsChainOf}
use distributed_file_storage.Client.RoundTrip.{
  upload_file_found, upload_file_step, upload_split_inv, listed_hashes,
}
use distributed_file_storage.Client.Running.{RunsAt, RunsAt-Readable}
use distributed_file_storage.Client.Upload.{gives, base_name, metadata_of_file, upload_file}
use distributed_file_storage.Client.Uploads.{
  left_cluster, upload_metadata-storage_nodes, upload_file-ContentAddressed,
}
use distributed_file_storage.Cluster.{Cluster, Link_eq}
use distributed_file_storage.Cluster.Chunks.{ContentAddressed}
use distributed_file_storage.Cluster.Copies.{Serves}
use distributed_file_storage.Dht.Lookup.{IsRing}
use distributed_file_storage.Dht.Ring.{Ring, get_all_nodes, get_node_count}
use distributed_file_storage.Files.{Chunk, chunk_size, split_file_into_chunks}
use distributed_file_storage.Files.Split.{split_file_into_chunks-AreChunks}
use distributed_file_storage.Hashing.{hash_all_chunks, chunk_hashes}
use distributed_file_storage.Hashing.Cid.{WrittenCollision}
use distributed_file_storage.Metadata.{Link}
use distributed_file_storage.Streams.Numbers.{Fits}
use distributed_file_storage.Streams.Words.{IsWord}
use distributed_file_storage.Client.Failover.{without, AreEndpoints, Replicated-Copied}

-- The metadata is found as before.
get_metadata-without :
    (address : Address) (filename : Bytes) (lost : Link) (c : Cluster)
    → metadata_at address filename (without lost c) ≡ metadata_at address filename c
get_metadata-without no_colon filename lost c = refl
get_metadata-without throws filename lost c = refl
get_metadata-without (endpoint link) filename lost c = refl

find_metadata-without :
    (addresses : List Bytes) (filename : Bytes) (lost : Link) (c : Cluster)
    → find_metadata addresses filename (without lost c) ≡ find_metadata addresses filename c
unfolding find_metadata get_metadata_from_node
find_metadata-without [] filename lost c = refl
find_metadata-without (address ∷ addresses) filename lost c =
    let later = find_metadata-without addresses filename lost c in
    ap
      (λ r. r >>= λ meta.
        found_or (is_found meta) meta (find_metadata addresses filename (without lost c)))
      (get_metadata-without (parse_address address) filename lost c)
    ∙ ap
        (λ next. metadata_at (parse_address address) filename c >>= λ meta.
          found_or (is_found meta) meta next)
        later

without-ContentAddressed :
    (lost : Link) (c : Cluster) → ContentAddressed c → ContentAddressed (without lost c)
without-ContentAddressed lost c h link hash = elim (Bool-cases (lost == link)) [
  | inl same ↦ rw same tt
  | inr apart ↦ rw apart (h link hash)
]

CopyAt-storage_nodes :
    (hash : Bytes) (c d : Cluster) (address : Address)
    → d.storage_nodes ≡ c.storage_nodes
    → CopyAt hash c address
    → CopyAt hash d address
CopyAt-storage_nodes hash c d no_colon same h = h
CopyAt-storage_nodes hash c d throws same h = h
CopyAt-storage_nodes hash c d (endpoint link) same h =
    subst (Serves hash) (ap (λ nodes. nodes link) (sym same)) h

AllCopies-storage_nodes :
    (hash : Bytes) (addresses : List Bytes) (c d : Cluster)
    → d.storage_nodes ≡ c.storage_nodes
    → AllCopies hash addresses c
    → AllCopies hash addresses d
AllCopies-storage_nodes hash [] c d same h = tt
AllCopies-storage_nodes hash (address ∷ addresses) c d same (here, h) = (
  CopyAt-storage_nodes hash c d (parse_address address) same here,
  AllCopies-storage_nodes hash addresses c d same h,
)

-- The copies of the chunks, by their hashes.
copies_left :
    (ring : Ring) (lost : Link) (chunks : List Chunk) (c d : Cluster)
    → IsRing ring
    → 2 ≤ get_node_count ring
    → AreEndpoints ring
    → d.storage_nodes ≡ c.storage_nodes
    → All (λ chunk. Replicated ring c chunk.hash) chunks
    → All (Copied ring (without lost d)) (chunk_hashes chunks)
unfolding chunk_hashes
copies_left ring lost [] c d well_formed two apart same h = tt
copies_left ring lost (chunk ∷ chunks) c d well_formed two apart same ((nodes, found, copies), h) =
    (
      Replicated-Copied ring chunk.hash lost d well_formed two apart
          (nodes, found, AllCopies-storage_nodes chunk.hash nodes c d same copies),
      copies_left ring lost chunks c d well_formed two apart same h,
    )

module _ (fuel : ℕ) (client : Client) (path f : Bytes) (c : Cluster) where
  -- Behind a complete upload with every node up, each chunk has its copies.
  uploaded-Copied :
      (lost : Link) (d : Cluster)
      → IsRing client.dht
      → 2 ≤ get_node_count client.dht
      → AreEndpoints client.dht
      → All (RunsAt c) (get_all_nodes client.dht)
      → upload_file fuel client path (some f) c ≡ gives true d
      → All
          (Copied client.dht (without lost d))
          (chunk_hashes (hash_all_chunks (split_file_into_chunks (some f))))
  uploaded-Copied lost d well_formed two apart up e =
      let chunks = split_file_into_chunks (some f) in
      let hashed = hash_all_chunks chunks in
      let (c1, stored, put) =
        upload_split_inv fuel client path f chunks c d
          (sym (upload_file_step fuel client path f c) ∙ e) in
      let same : d.storage_nodes ≡ c1.storage_nodes =
        ap (λ o. (left_cluster o).storage_nodes) (sym put)
        ∙ upload_metadata-storage_nodes fuel client.metadata_nodes (metadata_of_file path f hashed)
            c1 in
      copies_left client.dht lost hashed c1 d well_formed two apart same (
        upload_chunks-Replicated client.dht hashed c c1
          (hash_all_chunks-IsFull chunk_size 0 chunks (split_file_into_chunks-AreChunks (some f)))
          up stored)

some_node : (ring : Ring) → 2 ≤ get_node_count ring → ring ≢ []
unfolding get_node_count
some_node [] h = absurd (omega arith)
some_node (entry ∷ ring) h = λ e. cc

-- Let a running storage node listen at every address of the ring, of which there are two at least,
-- and let different addresses be different endpoints. Then the upload of a file with a byte in it
-- is complete, and whichever storage node is lost after that, a download of the file name writes a
-- file: the one that was uploaded, or one with a part that differs from a chunk of it and has the
-- same SHA-256 digest. The storage nodes are to have every chunk under its hash, the metadata nodes
-- are to be a chain with its head first and its end last in the client's list, the name is to be a
-- word, the size and the number of chunks are to fit their types, and the PUT of the metadata
-- is to be below 4 GiB.
pub survives_one_loss :
    (fuel : ℕ) (client : Client) (path f : Bytes) (c : Cluster) (lost : Link)
    → f ≢ []
    → IsWord (base_name path)
    → Fits 64 (pos (length f))
    → Fits 32 (pos (length (split_file_into_chunks (some f))))
    → PutFits path f
    → IsRing client.dht
    → 2 ≤ get_node_count client.dht
    → AreEndpoints client.dht
    → All (RunsAt c) (get_all_nodes client.dht)
    → ContentAddressed c
    → IsChainOf fuel client.metadata_nodes c.metadata_nodes
    → (d : Cluster) × (g : Bytes) × (upload_file fuel client path (some f) c ≡ gives true d)
      × (download_file client (base_name path) true (without lost d) ≡ went_on (some g))
      × ((g ≡ f) ⊎ WrittenCollision g f)
survives_one_loss fuel client path f c lost some_byte name size total frame well_formed two apart up
      addressed chain =
    let hashed = hash_all_chunks (split_file_into_chunks (some f)) in
    let meta = metadata_of_file path f hashed in
    let (d, uploaded) =
      upload_file_complete fuel client path f c some_byte name size total frame well_formed
        (some_node client.dht two) up chain in
    let (found, _) =
      upload_file_found fuel client path f c d some_byte name size total frame chain uploaded in
    let kept =
      subst ContentAddressed (ap left_cluster uploaded)
        (upload_file-ContentAddressed fuel client path (some f) c addressed) in
    let copied = uploaded-Copied fuel client path f c lost d well_formed two apart up uploaded in
    let listed = listed_hashes path f hashed in
    let (g, written, same) =
      download_file_available client (base_name path) f (without lost d) meta some_byte
        (without-ContentAddressed lost d kept) (RunsAt-Readable c (get_all_nodes client.dht) up)
        (find_metadata-without (backwards client.metadata_nodes []) (base_name path) lost d ∙ found)
        listed (subst (All (Copied client.dht (without lost d))) (sym listed) copied) in
    (d, g, uploaded, written, same)
