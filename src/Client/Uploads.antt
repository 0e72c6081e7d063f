-- ===== src/Client/Uploads.antt =====
-- What every upload keeps, whatever becomes of it.
use distributed_file_storage.Base.{
  ℕ, ◌≡◌, refl, sym, ap, ◌∙◌, true, false, Bool, Option, none, some, List, [], ◌∷◌, Bytes, All,
  take, arith, subst, if◌then◌else◌, ◌+◌, zero, suc,
}
use distributed_file_storage.Base.Index.{take-length}
use distributed_file_storage.Base.Int.{pos}
use distributed_file_storage.Client.Address.{Address, no_colon, throws, endpoint, parse_address}
use distributed_file_storage.Client.Download.{Client}
use distributed_file_storage.Client.Upload.{
  Ending, gives, returns, throwing, ◌>>=◌, upload_to, upload_chunk, upload_copies, replicas,
  some_copy, upload_chunks, put_to, put_metadata_to_node, upload_metadata, upload_split,
  upload_file, or_next, metadata_of_file,
}
use distributed_file_storage.Cluster.{Cluster, store_at}
use distributed_file_storage.Cluster.Chunks.{
  ContentAddressed, IsAddressed, chunk_under, store_at-ContentAddressed,
}
use distributed_file_storage.Dht.Ring.{Ring, get_nodes_for_key}
use distributed_file_storage.Files.{Chunk, split_file_into_chunks, chunk_size}
use distributed_file_storage.Files.Split.{AreChunks, split_file_into_chunks-AreChunks}
use distributed_file_storage.Hashing.{hash_all_chunks}
use distributed_file_storage.Hashing.Digests.{sha256-IsWord}
use distributed_file_storage.Metadata.{FileMetadata, Link}
use distributed_file_storage.Storage.{StorageNode}
use distributed_file_storage.Sha256.{sha256}
use distributed_file_storage.Streams.Words.{IsWord}

-- The cluster after a call, however the call ends.
abbrev pub left_cluster {ℓ} : {A : Type ℓ} → Ending A → Cluster
left_cluster (gives a c) = c
left_cluster (returns c) = c
left_cluster (throwing c) = c

-- What a part leaves and each continuation keeps, the whole leaves.
left_cluster_bind {ℓ κ μ} :
    {A : Type ℓ} {B : Type κ} (P : Cluster → Type μ) (o : Ending A) (next : A → Cluster → Ending B)
    → P (left_cluster o)
    → ((a : A) (c : Cluster) → P c → P (left_cluster (next a c)))
    → P (left_cluster (o >>= next))
left_cluster_bind P (gives a c) next h keeps = keeps a c h
left_cluster_bind P (returns c) next h keeps = h
left_cluster_bind P (throwing c) next h keeps = h

-- The hash of the chunk is that of its bytes.
abbrev pub IsHashed : Chunk → Type 0
IsHashed chunk = (sha256 chunk.contents ≡ chunk.hash) × IsWord chunk.hash

pub hash_all_chunks-IsHashed :
    (n i : ℕ) (chunks : List Chunk) → AreChunks n i chunks → All IsHashed (hash_all_chunks chunks)
unfolding hash_all_chunks
hash_all_chunks-IsHashed n i [] h = tt
hash_all_chunks-IsHashed n i (c ∷ chunks) (_, size, _, _, _, h) = (
  (
    ap sha256 (sym (take-length c.size c.contents (omega (arith, size)))),
    sha256-IsWord (take c.size c.contents),
  ),
  hash_all_chunks-IsHashed n (i + 1) chunks h,
)

-- What no store of the chunk takes away, no upload of it does.
module _ {μ} (P : Cluster → Type μ) (chunk : Chunk)
    (keeps : (link : Link) (c : Cluster)
      → P c
      → P (store_at chunk.hash chunk.contents link c).1) where
  pub upload_to_keeps :
      (address : Address) (c : Cluster) → P c → P (left_cluster (upload_to address chunk c))
  upload_to_keeps no_colon c h = h
  upload_to_keeps throws c h = h
  upload_to_keeps (endpoint link) c h = keeps link c h

  pub upload_copies_keeps :
      (addresses : List Bytes) (successes : ℕ) (c : Cluster)
      → P c
      → P (left_cluster (upload_copies chunk addresses successes c))
  unfolding upload_copies upload_chunk
  upload_copies_keeps [] successes c h = h
  upload_copies_keeps (address ∷ addresses) successes c h =
      left_cluster_bind P (upload_chunk chunk address c) _
        (upload_to_keeps (parse_address address) c h)
        λ stored c'. upload_copies_keeps addresses (if stored then successes + 1 else successes) c'

replicas-left : (nodes : Option (List Bytes)) (c : Cluster) → left_cluster (replicas nodes c) ≡ c
replicas-left none c = refl
replicas-left (some nodes) c = refl

some_copy-left : (successes : ℕ) (c : Cluster) → left_cluster (some_copy successes c) ≡ c
some_copy-left zero c = refl
some_copy-left (suc n) c = refl

module _ {μ} (P : Cluster → Type μ)
    (keeps : (chunk : Chunk)
      → IsHashed chunk
      → (link : Link) (c : Cluster) → P c
      → P (store_at chunk.hash chunk.contents link c).1) where
  pub upload_chunks_keeps :
      (ring : Ring) (chunks : List Chunk) (c : Cluster)
      → All IsHashed chunks
      → P c
      → P (left_cluster (upload_chunks ring chunks c))
  unfolding upload_chunks
  upload_chunks_keeps ring [] c hashed h = h
  upload_chunks_keeps ring (chunk ∷ chunks) c (hash, hashed) h =
      left_cluster_bind P (replicas (get_nodes_for_key chunk.hash (pos 2) ring) c) _
        (subst P (sym (replicas-left (get_nodes_for_key chunk.hash (pos 2) ring) c)) h)
        λ nodes c1 h1.
          left_cluster_bind P (upload_copies chunk nodes 0 c1) _
            (upload_copies_keeps P chunk (keeps chunk hash) nodes 0 c1 h1)
            λ successes c2 h2.
              left_cluster_bind P (some_copy successes c2) _
                (subst P (sym (some_copy-left successes c2)) h2)
                λ done c3 h3. upload_chunks_keeps ring chunks c3 hashed h3

put_to-storage_nodes :
    (fuel : ℕ) (address : Address) (meta : FileMetadata) (c : Cluster)
    → (left_cluster (put_to fuel address meta c)).storage_nodes ≡ c.storage_nodes
put_to-storage_nodes fuel no_colon meta c = refl
put_to-storage_nodes fuel throws meta c = refl
put_to-storage_nodes fuel (endpoint link) meta c = refl

or_next-storage_nodes :
    {nodes : Link → Option StorageNode} (acknowledged : Bool) (c : Cluster) (next : Ending Bool)
    → c.storage_nodes ≡ nodes
    → (left_cluster next).storage_nodes ≡ nodes
    → (left_cluster (or_next acknowledged c next)).storage_nodes ≡ nodes
or_next-storage_nodes true c next h h' = h
or_next-storage_nodes false c next h h' = h'

-- Storing the metadata does not touch the storage nodes.
pub upload_metadata-storage_nodes :
    (fuel : ℕ) (addresses : List Bytes) (meta : FileMetadata) (c : Cluster)
    → (left_cluster (upload_metadata fuel addresses meta c)).storage_nodes ≡ c.storage_nodes
unfolding upload_metadata put_metadata_to_node
upload_metadata-storage_nodes fuel [] meta c = refl
upload_metadata-storage_nodes fuel (address ∷ addresses) meta c =
    left_cluster_bind (λ d. d.storage_nodes ≡ c.storage_nodes)
      (put_metadata_to_node fuel address meta c) _
      (put_to-storage_nodes fuel (parse_address address) meta c)
      λ acknowledged c' h.
        or_next-storage_nodes acknowledged c' _ h
          (upload_metadata-storage_nodes fuel addresses meta c' ∙ h)

upload_split-ContentAddressed :
    (fuel : ℕ) (client : Client) (path file : Bytes) (chunks : List Chunk) (c : Cluster)
    → AreChunks chunk_size 0 chunks
    → ContentAddressed c
    → ContentAddressed (left_cluster (upload_split fuel client path file chunks c))
upload_split-ContentAddressed fuel client path file [] c sizes h = h
upload_split-ContentAddressed fuel client path file (chunk ∷ chunks) c sizes h =
    let hashed = hash_all_chunks (chunk ∷ chunks) in
    let meta = metadata_of_file path file hashed in
    left_cluster_bind ContentAddressed (upload_chunks client.dht hashed c) _
      (upload_chunks_keeps ContentAddressed
        (λ k (e, word) link x. store_at-ContentAddressed k.hash k.contents link x word e) client.dht
        hashed c (hash_all_chunks-IsHashed chunk_size 0 (chunk ∷ chunks) sizes) h)
      λ done c' h'.
        subst Addressed (sym (upload_metadata-storage_nodes fuel client.metadata_nodes meta c')) h'
  where
    Addressed : (Link → Option StorageNode) → Type 0
    Addressed nodes =
        (link : Link) (hash : Bytes) → IsAddressed hash (chunk_under hash (nodes link))

-- If every chunk that the storage nodes have stands under its hash, so it is after an upload,
-- complete or not, with an exception or without.
pub upload_file-ContentAddressed :
    (fuel : ℕ) (client : Client) (path : Bytes) (file : Option Bytes) (c : Cluster)
    → ContentAddressed c
    → ContentAddressed (left_cluster (upload_file fuel client path file c))
unfolding upload_file
upload_file-ContentAddressed fuel client path none c h = h
upload_file-ContentAddressed fuel client path (some file) c h =
    upload_split-ContentAddressed fuel client path file (split_file_into_chunks (some file)) c
      (split_file_into_chunks-AreChunks (some file)) h
