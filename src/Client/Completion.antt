-- ===== src/Client/Completion.antt =====
-- Uploads that come to their end: every storage node runs, and the metadata nodes are a chain.
use distributed_file_storage.Base.{
  ℕ, suc, ◌+◌, ◌<◌, ◌≡◌, ◌≢◌, refl, sym, ap, ◌∙◌, subst, true, some, List, [], ◌∷◌, Bytes, All,
  arith, length,
}
use distributed_file_storage.Base.Int.{pos}
use distributed_file_storage.Client.Address.{Address, no_colon, throws, endpoint, parse_address}
use distributed_file_storage.Client.Chunks.{not_empty}
use distributed_file_storage.Client.Download.{Client}
use distributed_file_storage.Client.RoundTrip.{upload_chunks-metadata_nodes, upload_file_step}
use distributed_file_storage.Client.Route.{
  PutFits, IsPutable, IsChainOf, metadata_of_file-IsPutable, upload_metadata_route,
}
use distributed_file_storage.Client.Upload.{
  gives, upload_to, upload_chunk, upload_copies, upload_chunks, upload_split, upload_file,
  add_nodes, new_client, base_name, metadata_of_file,
}
use distributed_file_storage.Client.Uploads.{
  left_cluster, IsHashed, hash_all_chunks-IsHashed, upload_to_keeps, upload_copies_keeps,
}
use distributed_file_storage.Cluster.{Cluster, Link_eq, store_at}
use distributed_file_storage.Cluster.Puts.{put_on}
use distributed_file_storage.Dht.Lookup.{IsRing, add_node-IsRing}
use distributed_file_storage.Dht.Members.{get_nodes_for_key-All}
use distributed_file_storage.Dht.Replicas.{get_nodes_for_key_first}
use distributed_file_storage.Dht.Ring.{Ring, add_node, get_node_for_key, get_all_nodes}
use distributed_file_storage.Files.{Chunk, chunk_size, split_file_into_chunks}
use distributed_file_storage.Files.RoundTrip.{split-ne-nil}
use distributed_file_storage.Files.Split.{AreChunks, split_file_into_chunks-AreChunks}
use distributed_file_storage.Hashing.{hash_all_chunks}
use distributed_file_storage.Streams.Numbers.{Fits}
use distributed_file_storage.Streams.Words.{IsWord}
use distributed_file_storage.Client.Running.{Reaches, RunsAt, store_at-RunsAt, store_at_up}

add_nodes-IsRing : (nodes : List Bytes) (ring : Ring) → IsRing ring → IsRing (add_nodes nodes ring)
unfolding add_nodes
add_nodes-IsRing [] ring h = h
add_nodes-IsRing (node ∷ nodes) ring h =
    add_nodes-IsRing nodes (add_node node ring) (add_node-IsRing node ring h)

-- The ring of a client is well-formed.
pub new_client-IsRing :
    (storage_nodes metadata_nodes : List Bytes)
    → IsRing (new_client storage_nodes metadata_nodes).dht
unfolding new_client
new_client-IsRing storage_nodes metadata_nodes =
    add_nodes-IsRing storage_nodes [] (record { sorted = tt; placed = tt })

module _ (chunk : Chunk) (word : IsWord chunk.hash)
    (some_byte : not_empty chunk.contents ≡ true) where
  pub upload_to_up :
      (address : Address) (c : Cluster)
      → Reaches c address
      → (d : Cluster) × (upload_to address chunk c ≡ gives true d)
  upload_to_up no_colon c h = absurd h
  upload_to_up throws c h = absurd h
  upload_to_up (endpoint link) c h = (
    (store_at chunk.hash chunk.contents link c).1,
    rw (store_at_up chunk.hash chunk.contents word link c some_byte h) refl,
  )

  -- Every copy is made.
  pub upload_copies_up :
      (addresses : List Bytes) (s : ℕ) (c : Cluster)
      → All (RunsAt c) addresses
      → (d : Cluster) × (upload_copies chunk addresses s c ≡ gives (s + length addresses) d)
  unfolding upload_copies upload_chunk
  upload_copies_up [] s c h = (c, ap (λ n. gives n c) (omega arith))
  upload_copies_up (address ∷ addresses) s c (ha, h) =
      let (c1, stored) = upload_to_up (parse_address address) c ha in
      let still : All (RunsAt c1) addresses =
        subst (λ x. All (RunsAt x) addresses) (ap left_cluster stored)
          (upload_to_keeps (λ x. All (RunsAt x) addresses) chunk
            (store_at-RunsAt chunk.hash chunk.contents word addresses) (parse_address address) c
            h) in
      let (d, e) = upload_copies_up addresses (s + 1) c1 still in
      (d, rw stored (e ∙ ap (λ n. gives n d) (omega arith)))

-- A chunk with a byte in it and the hash of its bytes.
abbrev pub IsFull : Chunk → Type 0
IsFull chunk = IsHashed chunk × (not_empty chunk.contents ≡ true)

pub hash_all_chunks-IsFull :
    (n i : ℕ) (chunks : List Chunk) → AreChunks n i chunks → All IsFull (hash_all_chunks chunks)
unfolding hash_all_chunks
hash_all_chunks-IsFull n i [] h = tt
hash_all_chunks-IsFull n i (c ∷ chunks) (index, size, some_byte, most, whole, h) = (
  (
    (hash_all_chunks-IsHashed n i (c ∷ chunks) (index, size, some_byte, most, whole, h)).0,
    full c.contents (omega (arith, size, some_byte)),
  ),
  hash_all_chunks-IsFull n (i + 1) chunks h,
)
  where
    full : (bytes : Bytes) → 0 < length bytes → not_empty bytes ≡ true
    full [] k = absurd (omega arith)
    full (b ∷ bytes) k = refl

module _ (ring : Ring) (well_formed : IsRing ring) (some_node : ring ≢ []) where
  pub upload_chunks_up :
      (chunks : List Chunk) (c : Cluster)
      → All IsFull chunks
      → All (RunsAt c) (get_all_nodes ring)
      → (d : Cluster) × (upload_chunks ring chunks c ≡ gives tt d)
  unfolding upload_chunks
  upload_chunks_up [] c full up = (c, refl)
  upload_chunks_up (chunk ∷ chunks) c (((hash, word), some_byte), full) up =
      let (others, found) =
        get_nodes_for_key_first chunk.hash (pos 2) ring well_formed some_node (omega arith) in
      let nodes = get_node_for_key chunk.hash ring ∷ others in
      let nodes_up = get_nodes_for_key-All (RunsAt c) chunk.hash (pos 2) ring nodes up found in
      let (c1, copied) = upload_copies_up chunk word some_byte nodes 0 c nodes_up in
      let copied' : upload_copies chunk nodes 0 c ≡ gives (suc (length others)) c1 =
        copied ∙ ap (λ n. gives n c1) (omega arith) in
      let still : All (RunsAt c1) (get_all_nodes ring) =
        subst (λ x. All (RunsAt x) (get_all_nodes ring)) (ap left_cluster copied)
          (upload_copies_keeps (λ x. All (RunsAt x) (get_all_nodes ring)) chunk
            (store_at-RunsAt chunk.hash chunk.contents word (get_all_nodes ring)) nodes 0 c up) in
      let (d, later) = upload_chunks_up chunks c1 full still in (d, rw (found, copied') later)

upload_split_up :
    (fuel : ℕ) (client : Client) (path f : Bytes) (chunks : List Chunk) (c : Cluster)
    → chunks ≢ []
    → All IsFull (hash_all_chunks chunks)
    → IsPutable (metadata_of_file path f (hash_all_chunks chunks))
    → IsRing client.dht
    → client.dht ≢ []
    → All (RunsAt c) (get_all_nodes client.dht)
    → IsChainOf fuel client.metadata_nodes c.metadata_nodes
    → (d : Cluster) × (upload_split fuel client path f chunks c ≡ gives true d)
upload_split_up fuel client path f [] c some_chunk full h ring some_node up chain =
    absurd (some_chunk refl)
upload_split_up fuel client path f (chunk ∷ chunks) c some_chunk full h ring some_node up chain =
    let hashed = hash_all_chunks (chunk ∷ chunks) in
    let (c1, stored) = upload_chunks_up client.dht ring some_node hashed c full up in
    let chain1 =
      subst (IsChainOf fuel client.metadata_nodes)
        (sym (upload_chunks-metadata_nodes client.dht hashed c c1 (All-hashed hashed full) stored))
        chain in
    let meta = metadata_of_file path f hashed in
    (
      record c1 { metadata_nodes = put_on meta (chain1.head ∷ chain1.links) c1.metadata_nodes },
      rw stored (upload_metadata_route fuel client.metadata_nodes meta c1 h chain1),
    )
  where
    All-hashed : (l : List Chunk) → All IsFull l → All IsHashed l
    All-hashed [] h = tt
    All-hashed (k ∷ l) ((hk, _), h) = (hk, All-hashed l h)

pub upload_file_complete :
    (fuel : ℕ) (client : Client) (path f : Bytes) (c : Cluster)
    → f ≢ []
    → IsWord (base_name path)
    → Fits 64 (pos (length f))
    → Fits 32 (pos (length (split_file_into_chunks (some f))))
    → PutFits path f
    → IsRing client.dht
    → client.dht ≢ []
    → All (RunsAt c) (get_all_nodes client.dht)
    → IsChainOf fuel client.metadata_nodes c.metadata_nodes
    → (d : Cluster) × (upload_file fuel client path (some f) c ≡ gives true d)
upload_file_complete fuel client path f c some_byte name size total frame ring some_node up chain =
    let chunks = split_file_into_chunks (some f) in
    let (d, e) =
      upload_split_up fuel client path f chunks c (split-ne-nil f some_byte)
        (hash_all_chunks-IsFull chunk_size 0 chunks (split_file_into_chunks-AreChunks (some f)))
        (metadata_of_file-IsPutable path f some_byte name size total frame) ring some_node up
        chain in
    (d, upload_file_step fuel client path f c ∙ e)
