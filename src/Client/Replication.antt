-- ===== src/Client/Replication.antt =====
-- The copies that an upload makes while every storage node runs: all that the ring names.
use distributed_file_storage.Base.{
  ℕ, ◌+◌, ◌≡◌, refl, sym, ap, ◌∙◌, subst, true, some, List, [], ◌∷◌, Bytes, All,
}
use distributed_file_storage.Base.Int.{pos}
use distributed_file_storage.Client.Address.{parse_address}
use distributed_file_storage.Client.Completion.{upload_to_up, IsFull}
use distributed_file_storage.Client.Copies.{
  CopyAt, gives_inv, store_at-CopyAt, upload_to-CopyAt, replicas-gives, replicas-same,
  some_copy-gives,
}
use distributed_file_storage.Client.Running.{RunsAt, store_at-RunsAt}
use distributed_file_storage.Client.Upload.{
  gives, upload_chunk, upload_copies, replicas, some_copy, upload_chunks,
}
use distributed_file_storage.Client.Uploads.{
  left_cluster, IsHashed, upload_to_keeps, upload_copies_keeps, upload_chunks_keeps,
}
use distributed_file_storage.Cluster.{Cluster}
use distributed_file_storage.Dht.Members.{get_nodes_for_key-All}
use distributed_file_storage.Dht.Ring.{Ring, get_nodes_for_key, get_all_nodes}
use distributed_file_storage.Files.{Chunk}
use distributed_file_storage.Client.Chunks.{not_empty}
use distributed_file_storage.Streams.Words.{IsWord}

-- Each of the addresses has a copy.
abbrev pub AllCopies : Bytes → List Bytes → Cluster → Type 0
AllCopies hash addresses c = All (λ address. CopyAt hash c (parse_address address)) addresses

-- Each of the two nodes that the ring names for the hash has a copy.
abbrev pub Replicated : Ring → Cluster → Bytes → Type 0
Replicated ring c hash =
    (nodes : List Bytes) × (get_nodes_for_key hash (pos 2) ring ≡ some nodes)
    × AllCopies hash nodes c

module _ (chunk : Chunk) (word : IsWord chunk.hash)
    (some_byte : not_empty chunk.contents ≡ true) where
  copy_of_upload :
      (address : Bytes) (c c1 : Cluster)
      → upload_chunk chunk address c ≡ gives true c1
      → CopyAt chunk.hash c1 (parse_address address)
  unfolding upload_chunk
  copy_of_upload address c c1 e = upload_to-CopyAt chunk word (parse_address address) c c1 e

  keeps_copies :
      (hash : Bytes) (nodes addresses : List Bytes) (s : ℕ) (c : Cluster)
      → AllCopies hash nodes c
      → AllCopies hash nodes (left_cluster (upload_copies chunk addresses s c))
  keeps_copies hash [] addresses s c h = tt
  keeps_copies hash (node ∷ nodes) addresses s c (here, h) = (
    upload_copies_keeps (λ x. CopyAt hash x (parse_address node)) chunk
        (λ link x. store_at-CopyAt chunk.hash chunk.contents hash word link x (parse_address node))
        addresses s c here,
    keeps_copies hash nodes addresses s c h,
  )

  upload_copies_split :
      (address : Bytes) (addresses : List Bytes) (s : ℕ) (c c1 : Cluster)
      → upload_chunk chunk address c ≡ gives true c1
      → upload_copies chunk (address ∷ addresses) s c ≡ upload_copies chunk addresses (s + 1) c1
  unfolding upload_copies
  upload_copies_split address addresses s c c1 e = rw e refl

  upload_chunk_up :
      (address : Bytes) (c : Cluster)
      → RunsAt c address
      → (c1 : Cluster) × (upload_chunk chunk address c ≡ gives true c1)
  unfolding upload_chunk
  upload_chunk_up address c h = upload_to_up chunk word some_byte (parse_address address) c h

  upload_chunk-RunsAt :
      (address : Bytes) (addresses : List Bytes) (c : Cluster)
      → All (RunsAt c) addresses
      → All (RunsAt (left_cluster (upload_chunk chunk address c))) addresses
  unfolding upload_chunk
  upload_chunk-RunsAt address addresses c h =
      upload_to_keeps (λ x. All (RunsAt x) addresses) chunk
        (store_at-RunsAt chunk.hash chunk.contents word addresses) (parse_address address) c h

  upload_copies-AllCopies :
      (addresses : List Bytes) (s : ℕ) (c : Cluster)
      → All (RunsAt c) addresses
      → AllCopies chunk.hash addresses (left_cluster (upload_copies chunk addresses s c))
  upload_copies-AllCopies [] s c up = tt
  upload_copies-AllCopies (address ∷ addresses) s c (ha, h) =
      let (c1, stored) = upload_chunk_up address c ha in
      let still =
        subst (λ x. All (RunsAt x) addresses) (ap left_cluster stored)
          (upload_chunk-RunsAt address addresses c h) in
      subst (λ o. AllCopies chunk.hash (address ∷ addresses) (left_cluster o))
        (sym (upload_copies_split address addresses s c c1 stored))
        (
          (keeps_copies chunk.hash (address ∷ []) addresses (s + 1) c1
              (copy_of_upload address c c1 stored, tt)).0,
          upload_copies-AllCopies addresses (s + 1) c1 still,
        )

-- Further uploads leave every copy.
upload_chunks-AllCopies :
    (hash : Bytes) (nodes : List Bytes) (ring : Ring) (chunks : List Chunk) (c d : Cluster)
    → All IsHashed chunks
    → upload_chunks ring chunks c ≡ gives tt d
    → AllCopies hash nodes c
    → AllCopies hash nodes d
upload_chunks-AllCopies hash [] ring chunks c d hashed e h = tt
upload_chunks-AllCopies hash (node ∷ nodes) ring chunks c d hashed e (here, h) = (
  subst (λ x. CopyAt hash x (parse_address node)) (ap left_cluster e)
      (upload_chunks_keeps (λ x. CopyAt hash x (parse_address node))
        (λ k (_, word) link x.
          store_at-CopyAt k.hash k.contents hash word link x (parse_address node))
        ring chunks c hashed here),
  upload_chunks-AllCopies hash nodes ring chunks c d hashed e h,
)

All-IsHashed : (chunks : List Chunk) → All IsFull chunks → All IsHashed chunks
All-IsHashed [] h = tt
All-IsHashed (k ∷ chunks) ((hk, _), h) = (hk, All-IsHashed chunks h)

-- While every node of the ring runs, an upload of chunks that comes to its end has left a copy of
-- each at both of the nodes that the ring names for it.
pub upload_chunks-Replicated :
    (ring : Ring) (chunks : List Chunk) (c d : Cluster)
    → All IsFull chunks
    → All (RunsAt c) (get_all_nodes ring)
    → upload_chunks ring chunks c ≡ gives tt d
    → All (λ chunk. Replicated ring d chunk.hash) chunks
unfolding upload_chunks
upload_chunks-Replicated ring [] c d full up e = tt
upload_chunks-Replicated ring (chunk ∷ chunks) c d (((hash, word), some_byte), full) up e =
    let found = get_nodes_for_key chunk.hash (pos 2) ring in
    let (nodes, c1, e1, f1) = gives_inv (replicas found c) _ tt d e in
    let (successes, c2, e2, f2) = gives_inv (upload_copies chunk nodes 0 c1) _ tt d f1 in
    let (done, c3, e3, f3) = gives_inv (some_copy successes c2) _ tt d f2 in
    let (_, same) = some_copy-gives successes c2 c3 e3 in
    let named = replicas-gives found nodes c c1 e1 in
    let up1 : All (RunsAt c1) (get_all_nodes ring) =
      subst (λ x. All (RunsAt x) (get_all_nodes ring)) (replicas-same found nodes c c1 e1) up in
    let left = ap left_cluster e2 ∙ same in
    let copies = subst (AllCopies chunk.hash nodes) left (
      upload_copies-AllCopies chunk word some_byte nodes 0 c1
        (get_nodes_for_key-All (RunsAt c1) chunk.hash (pos 2) ring nodes up1 named)) in
    let still : All (RunsAt c3) (get_all_nodes ring) =
      subst (λ x. All (RunsAt x) (get_all_nodes ring)) left
        (upload_copies_keeps (λ x. All (RunsAt x) (get_all_nodes ring)) chunk
          (store_at-RunsAt chunk.hash chunk.contents word (get_all_nodes ring)) nodes 0 c1 up1) in
    (
      (
        nodes,
        named,
        upload_chunks-AllCopies chunk.hash nodes ring chunks c3 d (All-IsHashed chunks full) f3
            copies,
      ),
      upload_chunks-Replicated ring chunks c3 d full still f3,
    )
