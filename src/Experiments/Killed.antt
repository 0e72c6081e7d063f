-- ===== src/Experiments/Killed.antt =====
-- A storage node of a deployment that is killed between an upload and the download.
use mathlib.Core.Path.{fun_ext}
use distributed_file_storage.Apps.{main_client}
use distributed_file_storage.Base.{
  ℕ, ◌+◌, ◌<◌, ◌≤◌, ◌≡◌, ◌≢◌, ◌⊎◌, inl, inr, refl, sym, ap, ◌∙◌, subst, Bool-cases, Bool, Option,
  true, false, none, codes, some, List, [], ◌∷◌, Bytes, arith, length,
}
use distributed_file_storage.Base.Equality.{◌==◌, bytes_eq}
use distributed_file_storage.Base.Int.{pos}
use distributed_file_storage.Client.Answers.{download_file_same}
use distributed_file_storage.Client.Chunks.{download_chunk_down}
use distributed_file_storage.Storage.{StorageNode, handle_command}
use distributed_file_storage.Client.Address.{Address, no_colon, throws, endpoint, parse_address}
use distributed_file_storage.Client.Copies.{gives-injective}
use distributed_file_storage.Client.Download.{Client, went_on, download_file}
use distributed_file_storage.Client.Failover.{without, AreEndpoints, SameEndpoint}
use distributed_file_storage.Client.Route.{
  PutFits, IsChainOf, metadata_of_file-IsPutable, upload_metadata_route,
}
use distributed_file_storage.Client.RoundTrip.{
  upload_file_step, upload_split_inv, upload_chunks-metadata_nodes,
}
use distributed_file_storage.Client.Survival.{survives_one_loss}
use distributed_file_storage.Client.Upload.{
  add_nodes, gives, base_name, metadata_of_file, upload_file,
}
use distributed_file_storage.Client.Uploads.{hash_all_chunks-IsHashed}
use distributed_file_storage.Cluster.{
  Cluster, Link_eq, link_eq_iff, MetadataNodes, fetch_from, fetch_at,
}
use distributed_file_storage.Cluster.Chunks.{ContentAddressed}
use distributed_file_storage.Cluster.Puts.{on_route, put_on}
use distributed_file_storage.Dht.Ring.{add_node, get_all_nodes, get_node_count}
use distributed_file_storage.Experiments.Clear.{IsClear, die_storage, same_port}
use distributed_file_storage.Experiments.Deploy.{local_link, start_cluster, kill_node, storage_left}
use distributed_file_storage.Experiments.Journeys.{
  main_client-IsRing, main_client_nodes, read_first, read_second, started-IsChainOf, started-RunsAt,
}
use distributed_file_storage.Experiments.Kept.{
  start_cluster-ContentAddressed, start_cluster-no_metadata,
}
use distributed_file_storage.Experiments.Started.{start_cluster-IsStarted}
use distributed_file_storage.Files.{chunk_size, split_file_into_chunks}
use distributed_file_storage.Files.Split.{split_file_into_chunks-AreChunks}
use distributed_file_storage.Hashing.{hash_all_chunks}
use distributed_file_storage.Hashing.Cid.{WrittenCollision}
use distributed_file_storage.Metadata.{FileMetadata, Link}
use distributed_file_storage.Streams.Numbers.{Fits}
use distributed_file_storage.Streams.Words.{IsWord}

put_on-none :
    (meta : FileMetadata) (links : List Link) (nodes : MetadataNodes) (link : Link)
    → nodes link ≡ none
    → put_on meta links nodes link ≡ none
put_on-none meta links nodes link h = elim (Bool-cases (on_route link links)) [
  | inl there ↦ rw (there, h) refl
  | inr away ↦ rw away h
]

-- Where no metadata node listens, none does after a complete upload.
uploaded_none :
    (fuel : ℕ) (client : Client) (path f : Bytes) (c d : Cluster) (link : Link)
    → f ≢ []
    → IsWord (base_name path)
    → Fits 64 (pos (length f))
    → Fits 32 (pos (length (split_file_into_chunks (some f))))
    → PutFits path f
    → IsChainOf fuel client.metadata_nodes c.metadata_nodes
    → upload_file fuel client path (some f) c ≡ gives true d
    → c.metadata_nodes link ≡ none
    → d.metadata_nodes link ≡ none
uploaded_none fuel client path f c d link some_byte name size total frame chain e h =
    let chunks = split_file_into_chunks (some f) in
    let meta = metadata_of_file path f (hash_all_chunks chunks) in
    let (c1, stored, put) =
      upload_split_inv fuel client path f chunks c d
        (sym (upload_file_step fuel client path f c) ∙ e) in
    let same =
      upload_chunks-metadata_nodes client.dht (hash_all_chunks chunks) c c1
        (hash_all_chunks-IsHashed chunk_size 0 chunks (split_file_into_chunks-AreChunks (some f)))
        stored in
    let chain1 = subst (IsChainOf fuel client.metadata_nodes) (sym same) chain in
    let storable = metadata_of_file-IsPutable path f some_byte name size total frame in
    let (_, left) =
      gives-injective _ _ _ _
        (sym (upload_metadata_route fuel client.metadata_nodes meta c1 storable chain1) ∙ put) in
    subst (λ x. x.metadata_nodes link ≡ none) left
      (put_on-none meta (chain1.head ∷ chain1.links) c1.metadata_nodes link
        (ap (λ nodes. nodes link) same ∙ h))

fetch_dead :
    (hash : Bytes) (released : Bool) (o : Option StorageNode)
    → fetch_from hash (storage_left released o) ≡ []
fetch_dead hash released none = refl
fetch_dead hash true (some n) = rw (die_storage n) refl
fetch_dead hash false (some n) =
    rw (die_storage n)
      (download_chunk_down hash (handle_command (codes "DIE") n).node (die_storage n))

-- Behind `DIE` a storage node gives no chunk, whether or not its port is free.
kill_node-fetch_at :
    (released : Bool) (port : ℕ) (c : Cluster) (hash : Bytes) (link : Link)
    → fetch_at hash link (kill_node released port c)
      ≡ fetch_at hash link (without (local_link port) c)
unfolding kill_node fetch_at
kill_node-fetch_at released port c hash link = elim (Bool-cases (local_link port == link)) [
  | inl here ↦ rw here (fetch_dead hash released (c.storage_nodes (local_link port)))
  | inr away ↦ rw away refl
]

kill_node-metadata_nodes :
    (released : Bool) (port : ℕ) (c : Cluster)
    → c.metadata_nodes (local_link port) ≡ none
    → (kill_node released port c).metadata_nodes ≡ c.metadata_nodes
unfolding kill_node
kill_node-metadata_nodes released port c h = fun_ext λ other.
    elim (Bool-cases (local_link port == other)) [
      | inl same ↦
          rw (same, h) (sym h ∙ ap c.metadata_nodes ((link_eq_iff (local_link port) other).0 same))
      | inr apart ↦ rw apart refl
    ]

pub two_nodes_known : get_node_count main_client.dht ≡ 2
unfolding main_client add_nodes add_node get_node_count distributed_file_storage.Dht.Ring.insert
    bytes_eq
two_nodes_known = refl

endpoint_link : Address → Link → Link
endpoint_link no_colon d = d
endpoint_link throws d = d
endpoint_link (endpoint link) d = link

different_ports :
    {x y : Bytes} (port other : ℕ)
    → parse_address x ≡ endpoint (local_link port)
    → parse_address y ≡ endpoint (local_link other)
    → port ≢ other
    → SameEndpoint x y
    → x ≡ y
unfolding endpoint_link
different_ports port other ex ey differ (link, hx, hy) =
    let of_port = ap (λ a. endpoint_link a link) (sym ex ∙ hx) in
    let of_other = ap (λ a. endpoint_link a link) (sym ey ∙ hy) in
    absurd (differ (same_port port other (of_port ∙ sym of_other)))

pub main_client-AreEndpoints : AreEndpoints main_client.dht
main_client-AreEndpoints = rw main_client_nodes (
  (λ s. refl, (different_ports 8001 8002 read_first read_second (omega arith), tt)),
  ((different_ports 8002 8001 read_second read_first (omega arith), (λ s. refl, tt)), tt),
)

-- Let the ports of a deployment be free, and `startCluster` start the two storage nodes that the
-- programs know. Then the upload of a file with a byte in it is complete, and if either of the two
-- is killed after that, whether or not its port is free then, a download of the file name writes a
-- file: the one that was uploaded, or one with a part that differs from a chunk of it and has the
-- same SHA-256 digest. Storage nodes that listen elsewhere are to have every chunk under its hash,
-- the name of the file is to be a word, and its size and the number of its chunks are to fit their
-- types, and the PUT of the metadata is to be below 4 GiB.
pub killed_then_download :
    (fuel k : ℕ) (released : Bool) (path f : Bytes) (c : Cluster)
    → 3 ≤ fuel
    → k < 2
    → IsClear 2 c
    → ContentAddressed c
    → f ≢ []
    → IsWord (base_name path)
    → Fits 64 (pos (length f))
    → Fits 32 (pos (length (split_file_into_chunks (some f))))
    → PutFits path f
    → (d : Cluster) × (g : Bytes) × (upload_file fuel main_client path (some f) (start_cluster 2 c)
        ≡ gives true d)
      × (download_file main_client (base_name path) true (kill_node released (8001 + k) d)
          ≡ went_on (some g))
      × ((g ≡ f) ⊎ WrittenCollision g f)
killed_then_download fuel k released path f c enough few clear addressed some_byte name size total
      frame =
    let start = start_cluster 2 c in
    let started = start_cluster-IsStarted 2 c (omega arith) clear in
    let chain = started-IsChainOf start 2 started fuel enough in
    let (d, g, uploaded, written, same) =
      survives_one_loss fuel main_client path f start (local_link (8001 + k)) some_byte name size
        total frame main_client-IsRing (omega (arith, two_nodes_known)) main_client-AreEndpoints
        (started-RunsAt start 2 started (omega arith))
        (start_cluster-ContentAddressed 2 c addressed) chain in
    let no_metadata =
      uploaded_none fuel main_client path f start d (local_link (8001 + k)) some_byte name size
        total frame chain uploaded
        (start_cluster-no_metadata 2 (8001 + k) c (omega arith)
          (clear.storage_free k few).no_metadata) in
    (
      d,
      g,
      uploaded,
      download_file_same (kill_node released (8001 + k) d) (without (local_link (8001 + k)) d)
            (kill_node-fetch_at released (8001 + k) d)
            (kill_node-metadata_nodes released (8001 + k) d no_metadata) main_client
            (base_name path) true
          ∙ written,
      same,
    )
