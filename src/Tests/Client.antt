-- ===== src/Tests/Client.antt =====
-- A client with one storage node and a chain of two metadata nodes.
use distributed_file_storage.Base.{
  ℕ, ◌≡◌, ◌≢◌, ◌⊎◌, refl, sym, ap, subst, ◌∙◌, true, none, some, List, [], ◌∷◌, ◌++◌, Bytes, codes,
  All, arith, Bool-cases, inl, inr, length,
}
use distributed_file_storage.Base.Int.{pos}
use distributed_file_storage.Base.Assoc.{lookup}
use distributed_file_storage.Base.Equality.{◌==◌, bytes_eq}
use distributed_file_storage.Client.Address.{endpoint, parse_address, parse_address-to_string}
use distributed_file_storage.Client.Availability.{Readable}
use distributed_file_storage.Client.Completion.{
  new_client-IsRing, upload_file_complete, upload_chunks_up, hash_all_chunks-IsFull,
}
use distributed_file_storage.Client.Copies.{Copied}
use distributed_file_storage.Client.Integrity.{download_file_intact}
use distributed_file_storage.Client.Route.{IsChainOf, PutFits}
use distributed_file_storage.Client.Running.{RunsAt}
use distributed_file_storage.Client.Uploads.{left_cluster, upload_file-ContentAddressed}
use distributed_file_storage.Files.Split.{split_file_into_chunks-AreChunks}
use distributed_file_storage.Hashing.{hash_all_chunks, chunk_hashes}
use distributed_file_storage.Client.Download.{
  Client, went_on, download_file, find_metadata, backwards,
}
use distributed_file_storage.Client.RoundTrip.{
  upload_file_then_download, upload_file_found, listed_hashes,
}
use distributed_file_storage.Client.Upload.{
  new_client, add_nodes, gives, base_name, after_slash, upload_file, metadata_of_file,
  upload_chunks,
}
use distributed_file_storage.Cluster.{Cluster, Link_eq, MetadataNodes, at_link}
use distributed_file_storage.Cluster.Chunks.{ContentAddressed}
use distributed_file_storage.Cluster.Puts.{IsRoute}
use distributed_file_storage.Dht.Ring.{get_all_nodes, add_node}
use distributed_file_storage.Files.{Chunk, chunk_size, split_file_into_chunks, read_loop}
use distributed_file_storage.Hashing.Cid.{WrittenCollision}
use distributed_file_storage.Metadata.{FileMetadata, Link, no_link, new_node}
use distributed_file_storage.Streams.{to_string}
use distributed_file_storage.Streams.Numbers.{Fits}
use distributed_file_storage.Streams.Words.{IsWord}

abbrev pub local : ℕ → Link
local port = record { ip = codes "127.0.0.1"; port = pos port }

abbrev two_metadata_nodes : MetadataNodes
two_metadata_nodes =
    at_link (local 8001) (new_node (local 8002) (pos 8001))
      (at_link (local 8002) (new_node no_link (pos 8002)) (λ link. none))

abbrev small_cluster : Cluster
small_cluster = record {
  storage_nodes = at_link (local 9001) (record { storage = []; running = true }) (λ link. none);
  metadata_nodes = two_metadata_nodes;
}

abbrev metadata_addresses : List Bytes
metadata_addresses = codes "127.0.0.1:8001" ∷ codes "127.0.0.1:8002" ∷ []

abbrev small_client : Client
small_client = new_client (codes "127.0.0.1:9001" ∷ []) metadata_addresses

read_first : parse_address (codes "127.0.0.1:8001") ≡ endpoint (local 8001)
unfolding parse_address distributed_file_storage.Streams.read_int
read_first = refl

read_last : parse_address (codes "127.0.0.1:8002") ≡ endpoint (local 8002)
unfolding parse_address distributed_file_storage.Streams.read_int
read_last = refl

read_storage : parse_address (codes "127.0.0.1:9001") ≡ endpoint (local 9001)
unfolding parse_address distributed_file_storage.Streams.read_int
read_storage = refl

two_metadata_nodes-IsRoute : IsRoute two_metadata_nodes (local 8001 ∷ local 8002 ∷ [])
unfolding bytes_eq
two_metadata_nodes-IsRoute = (
  new_node (local 8002) (pos 8001),
  refl,
  refl,
  refl,
  refl,
  refl,
  refl,
  (new_node no_link (pos 8002), refl, refl, refl),
)

small_chain : IsChainOf 2 small_client.metadata_nodes small_cluster.metadata_nodes
unfolding new_client
small_chain = record {
  first = codes "127.0.0.1:8001";
  later = codes "127.0.0.1:8002" ∷ [];
  starts = refl;
  last = codes "127.0.0.1:8002";
  before = codes "127.0.0.1:8001" ∷ [];
  ends = refl;
  head = local 8001;
  links = local 8002 ∷ [];
  route = two_metadata_nodes-IsRoute;
  short = omega arith;
  first_names = read_first;
  last_names = read_last;
}

small_cluster-ContentAddressed : ContentAddressed small_cluster
unfolding lookup
small_cluster-ContentAddressed link hash = elim (Bool-cases (local 9001 == link)) [
  | inl there ↦ rw there tt
  | inr apart ↦ rw apart tt
]

dht-Readable : All Readable (get_all_nodes small_client.dht)
unfolding new_client add_nodes add_node get_all_nodes distributed_file_storage.Dht.Ring.insert
dht-Readable = (λ e. cc (sym read_storage ∙ e), tt)

dht-RunsAt : All (RunsAt small_cluster) (get_all_nodes small_client.dht)
unfolding new_client add_nodes add_node get_all_nodes distributed_file_storage.Dht.Ring.insert
    bytes_eq parse_address distributed_file_storage.Streams.read_int
dht-RunsAt = (refl, tt)

dht-ne-nil : small_client.dht ≢ []
unfolding new_client add_nodes add_node distributed_file_storage.Dht.Ring.insert
dht-ne-nil e = cc

name-IsWord : IsWord (base_name (codes "docs/a.txt"))
unfolding base_name after_slash
name-IsWord = record { some_letter = λ e. cc; letters = (refl, (refl, (refl, (refl, (refl, tt))))) }

hello-ne-nil : codes "hello" ≢ []
hello-ne-nil e = cc

hello-Fits : Fits 64 (pos (length (codes "hello")))
hello-Fits = (omega arith, omega arith)

hello_chunks-Fits : Fits 32 (pos (length (split_file_into_chunks (some (codes "hello")))))
unfolding split_file_into_chunks read_loop
hello_chunks-Fits = (omega arith, omega arith)

hello_frame : PutFits (codes "docs/a.txt") (codes "hello")
unfolding distributed_file_storage.Client.put_command metadata_of_file split_file_into_chunks
    read_loop hash_all_chunks distributed_file_storage.Streams.to_string
    distributed_file_storage.Sha256.sha256 distributed_file_storage.Streams.join_hashes
hello_frame = omega arith

upload_file_complete_example :
    (d : Cluster) × (upload_file 2 small_client
        (codes "docs/a.txt")
        (some (codes "hello"))
        small_cluster
      ≡ gives true d)
upload_file_complete_example =
    upload_file_complete 2 small_client (codes "docs/a.txt") (codes "hello") small_cluster
      hello-ne-nil name-IsWord hello-Fits hello_chunks-Fits hello_frame
      (new_client-IsRing (codes "127.0.0.1:9001" ∷ []) metadata_addresses) dht-ne-nil dht-RunsAt
      small_chain

-- That upload once more, and the cluster after it.
completed :
    (d : Cluster) × (upload_file 2 small_client
        (codes "docs/a.txt")
        (some (codes "hello"))
        small_cluster
      ≡ gives true d)
completed =
    upload_file_complete 2 small_client (codes "docs/a.txt") (codes "hello") small_cluster
      hello-ne-nil name-IsWord hello-Fits hello_chunks-Fits hello_frame
      (new_client-IsRing (codes "127.0.0.1:9001" ∷ []) metadata_addresses) dht-ne-nil dht-RunsAt
      small_chain

upload_file_then_download_example :
    (g : Bytes) × (download_file small_client (base_name (codes "docs/a.txt")) true completed.0
      ≡ went_on (some g))
    × ((g ≡ codes "hello") ⊎ WrittenCollision g (codes "hello"))
upload_file_then_download_example =
    upload_file_then_download 2 small_client (codes "docs/a.txt") (codes "hello") small_cluster
      completed.0 hello-ne-nil name-IsWord hello-Fits hello_chunks-Fits hello_frame dht-Readable
      small_cluster-ContentAddressed small_chain completed.1

upload_file-ContentAddressed_example : ContentAddressed (
    left_cluster
      (upload_file 2 small_client (codes "docs/a.txt") (some (codes "hello")) small_cluster))
upload_file-ContentAddressed_example =
    upload_file-ContentAddressed 2 small_client (codes "docs/a.txt") (some (codes "hello"))
      small_cluster small_cluster-ContentAddressed

abbrev hello_chunks : List Chunk
hello_chunks = hash_all_chunks (split_file_into_chunks (some (codes "hello")))

abbrev hello_metadata : FileMetadata
hello_metadata = metadata_of_file (codes "docs/a.txt") (codes "hello") hello_chunks

completed-ContentAddressed : ContentAddressed completed.0
completed-ContentAddressed = subst ContentAddressed (ap left_cluster completed.1) (
    upload_file-ContentAddressed 2 small_client (codes "docs/a.txt") (some (codes "hello"))
      small_cluster small_cluster-ContentAddressed)

completed_found :
    (find_metadata
        (backwards small_client.metadata_nodes [])
        (base_name (codes "docs/a.txt"))
        completed.0
      ≡ went_on hello_metadata)
    × All (Copied small_client.dht completed.0) (chunk_hashes hello_chunks)
completed_found =
    upload_file_found 2 small_client (codes "docs/a.txt") (codes "hello") small_cluster completed.0
      hello-ne-nil name-IsWord hello-Fits hello_chunks-Fits hello_frame small_chain completed.1

completed_listed : hello_metadata.chunk_hashes ≡ chunk_hashes hello_chunks
completed_listed = listed_hashes (codes "docs/a.txt") (codes "hello") hello_chunks

completed-Copied : All (Copied small_client.dht completed.0) hello_metadata.chunk_hashes
completed-Copied =
    subst (All (Copied small_client.dht completed.0)) (sym completed_listed) completed_found.1

-- The download of that file.
downloaded :
    (g : Bytes) × (download_file small_client (base_name (codes "docs/a.txt")) true completed.0
      ≡ went_on (some g))
    × ((g ≡ codes "hello") ⊎ WrittenCollision g (codes "hello"))
downloaded =
    upload_file_then_download 2 small_client (codes "docs/a.txt") (codes "hello") small_cluster
      completed.0 hello-ne-nil name-IsWord hello-Fits hello_chunks-Fits hello_frame dht-Readable
      small_cluster-ContentAddressed small_chain completed.1

download_file_intact_example :
    (downloaded.0 ≡ codes "hello") ⊎ WrittenCollision downloaded.0 (codes "hello")
download_file_intact_example =
    download_file_intact small_client (base_name (codes "docs/a.txt")) (codes "hello") downloaded.0
      true completed.0 hello_metadata completed-ContentAddressed completed_found.0 completed_listed
      downloaded.1

all_chunks :
    (d : Cluster) × (upload_chunks small_client.dht hello_chunks small_cluster ≡ gives tt d)
all_chunks =
    upload_chunks_up small_client.dht
      (new_client-IsRing (codes "127.0.0.1:9001" ∷ []) metadata_addresses) dht-ne-nil hello_chunks
      small_cluster
      (hash_all_chunks-IsFull chunk_size 0 _
        (split_file_into_chunks-AreChunks (some (codes "hello"))))
      dht-RunsAt

parse_address-to_string_example :
    parse_address (codes "127.0.0.1" ++ b':' ∷ to_string (pos 8001)) ≡ endpoint (local 8001)
parse_address-to_string_example =
    parse_address-to_string (codes "127.0.0.1") (pos 8001)
      (refl, (refl, (refl, (refl, (refl, (refl, (refl, (refl, (refl, tt)))))))))
      (omega arith, omega arith)
