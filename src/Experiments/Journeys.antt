-- ===== src/Experiments/Journeys.antt =====
-- A file on its way through a deployment that the program has started.
use distributed_file_storage.Apps.{FileTree, storage_addresses, metadata_addresses, main_client}
use distributed_file_storage.Apps.Journey.{fetched, journey, journey_verified}
use distributed_file_storage.Base.{
  ℕ, ◌≤◌, ◌≡◌, ◌≢◌, ◌⊎◌, refl, subst, sym, true, some, [], ◌∷◌, Bytes, Bool, codes, All, arith,
  length,
}
use distributed_file_storage.Base.Equality.{Bytes_eq, bytes_eq}
use distributed_file_storage.Base.Int.{pos}
use distributed_file_storage.Client.Address.{endpoint, parse_address}
use distributed_file_storage.Client.Completion.{new_client-IsRing}
use distributed_file_storage.Client.Route.{PutFits, IsChainOf}
use distributed_file_storage.Client.Running.{IsUp, RunsAt}
use distributed_file_storage.Client.Upload.{add_nodes, base_name}
use distributed_file_storage.Cluster.{Cluster}
use distributed_file_storage.Cluster.Chunks.{ContentAddressed}
use distributed_file_storage.Cluster.Puts.{IsRoute}
use distributed_file_storage.Dht.Lookup.{IsRing}
use distributed_file_storage.Dht.Ring.{get_all_nodes, add_node}
use distributed_file_storage.Experiments.Clear.{IsClear}
use distributed_file_storage.Experiments.Deploy.{local_link, start_cluster}
use distributed_file_storage.Experiments.Kept.{start_cluster-ContentAddressed}
use distributed_file_storage.Experiments.Started.{IsStarted, start_cluster-IsStarted}
use distributed_file_storage.Files.{split_file_into_chunks}
use distributed_file_storage.Hashing.Cid.{WrittenCollision}
use distributed_file_storage.Client.Availability.{Readable}
use distributed_file_storage.Client.Exceptions.{IsConfigured}
use distributed_file_storage.Metadata.{Link, no_link, new_node}
use distributed_file_storage.Streams.Numbers.{Fits}
use distributed_file_storage.Streams.Words.{IsWord}

pub read_head : parse_address (codes "127.0.0.1:9001") ≡ endpoint (local_link 9001)
unfolding parse_address distributed_file_storage.Streams.read_int
read_head = refl

pub read_tail : parse_address (codes "127.0.0.1:9003") ≡ endpoint (local_link 9003)
unfolding parse_address distributed_file_storage.Streams.read_int
read_tail = refl

pub read_first : parse_address (codes "127.0.0.1:8001") ≡ endpoint (local_link 8001)
unfolding parse_address distributed_file_storage.Streams.read_int
read_first = refl

pub read_second : parse_address (codes "127.0.0.1:8002") ≡ endpoint (local_link 8002)
unfolding parse_address distributed_file_storage.Streams.read_int
read_second = refl

pub main_client-ne-nil : main_client.dht ≢ []
unfolding main_client add_nodes add_node distributed_file_storage.Dht.Ring.insert
main_client-ne-nil e = cc

pub main_client-IsRing : IsRing main_client.dht
unfolding main_client
main_client-IsRing = new_client-IsRing storage_addresses metadata_addresses

pub main_client_nodes :
    get_all_nodes main_client.dht ≡ codes "127.0.0.1:8001" ∷ codes "127.0.0.1:8002" ∷ []
unfolding main_client add_nodes add_node get_all_nodes distributed_file_storage.Dht.Ring.insert
    bytes_eq
main_client_nodes = refl

main_client_metadata :
    main_client.metadata_nodes
    ≡ codes "127.0.0.1:9001" ∷ codes "127.0.0.1:9002" ∷ codes "127.0.0.1:9003" ∷ []
unfolding main_client
main_client_metadata = refl

read_middle : parse_address (codes "127.0.0.1:9002") ≡ endpoint (local_link 9002)
unfolding parse_address distributed_file_storage.Streams.read_int
read_middle = refl

endpoint-Readable :
    (address : Bytes) (link : Link) → parse_address address ≡ endpoint link → Readable address
endpoint-Readable address link e h = cc

-- The client of the programs has addresses that can be read.
pub main_client-IsConfigured : IsConfigured main_client
main_client-IsConfigured = record {
  ring = main_client-IsRing;
  storage_readable =
      rw main_client_nodes
        (endpoint-Readable _ _ read_first, (endpoint-Readable _ _ read_second, tt));
  metadata_readable = rw main_client_metadata (
    endpoint-Readable _ _ read_head,
    (endpoint-Readable _ _ read_middle, (endpoint-Readable _ _ read_tail, tt)),
  );
}

module _ (c : Cluster) (count : ℕ) (started : IsStarted count c) where
  started-IsRoute :
      IsRoute c.metadata_nodes (local_link 9001 ∷ local_link 9002 ∷ local_link 9003 ∷ [])
  unfolding bytes_eq
  started-IsRoute = (
    new_node (local_link 9002) (pos 9001),
    started.head_new,
    refl,
    refl,
    refl,
    refl,
    refl,
    (
      new_node (local_link 9003) (pos 9002),
      started.middle_new,
      refl,
      refl,
      refl,
      refl,
      refl,
      (new_node no_link (pos 9003), started.tail_new, refl, refl),
    ),
  )

  pub started-IsChainOf :
      (fuel : ℕ) → 3 ≤ fuel → IsChainOf fuel main_client.metadata_nodes c.metadata_nodes
  started-IsChainOf fuel enough = record {
    first = codes "127.0.0.1:9001";
    later = codes "127.0.0.1:9002" ∷ codes "127.0.0.1:9003" ∷ [];
    starts = main_client_metadata;
    last = codes "127.0.0.1:9003";
    before = codes "127.0.0.1:9002" ∷ codes "127.0.0.1:9001" ∷ [];
    ends = rw main_client_metadata refl;
    head = local_link 9001;
    links = local_link 9002 ∷ local_link 9003 ∷ [];
    route = started-IsRoute;
    short = enough;
    first_names = read_head;
    last_names = read_tail;
  }

  pub started-RunsAt : 2 ≤ count → All (RunsAt c) (get_all_nodes main_client.dht)
  started-RunsAt two =
      rw (main_client_nodes, read_first, read_second)
        (
          subst IsUp (sym (started.storage_new 0 (omega arith))) refl,
          (subst IsUp (sym (started.storage_new 1 (omega arith))) refl, tt),
        )

-- Let the ports of a deployment be free, and `startCluster` start at least the two storage nodes
-- that the programs know. Then a file with a byte in it is uploaded, downloaded and verified, each
-- by its program: a file is written, and `verify_files` returns 0, or a part of what was written
-- and a chunk of the file differ and have one SHA-256 digest. Storage nodes that listen elsewhere
-- are to have every chunk under its hash, the name of the file is to be a word, its size and the
-- number of its chunks to fit their types, the PUT of the metadata to be below 4 GiB, and the
-- output file is to be one that can be created.
pub started_journey :
    (fuel count : ℕ) (path output f : Bytes) (writable : Bytes → Bool) (files : FileTree)
    (c : Cluster)
    → 3 ≤ fuel
    → 2 ≤ count
    → count ≤ 1000
    → IsClear count c
    → ContentAddressed c
    → f ≢ []
    → files path ≡ some f
    → writable output ≡ true
    → IsWord (base_name path)
    → Fits 64 (pos (length f))
    → Fits 32 (pos (length (split_file_into_chunks (some f))))
    → PutFits path f
    → (g : Bytes) × (fetched fuel main_client path output writable files
          (start_cluster count c)
          output
        ≡ some g)
      × ((journey fuel main_client path output writable files (start_cluster count c) ≡ 0)
          ⊎ WrittenCollision g f)
started_journey fuel count path output f writable files c enough two few clear addressed some_byte
      here created name size total frame =
    let d = start_cluster count c in
    let started = start_cluster-IsStarted count c few clear in
    journey_verified fuel main_client path output f writable files d some_byte here created name
      size total frame main_client-IsRing main_client-ne-nil (started-RunsAt d count started two)
      (start_cluster-ContentAddressed count c addressed)
      (started-IsChainOf d count started fuel enough)
