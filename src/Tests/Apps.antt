-- ===== src/Tests/Apps.antt =====
-- The programs as they are built: two storage nodes, and a chain of three metadata nodes.
use distributed_file_storage.Apps.{FileTree, main_client}
use distributed_file_storage.Apps.Journey.{fetched, journey, journey_verified}
use distributed_file_storage.Apps.Chain.{launched, AreApart, launched_chain}
use distributed_file_storage.Base.Sorting.{sort}
use distributed_file_storage.Config.{NodeInfo, by_id, metadata_nodes, find_node}
use distributed_file_storage.Base.{
  ◌≡◌, ◌≢◌, ◌⊎◌, Bytes, inl, inr, refl, true, Bool-cases, none, some, [], ◌∷◌, codes, All, arith,
  length, if◌then◌else◌, ℕ, List,
}
use distributed_file_storage.Base.Assoc.{lookup}
use distributed_file_storage.Base.Equality.{◌==◌, bytes_eq, Bytes_eq}
use distributed_file_storage.Base.Int.{pos}
use distributed_file_storage.Client.Address.{parse_address}
use distributed_file_storage.Client.Route.{IsChainOf, PutFits}
use distributed_file_storage.Client.Running.{RunsAt}
use distributed_file_storage.Client.Upload.{add_nodes, base_name, after_slash}
use distributed_file_storage.Cluster.{Cluster, Link_eq, at_link}
use distributed_file_storage.Cluster.Chunks.{ContentAddressed}
use distributed_file_storage.Cluster.Puts.{IsRoute}
use distributed_file_storage.Dht.Ring.{get_all_nodes, add_node}
use distributed_file_storage.Files.{split_file_into_chunks, read_loop}
use distributed_file_storage.Hashing.Cid.{WrittenCollision}
use distributed_file_storage.Metadata.{no_link, new_node}
use distributed_file_storage.Storage.{StorageNode}
use distributed_file_storage.Streams.Numbers.{Fits}
use distributed_file_storage.Streams.Words.{IsWord}
use distributed_file_storage.Experiments.Journeys.{
  read_head, read_tail, main_client-ne-nil, main_client-IsRing,
}
use distributed_file_storage.Tests.Client.{local}

abbrev empty_node : StorageNode
empty_node = record { storage = []; running = true }

abbrev pub deployment : Cluster
deployment = record {
  storage_nodes = at_link (local 8001) empty_node (at_link (local 8002) empty_node (λ link. none));
  metadata_nodes = at_link (local 9001) (new_node (local 9002) (pos 9001)) (
      at_link (local 9002) (new_node (local 9003) (pos 9002))
        (at_link (local 9003) (new_node no_link (pos 9003)) (λ link. none)));
}

deployment-IsRoute : IsRoute deployment.metadata_nodes (local 9001 ∷ local 9002 ∷ local 9003 ∷ [])
unfolding bytes_eq
deployment-IsRoute = (
  new_node (local 9002) (pos 9001),
  refl,
  refl,
  refl,
  refl,
  refl,
  refl,
  (
    new_node (local 9003) (pos 9002),
    refl,
    refl,
    refl,
    refl,
    refl,
    refl,
    (new_node no_link (pos 9003), refl, refl, refl),
  ),
)

pub deployment-IsChainOf : IsChainOf 3 main_client.metadata_nodes deployment.metadata_nodes
unfolding main_client
deployment-IsChainOf = record {
  first = codes "127.0.0.1:9001";
  later = codes "127.0.0.1:9002" ∷ codes "127.0.0.1:9003" ∷ [];
  starts = refl;
  last = codes "127.0.0.1:9003";
  before = codes "127.0.0.1:9002" ∷ codes "127.0.0.1:9001" ∷ [];
  ends = refl;
  head = local 9001;
  links = local 9002 ∷ local 9003 ∷ [];
  route = deployment-IsRoute;
  short = omega arith;
  first_names = read_head;
  last_names = read_tail;
}

pub deployment-ContentAddressed : ContentAddressed deployment
unfolding lookup
deployment-ContentAddressed link hash = elim (Bool-cases (local 8001 == link)) [
  | inl there ↦ rw there tt
  | inr apart ↦ elim (Bool-cases (local 8002 == link)) [
    | inl second ↦ rw (apart, second) tt
    | inr away ↦ rw (apart, away) tt
  ]
]

pub main_client-RunsAt : All (RunsAt deployment) (get_all_nodes main_client.dht)
unfolding main_client add_nodes add_node get_all_nodes distributed_file_storage.Dht.Ring.insert
    bytes_eq parse_address distributed_file_storage.Streams.read_int
main_client-RunsAt = (refl, (refl, tt))

pub notes-IsWord : IsWord (base_name (codes "home/notes"))
unfolding base_name after_slash
notes-IsWord = record {
  some_letter = λ e. cc;
  letters = (refl, (refl, (refl, (refl, (refl, tt)))));
}

abbrev pub home : FileTree
home path = if path == codes "home/notes" then some (codes "hello") else none

pub home_notes : home (codes "home/notes") ≡ some (codes "hello")
unfolding bytes_eq
home_notes = refl

pub notes-ne-nil : codes "hello" ≢ []
notes-ne-nil e = cc

pub notes_chunks-Fits : Fits 32 (pos (length (split_file_into_chunks (some (codes "hello")))))
unfolding split_file_into_chunks read_loop
notes_chunks-Fits = (omega arith, omega arith)

pub notes_frame : PutFits (codes "home/notes") (codes "hello")
unfolding distributed_file_storage.Client.put_command
    distributed_file_storage.Client.Upload.metadata_of_file split_file_into_chunks read_loop
    distributed_file_storage.Hashing.hash_all_chunks distributed_file_storage.Streams.to_string
    distributed_file_storage.Sha256.sha256 distributed_file_storage.Streams.join_hashes
notes_frame = omega arith

journey_verified_example :
    (g : Bytes) × (fetched 3 main_client
        (codes "home/notes")
        (codes "copy")
        (λ path. true)
        home
        deployment
        (codes "copy")
      ≡ some g)
    × ((journey 3 main_client (codes "home/notes") (codes "copy") (λ path. true) home deployment
          ≡ 0)
        ⊎ WrittenCollision g (codes "hello"))
journey_verified_example =
    journey_verified 3 main_client (codes "home/notes") (codes "copy") (codes "hello")
      (λ path. true) home deployment notes-ne-nil home_notes refl notes-IsWord
      (omega arith, omega arith) notes_chunks-Fits notes_frame main_client-IsRing main_client-ne-nil
      main_client-RunsAt deployment-ContentAddressed deployment-IsChainOf

abbrev node_at : ℕ → ℕ → NodeInfo
node_at id port = record { id = pos id; host = codes "127.0.0.1"; port = pos port }

abbrev configured : List NodeInfo
configured = node_at 1 8001 ∷ node_at 12 9002 ∷ node_at 11 9001 ∷ []

configured_sorted : sort by_id (metadata_nodes configured) ≡ node_at 11 9001 ∷ node_at 12 9002 ∷ []
unfolding sort metadata_nodes
configured_sorted = refl

configured-AreApart : AreApart configured (node_at 11 9001 ∷ node_at 12 9002 ∷ [])
unfolding find_node bytes_eq
configured-AreApart = ((refl, tt), refl, refl, refl, refl, (tt, refl, refl, refl, refl, tt))

launched_chain_example :
    IsRoute
      (launched configured (node_at 11 9001 ∷ node_at 12 9002 ∷ []))
      (local 9001 ∷ local 9002 ∷ [])
launched_chain_example =
    launched_chain configured (node_at 11 9001) (node_at 12 9002 ∷ []) configured_sorted
      configured-AreApart
