-- ===== src/Lib.antt =====
-- A distributed file store: files are cut into chunks of 1 MiB, chunks go to storage nodes that a
-- consistent hash ring chooses, and what is known of each file goes to a chain of metadata nodes.
--
-- The parts, and the files that model them:
--   * Sha256 (with Block, Schedule, Padding, LastBlocks, Absorb, Digest): src/common/sha256.cpp.
--     `sha256_from` is `sha256` with what the uninitialised array `block` holds as an argument,
--     `absorb` its first loop, `finish_message` the code from there to the last
--     `sha256_transform`.
--   * Files (Split, Order, RoundTrip): src/common/file_utils.cpp. `split_file_into_chunks` is
--     `splitFileIntoChunks` on the bytes of the file, `reconstruct_file` is `reconstructFile`.
--   * Hashing (Cid, Digests): src/common/hash_utils.cpp and src/client/verify_files.cpp;
--     `compute_cid` is `computeCID`.
--   * Dht (Hash, Ring, Lookup, Owner, Order, Changes, Successors, Replicas, Members, Balance):
--     src/dht/consistent_hash.cpp. `Ring` is the `std::map` behind `ring_`, in the order of its
--     keys; `add_node`, `remove_node`, `get_node_for_key`, `get_nodes_for_key` and so on are the
--     methods.
--   * Network (Transfer, Framing, Termination, Client, Server, Exchange, Server/Table,
--     Server/Descriptors): src/network/tcp_client.cpp and src/network/tcp_server.cpp. What the
--     system calls answer is an argument of each method, and the descriptors that a method hands
--     to `::close` are a part of its result.
--   * Streams (Words, Numbers, Fields): `std::istringstream`, `std::to_string` and `std::getline`,
--     as src/metadata/metadata_node.cpp and src/client/client.cpp use them.
--   * Metadata (Codec, Chain, Reads, Commands, Roles, Races, Threads):
--     src/metadata/metadata_node.cpp. `MetadataNode` is the state of a node, `handle_put`,
--     `handle_get`, `handle_command`, `handle_next_node_failure` and `health_check` are its
--     methods; what another node answers is an `Exchange`. `put_chain` puts several nodes
--     together: each forwards to the one behind it, and its answer is the response. `RaceStep` is
--     what the handlers of one node do to it and the node behind it while they run at the same
--     time. `NodeStep` is a step of a handler, of the thread of `healthCheckLoop`, or of the
--     accept loop, beside one another.
--   * Storage (Conversation, Persistence, Connections, Lifetime, Lifecycle, Wakeup):
--     src/storage/storage_node.cpp. A connection is a list of messages that come in, and `Awaits`
--     says at which receive call `handleClient` stands. `ThreadStep` is an atomic action of one of
--     the threads of `start`, and `Schedule` a run of them; src/metadata/metadata_node.cpp has the
--     same loop. In `Connections` the threads of several connections take turns, and what a thread
--     sends goes out behind its lock. `lifetime` is the server of a node from `start` to the end
--     of the destructor.
--   * Client (Address, Chunks, Download, Upload, Uploads, Copies, Integrity, Availability, Route,
--     RoundTrip, Running, Completion, Replication, Failover, Survival, Answers, Exceptions):
--     src/client/client.cpp. `upload_file`, `download_file`, `put_metadata_to_node`,
--     `get_metadata_from_node`, `upload_chunk` and `download_chunk` are the methods of `Client`;
--     what follows the reading of an address is a definition of its own, as `upload_to`. `Outcome`
--     and `Ending` say whether a method goes on, returns early or is left by an exception.
--   * Cluster (Chunks, Copies, Puts, Gets): the storage nodes and the metadata nodes by the
--     address and port at which they listen. `put_at` is `handlePut` and `forwardPut` from node to
--     node, `store_at` and `fetch_at` are the transfers of a chunk.
--   * Apps (Journey, Nodes, Chain): apps/main_client.cpp, apps/main_verify_files.cpp,
--     apps/main_storage_node.cpp and apps/main_metadata_node.cpp, with their arguments and exit
--     codes; `launched` are the metadata nodes that are started from one configuration.
--   * Experiments (Deploy, Clear, Started, Kept, Journeys, Killed, Workload, Rounds, Evaluation):
--     apps/main_performance_experiments.cpp and apps/main_performance_evaluation.cpp.
--     `start_cluster`, `kill_node` and `stop_cluster` work on a `Cluster`; `run_workload` is
--     `runWorkload`, with the steps of its threads as an argument; `main_experiments` and
--     `main_evaluation` are the two `main`.
--   * Config (Lines): src/common/node_config.cpp, and the choice of the next node in
--     apps/main_metadata_node.cpp.
--   * Base: numbers, texts, lists, association lists, sorting. Tests: runs and applications at
--     concrete inputs.
-- The CID of a file is computed from its chunks (Files, then Hashing, then Sha256); the storage nodes
-- of a chunk come from the ring (Dht) under the hash of the chunk; the metadata goes as a text
-- (Client, Streams) to the first node of the chain (Metadata), and comes back as a text from its
-- last. An upload and a download of the client put all of these together (Cluster), and the programs
-- run them one after another (Apps).
--
-- Numbers: `int`, `uint32_t` and `uint64_t` keep their wrap-around where the code's values can leave
-- the range (`hash_key`, the words of SHA-256, the length in a frame). Chunk indexes and client ids
-- have no upper bound here. The loops whose rounds the code does not count take fuel: `absorb` the
-- length of the message, `read_loop` one more than the length of the file; each round uses up a byte
-- at least, and the theorems on them are about that fuel. The loops of `sendData` and `recvData` take
-- the list of what `::send` and `::recv` return, and give `none` while that list is too short.
--
-- `put_at` takes the number of nodes that a PUT may still go through: a chain of that length needs no
-- more, and the theorems on uploads ask for it.
--
-- The clock, random bytes, what a `double` is printed as and which files can be created are arguments
-- of the experiments; their averages are fractions. A node that a program starts in a thread listens
-- from then on, which is what the program sleeps for.
--
-- Not modelled: the console output, `Chunk::to_string`, apps/main_system_tests.cpp, and the file
-- system but for the bytes of the files. The durations that the client measures are arguments,
-- where an experiment prints them. Of the threads and locks there are the accept loop and the wait
-- of a node, the health check beside the handlers of a metadata node, the connections of a storage
-- node, the handlers of two neighbours of the chain, and the clients of a workload, where an upload
-- or a download is one step; else an operation here is what one thread does to the state while no
-- other changes it. In a `Cluster` a connection that is made does not break, the messages but for
-- the PUT of a client are below 4 GiB, and a node whose loop has ended answers nothing; whether its
-- port is free then is an argument. `accept_client` is one step, so a `stop` that comes while
-- `accept` waits is left out. A file or a PUT that is on its way while nodes are started or killed
-- is left out.
pub mod Base
pub mod Sha256
pub mod Files
pub mod Hashing
pub mod Dht
pub mod Network
pub mod Streams
pub mod Metadata
pub mod Storage
pub mod Config
pub mod Client
pub mod Cluster
pub mod Apps
pub mod Experiments
pub mod Tests
