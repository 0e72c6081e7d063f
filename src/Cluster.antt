-- ===== src/Cluster.antt =====
-- The nodes of a deployment and what the client reaches of them: `Cluster` says which node, if any,
-- accepts a connection at an address and port. A message that is sent over a connection arrives.
pub mod Chunks
pub mod Puts
pub mod Copies
pub mod Gets
use distributed_file_storage.Base.{
  ℕ, zero, suc, ◌≡◌, ◌↔◌, arith, Bool, true, false, ◌&&◌, Option, none, some, List, [], ◌∷◌, ◌++◌,
  Bytes, codes, if◌then◌else◌, ◌%◌, ◌^◌, length, take,
}
use distributed_file_storage.Base.Equality.{Eq, ◌==◌, Bytes_eq, bytes_eq_iff}
use distributed_file_storage.Base.Int.{eqb_ℤ, eqb_ℤ-eq, eqb_ℤ_refl}
use distributed_file_storage.Client.Chunks.{
  first_message, upload_chunk_to_node, download_chunk_from_node,
}
use distributed_file_storage.Metadata.{
  FileMetadata, Link, MetadataNode, Exchange, forwards, parse_put, handle_put, handle_command,
}
use distributed_file_storage.Storage.{StorageNode}

abbrev pub link_eq : Link → Link → Bool
link_eq a b = (a.ip == b.ip) && eqb_ℤ a.port b.port

pub link_eq_iff : (a b : Link) → (link_eq a b ≡ true) ↔ (a ≡ b)
link_eq_iff a b = (
  λ h. ground (arith, bytes_eq_iff a.ip b.ip, eqb_ℤ-eq a.port b.port),
  λ e. rw e (ground (arith, bytes_eq_iff b.ip b.ip, eqb_ℤ_refl b.port)),
)

instance abbrev pub Link_eq : Eq Link
Link_eq = record { equal = link_eq; equal_iff = link_eq_iff }

-- A map of the nodes of one kind, with one of them changed.
abbrev pub at_link {ℓ} : {A : Type ℓ} → Link → A → (Link → Option A) → Link → Option A
at_link link node nodes other = if link == other then some node else nodes other

abbrev pub MetadataNodes : Type 0
MetadataNodes = Link → Option MetadataNode

pub record Cluster : Type 0 where
  pub storage_nodes : Link → Option StorageNode
  pub metadata_nodes : MetadataNodes

-- The exchange with a node that gives this response, or cannot be connected to.
abbrev pub exchange_of : Option Bytes → Exchange
exchange_of none = record { connects = false; sends = false; response = [] }
exchange_of (some response) = record { connects = true; sends = true; response = response }

abbrev pub is_some : Option FileMetadata → Bool
is_some none = false
is_some (some meta) = true

abbrev pub parses : Bytes → Bool
parses command = is_some (parse_put command)

-- What a node makes of a PUT: its reply, and the nodes after it. `stored` are the nodes with the
-- metadata in this one, and `behind` is what the command does at its next node.
abbrev pub put_reply :
    Bytes
    → MetadataNode
    → MetadataNodes
    → Option Bytes × MetadataNodes
    → Option Bytes × MetadataNodes
put_reply command n stored behind =
    if parses command && forwards n
    then (some (handle_put (exchange_of behind.0) command n).0, behind.1)
    else (some (handle_put (exchange_of none) command n).0, stored)

-- What the receiver of a frame takes for its message: a length of 32 bits goes before the bytes, and what
-- is left of a longer message stands in the stream as other frames, which are left out.
abbrev pub arrived : Bytes → Bytes
arrived message = take (length message % 2 ^ 32) message

-- `while (running_)`: a node that has been told to die answers no command.
abbrev pub at_work : Option MetadataNode → Option MetadataNode
at_work none = none
at_work (some n) = if n.running then some n else none

-- A PUT at a link: the response, unless no node runs there, and the nodes after it. The node
-- stores first, and then forwards the command to its next node; `fuel` bounds the forwarding. The
-- command has arrived in a frame, so it is below 4 GiB and is forwarded in one.
unfoldable pub put_at : ℕ → Bytes → Link → MetadataNodes → Option Bytes × MetadataNodes
put_at zero command link nodes = (none, nodes)
put_at (suc fuel) command link nodes = elim (at_work (nodes link)) [
  | none ↦ (none, nodes)
  | some n ↦
      let stored = at_link link (handle_put (exchange_of none) command n).1 nodes in
      put_reply command n stored (put_at fuel command n.next_node stored)
]

abbrev pub get_from : Bytes → Option MetadataNode → Option Bytes
get_from filename none = none
get_from filename (some n) =
    some (first_message (handle_command (exchange_of none) (codes "GET " ++ filename) n).replies)

-- A GET of a file name at a link: the response, unless no node runs there. An empty response stands
-- for a connection that ends without one. The name that a client asks for is a word, so the node can
-- read it.
unfoldable pub get_at : Bytes → Link → MetadataNodes → Option Bytes
get_at filename link nodes = get_from filename (at_work (nodes link))

-- The storage node at a link, if one listens there, with the chunk sent to it.
abbrev pub store_with : Bytes → Bytes → Link → Cluster → Option StorageNode → Bool × Cluster
store_with hash bytes link c none = (false, c)
store_with hash bytes link c (some n) =
    let uploaded = upload_chunk_to_node true hash bytes n in
    (uploaded.0, record c { storage_nodes = at_link link uploaded.1 c.storage_nodes })

-- `uploadChunkToNode` behind the reading of the address.
unfoldable pub store_at : Bytes → Bytes → Link → Cluster → Bool × Cluster
store_at hash bytes link c = store_with hash bytes link c (c.storage_nodes link)

abbrev pub fetch_from : Bytes → Option StorageNode → Bytes
fetch_from hash none = []
fetch_from hash (some n) = download_chunk_from_node true hash n

-- `downloadChunkFromNode` behind the reading of the address.
unfoldable pub fetch_at : Bytes → Link → Cluster → Bytes
fetch_at hash link c = fetch_from hash (c.storage_nodes link)
