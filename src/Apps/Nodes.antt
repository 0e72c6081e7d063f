-- ===== src/Apps/Nodes.antt =====
-- apps/main_storage_node.cpp and apps/main_metadata_node.cpp: what a node is started with.
use distributed_file_storage.Base.{
  ℕ, Bool, true, false, ◌&&◌, Option, none, some, List, [], ◌∷◌, Bytes, if◌then◌else◌,
}
use distributed_file_storage.Base.Int.{ℤ, pos, eqb_ℤ}
use distributed_file_storage.Client.Chunks.{not_empty}
use distributed_file_storage.Config.{NodeInfo, load_config, find_node, next_node}
use distributed_file_storage.Metadata.{Link, MetadataNode, new_node}
use distributed_file_storage.Storage.{StorageNode}
use distributed_file_storage.Streams.{read_int}

-- The program ends with an exit code, an exception of `std::stoi` ends it, or it calls `start` of a
-- node at a port.
pub data Launch {ℓ} (A : Type ℓ) : Type ℓ where
  exits_at : ℕ → Launch A
  throws_out : Launch A
  starts : A → ℤ → Launch A

-- `myNode.port == 0 && myNode.host.empty()`
abbrev pub is_missing : NodeInfo → Bool
is_missing n = eqb_ℤ n.port (pos 0) && (if not_empty n.host then false else true)

abbrev pub start_storage : NodeInfo → Launch StorageNode
start_storage n =
    if is_missing n then exits_at 1 else starts (record { storage = []; running = true }) n.port

abbrev pub storage_with : List Bytes → Option (ℤ × Bytes) → Launch StorageNode
storage_with lines none = throws_out
storage_with lines (some (id, _)) = start_storage (find_node id (load_config lines))

-- `lines_of` gives the lines of a file; one that cannot be opened has none.
unfoldable pub main_storage_node : List Bytes → (Bytes → List Bytes) → Launch StorageNode
main_storage_node [] lines_of = exits_at 1
main_storage_node (file ∷ []) lines_of = exits_at 1
main_storage_node (file ∷ id ∷ []) lines_of = storage_with (lines_of file) (read_int 32 id)
main_storage_node (file ∷ id ∷ more ∷ rest) lines_of = exits_at 1

abbrev pub start_at : NodeInfo → Link → Launch MetadataNode
start_at n next = if is_missing n then exits_at 1 else starts (new_node next n.port) n.port

-- Behind the reading of the configuration: the node with this id, of those configured.
unfoldable pub start_metadata : ℤ → List NodeInfo → Launch MetadataNode
unfolding find_node next_node
start_metadata id nodes = start_at (find_node id nodes) (next_node id nodes)

abbrev pub metadata_with : List Bytes → Option (ℤ × Bytes) → Launch MetadataNode
metadata_with lines none = throws_out
metadata_with lines (some (id, _)) = start_metadata id (load_config lines)

unfoldable pub main_metadata_node : List Bytes → (Bytes → List Bytes) → Launch MetadataNode
main_metadata_node [] lines_of = exits_at 1
main_metadata_node (file ∷ []) lines_of = exits_at 1
main_metadata_node (file ∷ id ∷ []) lines_of = metadata_with (lines_of file) (read_int 32 id)
main_metadata_node (file ∷ id ∷ more ∷ rest) lines_of = exits_at 1
