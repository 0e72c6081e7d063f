-- ===== src/Experiments/Deploy.antt =====
-- `startCluster`, `killNode` and `stopCluster`. A node that a thread starts listens by the time the
-- program needs it, which is what the program sleeps for, unless its port is taken.
use distributed_file_storage.Base.{
  ℕ, zero, suc, ◌+◌, Bool, true, false, ◌||◌, Option, none, some, [], codes, if◌then◌else◌,
}
use distributed_file_storage.Base.Equality.{◌==◌}
use distributed_file_storage.Base.Int.{pos}
use distributed_file_storage.Cluster.{Cluster, Link_eq, at_link, exchange_of}
use distributed_file_storage.Metadata.{Link, MetadataNode, no_link, new_node}
use distributed_file_storage.Metadata.{handle_command as handle_metadata_command}
use distributed_file_storage.Storage.{StorageNode, handle_command}

abbrev pub local_link : ℕ → Link
local_link port = record { ip = codes "127.0.0.1"; port = pos port }

abbrev listens {ℓ} : {A : Type ℓ} → Option A → Bool
listens none = false
listens (some node) = true

-- `bind` refuses a port at which another node listens.
abbrev pub is_taken : Link → Cluster → Bool
is_taken link c = listens (c.storage_nodes link) || listens (c.metadata_nodes link)

-- `StorageNode node;` and `start` up to its loop.
abbrev pub new_storage_node : StorageNode
new_storage_node = record { storage = []; running = true }

unfoldable pub start_storage_node : ℕ → Cluster → Cluster
start_storage_node port c =
    if is_taken (local_link port) c
    then c
    else record c { storage_nodes = at_link (local_link port) new_storage_node c.storage_nodes }

unfoldable pub start_metadata_node : ℕ → Link → Cluster → Cluster
start_metadata_node port next c = if is_taken (local_link port) c then c else record c {
  metadata_nodes = at_link (local_link port) (new_node next (pos port)) c.metadata_nodes;
}

-- The loop of `startCluster` over the storage nodes, whose ports are 8001 and so on.
unfoldable pub start_storage_nodes : ℕ → Cluster → Cluster
unfolding start_storage_node
start_storage_nodes zero c = c
start_storage_nodes (suc k) c = start_storage_node (8001 + k) (start_storage_nodes k c)

unfoldable pub start_cluster : ℕ → Cluster → Cluster
unfolding start_storage_nodes start_metadata_node
start_cluster storage_count c = start_metadata_node 9001 (local_link 9002) (
    start_metadata_node 9002 (local_link 9003)
      (start_metadata_node 9003 no_link (start_storage_nodes storage_count c)))

-- `DIE` closes the listening socket of a node, and its thread may still wait in `accept` on it: it is
-- for the system to say whether the port is free then, which is `released`. If not, the node that runs
-- no more stays at its port.
abbrev pub storage_left : Bool → Option StorageNode → Option StorageNode
storage_left released none = none
storage_left released (some n) =
    let after = (handle_command (codes "DIE") n).node in
    if after.running then some after else if released then none else some after

abbrev pub metadata_left : Bool → Option MetadataNode → Option MetadataNode
metadata_left released none = none
metadata_left released (some n) =
    let after = (handle_metadata_command (exchange_of none) (codes "DIE") n).node in
    if after.running then some after else if released then none else some after

-- `DIE` goes to whatever node listens at the port.
unfoldable pub kill_node : Bool → ℕ → Cluster → Cluster
kill_node released port c =
    let link = local_link port in
    record {
      storage_nodes = λ other.
          if link == other
          then storage_left released (c.storage_nodes link)
          else c.storage_nodes other;
      metadata_nodes = λ other.
          if link == other
          then metadata_left released (c.metadata_nodes link)
          else c.metadata_nodes other;
    }

-- `released` says it for each port.
unfoldable pub kill_storage_nodes : (ℕ → Bool) → ℕ → Cluster → Cluster
unfolding kill_node
kill_storage_nodes released zero c = c
kill_storage_nodes released (suc k) c =
    kill_node (released (8001 + k)) (8001 + k) (kill_storage_nodes released k c)

unfoldable pub stop_cluster : (ℕ → Bool) → ℕ → Cluster → Cluster
unfolding kill_storage_nodes
stop_cluster released storage_count c = kill_node (released 9003) 9003 (
    kill_node (released 9002) 9002
      (kill_node (released 9001) 9001 (kill_storage_nodes released storage_count c)))
