-- ===== src/Experiments/Started.antt =====
-- What a deployment is behind `startCluster`.
use distributed_file_storage.Base.{
  ℕ, zero, suc, ◌+◌, ◌<◌, ◌≤◌, ◌≡◌, ◌≢◌, refl, ap, ◌∙◌, Bool-cases, inl, inr, Option, some, arith,
}
use distributed_file_storage.Base.Equality.{◌==◌, eq_refl, Bytes_eq, ℕ_eq}
use distributed_file_storage.Base.Int.{pos}
use distributed_file_storage.Cluster.{Cluster, Link_eq, at_link}
use distributed_file_storage.Experiments.Clear.{IsFree, IsClear, local_link_apart, is_taken_free}
use distributed_file_storage.Experiments.Deploy.{
  local_link, is_taken, new_storage_node, start_storage_node, start_metadata_node,
  start_storage_nodes, start_cluster,
}
use distributed_file_storage.Metadata.{Link, no_link, new_node}

-- Starting a node changes nothing, or puts a storage node at a free port.
start_storage_node_free :
    (port : ℕ) (c : Cluster)
    → IsFree port c
    → start_storage_node port c
      ≡ record c { storage_nodes = at_link (local_link port) new_storage_node c.storage_nodes }
unfolding start_storage_node
start_storage_node_free port c free = rw (is_taken_free port c free) refl

start_metadata_node_free :
    (port : ℕ) (next : Link) (c : Cluster)
    → IsFree port c
    → start_metadata_node port next c ≡ record c {
      metadata_nodes = at_link (local_link port) (new_node next (pos port)) c.metadata_nodes;
    }
unfolding start_metadata_node
start_metadata_node_free port next c free = rw (is_taken_free port c free) refl

start_storage_node-IsFree :
    (port other : ℕ) (c : Cluster)
    → port ≢ other
    → IsFree other c
    → IsFree other (start_storage_node port c)
unfolding start_storage_node
start_storage_node-IsFree port other c differ free =
    elim (Bool-cases (is_taken (local_link port) c)) [
      | inl taken ↦ rw taken free
      | inr vacant ↦ rw vacant (record {
        no_storage = rw (local_link_apart port other differ) free.no_storage;
        no_metadata = free.no_metadata;
      })
    ]

start_metadata_node-IsFree :
    (port other : ℕ) (next : Link) (c : Cluster)
    → port ≢ other
    → IsFree other c
    → IsFree other (start_metadata_node port next c)
unfolding start_metadata_node
start_metadata_node-IsFree port other next c differ free =
    elim (Bool-cases (is_taken (local_link port) c)) [
      | inl taken ↦ rw taken free
      | inr vacant ↦ rw vacant (record {
        no_storage = free.no_storage;
        no_metadata = rw (local_link_apart port other differ) free.no_metadata;
      })
    ]

start_storage_nodes-IsFree :
    (count other : ℕ) (c : Cluster)
    → ((k : ℕ) → k < count → 8001 + k ≢ other)
    → IsFree other c
    → IsFree other (start_storage_nodes count c)
unfolding start_storage_nodes
start_storage_nodes-IsFree zero other c differ free = free
start_storage_nodes-IsFree (suc count) other c differ free =
    start_storage_node-IsFree (8001 + count) other (start_storage_nodes count c)
      (differ count (omega arith))
      (start_storage_nodes-IsFree count other c (λ k h. differ k (omega arith)) free)

-- A metadata node that is started leaves the storage nodes as they are.
pub start_metadata_node-storage_nodes :
    (port : ℕ) (next : Link) (c : Cluster)
    → (start_metadata_node port next c).storage_nodes ≡ c.storage_nodes
unfolding start_metadata_node
start_metadata_node-storage_nodes port next c = elim (Bool-cases (is_taken (local_link port) c)) [
  | inl taken ↦ rw taken refl
  | inr vacant ↦ rw vacant refl
]

-- Of the storage nodes that are started from free ports, each is at its port and has no chunk.
start_storage_nodes_new :
    (count k : ℕ) (c : Cluster)
    → k < count
    → ((j : ℕ) → j < count → IsFree (8001 + j) c)
    → (start_storage_nodes count c).storage_nodes (local_link (8001 + k)) ≡ some new_storage_node
unfolding start_storage_nodes
start_storage_nodes_new zero k c h free = absurd (omega arith)
start_storage_nodes_new (suc count) k c h free =
    let before = start_storage_nodes count c in
    let open_port =
      start_storage_nodes-IsFree count (8001 + count) c (λ j below. omega arith)
        (free count (omega arith)) in
    rw (start_storage_node_free (8001 + count) before open_port)
      (elim (Bool-cases (local_link (8001 + count) == local_link (8001 + k))) [
        | inl same ↦ rw same refl
        | inr apart ↦ rw apart (
            start_storage_nodes_new count k c
              (other_port count k h λ e. cc (apart, eq_refl (local_link (8001 + k)), e))
              (λ j below. free j (omega arith)))
      ])
  where
    other_port : (count k : ℕ) → k < suc count → k ≢ count → k < count
    other_port count k h differ = omega arith

-- The parts of a started cluster: so many empty storage nodes that run, and a chain of three metadata
-- nodes without metadata.
pub record IsStarted (storage_count : ℕ) (c : Cluster) : Type 0 where
  pub storage_new :
      (k : ℕ) → k < storage_count → c.storage_nodes (local_link (8001 + k)) ≡ some new_storage_node
  pub head_new : c.metadata_nodes (local_link 9001) ≡ some (new_node (local_link 9002) (pos 9001))
  pub middle_new : c.metadata_nodes (local_link 9002) ≡ some (new_node (local_link 9003) (pos 9002))
  pub tail_new : c.metadata_nodes (local_link 9003) ≡ some (new_node no_link (pos 9003))

at_local :
    {A : Type 0} (port other : ℕ) (node : A) (nodes : Link → Option A)
    → port ≢ other
    → at_link (local_link port) node nodes (local_link other) ≡ nodes (local_link other)
at_local port other node nodes differ = rw (local_link_apart port other differ)

at_local_self :
    {A : Type 0} (port : ℕ) (node : A) (nodes : Link → Option A)
    → at_link (local_link port) node nodes (local_link port) ≡ some node
at_local_self port node nodes = rw (eq_refl (local_link port))

-- Where the ports are free, `startCluster` starts every node of the deployment.
pub start_cluster-IsStarted :
    (count : ℕ) (c : Cluster)
    → count ≤ 1000
    → IsClear count c
    → IsStarted count (start_cluster count c)
unfolding start_cluster
start_cluster-IsStarted count c few clear =
    let stored = start_storage_nodes count c in
    let away : (port : ℕ) → 9001 ≤ port → (k : ℕ) → k < count → 8001 + k ≢ port =
      λ port high k h. omega arith in
    let third = start_metadata_node 9003 no_link stored in
    let second = start_metadata_node 9002 (local_link 9003) third in
    let free_3 =
      start_storage_nodes-IsFree count 9003 c (away 9003 (omega arith)) clear.tail_free in
    let free_2 =
      start_metadata_node-IsFree 9003 9002 no_link stored (omega arith)
        (start_storage_nodes-IsFree count 9002 c (away 9002 (omega arith)) clear.middle_free) in
    let free_1 = start_metadata_node-IsFree 9002 9001 (local_link 9003) third (omega arith) (
      start_metadata_node-IsFree 9003 9001 no_link stored (omega arith)
        (start_storage_nodes-IsFree count 9001 c (away 9001 (omega arith)) clear.head_free)) in
    let at_3 = start_metadata_node_free 9003 no_link stored free_3 in
    let at_2 = start_metadata_node_free 9002 (local_link 9003) third free_2 in
    let at_1 = start_metadata_node_free 9001 (local_link 9002) second free_1 in
    record {
      storage_new = λ k h.
          ap (λ nodes. nodes (local_link (8001 + k)))
            (start_metadata_node-storage_nodes 9001 (local_link 9002) second
              ∙ start_metadata_node-storage_nodes 9002 (local_link 9003) third
              ∙ start_metadata_node-storage_nodes 9003 no_link stored)
          ∙ start_storage_nodes_new count k c h clear.storage_free;
      head_new =
          ap (λ d. d.metadata_nodes (local_link 9001)) at_1
          ∙ at_local_self 9001 (new_node (local_link 9002) (pos 9001)) second.metadata_nodes;
      middle_new =
          ap (λ d. d.metadata_nodes (local_link 9002)) at_1
          ∙ at_local 9001 9002 (new_node (local_link 9002) (pos 9001)) second.metadata_nodes
              (omega arith)
          ∙ ap (λ d. d.metadata_nodes (local_link 9002)) at_2
          ∙ at_local_self 9002 (new_node (local_link 9003) (pos 9002)) third.metadata_nodes;
      tail_new =
          ap (λ d. d.metadata_nodes (local_link 9003)) at_1
          ∙ at_local 9001 9003 (new_node (local_link 9002) (pos 9001)) second.metadata_nodes
              (omega arith)
          ∙ ap (λ d. d.metadata_nodes (local_link 9003)) at_2
          ∙ at_local 9002 9003 (new_node (local_link 9003) (pos 9002)) third.metadata_nodes
              (omega arith)
          ∙ ap (λ d. d.metadata_nodes (local_link 9003)) at_3
          ∙ at_local_self 9003 (new_node no_link (pos 9003)) stored.metadata_nodes;
    }
