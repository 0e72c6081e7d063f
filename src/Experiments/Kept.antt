-- ===== src/Experiments/Kept.antt =====
-- What `startCluster` keeps.
use distributed_file_storage.Base.{
  ℕ, zero, suc, ◌+◌, ◌<◌, ◌≡◌, ◌≢◌, refl, sym, subst, ap, ◌∙◌, Bool-cases, inl, inr, none, Bytes,
  arith,
}
use distributed_file_storage.Base.Assoc.{lookup}
use distributed_file_storage.Base.Equality.{Bytes_eq, ℕ_eq}
use distributed_file_storage.Cluster.{Cluster, Link_eq}
use distributed_file_storage.Cluster.Chunks.{
  ContentAddressed, IsAddressed, chunk_under, at_link-ContentAddressed,
}
use distributed_file_storage.Experiments.Clear.{local_link_apart}
use distributed_file_storage.Experiments.Deploy.{
  local_link, is_taken, new_storage_node, start_storage_node, start_metadata_node,
  start_storage_nodes, start_cluster,
}
use distributed_file_storage.Metadata.{Link, no_link}
use distributed_file_storage.Experiments.Started.{start_metadata_node-storage_nodes}

start_storage_node-ContentAddressed :
    (port : ℕ) (c : Cluster) → ContentAddressed c → ContentAddressed (start_storage_node port c)
unfolding start_storage_node
start_storage_node-ContentAddressed port c h = elim (Bool-cases (is_taken (local_link port) c)) [
  | inl taken ↦ rw taken h
  | inr vacant ↦ rw vacant (
      at_link-ContentAddressed (local_link port) new_storage_node c (λ hash. unfold lookup in tt) h)
]

start_storage_nodes-ContentAddressed :
    (count : ℕ) (c : Cluster) → ContentAddressed c → ContentAddressed (start_storage_nodes count c)
unfolding start_storage_nodes
start_storage_nodes-ContentAddressed zero c h = h
start_storage_nodes-ContentAddressed (suc count) c h =
    start_storage_node-ContentAddressed (8001 + count) (start_storage_nodes count c)
      (start_storage_nodes-ContentAddressed count c h)

pub start_cluster-ContentAddressed :
    (count : ℕ) (c : Cluster) → ContentAddressed c → ContentAddressed (start_cluster count c)
unfolding start_cluster
start_cluster-ContentAddressed count c h =
    let stored = start_storage_nodes count c in
    let third = start_metadata_node 9003 no_link stored in
    let second = start_metadata_node 9002 (local_link 9003) third in
    subst (λ nodes. (link : Link) (hash : Bytes) → IsAddressed hash (chunk_under hash (nodes link)))
      (sym (
        start_metadata_node-storage_nodes 9001 (local_link 9002) second
        ∙ start_metadata_node-storage_nodes 9002 (local_link 9003) third
        ∙ start_metadata_node-storage_nodes 9003 no_link stored))
      (start_storage_nodes-ContentAddressed count c h)

start_storage_nodes-metadata_nodes :
    (count : ℕ) (c : Cluster) → (start_storage_nodes count c).metadata_nodes ≡ c.metadata_nodes
unfolding start_storage_nodes start_storage_node
start_storage_nodes-metadata_nodes zero c = refl
start_storage_nodes-metadata_nodes (suc count) c =
    elim (Bool-cases (is_taken (local_link (8001 + count)) (start_storage_nodes count c))) [
      | inl taken ↦ rw taken (start_storage_nodes-metadata_nodes count c)
      | inr vacant ↦ rw vacant (start_storage_nodes-metadata_nodes count c)
    ]

start_metadata_node-no_metadata :
    (port other : ℕ) (next : Link) (c : Cluster)
    → port ≢ other
    → c.metadata_nodes (local_link other) ≡ none
    → (start_metadata_node port next c).metadata_nodes (local_link other) ≡ none
unfolding start_metadata_node
start_metadata_node-no_metadata port other next c differ h =
    elim (Bool-cases (is_taken (local_link port) c)) [
      | inl taken ↦ rw taken h
      | inr vacant ↦ rw (vacant, local_link_apart port other differ) h
    ]

-- No metadata node is started at another port than 9001, 9002 and 9003.
pub start_cluster-no_metadata :
    (count port : ℕ) (c : Cluster)
    → port < 9001
    → c.metadata_nodes (local_link port) ≡ none
    → (start_cluster count c).metadata_nodes (local_link port) ≡ none
unfolding start_cluster
start_cluster-no_metadata count port c below h =
    let stored = start_storage_nodes count c in
    let third = start_metadata_node 9003 no_link stored in
    let second = start_metadata_node 9002 (local_link 9003) third in
    start_metadata_node-no_metadata 9001 port (local_link 9002) second (omega arith) (
      start_metadata_node-no_metadata 9002 port (local_link 9003) third (omega arith) (
        start_metadata_node-no_metadata 9003 port no_link stored (omega arith)
          (ap (λ nodes. nodes (local_link port)) (start_storage_nodes-metadata_nodes count c) ∙ h)))
