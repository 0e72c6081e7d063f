-- ===== src/Client/Failover.antt =====
-- A storage node that is lost after an upload.
use mathlib.Core.List.{Mem, Nodup, mem-cons_self, Nodup-cons}
use distributed_file_storage.Base.{
  ◌≤◌, ◌≡◌, ◌≢◌, inl, inr, refl, sym, ap, ◌∙◌, subst, Bool-cases, false, none, some, List, [], ◌∷◌,
  Bytes, All, arith, length, if◌then◌else◌,
}
use distributed_file_storage.Base.Equality.{◌==◌}
use distributed_file_storage.Base.Int.{pos}
use distributed_file_storage.Client.Address.{Address, no_colon, throws, endpoint, parse_address}
use distributed_file_storage.Client.Copies.{CopyAt, HasCopy, Copied}
use distributed_file_storage.Client.Replication.{AllCopies, Replicated}
use distributed_file_storage.Cluster.{Cluster, Link_eq, link_eq_iff}
use distributed_file_storage.Cluster.Copies.{ServedAt}
use distributed_file_storage.Dht.Lookup.{IsRing}
use distributed_file_storage.Dht.Members.{get_nodes_for_key-All}
use distributed_file_storage.Dht.Replicas.{get_nodes_for_key_distinct}
use distributed_file_storage.Dht.Ring.{Ring, get_all_nodes, get_node_count}
use distributed_file_storage.Metadata.{Link}

-- No storage node listens at the link any more.
abbrev pub without : Link → Cluster → Cluster
without link c = record c {
  storage_nodes = λ other. if link == other then none else c.storage_nodes other;
}

-- Two addresses of one endpoint.
abbrev pub SameEndpoint : Bytes → Bytes → Type 0
SameEndpoint a b =
    (link : Link) × (parse_address a ≡ endpoint link) × (parse_address b ≡ endpoint link)

-- Different addresses of the ring are different endpoints.
abbrev pub AreEndpoints : Ring → Type 0
AreEndpoints ring =
    All (λ a. All (λ b. SameEndpoint a b → a ≡ b) (get_all_nodes ring)) (get_all_nodes ring)

copy_endpoint :
    (hash : Bytes) (c : Cluster) (address : Address)
    → CopyAt hash c address
    → (link : Link) × (address ≡ endpoint link) × ServedAt hash c link
copy_endpoint hash c no_colon h = absurd h
copy_endpoint hash c throws h = absurd h
copy_endpoint hash c (endpoint link) h = (link, refl, h)

without-CopyAt :
    (hash : Bytes) (lost at : Link) (c : Cluster) (address : Address)
    → address ≡ endpoint at
    → (lost == at) ≡ false
    → ServedAt hash c at
    → CopyAt hash (without lost c) address
without-CopyAt hash lost at c address named apart h =
    subst (CopyAt hash (without lost c)) (sym named) (rw apart h)

-- Of two copies at different addresses one is left.
copy_left :
    (hash : Bytes) (lost : Link) (c : Cluster) (x y : Bytes) (rest : List Bytes)
    → (SameEndpoint x y → x ≡ y)
    → x ≢ y
    → AllCopies hash (x ∷ y ∷ rest) c
    → HasCopy hash (x ∷ y ∷ rest) (without lost c)
copy_left hash lost c x y rest apart differ (at_x, (at_y, copies)) =
    let (lx, ex, hx) = copy_endpoint hash c (parse_address x) at_x in
    let (ly, ey, hy) = copy_endpoint hash c (parse_address y) at_y in
    elim (Bool-cases (lost == lx)) [
      | inr other ↦ inl (without-CopyAt hash lost lx c (parse_address x) ex other hx)
      | inl same ↦ elim (Bool-cases (lost == ly)) [
        | inr other ↦ inr (inl (without-CopyAt hash lost ly c (parse_address y) ey other hy))
        | inl also ↦ absurd (
            differ (
              apart (
                lost,
                ex ∙ ap endpoint (sym ((link_eq_iff lost lx).0 same)),
                ey ∙ ap endpoint (sym ((link_eq_iff lost ly).0 also)),
              )))
      ]
    ]

two_nodes :
    (nodes : List Bytes)
    → 2 ≤ length nodes
    → Nodup nodes
    → (x : Bytes) × (y : Bytes) × (rest : List Bytes) × (nodes ≡ x ∷ y ∷ rest) × (x ≢ y)
two_nodes [] two h = absurd (omega arith)
two_nodes (x ∷ []) two h = absurd (omega arith)
two_nodes (x ∷ y ∷ rest) two h = (
  x,
  y,
  rest,
  refl,
  λ e. (Nodup-cons.0 h).0 (subst (λ z. Mem z (y ∷ rest)) (sym e) mem-cons_self),
)

-- Where the ring has two nodes at least, a hash with all its copies keeps one of them.
pub Replicated-Copied :
    (ring : Ring) (hash : Bytes) (lost : Link) (c : Cluster)
    → IsRing ring
    → 2 ≤ get_node_count ring
    → AreEndpoints ring
    → Replicated ring c hash
    → Copied ring (without lost c) hash
Replicated-Copied ring hash lost c well_formed two apart (nodes, found, copies) =
    let (many, distinct) = get_nodes_for_key_distinct hash (pos 2) ring nodes well_formed found in
    let (x, y, rest, split, differ) = two_nodes nodes (omega (arith, many, two)) distinct in
    let among =
      get_nodes_for_key-All (λ a. All (λ b. SameEndpoint a b → a ≡ b) (get_all_nodes ring)) hash
        (pos 2) ring (x ∷ y ∷ rest) apart (found ∙ ap some split) in
    let to_others =
      get_nodes_for_key-All (λ b. SameEndpoint x b → x ≡ b) hash (pos 2) ring (x ∷ y ∷ rest) among.0
        (found ∙ ap some split) in
    (
      x ∷ y ∷ rest,
      found ∙ ap some split,
      copy_left hash lost c x y rest to_others.1.0 differ
          (subst (λ l. AllCopies hash l c) split copies),
    )
