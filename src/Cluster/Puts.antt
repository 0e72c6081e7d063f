-- ===== src/Cluster/Puts.antt =====
-- A PUT that goes from node to node of a chain, each of which opens a connection to the next.
use mathlib.Core.Path.{fun_ext}
use distributed_file_storage.Base.{
  ℕ, zero, suc, ◌≤◌, ◌≡◌, refl, sym, ap, ◌∙◌, Bool, true, false, ◌||◌, Bool-cases, inl, inr, Option,
  none, some, List, [], ◌∷◌, Bytes, codes, arith, length, if◌then◌else◌,
}
use distributed_file_storage.Base.Equality.{◌==◌, eq_refl, Bytes_eq, bytes_eq}
use distributed_file_storage.Cluster.{
  Link_eq, link_eq_iff, at_link, MetadataNodes, exchange_of, put_reply, put_at,
}
use distributed_file_storage.Metadata.{
  FileMetadata, Link, MetadataNode, is_last, is_set, forwards, put_metadata, parse_put, handle_put,
}

abbrev pub on_route : Link → List Link → Bool
on_route link [] = false
on_route link (hop ∷ hops) = (hop == link) || on_route link hops

-- At each link a node runs that is no tail and has the link behind it as its next; the node at
-- the last link is a tail, or alone. No link is there twice.
abbrev pub IsRoute : MetadataNodes → List Link → Type 0
IsRoute nodes [] = ⊥
IsRoute nodes (link ∷ []) =
    (n : MetadataNode) × (nodes link ≡ some n) × (n.running ≡ true) × (is_last n.role ≡ true)
IsRoute nodes (link ∷ next ∷ links) =
    (n : MetadataNode) × (nodes link ≡ some n)
    × (n.running ≡ true)
    × (is_last n.role ≡ false)
    × (n.next_node ≡ next)
    × (is_set next ≡ true)
    × (on_route link (next ∷ links) ≡ false)
    × IsRoute nodes (next ∷ links)

on_route_self : (link : Link) (links : List Link) → on_route link (link ∷ links) ≡ true
on_route_self link links = rw (eq_refl link)

pub on_route-later :
    (hop link : Link) (links : List Link)
    → on_route link links ≡ true
    → on_route link (hop ∷ links) ≡ true
on_route-later hop link links h =
    rw h (elim (Bool-cases (hop == link)) [ inl e ↦ rw e | inr e ↦ rw e ])

-- A route is there as long as the nodes on it are.
pub on_route-IsRoute :
    (nodes others : MetadataNodes) (links : List Link)
    → ((link : Link) → on_route link links ≡ true → others link ≡ nodes link)
    → IsRoute nodes links
    → IsRoute others links
on_route-IsRoute nodes others [] same route = route
on_route-IsRoute nodes others (link ∷ []) same (n, found, up, last) =
    (n, same link (on_route_self link []) ∙ found, up, last)
on_route-IsRoute nodes others (link ∷ next ∷ links) same
      (n, found, up, inner, to_next, set, apart, route) =
    (
      n,
      same link (on_route_self link (next ∷ links)) ∙ found,
      up,
      inner,
      to_next,
      set,
      apart,
      on_route-IsRoute nodes others (next ∷ links)
          (λ other h. same other (on_route-later link other (next ∷ links) h)) route,
    )

abbrev pub with_put : FileMetadata → Option MetadataNode → Option MetadataNode
with_put meta none = none
with_put meta (some n) = some (put_metadata meta n)

-- The nodes with the metadata in those on the route.
abbrev pub put_on : FileMetadata → List Link → MetadataNodes → MetadataNodes
put_on meta links nodes link =
    if on_route link links then with_put meta (nodes link) else nodes link

put_at_found :
    (fuel : ℕ) (command : Bytes) (link : Link) (nodes : MetadataNodes) (n : MetadataNode)
    → nodes link ≡ some n
    → n.running ≡ true
    → put_at (suc fuel) command link nodes
      ≡ put_reply command n (at_link link (handle_put (exchange_of none) command n).1 nodes) (
          put_at fuel command n.next_node
            (at_link link (handle_put (exchange_of none) command n).1 nodes))
unfolding put_at
put_at_found fuel command link nodes n found up = rw (put_at, found, up) refl

module _ (command : Bytes) (meta : FileMetadata) (parsed : parse_put command ≡ some meta) where
  put_reply_last :
      (n : MetadataNode) (stored : MetadataNodes) (behind : Option Bytes × MetadataNodes)
      → is_last n.role ≡ true
      → put_reply command n stored behind ≡ (some (codes "ACK"), stored)
  unfolding handle_put
  put_reply_last n stored behind last = rw (handle_put, parsed, last) refl

  put_reply_inner :
      (n : MetadataNode) (stored after : MetadataNodes)
      → is_last n.role ≡ false
      → is_set n.next_node ≡ true
      → put_reply command n stored (some (codes "ACK"), after) ≡ (some (codes "ACK"), after)
  unfolding handle_put distributed_file_storage.Metadata.forward_put bytes_eq
  put_reply_inner n stored after inner set = rw (handle_put, parsed, inner, set) refl

  stored_metadata :
      (n : MetadataNode) → (handle_put (exchange_of none) command n).1 ≡ put_metadata meta n
  unfolding handle_put
  stored_metadata n = rw (handle_put, parsed) refl

  stored_on_one :
      (link : Link) (n : MetadataNode) (nodes : MetadataNodes)
      → nodes link ≡ some n
      → at_link link (put_metadata meta n) nodes ≡ put_on meta (link ∷ []) nodes
  stored_on_one link n nodes found = fun_ext λ other. elim (Bool-cases (link == other)) [
    | inl same ↦
        rw same (ap (with_put meta) (sym found ∙ ap nodes ((link_eq_iff link other).0 same)))
    | inr apart ↦ rw apart refl
  ]

  -- Storing at a link and then on a route that does not come back to it.
  stored_on_more :
      (link : Link) (links : List Link) (n : MetadataNode) (nodes : MetadataNodes)
      → nodes link ≡ some n
      → on_route link links ≡ false
      → put_on meta links (at_link link (put_metadata meta n) nodes)
        ≡ put_on meta (link ∷ links) nodes
  stored_on_more link links n nodes found apart = fun_ext λ other.
      elim (Bool-cases (link == other)) [
        | inl same ↦
            let here = (link_eq_iff link other).0 same in
            rw (same, sym (ap (λ l. on_route l links) here) ∙ apart)
              (ap (with_put meta) (sym found ∙ ap nodes here))
        | inr differ ↦ rw differ refl
      ]

  at_link-IsRoute :
      (link : Link) (links : List Link) (n : MetadataNode) (nodes : MetadataNodes)
      → on_route link links ≡ false
      → IsRoute nodes links
      → IsRoute (at_link link n nodes) links
  at_link-IsRoute link links n nodes apart =
      on_route-IsRoute nodes (at_link link n nodes) links λ other on.
        elim (Bool-cases (link == other)) [
          | inl same ↦ cc (apart, on, (link_eq_iff link other).0 same)
          | inr differ ↦ rw differ refl
        ]

  -- A command that parses, sent to the first link of a route: the answer is ACK, the nodes on the
  -- route have stored the metadata, and all other nodes are as before.
  pub put_at-put_on :
      (fuel : ℕ) (link : Link) (links : List Link) (nodes : MetadataNodes)
      → IsRoute nodes (link ∷ links)
      → length (link ∷ links) ≤ fuel
      → put_at fuel command link nodes ≡ (some (codes "ACK"), put_on meta (link ∷ links) nodes)
  put_at-put_on zero link links nodes route enough = absurd (omega arith)
  put_at-put_on (suc fuel) link [] nodes (n, found, up, last) enough =
      put_at_found fuel command link nodes n found up
      ∙ put_reply_last n _ _ last
      ∙ rw (stored_metadata n, stored_on_one link n nodes found)
  put_at-put_on (suc fuel) link (next ∷ links) nodes
        (n, found, up, inner, to_next, set, apart, route) enough =
      let stored = at_link link (put_metadata meta n) nodes in
      let behind =
        put_at-put_on fuel next links stored
          (at_link-IsRoute link (next ∷ links) (put_metadata meta n) nodes apart route)
          (omega arith) in
      put_at_found fuel command link nodes n found up
      ∙ ap
          (λ m.
            put_reply command n (at_link link m nodes)
              (put_at fuel command n.next_node (at_link link m nodes)))
          (stored_metadata n)
      ∙ ap (λ l. put_reply command n stored (put_at fuel command l stored)) to_next
      ∙ ap (put_reply command n stored) behind
      ∙ put_reply_inner n stored (put_on meta (next ∷ links) stored) inner (rw to_next set)
      ∙ ap (λ after. (some (codes "ACK"), after))
          (stored_on_more link (next ∷ links) n nodes found apart)
