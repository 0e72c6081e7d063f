-- ===== src/Metadata/Chain.antt =====
-- Chain replication: what a PUT to the first node of a chain does to all of them.
use distributed_file_storage.Base.{
  ◌≡◌, refl, sym, ap, ◌∙◌, Bool, true, false, ◌&&◌, Option, none, some, List, [], ◌∷◌, arith, Bytes,
  codes, All, if◌then◌else◌,
}
use distributed_file_storage.Base.Assoc.{lookup, lookup-insert_self}
use distributed_file_storage.Base.Equality.{Bytes_eq, bytes_eq_iff}
use distributed_file_storage.Metadata.{
  store_and_forward, FileMetadata, MetadataNode, Exchange, is_last, is_set, forwards, put_metadata,
  parse_put, forward_put, handle_put,
}

-- A node, and whether the connection to the one behind it can be made and sent on.
pub record Hop : Type 0 where
  pub node : MetadataNode
  pub connects : Bool
  pub sends : Bool

abbrev pub with_node : Hop → MetadataNode → Hop
with_node hop n = record hop { node = n }

-- The exchange that answers a forwarded command with what the next node replies.
abbrev pub answered : Hop → Bytes → Exchange
answered hop response = record { connects = hop.connects; sends = hop.sends; response = response }

-- Whether a command that parses reaches the next node.
abbrev pub passes_on : Hop → Bool
passes_on hop = forwards hop.node && (hop.connects && hop.sends)

-- The nodes behind a node after a command, given them as they are and as the command leaves them.
abbrev pub nodes_behind : Hop → List Hop → List Hop → Option FileMetadata → List Hop
nodes_behind hop before after none = before
nodes_behind hop before after (some meta) = if passes_on hop then after else before

-- A PUT to the first of the nodes, each of which has the one behind it as its next: the reply, and
-- the nodes after it. Behind the last there is nobody to reply.
unfoldable pub put_chain : Bytes → List Hop → Bytes × List Hop
put_chain command [] = ([], [])
put_chain command (hop ∷ hops) =
    let behind = put_chain command hops in
    let replied = handle_put (answered hop behind.0) command hop.node in
    (replied.0, with_node hop replied.1 ∷ nodes_behind hop hops behind.1 (parse_put command))

-- Every node but the last is no tail and has a next node; the last is a tail.
abbrev pub IsChain : List Hop → Type 0
IsChain [] = ⊥
IsChain (hop ∷ []) = is_last hop.node.role ≡ true
IsChain (hop ∷ next ∷ hops) =
    (is_last hop.node.role ≡ false) × (is_set hop.node.next_node ≡ true) × IsChain (next ∷ hops)

-- The connection to each next node works.
abbrev pub AllConnected : List Hop → Type 0
AllConnected = All (λ hop. (hop.connects ≡ true) × (hop.sends ≡ true))

abbrev pub Stores : Bytes → FileMetadata → Hop → Type 0
Stores filename meta hop = lookup filename hop.node.metadata_store ≡ some meta

module _ (command : Bytes) (meta : FileMetadata) (parsed : parse_put command ≡ some meta) where
  put_chain-cons :
      (hop : Hop) (hops : List Hop)
      → put_chain command (hop ∷ hops) ≡ (
        (store_and_forward (answered hop (put_chain command hops).0) hop.node (some meta)).0,
        with_node hop (put_metadata meta hop.node)
            ∷ (if passes_on hop then (put_chain command hops).1 else hops),
      )
  unfolding put_chain handle_put
  put_chain-cons hop hops = rw (put_chain, handle_put, parsed) refl

  put_chain_last :
      (hop : Hop) (hops : List Hop)
      → is_last hop.node.role ≡ true
      → put_chain command (hop ∷ hops)
        ≡ (codes "ACK", with_node hop (put_metadata meta hop.node) ∷ hops)
  put_chain_last hop hops last = put_chain-cons hop hops ∙ rw last refl

  put_chain_forwarded :
      (hop : Hop) (hops : List Hop)
      → is_last hop.node.role ≡ false
      → is_set hop.node.next_node ≡ true
      → put_chain command (hop ∷ hops) ≡ (
        (if forward_put (answered hop (put_chain command hops).0)
            then codes "ACK"
            else codes "ERROR_FORWARD"),
        with_node hop (put_metadata meta hop.node)
            ∷ (if hop.connects && hop.sends then (put_chain command hops).1 else hops),
      )
  put_chain_forwarded hop hops inner next = put_chain-cons hop hops ∙ rw (inner, next) refl

ack-forward_put :
    (b : Bool) → (if b then codes "ACK" else codes "ERROR_FORWARD") ≡ codes "ACK" → b ≡ true
ack-forward_put true e = refl
ack-forward_put false e = cc

forward_put_inv :
    (e : Exchange)
    → forward_put e ≡ true
    → (e.connects ≡ true) × (e.sends ≡ true) × (e.response ≡ codes "ACK")
unfolding forward_put
forward_put_inv e h = ground (arith, bytes_eq_iff e.response (codes "ACK"))

forward_put_ack :
    (e : Exchange)
    → e.connects ≡ true
    → e.sends ≡ true
    → e.response ≡ codes "ACK"
    → forward_put e ≡ true
unfolding forward_put
forward_put_ack e c s r = ground (arith, bytes_eq_iff e.response (codes "ACK"))

put_metadata-Stores :
    (hop : Hop) (meta : FileMetadata)
    → Stores meta.filename meta (with_node hop (put_metadata meta hop.node))
put_metadata-Stores hop meta = lookup-insert_self meta.filename meta hop.node.metadata_store

-- When the head of a chain acknowledges a PUT that parses as `meta`, every node of the chain has
-- stored `meta`.
pub put_chain_ack :
    (command : Bytes) (meta : FileMetadata) (hops : List Hop)
    → parse_put command ≡ some meta
    → IsChain hops
    → (put_chain command hops).0 ≡ codes "ACK"
    → All (Stores meta.filename meta) (put_chain command hops).1
put_chain_ack command meta [] parsed chain ack = absurd chain
put_chain_ack command meta (hop ∷ []) parsed last ack =
    rw (put_chain_last command meta parsed hop [] last) (put_metadata-Stores hop meta, tt)
put_chain_ack command meta (hop ∷ next ∷ hops) parsed (inner, linked, chain) ack =
    let step = put_chain_forwarded command meta parsed hop (next ∷ hops) inner linked in
    let (connects, sends, answer) =
      forward_put_inv (answered hop (put_chain command (next ∷ hops)).0)
        (ack-forward_put _ (sym (ap (λ r. r.0) step) ∙ ack)) in
    rw (step, connects, sends)
      (put_metadata-Stores hop meta, put_chain_ack command meta (next ∷ hops) parsed chain answer)

-- A PUT that parses is acknowledged by a chain whose connections all work.
pub put_chain_connected :
    (command : Bytes) (meta : FileMetadata) (hops : List Hop)
    → parse_put command ≡ some meta
    → IsChain hops
    → AllConnected hops
    → (put_chain command hops).0 ≡ codes "ACK"
put_chain_connected command meta [] parsed chain connected = absurd chain
put_chain_connected command meta (hop ∷ []) parsed last connected =
    ap (λ r. r.0) (put_chain_last command meta parsed hop [] last)
put_chain_connected command meta (hop ∷ next ∷ hops) parsed (inner, linked, chain)
      ((c, s), connected) =
    ap (λ r. r.0) (put_chain_forwarded command meta parsed hop (next ∷ hops) inner linked)
    ∙ rw
        (forward_put_ack (answered hop (put_chain command (next ∷ hops)).0) c s
          (put_chain_connected command meta (next ∷ hops) parsed chain connected))
        refl
