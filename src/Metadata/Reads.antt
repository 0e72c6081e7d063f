-- ===== src/Metadata/Reads.antt =====
-- What a client reads after a PUT.
use distributed_file_storage.Base.{
  ◌≡◌, refl, ap, ◌∙◌, true, false, some, List, [], ◌∷◌, Bytes, codes, All, arith,
}
use distributed_file_storage.Base.Assoc.{lookup, lookup-insert_self}
use distributed_file_storage.Base.Equality.{Bytes_eq}
use distributed_file_storage.Metadata.{
  FileMetadata, MetadataNode, Exchange, is_last, is_set, handle_get, handle_put, put_metadata,
  found_message, store_and_forward, handle_next_node_failure,
}
use distributed_file_storage.Client.{put_command, metadata_of_response}
use distributed_file_storage.Metadata.Codec.{
  IsStorable, parse_put-put_command, metadata_of_response-found_message,
}
use distributed_file_storage.Metadata.Chain.{Hop, IsChain, Stores, put_chain, put_chain_ack}

pub handle_get_found :
    (filename : Bytes) (meta : FileMetadata) (n : MetadataNode)
    → is_last n.role ≡ true
    → lookup filename n.metadata_store ≡ some meta
    → handle_get filename n ≡ found_message meta
unfolding handle_get
handle_get_found filename meta n last stored = rw (last, stored) refl

-- A tail answers the GET of `meta.filename` with a text that the client reads as `meta`.
abbrev pub Serves : FileMetadata → Hop → Type 0
Serves meta hop =
    is_last hop.node.role ≡ true
    → metadata_of_response meta.filename (handle_get meta.filename hop.node) ≡ some meta

Stores-Serves :
    (meta : FileMetadata)
    → IsStorable meta
    → (hop : Hop) → Stores meta.filename meta hop
    → Serves meta hop
Stores-Serves meta h hop stored last =
    ap (metadata_of_response meta.filename)
      (handle_get_found meta.filename meta hop.node last stored)
    ∙ metadata_of_response-found_message meta.filename meta h

All-Serves :
    (meta : FileMetadata)
    → IsStorable meta
    → (hops : List Hop) → All (Stores meta.filename meta) hops
    → All (Serves meta) hops
All-Serves meta h [] stored = tt
All-Serves meta h (hop ∷ hops) (s, stored) =
    (Stores-Serves meta h hop s, All-Serves meta h hops stored)

-- Let `meta` be storable (its names and hashes are words, its hashes have no comma, its numbers fit
-- their types) and the nodes a chain. After the head has acknowledged the PUT that a client wrote
-- for `meta`, every node of the chain that serves reads answers the GET of the file with a text
-- from which the client reads `meta`.
pub get_after_put :
    (meta : FileMetadata) (hops : List Hop)
    → IsStorable meta
    → IsChain hops
    → (put_chain (put_command meta) hops).0 ≡ codes "ACK"
    → All (Serves meta) (put_chain (put_command meta) hops).1
get_after_put meta hops h chain ack =
    All-Serves meta h (put_chain (put_command meta) hops).1
      (put_chain_ack (put_command meta) meta hops (parse_put-put_command meta h) chain ack)

failure_last :
    (n : MetadataNode)
    → is_set n.skip_to ≡ false
    → is_last (handle_next_node_failure n).0.role ≡ true
unfolding handle_next_node_failure
failure_last n none_set = ground arith

store_and_forward_last :
    (e : Exchange) (n : MetadataNode) (meta : FileMetadata)
    → is_last n.role ≡ true
    → store_and_forward e n (some meta) ≡ (codes "ACK", put_metadata meta n)
store_and_forward_last e n meta last = rw last refl

-- A node that knows no node to skip to, once its next node has failed, acknowledges every PUT that
-- a client writes for storable metadata, whatever another node would answer, and then serves the
-- file to a GET.
pub handle_next_node_failure_alone :
    (e : Exchange) (n : MetadataNode) (meta : FileMetadata)
    → is_set n.skip_to ≡ false
    → IsStorable meta
    → (after : MetadataNode) × (handle_put e (put_command meta) (handle_next_node_failure n).0
        ≡ (codes "ACK", after))
      × (metadata_of_response meta.filename (handle_get meta.filename after) ≡ some meta)
unfolding handle_put
handle_next_node_failure_alone e n meta none_set h =
    let failed = (handle_next_node_failure n).0 in
    let last = failure_last n none_set in
    (
      put_metadata meta failed,
      ap (store_and_forward e failed) (parse_put-put_command meta h)
          ∙ store_and_forward_last e failed meta last,
      ap (metadata_of_response meta.filename) (
            handle_get_found meta.filename meta (put_metadata meta failed) last
              (lookup-insert_self meta.filename meta failed.metadata_store))
          ∙ metadata_of_response-found_message meta.filename meta h,
    )
