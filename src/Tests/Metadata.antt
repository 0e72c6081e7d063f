-- ===== src/Tests/Metadata.antt =====
-- A chain of three metadata nodes, and the metadata of a file of two chunks.
use distributed_file_storage.Base.{◌≡◌, refl, true, false, some, [], ◌∷◌, List, codes, All, arith}
use distributed_file_storage.Base.Int.{ℤ, pos}
use distributed_file_storage.Streams.{read_int, to_string, split_hashes, join_hashes, read_word}
use distributed_file_storage.Metadata.{
  FileMetadata, Link, no_link, MetadataNode, new_node, Exchange, parse_put, found_message,
  handle_put, handle_get, handle_next_node_failure,
}
use distributed_file_storage.Client.{put_command, metadata_of_response}
use distributed_file_storage.Metadata.Codec.{
  IsStorable, parse_put-put_command, metadata_of_response-found_message,
}
use distributed_file_storage.Metadata.Chain.{
  Hop, IsChain, Stores, put_chain, put_chain_ack, put_chain_connected,
}
use distributed_file_storage.Metadata.Reads.{Serves, get_after_put, handle_next_node_failure_alone}
use distributed_file_storage.Metadata.Roles.{Event, checked}

abbrev pub notes : FileMetadata
notes = record {
  filename = codes "notes";
  root_hash = codes "ab12";
  file_size = pos 1048579;
  chunk_size = pos 1048576;
  total_chunks = pos 2;
  chunk_hashes = codes "a1" ∷ codes "b2" ∷ [];
}

pub notes-IsStorable : IsStorable notes
notes-IsStorable = record {
  name_word = record {
    some_letter = λ e. cc;
    letters = (refl, (refl, (refl, (refl, (refl, tt)))));
  };
  root_word = record { some_letter = λ e. cc; letters = (refl, (refl, (refl, (refl, tt)))) };
  size_fits = (omega arith, omega arith);
  chunk_fits = (omega arith, omega arith);
  total_fits = (omega arith, omega arith);
  some_hash = λ e. cc;
  hash_fields = (
    record { some_letter = λ e. cc; letters = (refl, (refl, tt)) },
    (record { some_letter = λ e. cc; letters = (refl, (refl, tt)) }, tt),
  );
  hash_words = (
    record { some_letter = λ e. cc; letters = (refl, (refl, tt)) },
    (record { some_letter = λ e. cc; letters = (refl, (refl, tt)) }, tt),
  );
}

abbrev link_to : ℤ → Link
link_to port = record { ip = codes "127.0.0.1"; port = port }

abbrev hop_of : MetadataNode → Hop
hop_of n = record { node = n; connects = true; sends = true }

abbrev three_nodes : List Hop
three_nodes =
    hop_of (new_node (link_to (pos 9002)) (pos 9001))
    ∷ hop_of (new_node (link_to (pos 9003)) (pos 9002))
    ∷ hop_of (new_node no_link (pos 9003))
    ∷ []

three_nodes-IsChain : IsChain three_nodes
three_nodes-IsChain = (refl, refl, (refl, refl, refl))

parse_put-notes : parse_put (put_command notes) ≡ some notes
unfolding parse_put put_command read_word read_int to_string join_hashes split_hashes
parse_put-notes = refl

notes_acknowledged : (put_chain (put_command notes) three_nodes).0 ≡ codes "ACK"
notes_acknowledged =
    put_chain_connected (put_command notes) notes three_nodes parse_put-notes three_nodes-IsChain
      ((refl, refl), ((refl, refl), ((refl, refl), tt)))

parse_put-put_command_example : parse_put (put_command notes) ≡ some notes
parse_put-put_command_example = parse_put-put_command notes notes-IsStorable

metadata_of_response-found_message_example :
    metadata_of_response (codes "notes") (found_message notes) ≡ some notes
metadata_of_response-found_message_example =
    metadata_of_response-found_message (codes "notes") notes notes-IsStorable

put_chain_connected_example : (put_chain (put_command notes) three_nodes).0 ≡ codes "ACK"
put_chain_connected_example =
    put_chain_connected (put_command notes) notes three_nodes parse_put-notes three_nodes-IsChain
      ((refl, refl), ((refl, refl), ((refl, refl), tt)))

put_chain_ack_example :
    All (Stores (codes "notes") notes) (put_chain (put_command notes) three_nodes).1
put_chain_ack_example =
    put_chain_ack (put_command notes) notes three_nodes parse_put-notes three_nodes-IsChain
      notes_acknowledged

get_after_put_example : All (Serves notes) (put_chain (put_command notes) three_nodes).1
get_after_put_example =
    get_after_put notes three_nodes notes-IsStorable three_nodes-IsChain notes_acknowledged

handle_next_node_failure_alone_example :
    (after : MetadataNode) × (handle_put
        (record { connects = false; sends = false; response = [] })
        (put_command notes)
        (handle_next_node_failure (new_node (link_to (pos 9002)) (pos 9001))).0
      ≡ (codes "ACK", after))
    × (metadata_of_response (codes "notes") (handle_get (codes "notes") after) ≡ some notes)
handle_next_node_failure_alone_example =
    handle_next_node_failure_alone (record { connects = false; sends = false; response = [] })
      (new_node (link_to (pos 9002)) (pos 9001)) notes refl notes-IsStorable

abbrev silent_peer : Exchange
silent_peer = record { connects = true; sends = true; response = [] }

-- The next node answers a ping, then it does not.
abbrev two_checks : List Event
two_checks = checked (record silent_peer { response = codes "PONG" }) ∷ checked silent_peer ∷ []
