-- ===== src/Tests/Storage.antt =====
-- A storage node that starts empty.
use distributed_file_storage.Base.{◌≡◌, ◌≢◌, refl, true, some, List, ◌++◌, [], ◌∷◌, Bytes, codes}
use distributed_file_storage.Base.Assoc.{lookup}
use distributed_file_storage.Streams.Words.{IsWord}
use distributed_file_storage.Storage.{StorageNode, command, handle_client}
use distributed_file_storage.Storage.Conversation.{with_chunk, Holds}
use distributed_file_storage.Storage.{serve_chunk}
use distributed_file_storage.Storage.Connections.{
  Connections, testing, pending, Event, proceeds, comes_in, stored, fetched, told, history,
  operations, turn, serve, serve_all,
}
use distributed_file_storage.Storage.Connections.Linear.{
  content, perform_all, AreAnswered, serve_all-AreAnswered,
}
use distributed_file_storage.Storage.Connections.Replies.{answers_on, sent_on, sent_on-answers_on}
use distributed_file_storage.Storage.Connections.Latest.{fetched_last_stored}
use distributed_file_storage.Base.Int.{pos}
use distributed_file_storage.Network.Server.{Listen}
use distributed_file_storage.Network.Server.Descriptors.{count}
use distributed_file_storage.Storage.Lifetime.{NodeEvent, accepts, handler_ends, dies, lifetime}
use distributed_file_storage.Storage.Lifetime.Closed.{lifetime_closes}

abbrev empty_node : StorageNode
empty_node = record { storage = []; running = true }

abbrev full_node : StorageNode
full_node = with_chunk (codes "a1") (codes "hello") empty_node

hash-IsWord : IsWord (codes "a1")
hash-IsWord = record { some_letter = λ e. cc; letters = (refl, (refl, tt)) }

full_node-Holds : Holds (codes "a1") full_node
unfolding lookup distributed_file_storage.Base.Assoc.insert
    distributed_file_storage.Base.Equality.bytes_eq
full_node-Holds = (b'h', codes "ello", refl)

-- Two connections that take turns: the first stores a chunk, and the second asks for it.
abbrev two_connections : Connections
two_connections = record { node = empty_node; serving = true; places = λ id. testing }

abbrev store_and_ask : List Event
store_and_ask =
    proceeds 1
    ∷ proceeds 2
    ∷ comes_in 1 (codes "STORE a1")
    ∷ proceeds 1
    ∷ proceeds 1
    ∷ comes_in 1 (codes "hello")
    ∷ comes_in 2 (codes "GET a1")
    ∷ []

store_and_ask-history :
    history store_and_ask two_connections
    ≡ told (codes "READY" ∷ []) ∷ []
      ++ (stored (codes "a1") (codes "hello") (codes "ACK" ∷ [])
          ∷ ([] ++ (fetched (codes "a1") (codes "FOUND" ∷ codes "hello" ∷ []) ∷ [])))
unfolding history operations turn serve distributed_file_storage.Storage.dispatch
    distributed_file_storage.Storage.handle_chunk distributed_file_storage.Storage.get_command
    lookup distributed_file_storage.Base.Assoc.insert distributed_file_storage.Streams.read_word
    distributed_file_storage.Base.Equality.bytes_eq
store_and_ask-history = refl

serve_all-AreAnswered_example :
    AreAnswered (history store_and_ask two_connections) (content two_connections.node)
    × (content (serve_all store_and_ask two_connections).node
        ≡ perform_all (history store_and_ask two_connections) (content two_connections.node))
serve_all-AreAnswered_example = serve_all-AreAnswered store_and_ask two_connections

fetched_last_stored_example :
    (codes "ACK" ∷ [] ≡ codes "ACK" ∷ [])
    × (codes "FOUND" ∷ codes "hello" ∷ [] ≡ serve_chunk (some (codes "hello")))
fetched_last_stored_example =
    fetched_last_stored store_and_ask two_connections (told (codes "READY" ∷ []) ∷ []) [] []
      (codes "a1") (codes "hello") (codes "ACK" ∷ []) (codes "FOUND" ∷ codes "hello" ∷ [])
      store_and_ask-history tt

store_and_ask_serving : (serve_all store_and_ask two_connections).serving ≡ true
unfolding serve_all turn serve distributed_file_storage.Storage.dispatch
    distributed_file_storage.Storage.handle_chunk distributed_file_storage.Storage.get_command
    lookup distributed_file_storage.Base.Assoc.insert distributed_file_storage.Streams.read_word
    distributed_file_storage.Base.Equality.bytes_eq
store_and_ask_serving = refl

sent_on-answers_on_example :
    pending (two_connections.places 1) ++ answers_on 1 store_and_ask two_connections
    ≡ sent_on 1 store_and_ask two_connections
      ++ pending ((serve_all store_and_ask two_connections).places 1)
sent_on-answers_on_example =
    sent_on-answers_on 1 store_and_ask two_connections store_and_ask_serving

-- A node that accepts two connections, of which one ends before it is told to die.
abbrev listens_at_3 : Listen
listens_at_3 = record { descriptor = pos 3; option_set = true; bound = true; listening = true }

abbrev two_accepted : List NodeEvent
two_accepted = accepts (pos 4) ∷ accepts (pos 5) ∷ handler_ends 1 ∷ dies ∷ handler_ends 2 ∷ []

lifetime_closes_example :
    count (pos 5) (lifetime listens_at_3 two_accepted).closed
    ≡ count (pos 5) (lifetime listens_at_3 two_accepted).opened
lifetime_closes_example = lifetime_closes listens_at_3 two_accepted (pos 5)
