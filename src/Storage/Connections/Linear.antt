-- ===== src/Storage/Connections/Linear.antt =====
-- The connections of a storage node against one map of chunks that is read and written at once.
use distributed_file_storage.Base.{
  ◌≡◌, refl, sym, ap, ◌∙◌, subst, Bool-cases, inl, inr, Option, none, some, List, [], ◌∷◌, ◌++◌,
  Bytes, codes, if◌then◌else◌,
}
use distributed_file_storage.Base.Assoc.{lookup, lookup-insert}
use distributed_file_storage.Base.Equality.{◌==◌, Bytes_eq, bytes_eq, bytes_eq_iff}
use distributed_file_storage.Streams.{read_word}
use distributed_file_storage.Storage.{
  StorageNode, Answer, serve_chunk, get_command, dispatch, dispatch_word, handle_chunk,
}
use distributed_file_storage.Storage.Conversation.{dispatch-storage}
use distributed_file_storage.Storage.Connections.{
  Place, testing, reading, receiving, sending, stopping, behind, Connections, Event, proceeds,
  comes_in, message_turn, proceed_turn, command_place, chunk_turn, turn, serve, serve_all,
  Operation, stored, fetched, told, pending, asked, asked_in, fetched_of, operations_at, operations,
  history,
}
use mathlib.Core.Path.{fun_ext}

-- The chunk under each hash.
abbrev pub Content : Type 0
Content = Bytes → Option Bytes

abbrev pub content : StorageNode → Content
content n = λ hash. lookup hash n.storage

abbrev pub written : Bytes → Bytes → Content → Content
written hash bytes held = λ other. if hash == other then some bytes else held other

abbrev pub perform : Operation → Content → Content
perform (stored hash bytes sent) held = written hash bytes held
perform (fetched hash sent) held = held
perform (told sent) held = held

abbrev pub perform_all : List Operation → Content → Content
perform_all [] held = held
perform_all (operation ∷ operations) held = perform_all operations (perform operation held)

-- A chunk that is written is to be acknowledged, and a GET to be sent what the map has under its hash at
-- that time.
abbrev pub IsAnswered : Operation → Content → Type 0
IsAnswered (stored hash bytes sent) held = sent ≡ codes "ACK" ∷ []
IsAnswered (fetched hash sent) held = sent ≡ serve_chunk (held hash)
IsAnswered (told sent) held = Unit

-- Each operation of the list is answered from the map that the ones before it leave.
abbrev pub AreAnswered : List Operation → Content → Type 0
AreAnswered [] held = Unit
AreAnswered (operation ∷ operations) held =
    IsAnswered operation held × AreAnswered operations (perform operation held)

get_command_sent :
    (hash s : Bytes) (n : StorageNode)
    → (get_command n (some (hash, s))).sent ≡ serve_chunk (lookup hash n.storage)
unfolding get_command
get_command_sent hash s n = refl

dispatch_get :
    (op s : Bytes) (n : StorageNode)
    → op ≡ codes "GET"
    → dispatch op s n ≡ get_command n (read_word s)
unfolding dispatch bytes_eq
dispatch_get op s n e = rw e refl

-- What one turn does to the map, and whether its operations are answered.
record Performs (ops : List Operation) (n m : StorageNode) : Type 0 where
  answered : AreAnswered ops (content n)
  left : content m ≡ perform_all ops (content n)

nothing-Performs : (n m : StorageNode) → m.storage ≡ n.storage → Performs [] n m
nothing-Performs n m same = record { answered = tt; left = ap (λ s hash. lookup hash s) same }

told-Performs :
    (sent : List Bytes) (n m : StorageNode) → m.storage ≡ n.storage → Performs (told sent ∷ []) n m
told-Performs sent n m same = record {
  answered = (tt, tt);
  left = ap (λ s hash. lookup hash s) same;
}

-- The messages that an answer leaves to be sent.
abbrev to_send : Answer → List Bytes
to_send a = pending (command_place a.sent a.awaits)

-- A GET, whose hash can be read or not.
get-Performs :
    (n : StorageNode) (word : Option (Bytes × Bytes)) (a : Answer)
    → a ≡ get_command n word
    → Performs (fetched_of (asked_in word) (to_send a)) n a.node
unfolding get_command
get-Performs n none a e = told-Performs (to_send a) n a.node (ap (λ x. x.node.storage) e)
get-Performs n (some (hash, s)) a e = record {
  answered = (ap to_send e, tt);
  left = ap (λ x other. lookup other x.node.storage) e;
}

dispatch_word-Performs :
    (n : StorageNode) (word : Option (Bytes × Bytes))
    → Performs
        (fetched_of (asked word) (to_send (dispatch_word n word)))
        n
        (dispatch_word n word).node
dispatch_word-Performs n none =
    told-Performs (to_send (dispatch [] [] n)) n (dispatch [] [] n).node (dispatch-storage [] [] n)
dispatch_word-Performs n (some (op, s)) = elim (Bool-cases (op == codes "GET")) [
  | inl get ↦ rw get (
      get-Performs n (read_word s) (dispatch op s n)
        (dispatch_get op s n ((bytes_eq_iff op (codes "GET")).0 get)))
  | inr other ↦
      rw other (
        told-Performs (to_send (dispatch op s n)) n (dispatch op s n).node
          (dispatch-storage op s n))
]

chunk-Performs :
    (hash message : Bytes) (s : Connections)
    → Performs
        (operations_at (receiving hash) message (pending (chunk_turn hash message s).place))
        s.node
        (chunk_turn hash message s).node
unfolding handle_chunk
chunk-Performs hash [] s = nothing-Performs s.node s.node refl
chunk-Performs hash (b ∷ bytes) s = record {
  answered = (refl, tt);
  left = fun_ext λ other. lookup-insert hash other (b ∷ bytes) s.node.storage;
}

message_turn-Performs :
    (place : Place) (message : Bytes) (s : Connections)
    → Performs
        (operations_at place message (pending (message_turn place message s).place))
        s.node
        (message_turn place message s).node
message_turn-Performs testing message s = nothing-Performs s.node s.node refl
message_turn-Performs (sending messages awaits) message s = nothing-Performs s.node s.node refl
message_turn-Performs stopping message s = nothing-Performs s.node s.node refl
message_turn-Performs behind message s = nothing-Performs s.node s.node refl
message_turn-Performs reading [] s = nothing-Performs s.node s.node refl
message_turn-Performs reading (c ∷ message) s =
    dispatch_word-Performs s.node (read_word (c ∷ message))
message_turn-Performs (receiving hash) message s = chunk-Performs hash message s

proceed_turn_node : (place : Place) (s : Connections) → (proceed_turn place s).node ≡ s.node
proceed_turn_node testing s = refl
proceed_turn_node reading s = refl
proceed_turn_node (receiving hash) s = refl
proceed_turn_node (sending [] awaits) s = refl
proceed_turn_node (sending (message ∷ messages) awaits) s = refl
proceed_turn_node stopping s = refl
proceed_turn_node behind s = refl

serve-Performs :
    (event : Event) (s : Connections) → Performs (operations event s) s.node (serve event s).node
unfolding serve operations turn
serve-Performs (proceeds id) s =
    nothing-Performs s.node (proceed_turn (s.places id) s).node
      (ap (λ n. n.storage) (proceed_turn_node (s.places id) s))
serve-Performs (comes_in id message) s = message_turn-Performs (s.places id) message s

perform_all-append :
    (ops more : List Operation) (held : Content)
    → perform_all (ops ++ more) held ≡ perform_all more (perform_all ops held)
perform_all-append [] more held = refl
perform_all-append (operation ∷ ops) more held =
    perform_all-append ops more (perform operation held)

AreAnswered-append :
    (ops more : List Operation) (held : Content)
    → AreAnswered ops held
    → AreAnswered more (perform_all ops held)
    → AreAnswered (ops ++ more) held
AreAnswered-append [] more held h later = later
AreAnswered-append (operation ∷ ops) more held (first, h) later =
    (first, AreAnswered-append ops more (perform operation held) h later)

serve_all-Performs :
    (events : List Event) (s : Connections)
    → Performs (history events s) s.node (serve_all events s).node
unfolding serve_all history
serve_all-Performs [] s = nothing-Performs s.node s.node refl
serve_all-Performs (event ∷ events) s =
    let first = serve-Performs event s in
    let rest = serve_all-Performs events (serve event s) in
    let ops = operations event s in
    let more = history events (serve event s) in
    record {
      answered =
          AreAnswered-append ops more (content s.node) first.answered
            (subst (AreAnswered more) first.left rest.answered);
      left =
          rest.left
          ∙ ap (perform_all more) first.left
          ∙ sym (perform_all-append ops more (content s.node));
    }

-- However the turns of the connections of a node follow one another, and whatever messages come in:
-- what the threads do under their locks are, in that order, the operations of one map, where each
-- chunk is written, with ACK as the message to be sent for it, and for each GET what the map has then is
-- to be sent. The map that they leave is that of the node.
pub serve_all-AreAnswered :
    (events : List Event) (s : Connections)
    → AreAnswered (history events s) (content s.node)
      × (content (serve_all events s).node ≡ perform_all (history events s) (content s.node))
serve_all-AreAnswered events s = let h = serve_all-Performs events s in (h.answered, h.left)
