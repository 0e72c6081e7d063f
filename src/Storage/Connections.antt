-- ===== src/Storage/Connections.antt =====
-- `StorageNode::handleClient` on several connections at a time. Each connection has a thread, and the
-- threads take turns. In one turn a thread tests `running_`, or sends one message, or stops the server,
-- or a message comes in for it and is handled up to the end of the lock of `storageMutex_`, under which
-- `storage_` is read or written: what it sends goes out in later turns.
pub mod Linear
pub mod Latest
pub mod Replies
use distributed_file_storage.Base.{
  ℕ, Bool, true, false, Option, none, some, List, [], ◌∷◌, ◌++◌, Bytes, codes, if◌then◌else◌,
}
use distributed_file_storage.Base.Equality.{◌==◌, Bytes_eq, ℕ_eq}
use distributed_file_storage.Streams.{read_word}
use distributed_file_storage.Storage.{
  StorageNode, Awaits, command, chunk, closed, dispatch_word, handle_chunk,
}

-- Where the thread of a connection stands: at `while (running_)`, in `recvMessage`, in `recvData` for
-- the chunk with this hash, before it sends these messages and goes on, before `server_.stop()`, or
-- behind the loop.
pub data Place : Type 0 where
  testing : Place
  reading : Place
  receiving : Bytes → Place
  sending : List Bytes → Awaits → Place
  stopping : Place
  behind : Place

-- `serving` is whether the server has its clients, which `server_.stop()` takes from it.
pub record Connections : Type 0 where
  pub node : StorageNode
  pub serving : Bool
  pub places : ℕ → Place

-- The thread of a connection goes on by itself, or a message for it comes in. A message that is empty
-- stands for a receive that fails.
pub data Event : Type 0 where
  proceeds : ℕ → Event
  comes_in : ℕ → Bytes → Event

-- What a thread sends in its turn, and what is there after it.
pub record Turn : Type 0 where
  pub sent : List Bytes
  pub node : StorageNode
  pub serving : Bool
  pub place : Place

abbrev pub place_of : Awaits → Place
place_of command = testing
place_of (chunk hash) = receiving hash
place_of closed = behind

abbrev pub move_to : Place → Connections → Turn
move_to place s = record { sent = []; node = s.node; serving = s.serving; place = place }

-- `sendMessage` and `sendData` send nothing to a client that the server does not have.
abbrev pub send_turn : Bytes → Place → Connections → Turn
send_turn message place s = record (move_to place s) {
  sent = if s.serving then message ∷ [] else [];
}

abbrev pub proceed_turn : Place → Connections → Turn
proceed_turn testing s = move_to (if s.node.running then reading else behind) s
proceed_turn reading s = move_to reading s
proceed_turn (receiving hash) s = move_to (receiving hash) s
proceed_turn (sending [] awaits) s = move_to (place_of awaits) s
proceed_turn (sending (message ∷ messages) awaits) s = send_turn message (sending messages awaits) s
proceed_turn stopping s = record (move_to behind s) { serving = false }
proceed_turn behind s = move_to behind s

-- Only DIE ends the loop by a command.
abbrev pub command_place : List Bytes → Awaits → Place
command_place sent command = sending sent command
command_place sent (chunk hash) = sending sent (chunk hash)
command_place sent closed = stopping

abbrev pub chunk_place : List Bytes → Awaits → Place
chunk_place sent command = sending sent command
chunk_place sent (chunk hash) = sending sent (chunk hash)
chunk_place sent closed = behind

-- Behind `recvMessage`, whatever has become of `running_` since the test.
abbrev pub read_turn : Bytes → Connections → Turn
read_turn [] s = move_to behind s
read_turn (c ∷ message) s =
    let a = dispatch_word s.node (read_word (c ∷ message)) in
    record (move_to (command_place a.sent a.awaits) s) { node = a.node }

-- Behind `recvData`.
abbrev pub chunk_turn : Bytes → Bytes → Connections → Turn
chunk_turn hash message s =
    let a = handle_chunk hash message s.node in
    record (move_to (chunk_place a.sent a.awaits) s) { node = a.node }

-- Behind the receive at which the thread stands, if it stands at one.
abbrev pub message_turn : Place → Bytes → Connections → Turn
message_turn testing message s = move_to testing s
message_turn reading message s = read_turn message s
message_turn (receiving hash) message s = chunk_turn hash message s
message_turn (sending messages awaits) message s = move_to (sending messages awaits) s
message_turn stopping message s = move_to stopping s
message_turn behind message s = move_to behind s

abbrev pub connection_of : Event → ℕ
connection_of (proceeds id) = id
connection_of (comes_in id message) = id

unfoldable pub turn : Event → Connections → Turn
unfolding handle_chunk
turn (proceeds id) s = proceed_turn (s.places id) s
turn (comes_in id message) s = message_turn (s.places id) message s

abbrev pub after_turn : ℕ → Turn → Connections → Connections
after_turn id t s = record {
  node = t.node;
  serving = t.serving;
  places = λ other. if id == other then t.place else s.places other;
}

unfoldable pub serve : Event → Connections → Connections
unfolding turn
serve event s = after_turn (connection_of event) (turn event s) s

unfoldable pub serve_all : List Event → Connections → Connections
unfolding serve
serve_all [] s = s
serve_all (event ∷ events) s = serve_all events (serve event s)

-- What a thread has done under its lock, with the messages that it then has to send: the chunk that it
-- has written, the hash that was asked for, or a command that does not touch the chunks.
pub data Operation : Type 0 where
  stored : Bytes → Bytes → List Bytes → Operation
  fetched : Bytes → List Bytes → Operation
  told : List Bytes → Operation

-- The messages that a thread has still to send.
abbrev pub pending : Place → List Bytes
pending testing = []
pending reading = []
pending (receiving hash) = []
pending (sending messages awaits) = messages
pending stopping = []
pending behind = []

-- The hash that a GET asks for.
abbrev pub asked_in : Option (Bytes × Bytes) → Option Bytes
asked_in none = none
asked_in (some (hash, _)) = some hash

abbrev pub asked : Option (Bytes × Bytes) → Option Bytes
asked none = none
asked (some (op, s)) = if op == codes "GET" then asked_in (read_word s) else none

abbrev pub fetched_of : Option Bytes → List Bytes → List Operation
fetched_of none sent = told sent ∷ []
fetched_of (some hash) sent = fetched hash sent ∷ []

-- The operation of a turn, by what came in and what the thread has to send for it.
abbrev pub operations_at : Place → Bytes → List Bytes → List Operation
operations_at testing message sent = []
operations_at reading [] sent = []
operations_at reading (c ∷ message) sent = fetched_of (asked (read_word (c ∷ message))) sent
operations_at (receiving hash) [] sent = []
operations_at (receiving hash) (b ∷ bytes) sent = stored hash (b ∷ bytes) sent ∷ []
operations_at (sending messages awaits) message sent = []
operations_at stopping message sent = []
operations_at behind message sent = []

unfoldable pub operations : Event → Connections → List Operation
unfolding turn
operations (proceeds id) s = []
operations (comes_in id message) s =
    operations_at (s.places id) message (pending (turn (comes_in id message) s).place)

unfoldable pub history : List Event → Connections → List Operation
unfolding operations serve
history [] s = []
history (event ∷ events) s = operations event s ++ history events (serve event s)
