-- ===== src/Storage.antt =====
-- storage/storage_node.hpp and storage/storage_node.cpp: the chunks of a storage node, and the
-- conversation that one of its threads has with a client. Each message that comes in is a step.
pub mod Conversation
pub mod Persistence
pub mod Connections
pub mod Lifetime
pub mod Lifecycle
pub mod Wakeup
use distributed_file_storage.Base.{
  Bool, true, false, Option, none, some, List, [], ◌∷◌, Bytes, codes, if◌then◌else◌, ◌++◌,
}
use distributed_file_storage.Base.Assoc.{Assoc, lookup, insert}
use distributed_file_storage.Base.Equality.{◌==◌, Bytes_eq}
use distributed_file_storage.Streams.{read_word}

pub record StorageNode : Type 0 where
  pub storage : Assoc Bytes Bytes
  pub running : Bool

-- What the thread waits for: a command at `recvMessage`, or the chunk with this hash at `recvData`.
pub data Awaits : Type 0 where
  command : Awaits
  chunk : Bytes → Awaits
  closed : Awaits

-- What the thread sends, and where it stands then.
pub record Answer : Type 0 where
  pub sent : List Bytes
  pub node : StorageNode
  pub awaits : Awaits

abbrev answer : List Bytes → StorageNode → Answer
answer sent n = record { sent = sent; node = n; awaits = command }

abbrev hang_up : StorageNode → Answer
hang_up n = record { sent = []; node = n; awaits = closed }

-- STORE, behind the reading of the hash.
abbrev store_command : StorageNode → Option (Bytes × Bytes) → Answer
store_command n none = answer (codes "ERROR" ∷ []) n
store_command n (some (hash, _)) = record {
  sent = codes "READY" ∷ [];
  node = n;
  awaits = chunk hash;
}

-- `if (!data.empty())`
abbrev pub serve_chunk : Option Bytes → List Bytes
serve_chunk none = codes "NOT_FOUND" ∷ []
serve_chunk (some []) = codes "NOT_FOUND" ∷ []
serve_chunk (some (b ∷ bytes)) = codes "FOUND" ∷ (b ∷ bytes) ∷ []

-- GET, behind the reading of the hash.
unfoldable pub get_command : StorageNode → Option (Bytes × Bytes) → Answer
get_command n none = answer (codes "ERROR" ∷ []) n
get_command n (some (hash, _)) = answer (serve_chunk (lookup hash n.storage)) n

-- The branches on the first word of a command; `s` is the text behind it.
unfoldable pub dispatch : Bytes → Bytes → StorageNode → Answer
unfolding get_command
dispatch op s n =
    if op == codes "STORE"
    then store_command n (read_word s)
    else if op == codes "GET"
    then get_command n (read_word s)
    else if op == codes "DIE"
    then hang_up (record n { running = false })
    else answer (codes "ERROR" ∷ []) n

abbrev pub dispatch_word : StorageNode → Option (Bytes × Bytes) → Answer
dispatch_word n none = dispatch [] [] n
dispatch_word n (some (op, s)) = dispatch op s n

-- `handleClient` at `recvMessage`; an empty message is the end of the connection.
unfoldable pub handle_command : Bytes → StorageNode → Answer
handle_command [] n = hang_up n
handle_command (c ∷ message) n =
    if n.running then dispatch_word n (read_word (c ∷ message)) else hang_up n

-- `handleClient` at `recvData`.
unfoldable pub handle_chunk : Bytes → Bytes → StorageNode → Answer
handle_chunk hash [] n = hang_up n
handle_chunk hash (b ∷ bytes) n =
    answer (codes "ACK" ∷ []) (record n { storage = insert hash (b ∷ bytes) n.storage })

unfoldable pub handle_message : Awaits → Bytes → StorageNode → Answer
unfolding handle_command handle_chunk
handle_message command message n = handle_command message n
handle_message (chunk hash) message n = handle_chunk hash message n
handle_message closed message n = hang_up n

-- The messages of one connection, one after another.
unfoldable pub handle_client : Awaits → List Bytes → StorageNode → Answer
unfolding handle_message
handle_client awaits [] n = record { sent = []; node = n; awaits = awaits }
handle_client awaits (message ∷ messages) n =
    let first = handle_message awaits message n in
    let rest = handle_client first.awaits messages first.node in
    record { sent = first.sent ++ rest.sent; node = rest.node; awaits = rest.awaits }
