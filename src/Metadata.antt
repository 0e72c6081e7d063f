-- ===== src/Metadata.antt =====
-- metadata/metadata_node.hpp, metadata/metadata_node.cpp and common/file_metadata.hpp: a node of the
-- chain that keeps the metadata of the files. What another node answers is an argument, and a
-- message to another node is a part of the result. `int` and `int64_t` are ranges of ℤ.
pub mod Codec
pub mod Chain
pub mod Reads
pub mod Commands
pub mod Roles
pub mod Races
pub mod Threads
use distributed_file_storage.Base.Options.{◌>>=◌}
use distributed_file_storage.Base.{
  ℕ, Bool, true, false, ◌&&◌, ◌||◌, Option, none, some, List, [], ◌∷◌, ◌++◌, Bytes, codes,
  if◌then◌else◌,
}
use distributed_file_storage.Base.Assoc.{Assoc, lookup, insert}
use distributed_file_storage.Base.Equality.{◌==◌, Bytes_eq}
use distributed_file_storage.Base.Int.{ℤ, pos, minus_one, eqb_ℤ}
use distributed_file_storage.Streams.{read_word, read_int, to_string, split_hashes, join_hashes}

pub record FileMetadata : Type 0 where
  pub filename : Bytes
  pub root_hash : Bytes
  pub file_size : ℤ
  pub chunk_size : ℤ
  pub total_chunks : ℤ
  pub chunk_hashes : List Bytes

pub data Role : Type 0 where
  head : Role
  middle : Role
  tail : Role
  single : Role

-- Where another node listens; port -1 stands for no node.
pub record Link : Type 0 where
  pub ip : Bytes
  pub port : ℤ

abbrev pub no_link : Link
no_link = record { ip = []; port = minus_one }

abbrev pub is_set : Link → Bool
is_set link = if eqb_ℤ link.port minus_one then false else true

pub record MetadataNode : Type 0 where
  pub metadata_store : Assoc Bytes FileMetadata
  pub running : Bool
  pub next_node : Link
  pub prev_node : Link
  pub skip_to : Link
  pub role : Role
  pub my_port : ℤ

-- The constructor, and `start`, which sets the port and `running_`.
abbrev pub new_node : Link → ℤ → MetadataNode
new_node next port = record {
  metadata_store = [];
  running = true;
  next_node = next;
  prev_node = no_link;
  skip_to = no_link;
  role = if eqb_ℤ next.port minus_one then tail else head;
  my_port = port;
}

-- `role_ == Role::TAIL || role_ == Role::SINGLE`
abbrev pub is_last : Role → Bool
is_last head = false
is_last middle = false
is_last tail = true
is_last single = true

-- What becomes of a connection to another node: whether it can be made, whether the message can be
-- sent, and the answer.
pub record Exchange : Type 0 where
  pub connects : Bool
  pub sends : Bool
  pub response : Bytes

-- `iss >> op >> filename >> fileSize >> chunkSize >> totalChunks >> rootHash >> hashesStr`
unfoldable pub parse_put : Bytes → Option FileMetadata
parse_put command = do
  op ← read_word command
  filename ← read_word op.1
  file_size ← read_int 64 filename.1
  chunk_size ← read_int 32 file_size.1
  total_chunks ← read_int 32 chunk_size.1
  root_hash ← read_word total_chunks.1
  hashes ← read_word root_hash.1
  some (record {
    filename = filename.0;
    root_hash = root_hash.0;
    file_size = file_size.0;
    chunk_size = chunk_size.0;
    total_chunks = total_chunks.0;
    chunk_hashes = split_hashes [] hashes.0;
  })

-- Whether the exchange with the next node ends in its "ACK".
unfoldable pub forward_put : Exchange → Bool
forward_put e = e.connects && (e.sends && (e.response == codes "ACK"))

-- `role_ != Role::TAIL && role_ != Role::SINGLE && nextNodePort_ != -1`
abbrev pub forwards : MetadataNode → Bool
forwards n = (if is_last n.role then false else true) && is_set n.next_node

-- `metadataStore_[filename] = meta;`
abbrev pub put_metadata : FileMetadata → MetadataNode → MetadataNode
put_metadata meta n = record n { metadata_store = insert meta.filename meta n.metadata_store }

-- `handlePut` behind the parsing of the command.
abbrev pub store_and_forward : Exchange → MetadataNode → Option FileMetadata → Bytes × MetadataNode
store_and_forward e n none = (codes "ERROR_ARGS", n)
store_and_forward e n (some meta) = (
  (if forwards n
      then if forward_put e then codes "ACK" else codes "ERROR_FORWARD"
      else codes "ACK"),
  put_metadata meta n,
)

-- The reply, and the node behind it. `e` is the exchange with the next node, if the command is
-- forwarded.
unfoldable pub handle_put : Exchange → Bytes → MetadataNode → Bytes × MetadataNode
handle_put e command n = store_and_forward e n (parse_put command)

unfoldable pub found_message : FileMetadata → Bytes
found_message meta =
    codes "FOUND "
    ++ (to_string meta.file_size
        ++ b' '
          ∷ (to_string meta.chunk_size
              ++ b' '
                ∷ (to_string meta.total_chunks
                    ++ b' ' ∷ (meta.root_hash ++ b' ' ∷ join_hashes meta.chunk_hashes))))

unfoldable pub handle_get : Bytes → MetadataNode → Bytes
unfolding found_message
handle_get filename n =
    if is_last n.role
    then elim (lookup filename n.metadata_store) [
      | none ↦ codes "NOT_FOUND"
      | some meta ↦ found_message meta
    ]
    else codes "REDIRECT_TO_TAIL"

-- `iss >> ip >> port`, behind the first word of a command.
unfoldable pub read_link : Bytes → Option Link
read_link s = do
  ip ← read_word s
  port ← read_int 32 ip.1
  some (record { ip = ip.0; port = port.0 })

-- `if (role_ == Role::HEAD) role_ = Role::MIDDLE; if (role_ == Role::SINGLE) role_ = Role::TAIL;`
abbrev pub with_prev : Role → Role
with_prev head = middle
with_prev middle = middle
with_prev tail = tail
with_prev single = tail

-- `if (role_ == Role::TAIL) role_ = Role::MIDDLE; if (role_ == Role::SINGLE) role_ = Role::HEAD;`
abbrev pub with_next : Role → Role
with_next head = head
with_next middle = middle
with_next tail = middle
with_next single = head

abbrev pub role_name : Role → Bytes
role_name head = codes "HEAD"
role_name middle = codes "MIDDLE"
role_name tail = codes "TAIL"
role_name single = codes "SINGLE"

unfoldable pub status : MetadataNode → Bytes
status n =
    codes "ROLE="
    ++ role_name n.role
    ++ codes " NEXT="
    ++ to_string n.next_node.port
    ++ codes " PREV="
    ++ to_string n.prev_node.port

-- What a command does: the replies that are sent, and the node behind it.
pub record Step : Type 0 where
  pub replies : List Bytes
  pub node : MetadataNode

abbrev pub reply : Bytes → MetadataNode → Step
reply message n = record { replies = message ∷ []; node = n }

-- A command whose arguments cannot be read gets no reply.
abbrev pub silent : MetadataNode → Step
silent n = record { replies = []; node = n }

abbrev pub on_link : MetadataNode → (Link → MetadataNode) → Option Link → Step
on_link n change none = silent n
on_link n change (some link) = reply (codes "ACK") (change link)

abbrev pub on_get : MetadataNode → Option (Bytes × Bytes) → Step
on_get n none = silent n
on_get n (some (filename, _)) = reply (handle_get filename n) n

-- The branches of `handleClient` on the first word of the command; `s` is the text behind it.
unfoldable pub dispatch : Exchange → Bytes → Bytes → Bytes → MetadataNode → Step
unfolding handle_put handle_get read_word read_link status
dispatch e command op s n =
    if op == codes "PUT"
    then reply (handle_put e command n).0 (handle_put e command n).1
    else if op == codes "GET"
    then on_get n (read_word s)
    else if op == codes "PING"
    then reply (codes "PONG") n
    else if op == codes "UPDATE_PREV"
    then on_link n (λ link. record n { prev_node = link; role = with_prev n.role }) (read_link s)
    else if op == codes "UPDATE_NEXT"
    then on_link n (λ link. record n { next_node = link; role = with_next n.role }) (read_link s)
    else if op == codes "SET_SKIP"
    then on_link n (λ link. record n { skip_to = link }) (read_link s)
    else if op == codes "GET_STATUS"
    then reply (status n) n
    else if op == codes "DIE"
    then silent (record n { running = false })
    else reply (codes "ERROR") n

-- A message of white space only has the empty word in front.
abbrev pub dispatch_word : Exchange → Bytes → MetadataNode → Option (Bytes × Bytes) → Step
dispatch_word e command n none = dispatch e command [] [] n
dispatch_word e command n (some (op, s)) = dispatch e command op s n

-- One round of `handleClient`.
unfoldable pub handle_command : Exchange → Bytes → MetadataNode → Step
handle_command e command n = dispatch_word e command n (read_word command)

-- `handleClient` on the messages that a client sends; an empty message is the end of the connection,
-- and `DIE` ends the loop by `running_`.
unfoldable pub handle_client : List (Exchange × Bytes) → MetadataNode → Step
unfolding handle_command
handle_client [] n = silent n
handle_client ((e, []) ∷ messages) n = silent n
handle_client ((e, c ∷ command) ∷ messages) n =
    let step = handle_command e (c ∷ command) n in
    let rest = handle_client messages step.node in
    if n.running
    then record { replies = step.replies ++ rest.replies; node = rest.node }
    else silent n

-- `pingNext`
unfoldable pub ping_next : Exchange → Bool
ping_next e = e.connects && (e.sends && (e.response == codes "PONG"))

-- The message of `notifyNextOfPredecessor`.
unfoldable pub update_prev_message : MetadataNode → Bytes
update_prev_message n = codes "UPDATE_PREV 127.0.0.1 " ++ to_string n.my_port

-- The node, and the message that it sends to its new next node.
unfoldable pub handle_next_node_failure : MetadataNode → MetadataNode × Option Bytes
unfolding update_prev_message
handle_next_node_failure n =
    if is_set n.skip_to
    then (record n { next_node = n.skip_to; skip_to = no_link }, some (update_prev_message n))
    else (
      record n { next_node = no_link; role = if is_set n.prev_node then tail else single },
      none,
    )

-- One round of `healthCheckLoop`; `e` is the ping.
unfoldable pub health_check : Exchange → MetadataNode → MetadataNode × Option Bytes
unfolding ping_next handle_next_node_failure
health_check e n =
    if is_set n.next_node
    then if ping_next e then (n, none) else handle_next_node_failure n
    else (n, none)
