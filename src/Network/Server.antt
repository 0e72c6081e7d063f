-- ===== src/Network/Server.antt =====
-- `TCPServer`: the listening socket and the table of its clients. A method returns the descriptors
-- that it hands to `::close`. Client ids are `int` in the source and here have no upper bound.
pub mod Table
pub mod Descriptors
use distributed_file_storage.Base.{
  ℕ, ◌+◌, ◌≡◌, Bool, true, false, ◌&&◌, ◌||◌, if◌then◌else◌, Option, none, some, List, [], ◌∷◌,
  ◌++◌, Bytes,
}
use distributed_file_storage.Base.Assoc.{Assoc, lookup, insert, erase}
use distributed_file_storage.Base.Equality.{ℕ_eq}
use distributed_file_storage.Base.Int.{ℤ, pos, ltb_ℤ, minus_one}
use distributed_file_storage.Network.Transfer.{Sent, send_frame, Received, recv_frame, as_text}

pub record SocketContext : Type 0 where
  pub socket : ℤ
  pub valid : Bool

pub record TcpServer : Type 0 where
  pub server_sock : ℤ
  pub running : Bool
  pub clients : Assoc ℕ SocketContext
  pub next_client_id : ℕ

abbrev pub new_server : TcpServer
new_server = record { server_sock = minus_one; running = false; clients = []; next_client_id = 1 }

-- What the system answers while the server starts.
pub record Listen : Type 0 where
  pub descriptor : ℤ
  pub option_set : Bool
  pub bound : Bool
  pub listening : Bool

-- The server after a call, and the descriptors that the call closed.
pub record After : Type 0 where
  pub server : TcpServer
  pub closed : List ℤ

unfoldable pub start : Listen → TcpServer → Bool × After
start l s =
    if ltb_ℤ l.descriptor (pos 0)
    then (false, record { server = record s { server_sock = l.descriptor }; closed = [] })
    else if l.option_set && l.bound && l.listening
    then (
      true,
      record { server = record s { server_sock = l.descriptor; running = true }; closed = [] },
    )
    else (
      false,
      record { server = record s { server_sock = minus_one }; closed = l.descriptor ∷ [] },
    )

-- `accepted` is what `accept` returns, when it is called.
unfoldable pub accept_client : ℤ → TcpServer → ℤ × TcpServer
accept_client accepted s =
    if (if s.running then false else true) || ltb_ℤ s.server_sock (pos 0)
    then (minus_one, s)
    else if ltb_ℤ accepted (pos 0)
    then (minus_one, s)
    else (
      pos s.next_client_id,
      record s {
        clients = insert s.next_client_id (record { socket = accepted; valid = true }) s.clients;
        next_client_id = s.next_client_id + 1;
      },
    )

-- The client's context, unless `it == clients_.end() || !it->second.valid`.
unfoldable pub valid_client : Option SocketContext → Option SocketContext
valid_client none = none
valid_client (some context) = if context.valid then some context else none

unfoldable pub send_data : ℤ → List ℤ → ℕ → TcpServer → Bytes → Option Sent
unfolding valid_client
send_data header results id s payload = elim (valid_client (lookup id s.clients)) [
  | none ↦ some (record { succeeded = false; wire = [] })
  | some context ↦ send_frame header results payload
]

unfoldable pub recv_data : List ℤ → ℕ → TcpServer → Bytes → Option Received
unfolding valid_client
recv_data results id s stream = elim (valid_client (lookup id s.clients)) [
  | none ↦ some (record { payload = []; unread = stream })
  | some context ↦ recv_frame results stream
]

unfoldable pub send_message : ℤ → List ℤ → ℕ → TcpServer → Bytes → Option Sent
unfolding send_data
send_message header results id s message = send_data header results id s message

unfoldable pub recv_message : List ℤ → ℕ → TcpServer → Bytes → Option Received
unfolding recv_data
recv_message results id s stream = as_text (recv_data results id s stream)

abbrev pub descriptor_of : SocketContext → List ℤ
descriptor_of context = if ltb_ℤ context.socket (pos 0) then [] else context.socket ∷ []

unfoldable pub close_client : ℕ → TcpServer → After
close_client id s = elim (lookup id s.clients) [
  | none ↦ record { server = s; closed = [] }
  | some context ↦ record {
    server = record s { clients = erase id s.clients };
    closed = descriptor_of context;
  }
]

-- `for (auto& p : clients_) if (p.second.socket >= 0) ::close(p.second.socket);`
unfoldable pub sockets_of : Assoc ℕ SocketContext → List ℤ
sockets_of [] = []
sockets_of ((_, context) ∷ clients) = descriptor_of context ++ sockets_of clients

unfoldable pub stop : TcpServer → After
unfolding sockets_of
stop s =
    let listener = if ltb_ℤ s.server_sock (pos 0) then [] else s.server_sock ∷ [] in
    let down = if ltb_ℤ s.server_sock (pos 0) then s.server_sock else minus_one in
    if s.running
    then record {
      server = record s { server_sock = down; running = false; clients = [] };
      closed = listener ++ sockets_of s.clients;
    }
    else record { server = s; closed = [] }
