-- ===== src/Storage/Lifetime.antt =====
-- The server of a node over the node's life: `start` of `StorageNode` or `MetadataNode`, the
-- connections that are accepted, the ends of their handlers, `DIE`, and the destructor.
pub mod Accounts
pub mod Closed
use distributed_file_storage.Base.{
  ℕ, zero, suc, ◌+◌, ◌≤◌, ◌≡◌, refl, sym, subst, ap, ◌∙◌, Bool, Bool-cases, Option-cases, inl, inr,
  true, false, ◌&&◌, ◌||◌, Option, none, some, List, [], ◌∷◌, ◌++◌, append-nil, arith,
  if◌then◌else◌,
}
use distributed_file_storage.Base.Assoc.{lookup, insert, erase, lookup-insert, lookup-erase}
use distributed_file_storage.Base.Equality.{ℕ_eq, ◌==◌}
use distributed_file_storage.Base.Int.{ℤ, pos, ltb_ℤ, minus_one}
use distributed_file_storage.Network.Server.{
  SocketContext, TcpServer, new_server, Listen, After, start, accept_client, descriptor_of,
  close_client, sockets_of, stop,
}
use distributed_file_storage.Network.Server.Descriptors.{
  count, count-append, AreUnique, count-erase, erase-AreUnique, count-insert, insert-AreUnique,
}

-- The server and `running_` of a node, with the descriptors that the system has given to it and those
-- that it has handed to `::close`.
pub record Hosted : Type 0 where
  pub server : TcpServer
  pub running : Bool
  pub opened : List ℤ
  pub closed : List ℤ

abbrev pub new_hosted : Hosted
new_hosted = record { server = new_server; running = false; opened = []; closed = [] }

abbrev pub open_one : ℤ → List ℤ
open_one fd = if ltb_ℤ fd (pos 0) then [] else fd ∷ []

-- `if (!server_.start(port)) return; running_ = true;`
unfoldable pub start_node : Listen → Hosted → Hosted
unfolding start
start_node l h =
    let started = start l h.server in
    record {
      server = started.1.server;
      running = if started.0 then true else h.running;
      opened = h.opened ++ open_one l.descriptor;
      closed = h.closed ++ started.1.closed;
    }

-- `!running_ || serverSock_ < 0`, where `accept` is not called.
abbrev pub refuses : TcpServer → Bool
refuses s = (if s.running then false else true) || ltb_ℤ s.server_sock (pos 0)

-- `server_.acceptClient()`, where `accept` gives `fd` if it is called.
unfoldable pub accept_node : ℤ → Hosted → Hosted
unfolding accept_client
accept_node fd h = record h {
  server = (accept_client fd h.server).1;
  opened = if refuses h.server then h.opened else h.opened ++ open_one fd;
}

-- `server_.closeClient(clientId)`, behind the loop of `handleClient`.
unfoldable pub end_handler : ℕ → Hosted → Hosted
unfolding close_client
end_handler id h =
    let after = close_client id h.server in
    record h { server = after.server; closed = h.closed ++ after.closed }

-- `running_ = false; server_.stop();`, in `DIE` and in the destructor.
unfoldable pub stop_node : Hosted → Hosted
unfolding stop
stop_node h =
    let after = stop h.server in
    record h { server = after.server; running = false; closed = h.closed ++ after.closed }

pub data NodeEvent : Type 0 where
  accepts : ℤ → NodeEvent
  handler_ends : ℕ → NodeEvent
  dies : NodeEvent

abbrev pub happen : NodeEvent → Hosted → Hosted
happen (accepts fd) h = accept_node fd h
happen (handler_ends id) h = end_handler id h
happen dies h = stop_node h

abbrev pub happen_all : List NodeEvent → Hosted → Hosted
happen_all [] h = h
happen_all (event ∷ events) h = happen_all events (happen event h)

-- The node from `start` to the end of its destructor.
abbrev pub lifetime : Listen → List NodeEvent → Hosted
lifetime l events = stop_node (happen_all events (start_node l new_hosted))
