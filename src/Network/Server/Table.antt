-- ===== src/Network/Server/Table.antt =====
-- The table of clients: ids are never reused, and a client that is closed is gone.
use distributed_file_storage.Base.{
  ℕ, ◌+◌, ◌<◌, ◌≡◌, refl, Option-cases, inl, inr, true, false, if◌then◌else◌, none, some, List, [],
  ◌∷◌, arith, Bytes,
}
use distributed_file_storage.Base.Assoc.{lookup, insert, lookup-insert, lookup-erase}
use distributed_file_storage.Base.Equality.{ℕ_eq, ◌==◌}
use distributed_file_storage.Base.Int.{ℤ, pos, ◌≤ℤ◌}
use distributed_file_storage.Network.Server.{
  SocketContext, TcpServer, new_server, Listen, start, accept_client, send_data, recv_data,
  close_client, stop,
}

-- Every id of the table is one that was given out, and its socket is open.
pub record IsTable (s : TcpServer) : Type 0 where
  pub entry :
      (id : ℕ) (context : SocketContext)
      → lookup id s.clients ≡ some context
      → (id < s.next_client_id) × (context.valid ≡ true) × (pos 0 ≤ℤ context.socket)

new_server-IsTable : IsTable new_server
new_server-IsTable = record { entry = λ id context e. unfold lookup in cc e }

lookup-nil : (id : ℕ) → lookup {V = SocketContext} id [] ≡ none
unfolding lookup
lookup-nil id = refl

unused : (s : TcpServer) → IsTable s → lookup s.next_client_id s.clients ≡ none
unused s t = elim (Option-cases (lookup s.next_client_id s.clients)) [
  | inl absent ↦ absent
  | inr (context, found) ↦ absurd (omega (arith, t.entry s.next_client_id context found))
]

start-IsTable : (l : Listen) (s : TcpServer) → IsTable s → IsTable (start l s).1.server
unfolding start
start-IsTable l s t = record { entry = λ id context e. ground (arith, t.entry id context) }

accept_client-IsTable :
    (accepted : ℤ) (s : TcpServer) → IsTable s → IsTable (accept_client accepted s).1
unfolding accept_client
accept_client-IsTable accepted s t = record {
  entry = λ id context e. ground (
    arith,
    t.entry id context,
    lookup-insert s.next_client_id id (record { socket = accepted; valid = true }) s.clients,
  );
}

close_client-IsTable : (id : ℕ) (s : TcpServer) → IsTable s → IsTable (close_client id s).server
unfolding close_client
close_client-IsTable id s t = record {
  entry = λ j context e. ground (arith, t.entry j context, lookup-erase id j s.clients);
}

stop-IsTable : (s : TcpServer) → IsTable s → IsTable (stop s).server
unfolding stop
stop-IsTable s t = record {
  entry = λ id context e. ground (arith, t.entry id context, lookup-nil id);
}

-- An operation of the server, with what the system answers to it.
pub data Operation : Type 0 where
  started : Listen → Operation
  accepted : ℤ → Operation
  client_closed : ℕ → Operation
  stopped : Operation

abbrev pub run : Operation → TcpServer → TcpServer
run (started l) s = (start l s).1.server
run (accepted fd) s = (accept_client fd s).1
run (client_closed id) s = (close_client id s).server
run stopped s = (stop s).server

abbrev pub run_all : List Operation → TcpServer → TcpServer
run_all [] s = s
run_all (op ∷ ops) s = run_all ops (run op s)

run-IsTable : (op : Operation) (s : TcpServer) → IsTable s → IsTable (run op s)
run-IsTable (started l) s t = start-IsTable l s t
run-IsTable (accepted fd) s t = accept_client-IsTable fd s t
run-IsTable (client_closed id) s t = close_client-IsTable id s t
run-IsTable stopped s t = stop-IsTable s t

run_all-IsTable : (ops : List Operation) (s : TcpServer) → IsTable s → IsTable (run_all ops s)
run_all-IsTable [] s t = t
run_all-IsTable (op ∷ ops) s t = run_all-IsTable ops (run op s) (run-IsTable op s t)

-- Whatever the server has done since it was made, each client in its table has an id that was given
-- out, is valid, and holds an open socket.
pub reachable-IsTable : (ops : List Operation) → IsTable (run_all ops new_server)
reachable-IsTable ops = run_all-IsTable ops new_server new_server-IsTable

accept_client_step :
    (fd : ℤ) (s : TcpServer)
    → s.running ≡ true
    → pos 0 ≤ℤ s.server_sock
    → pos 0 ≤ℤ fd
    → accept_client fd s ≡ (
      pos s.next_client_id,
      record s {
        clients = insert s.next_client_id (record { socket = fd; valid = true }) s.clients;
        next_client_id = s.next_client_id + 1;
      },
    )
unfolding accept_client
accept_client_step fd s up open_sock got = ground arith

-- When a running server with a consistent table accepts a connection, the connection gets an id
-- that no client in the table has, and no other client's entry changes.
pub accept_client_fresh :
    (fd : ℤ) (s : TcpServer) (j : ℕ)
    → IsTable s
    → s.running ≡ true
    → pos 0 ≤ℤ s.server_sock
    → pos 0 ≤ℤ fd
    → ((accept_client fd s).0 ≡ pos s.next_client_id)
      × (lookup s.next_client_id s.clients ≡ none)
      × (lookup j (accept_client fd s).1.clients ≡ (
          if s.next_client_id == j
          then some (record { socket = fd; valid = true })
          else lookup j s.clients))
accept_client_fresh fd s j t up open_sock got = rw (accept_client_step fd s up open_sock got) (
  refl,
  unused s t,
  lookup-insert s.next_client_id j (record { socket = fd; valid = true }) s.clients,
)

-- After `closeClient` of a client of a consistent table nothing is sent to the client or received
-- from it, its socket has been closed, and every other client's entry is as before.
pub close_client_gone :
    (id j : ℕ) (s : TcpServer) (context : SocketContext) (header : ℤ) (results : List ℤ)
    (payload stream : Bytes)
    → IsTable s
    → lookup id s.clients ≡ some context
    → (send_data header results id (close_client id s).server payload
        ≡ some (record { succeeded = false; wire = [] }))
      × (recv_data results id (close_client id s).server stream
          ≡ some (record { payload = []; unread = stream }))
      × ((close_client id s).closed ≡ context.socket ∷ [])
      × (lookup j (close_client id s).server.clients
          ≡ (if id == j then none else lookup j s.clients))
unfolding close_client send_data recv_data
close_client_gone id j s context header results payload stream t found =
    ground
      (arith, t.entry id context found, lookup-erase id id s.clients, lookup-erase id j s.clients)
