-- ===== src/Tests/Network.antt =====
-- A frame that the system cuts into pieces, and a server with two clients.
use distributed_file_storage.Base.{
  ℕ, ◌+◌, ◌%◌, ◌^◌, ◌≡◌, ◌≢◌, refl, ◌⊎◌, Bool, true, false, none, some, List, [], ◌∷◌, ◌++◌, arith,
  Bytes, codes, if◌then◌else◌, length, take, drop,
}
use distributed_file_storage.Base.Assoc.{lookup}
use distributed_file_storage.Base.BigEndian.{be_value}
use distributed_file_storage.Base.Equality.{ℕ_eq}
use distributed_file_storage.Base.Int.{ℤ, pos, ◌≤ℤ◌}
use distributed_file_storage.Network.Transfer.{Sent, send_frame, recv_frame}
use distributed_file_storage.Network.Exchange.{request_reply}
use distributed_file_storage.Network.Client
use distributed_file_storage.Network.Framing.{Pieces, recv_frame-send_frame}
use distributed_file_storage.Network.Termination.{send_frame-ne-none, recv_frame-ne-none}
use distributed_file_storage.Network.Client.{
  TcpClient, Dial, close, send_data, recv_data, IsOpenOrShut, held, close_lem,
}
use distributed_file_storage.Network.Server.{
  TcpServer, SocketContext, valid_client, new_server, accept_client, close_client,
}
use distributed_file_storage.Network.Server
use distributed_file_storage.Network.Server.Table.{Operation, started, accepted, run_all}

abbrev hello_sends : List ℤ
hello_sends = pos 2 ∷ pos 3 ∷ []

hello-Pieces : Pieces 5 hello_sends
hello-Pieces = (omega arith, omega arith, (omega arith, omega arith, refl))

recv_frame-send_frame_example :
    (sent : Sent) × (send_frame (pos 4) hello_sends (codes "hello") ≡ some sent)
    × (sent.succeeded ≡ true)
    × (recv_frame hello_sends (sent.wire ++ codes "next")
        ≡ some (record {
          payload = take 5 (codes "hello");
          unread = drop 5 (codes "hello") ++ codes "next";
        }))
recv_frame-send_frame_example =
    recv_frame-send_frame hello_sends hello_sends (codes "hello") (codes "next") hello-Pieces
      hello-Pieces

abbrev hi_stream : Bytes
hi_stream = 0 ∷ 0 ∷ 0 ∷ 2 ∷ codes "hi!"

hi_received :
    recv_frame (pos 1 ∷ pos 1 ∷ []) hi_stream
    ≡ some (record { payload = codes "hi"; unread = codes "!" })
unfolding recv_frame
hi_received = refl

abbrev open_client : TcpClient
open_client = record { sock = pos 5; connected = true }

open_client-IsOpenOrShut : IsOpenOrShut open_client
open_client-IsOpenOrShut = record { holds = λ h. omega arith; empty = λ h. cc }

abbrev refused : Dial
refused = record { descriptor = pos 6; address_valid = true; reachable = false }

close_lem_example :
    (send_data (pos 4) hello_sends (close open_client).client (codes "hello")
      ≡ some (record { succeeded = false; wire = [] }))
    × (recv_data hello_sends (close open_client).client hi_stream
        ≡ some (record { payload = []; unread = hi_stream }))
    × (held open_client ≡ (close open_client).closed)
close_lem_example =
    close_lem (pos 4) hello_sends open_client (codes "hello") hi_stream open_client-IsOpenOrShut

abbrev two_clients : List Operation
two_clients =
    started (record { descriptor = pos 3; option_set = true; bound = true; listening = true })
    ∷ accepted (pos 4)
    ∷ accepted (pos 5)
    ∷ []

two_clients_running : (run_all two_clients new_server).running ≡ true
unfolding Server.start accept_client
two_clients_running = refl

two_clients_listening : pos 0 ≤ℤ (run_all two_clients new_server).server_sock
unfolding Server.start accept_client
two_clients_listening = omega arith

two_clients_first :
    lookup 1 (run_all two_clients new_server).clients
    ≡ some (record { socket = pos 4; valid = true })
unfolding Server.start accept_client lookup distributed_file_storage.Base.Assoc.insert
two_clients_first = refl

abbrev first_context : SocketContext
first_context = record { socket = pos 4; valid = true }

abbrev one_server : TcpServer
one_server = record {
  server_sock = pos 3;
  running = true;
  clients = (1, first_context) ∷ [];
  next_client_id = 2;
}

first_known : valid_client (lookup 1 one_server.clients) ≡ some first_context
unfolding valid_client lookup
first_known = refl

ok-Pieces : Pieces 2 (pos 2 ∷ [])
ok-Pieces = (omega arith, omega arith, refl)

request_reply_example :
    (asked : Sent) × (answered : Sent) × (asked.succeeded ≡ true)
    × (answered.succeeded ≡ true)
    × (Client.send_message (pos 4) hello_sends open_client (codes "hello") ≡ some asked)
    × (Server.recv_message hello_sends 1 one_server (asked.wire ++ codes "DIE")
        ≡ some (record { payload = codes "hello"; unread = codes "DIE" }))
    × (Server.send_message (pos 4) (pos 2 ∷ []) 1 one_server (codes "OK") ≡ some answered)
    × (Client.recv_message (pos 2 ∷ []) open_client (answered.wire ++ [])
        ≡ some (record { payload = codes "OK"; unread = [] }))
request_reply_example =
    request_reply open_client 1 one_server first_context (codes "hello") (codes "OK") (codes "DIE")
      [] hello_sends hello_sends (pos 2 ∷ []) (pos 2 ∷ []) refl first_known (omega arith)
      (omega arith) hello-Pieces hello-Pieces ok-Pieces ok-Pieces

send_frame-ne-none_example :
    send_frame (pos 4) (pos 2 ∷ pos 3 ∷ pos 0 ∷ pos 0 ∷ pos 0 ∷ []) (codes "hello") ≢ none
send_frame-ne-none_example =
    send_frame-ne-none (pos 4) (pos 2 ∷ pos 3 ∷ pos 0 ∷ pos 0 ∷ pos 0 ∷ []) (codes "hello")
      (omega arith)

hi_length : be_value 0 (take 4 hi_stream) ≡ 2
hi_length = refl

recv_frame-ne-none_example : recv_frame (pos 1 ∷ pos 1 ∷ []) hi_stream ≢ none
recv_frame-ne-none_example =
    recv_frame-ne-none (pos 1 ∷ pos 1 ∷ []) hi_stream (omega (arith, hi_length))
      (omega arith, (omega arith, tt))
