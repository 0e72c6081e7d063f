-- ===== src/Network/Exchange.antt =====
-- A request of a `TCPClient` to a `TCPServer`, and the reply.
use distributed_file_storage.Base.{
  ◌≡◌, ◌<◌, ◌^◌, ℕ, refl, ap, ◌∙◌, true, false, none, some, List, [], ◌∷◌, ◌++◌, Bytes, Option,
  length,
}
use distributed_file_storage.Base.Assoc.{lookup}
use distributed_file_storage.Base.Equality.{ℕ_eq}
use distributed_file_storage.Base.Int.{ℤ, pos}
use distributed_file_storage.Network.Client.{TcpClient, is_down}
use distributed_file_storage.Network.Client
use distributed_file_storage.Network.Framing.{Pieces, recv_frame_whole}
use distributed_file_storage.Network.Server.{TcpServer, SocketContext, valid_client}
use distributed_file_storage.Network.Server
use distributed_file_storage.Network.Transfer.{
  Sent, send_frame, Received, recv_frame, text_of, as_text,
}

text_of_same : (payload : Bytes) → text_of payload ≡ payload
text_of_same [] = refl
text_of_same (c ∷ payload) = refl

as_text_same : (r : Option Received) → as_text r ≡ r
as_text_same none = refl
as_text_same (some r) = ap (λ p. some (record r { payload = p })) (text_of_same r.payload)

module _ (c : TcpClient) (up : is_down c ≡ false) where
  client_sends :
      (header : ℤ) (results : List ℤ) (message : Bytes)
      → Client.send_message header results c message ≡ send_frame header results message
  unfolding Client.send_message Client.send_data
  client_sends header results message = rw up refl

  client_receives :
      (results : List ℤ) (stream : Bytes)
      → Client.recv_message results c stream ≡ recv_frame results stream
  unfolding Client.recv_message Client.recv_data
  client_receives results stream = rw up (as_text_same (recv_frame results stream))

module _ (id : ℕ) (s : TcpServer) (context : SocketContext)
    (known : valid_client (lookup id s.clients) ≡ some context) where
  server_sends :
      (header : ℤ) (results : List ℤ) (message : Bytes)
      → Server.send_message header results id s message ≡ send_frame header results message
  unfolding Server.send_message Server.send_data
  server_sends header results message = rw (Server.send_data, known) refl

  server_receives :
      (results : List ℤ) (stream : Bytes)
      → Server.recv_message results id s stream ≡ recv_frame results stream
  unfolding Server.recv_message Server.recv_data
  server_receives results stream =
      rw (Server.recv_data, known) (as_text_same (recv_frame results stream))

-- Let a client be connected, let the server hold a valid connection, and let each of request and
-- reply have fewer than 2 ^ 32 bytes and be moved in pieces of at least a byte. Both `sendMessage`s
-- report success, the server's `recvMessage` returns the request, the client's the reply, and each
-- leaves the bytes that come later in the stream unread.
pub request_reply :
    (c : TcpClient) (id : ℕ) (s : TcpServer) (context : SocketContext)
    (request reply later_in later_out : Bytes) (sends recvs replies answers : List ℤ)
    → is_down c ≡ false
    → valid_client (lookup id s.clients) ≡ some context
    → length request < 2 ^ 32
    → length reply < 2 ^ 32
    → Pieces (length request) sends
    → Pieces (length request) recvs
    → Pieces (length reply) replies
    → Pieces (length reply) answers
    → (asked : Sent) × (answered : Sent) × (asked.succeeded ≡ true)
      × (answered.succeeded ≡ true)
      × (Client.send_message (pos 4) sends c request ≡ some asked)
      × (Server.recv_message recvs id s (asked.wire ++ later_in)
          ≡ some (record { payload = request; unread = later_in }))
      × (Server.send_message (pos 4) replies id s reply ≡ some answered)
      × (Client.recv_message answers c (answered.wire ++ later_out)
          ≡ some (record { payload = reply; unread = later_out }))
request_reply c id s context request reply later_in later_out sends recvs replies answers up known
      small_in small_out ps pr pa pb =
    let (asked, sent, all_in, got) = recv_frame_whole sends recvs request later_in small_in ps pr in
    let (answered, sent_back, all_out, got_back) =
      recv_frame_whole replies answers reply later_out small_out pa pb in
    (
      asked,
      answered,
      all_in,
      all_out,
      client_sends c up (pos 4) sends request ∙ sent,
      server_receives id s context known recvs (asked.wire ++ later_in) ∙ got,
      server_sends id s context known (pos 4) replies reply ∙ sent_back,
      client_receives c up answers (answered.wire ++ later_out) ∙ got_back,
    )
