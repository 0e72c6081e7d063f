-- ===== src/Network/Transfer.antt =====
-- The loops of `sendData` and `recvData`, which `TCPClient` and `TCPServer` share word for word.
use distributed_file_storage.Base.{
  ℕ, ◌+◌, ◌%◌, ◌^◌, Bool, true, false, Option, none, some, List, [], ◌∷◌, ◌++◌, Bytes, ltb,
  if◌then◌else◌, length, take, drop,
}
use distributed_file_storage.Base.BigEndian.{be_bytes, be_value}
use distributed_file_storage.Base.Int.{ℤ, pos, pos_part, ltb_ℤ, eqb_ℤ}

-- Whether all was sent, and the bytes that went out.
pub record Sent : Type 0 where
  pub succeeded : Bool
  pub wire : Bytes

-- `while (sent < len)`: each `::send` returns the next of `results`. Where these run out the call
-- has not returned, which is `none`.
unfoldable pub send_loop : List ℤ → Bytes → ℕ → Bytes → Option Sent
send_loop [] payload sent wire =
    if ltb sent (length payload) then none else some (record { succeeded = true; wire = wire })
send_loop (n ∷ results) payload sent wire =
    let rest =
      send_loop results payload (sent + pos_part n)
        (wire ++ take (pos_part n) (drop sent payload)) in
    let stopped : Option Sent = some (record { succeeded = false; wire = wire }) in
    if ltb sent (length payload)
    then if ltb_ℤ (pos 0) n then rest else stopped
    else some (record { succeeded = true; wire = wire })

-- The header is `htonl` of the length cast to 32 bits; `header` is what sending it returns.
unfoldable pub send_frame : ℤ → List ℤ → Bytes → Option Sent
unfolding send_loop be_bytes
send_frame header results payload =
    let len32 = be_bytes 4 (length payload % 2 ^ 32) in
    if eqb_ℤ header (pos 4)
    then send_loop results payload 0 len32
    else some (record { succeeded = false; wire = take (pos_part header) len32 })

-- What was received, and what is still to be read from the socket.
pub record Received : Type 0 where
  pub payload : Bytes
  pub unread : Bytes

-- `while (got < len)`: each `::recv` returns the next of `results`, and so many bytes of the stream.
unfoldable pub recv_loop : List ℤ → ℕ → Bytes → Bytes → Option Received
recv_loop [] len got stream =
    if ltb (length got) len then none else some (record { payload = got; unread = stream })
recv_loop (n ∷ results) len got stream =
    let rest = recv_loop results len (got ++ take (pos_part n) stream) (drop (pos_part n) stream) in
    let stopped : Option Received = some (record { payload = []; unread = stream }) in
    if ltb (length got) len
    then if ltb_ℤ (pos 0) n then rest else stopped
    else some (record { payload = got; unread = stream })

-- With MSG_WAITALL the header comes whole, or the stream ends before it.
unfoldable pub recv_frame : List ℤ → Bytes → Option Received
unfolding recv_loop
recv_frame results stream =
    if ltb (length stream) 4
    then some (record { payload = []; unread = [] })
    else recv_loop results (be_value 0 (take 4 stream)) [] (drop 4 stream)

-- `if (data.empty()) return "";`, and the text of the data.
abbrev pub text_of : Bytes → Bytes
text_of [] = []
text_of (c ∷ data_left) = c ∷ data_left

abbrev pub as_text : Option Received → Option Received
as_text none = none
as_text (some r) = some (record r { payload = text_of r.payload })
