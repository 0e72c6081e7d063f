-- ===== src/Network/Client.antt =====
-- `TCPClient`: the life of its socket.
use distributed_file_storage.Base.{
  ◌≡◌, refl, sym, subst, append_assoc, Bool, true, false, ◌&&◌, ◌||◌, arith, if◌then◌else◌, Option,
  some, List, [], ◌∷◌, ◌++◌, Bytes,
}
use distributed_file_storage.Base.Int.{ℤ, pos, ltb_ℤ, minus_one, ◌≤ℤ◌, ◌<ℤ◌}
use distributed_file_storage.Network.Transfer.{Sent, send_frame, Received, recv_frame, as_text}

pub record TcpClient : Type 0 where
  pub sock : ℤ
  pub connected : Bool

abbrev pub new_client : TcpClient
new_client = record { sock = minus_one; connected = false }

abbrev not_negative : ℤ → Bool
not_negative z = if ltb_ℤ z (pos 0) then false else true

-- The client after a call, and the descriptors that the call handed to `::close`.
pub record Closing : Type 0 where
  pub client : TcpClient
  pub closed : List ℤ

unfoldable pub close : TcpClient → Closing
close c =
    if c.connected && not_negative c.sock
    then record { client = record { sock = minus_one; connected = false }; closed = c.sock ∷ [] }
    else record { client = c; closed = [] }

-- What the system answers while a connection is made: the descriptor of `socket`, whether
-- `inet_pton` can read the address, and whether `::connect` succeeds.
pub record Dial : Type 0 where
  pub descriptor : ℤ
  pub address_valid : Bool
  pub reachable : Bool

-- `connect` behind its first line: `c` is the client then, and `closed` what was closed before.
unfoldable pub dial : Dial → Closing → Bool × Closing
dial d before =
    if ltb_ℤ d.descriptor (pos 0)
    then (false, record before { client = record before.client { sock = d.descriptor } })
    else if d.address_valid && d.reachable
    then (true, record before { client = record { sock = d.descriptor; connected = true } })
    else (
      false,
      record {
        client = record before.client { sock = minus_one };
        closed = before.closed ++ d.descriptor ∷ [];
      },
    )

-- `if (connected_) close();`
unfoldable pub reset : TcpClient → Closing
unfolding close
reset c = if c.connected then close c else record { client = c; closed = [] }

unfoldable pub connect : Dial → TcpClient → Bool × Closing
unfolding reset dial
connect d c = dial d (reset c)

-- `!connected_ || sock_ < 0`
abbrev pub is_down : TcpClient → Bool
is_down c = (if c.connected then false else true) || ltb_ℤ c.sock (pos 0)

-- The result of `sendData`; on a client that is down nothing goes out.
unfoldable pub send_data : ℤ → List ℤ → TcpClient → Bytes → Option Sent
unfolding send_frame
send_data header results c payload =
    if is_down c
    then some (record { succeeded = false; wire = [] })
    else send_frame header results payload

unfoldable pub recv_data : List ℤ → TcpClient → Bytes → Option Received
unfolding recv_frame
recv_data results c stream =
    if is_down c then some (record { payload = []; unread = stream }) else recv_frame results stream

unfoldable pub send_message : ℤ → List ℤ → TcpClient → Bytes → Option Sent
unfolding send_data
send_message header results c message = send_data header results c message

unfoldable pub recv_message : List ℤ → TcpClient → Bytes → Option Received
unfolding recv_data
recv_message results c stream = as_text (recv_data results c stream)

-- A client is connected just when it holds a descriptor.
pub record IsOpenOrShut (c : TcpClient) : Type 0 where
  pub holds : c.connected ≡ true → pos 0 ≤ℤ c.sock
  pub empty : c.connected ≡ false → c.sock <ℤ pos 0

new_client-IsOpenOrShut : IsOpenOrShut new_client
new_client-IsOpenOrShut = record { holds = λ h. cc; empty = λ h. omega arith }

reset-IsOpenOrShut : (c : TcpClient) → IsOpenOrShut c → IsOpenOrShut (reset c).client
unfolding reset
reset-IsOpenOrShut c v = record {
  holds = λ h. ground (arith, v.holds);
  empty = λ h. ground (arith, v.empty);
}

close-IsOpenOrShut : (c : TcpClient) → IsOpenOrShut c → IsOpenOrShut (close c).client
unfolding close
close-IsOpenOrShut c v = record {
  holds = λ h. ground (arith, v.holds);
  empty = λ h. ground (arith, v.empty);
}

-- The descriptor that a client holds.
abbrev pub held : TcpClient → List ℤ
held c = if c.connected then c.sock ∷ [] else []

-- The descriptor that `socket` returns, unless it fails.
abbrev pub opened : Dial → List ℤ
opened d = if ltb_ℤ d.descriptor (pos 0) then [] else d.descriptor ∷ []

reset_down : (c : TcpClient) → IsOpenOrShut c → (reset c).client.connected ≡ false
unfolding reset
reset_down c v = ground (arith, v.holds)

held-reset : (c : TcpClient) → IsOpenOrShut c → held c ≡ (reset c).closed
unfolding reset
held-reset c v = ground (arith, v.holds)

close_down : (c : TcpClient) → IsOpenOrShut c → (close c).client.connected ≡ false
unfolding close
close_down c v = ground (arith, v.holds)

held-close : (c : TcpClient) → IsOpenOrShut c → held c ≡ (close c).closed
unfolding close
held-close c v = ground (arith, v.holds)

-- The client is consistent after the call, success is reported just when it is then connected, and
-- the descriptors in `all` are each closed or held.
pub record Accounted (all : List ℤ) (outcome : Bool × Closing) : Type 0 where
  pub consistent : IsOpenOrShut outcome.1.client
  pub reported : outcome.0 ≡ outcome.1.client.connected
  pub no_leak : all ≡ outcome.1.closed ++ held outcome.1.client

dial-Accounted :
    (d : Dial) (before : Closing)
    → before.client.connected ≡ false
    → IsOpenOrShut before.client
    → Accounted (before.closed ++ opened d) (dial d before)
unfolding dial
dial-Accounted d before down v = record {
  consistent = record { holds = λ h. ground arith; empty = λ h. ground arith };
  reported = ground arith;
  no_leak = ground (arith, append_assoc before.closed (d.descriptor ∷ []) []);
}

-- `connect` on a consistent client loses no descriptor: the one held before and the one opened are
-- each closed or held after, and the result says whether the client is connected.
pub connect_lem :
    (d : Dial) (c : TcpClient) → IsOpenOrShut c → Accounted (held c ++ opened d) (connect d c)
connect_lem d c v =
    subst (λ l. Accounted (l ++ opened d) (connect d c)) (sym (held-reset c v))
      (unfold connect in dial-Accounted d (reset c) (reset_down c v) (reset-IsOpenOrShut c v))

-- `close` on a consistent client closes the descriptor that it holds, if any, and after it sending
-- or receiving moves no byte.
pub close_lem :
    (header : ℤ) (results : List ℤ) (c : TcpClient) (payload stream : Bytes)
    → IsOpenOrShut c
    → (send_data header results (close c).client payload
        ≡ some (record { succeeded = false; wire = [] }))
      × (recv_data results (close c).client stream
          ≡ some (record { payload = []; unread = stream }))
      × (held c ≡ (close c).closed)
unfolding send_data recv_data
close_lem header results c payload stream v = rw (close_down c v) (refl, refl, held-close c v)
