-- ===== src/Network/Termination.antt =====
-- The loops of `sendData` and `recvData` come to their end.
use distributed_file_storage.Base.{
  ℕ, ◌+◌, ◌%◌, ◌^◌, ◌≤◌, Bool-cases, inl, inr, ltb, ◌≢◌, none, List, [], ◌∷◌, ◌++◌, arith, Bytes,
  length, take, drop, length-append, length-take,
}
use distributed_file_storage.Base.BigEndian.{be_bytes, be_value}
use distributed_file_storage.Base.Int.{ℤ, pos, pos_part, eqb_ℤ}
use distributed_file_storage.Network.Transfer.{send_loop, send_frame, recv_loop, recv_frame}

send_loop-ne-none :
    (results : List ℤ) (payload : Bytes) (sent : ℕ) (wire : Bytes)
    → length payload ≤ sent + length results
    → send_loop results payload sent wire ≢ none
unfolding send_loop
send_loop-ne-none [] payload sent wire h = ground arith
send_loop-ne-none (n ∷ results) payload sent wire h =
    let later =
      send_loop-ne-none results payload (sent + pos_part n)
        (wire ++ take (pos_part n) (drop sent payload)) in
    ground (arith, later)

-- `sendData` returns after at most as many calls of `::send` for the payload as the payload has
-- bytes, whatever the calls return.
pub send_frame-ne-none :
    (header : ℤ) (results : List ℤ) (payload : Bytes)
    → length payload ≤ length results
    → send_frame header results payload ≢ none
unfolding send_frame
send_frame-ne-none header results payload h = elim (Bool-cases (eqb_ℤ header (pos 4))) [
  | inl whole ↦ λ e.
      send_loop-ne-none results payload 0 (be_bytes 4 (length payload % 2 ^ 32)) (omega arith)
        (rw whole at e)
  | inr cut ↦ λ e. cc (rw cut at e)
]

-- `::recv` returns no more bytes than the stream has.
abbrev pub Delivered : List ℤ → Bytes → Type 0
Delivered [] stream = Unit
Delivered (n ∷ results) stream =
    (pos_part n ≤ length stream) × Delivered results (drop (pos_part n) stream)

recv_loop-ne-none :
    (results : List ℤ) (len : ℕ) (got stream : Bytes)
    → Delivered results stream
    → len ≤ length got + length results
    → recv_loop results len got stream ≢ none
unfolding recv_loop
recv_loop-ne-none [] len got stream fits h = ground arith
recv_loop-ne-none (n ∷ results) len got stream (fit, fits) h =
    let longer = length-append got (take (pos_part n) stream) in
    let taken = length-take (pos_part n) stream in
    let later =
      recv_loop-ne-none results len (got ++ take (pos_part n) stream) (drop (pos_part n) stream)
        fits in
    ground (arith, longer, taken, later)

-- `recvData` returns after at most as many calls of `::recv` for the payload as the length in the
-- header says, if no call returns more bytes than the stream has.
pub recv_frame-ne-none :
    (results : List ℤ) (stream : Bytes)
    → be_value 0 (take 4 stream) ≤ length results
    → Delivered results (drop 4 stream)
    → recv_frame results stream ≢ none
unfolding recv_frame
recv_frame-ne-none results stream h fits = elim (Bool-cases (ltb (length stream) 4)) [
  | inl short ↦ λ e. cc (rw short at e)
  | inr whole ↦ λ e.
      recv_loop-ne-none results (be_value 0 (take 4 stream)) [] (drop 4 stream) fits (omega arith)
        (rw whole at e)
]
