-- ===== src/Network/Framing.antt =====
-- A frame that is sent is received, however the system cuts it into pieces.
use native.Mathlib.Nat.{sub-zero}
use mathlib.Core.Option.{some-injective}
use mathlib.Core.Path.{subst₂}
use distributed_file_storage.Base.{
  ◌⊎◌, ltb→lt, ℕ, ◌+◌, ◌-◌, ◌%◌, ◌^◌, ◌≤◌, ◌<◌, ◌≡◌, ◌≢◌, refl, sym, ap, ◌∙◌, Bool-cases, inl, inr,
  true, some, List, [], ◌∷◌, ◌++◌, append_assoc, append-nil, arith, Bytes, ltb, length, take, drop,
  length-append, length-take, length-drop, take-append-drop, subst,
}
use distributed_file_storage.Base.Index.{
  take-length, drop-length, take-append_left, drop-append_left, drop-drop, take-add,
}
use distributed_file_storage.Base.BigEndian.{be_bytes, be_value, length-be_bytes, be_value-be_bytes}
use distributed_file_storage.Base.Int.{ℤ, pos, pos_part}
use distributed_file_storage.Network.Transfer.{
  Sent, send_loop, send_frame, Received, recv_loop, recv_frame,
}

-- Positive results that add up to `len`: the system moves at least a byte at each call, and never
-- more than it is asked to.
abbrev pub Pieces : ℕ → List ℤ → Type 0
Pieces len [] = len ≡ 0
Pieces len (n ∷ results) = (0 < pos_part n) × (pos_part n ≤ len) × Pieces (len - pos_part n) results

send_loop_done :
    (results : List ℤ) (payload : Bytes) (sent : ℕ) (wire : Bytes)
    → length payload ≤ sent
    → send_loop results payload sent wire ≡ some (record { succeeded = true; wire = wire })
unfolding send_loop
send_loop_done [] payload sent wire h = ground arith
send_loop_done (n ∷ results) payload sent wire h = ground arith

send_loop_more :
    (n : ℤ) (results : List ℤ) (payload : Bytes) (sent : ℕ) (wire : Bytes)
    → sent < length payload
    → 0 < pos_part n
    → send_loop (n ∷ results) payload sent wire
      ≡ send_loop results payload
          (sent + pos_part n)
          (wire ++ take (pos_part n) (drop sent payload))
unfolding send_loop
send_loop_more n results payload sent wire h hn = ground arith

send_loop-Pieces :
    (results : List ℤ) (payload : Bytes) (sent : ℕ) (wire : Bytes)
    → sent ≤ length payload
    → Pieces (length payload - sent) results
    → send_loop results payload sent wire
      ≡ some (record { succeeded = true; wire = wire ++ drop sent payload })
send_loop-Pieces [] payload sent wire h p =
    send_loop_done [] payload sent wire (omega arith)
    ∙ rw (drop-length sent payload (omega arith), append-nil wire)
send_loop-Pieces (n ∷ results) payload sent wire h (positive, fits, p) =
    let step = pos_part n in
    let left : length payload - sent - step ≡ length payload - (sent + step) = omega arith in
    send_loop_more n results payload sent wire (omega arith) positive
    ∙ send_loop-Pieces results payload (sent + step) (wire ++ take step (drop sent payload))
        (omega arith) (subst (λ len. Pieces len results) left p)
    ∙ rw (
      append_assoc wire (take step (drop sent payload)) (drop (sent + step) payload),
      ← drop-drop step sent payload,
      take-append-drop step (drop sent payload),
    )

recv_loop_done :
    (results : List ℤ) (len : ℕ) (got stream : Bytes)
    → len ≤ length got
    → recv_loop results len got stream ≡ some (record { payload = got; unread = stream })
unfolding recv_loop
recv_loop_done [] len got stream h = ground arith
recv_loop_done (n ∷ results) len got stream h = ground arith

recv_loop_more :
    (n : ℤ) (results : List ℤ) (len : ℕ) (got stream : Bytes)
    → length got < len
    → 0 < pos_part n
    → recv_loop (n ∷ results) len got stream
      ≡ recv_loop results len (got ++ take (pos_part n) stream) (drop (pos_part n) stream)
unfolding recv_loop
recv_loop_more n results len got stream h hn = ground arith

recv_loop-Pieces :
    (results : List ℤ) (len : ℕ) (got stream : Bytes)
    → length got ≤ len
    → len ≤ length got + length stream
    → Pieces (len - length got) results
    → recv_loop results len got stream
      ≡ some (record {
        payload = got ++ take (len - length got) stream;
        unread = drop (len - length got) stream;
      })
recv_loop-Pieces [] len got stream h enough p =
    recv_loop_done [] len got stream (omega arith) ∙ rw (p, append-nil got)
recv_loop-Pieces (n ∷ results) len got stream h enough (positive, fits, p) =
    let step = pos_part n in
    let got' = got ++ take step stream in
    let grown : length got' ≡ length got + step =
      omega (arith, length-append got (take step stream), length-take step stream) in
    let left : len - length got' ≡ len - length got - step = omega (arith, grown) in
    let whole : len - length got ≡ step + (len - length got') = omega (arith, left) in
    recv_loop_more n results len got stream (omega arith) positive
    ∙ recv_loop-Pieces results len got' (drop step stream) (omega (arith, grown))
        (omega (arith, grown, length-drop step stream)) (subst (λ k. Pieces k results) (sym left) p)
    ∙ rw (
      whole,
      take-add step (len - length got') stream,
      ← drop-drop (len - length got') step stream,
      append_assoc got (take step stream) (take (len - length got') (drop step stream)),
    )

recv_frame_short :
    (recvs : List ℤ) (stream : Bytes)
    → length stream < 4
    → recv_frame recvs stream ≡ some (record { payload = []; unread = [] })
unfolding recv_frame
recv_frame_short recvs stream h = ground arith

recv_loop_waits :
    (len : ℕ) (got stream : Bytes) (r : Received)
    → ltb (length got) len ≡ true
    → recv_loop [] len got stream ≢ some r
unfolding recv_loop
recv_loop_waits len got stream r more e = ground arith

recv_frame_long :
    (recvs : List ℤ) (stream : Bytes)
    → 4 ≤ length stream
    → recv_frame recvs stream ≡ recv_loop recvs (be_value 0 (take 4 stream)) [] (drop 4 stream)
unfolding recv_frame
recv_frame_long recvs stream h = ground arith

-- Sending a payload puts its length modulo 2 ^ 32 and then all of it on the wire, whatever pieces
-- the system takes it in.
pub send_frame-Pieces :
    (results : List ℤ) (payload : Bytes)
    → Pieces (length payload) results
    → send_frame (pos 4) results payload
      ≡ some (record { succeeded = true; wire = be_bytes 4 (length payload % 2 ^ 32) ++ payload })
unfolding send_frame
send_frame-Pieces results payload p =
    send_loop-Pieces results payload 0 (be_bytes 4 (length payload % 2 ^ 32)) (omega arith)
      (subst (λ len. Pieces len results) (sym (sub-zero (length payload))) p)

recv_frame-header :
    (recvs : List ℤ) (header body : Bytes)
    → length header ≡ 4
    → recv_frame recvs (header ++ body) ≡ recv_loop recvs (be_value 0 header) [] body
recv_frame-header recvs header body h =
    recv_frame_long recvs (header ++ body) (omega (arith, length-append header body))
    ∙ rw (
      take-append_left 4 header body (omega arith),
      drop-append_left 4 header body (omega arith),
      take-length 4 header (omega arith),
      drop-length 4 header (omega arith),
    )

-- Let `::send` and `::recv` move the payload in pieces, at least a byte at each call. The sender
-- reports success, and the receiver gets as many bytes of the payload as the length modulo 2 ^ 32
-- says and leaves the rest of the stream unread: below 4 GiB that is the payload, above it is not.
pub recv_frame-send_frame :
    (sends recvs : List ℤ) (payload rest : Bytes)
    → Pieces (length payload) sends
    → Pieces (length payload % 2 ^ 32) recvs
    → (sent : Sent) × (send_frame (pos 4) sends payload ≡ some sent)
      × (sent.succeeded ≡ true)
      × (recv_frame recvs (sent.wire ++ rest)
          ≡ some (record {
            payload = take (length payload % 2 ^ 32) payload;
            unread = drop (length payload % 2 ^ 32) payload ++ rest;
          }))
recv_frame-send_frame sends recvs payload rest ps pr =
    let len = length payload % 2 ^ 32 in
    let header = be_bytes 4 len in
    let count : be_value 0 header ≡ len = be_value-be_bytes len ∙ omega arith in
    (
      record { succeeded = true; wire = header ++ payload },
      send_frame-Pieces sends payload ps,
      refl,
      rw
          (
            append_assoc header payload rest,
            recv_frame-header recvs header (payload ++ rest) (length-be_bytes 4 len),
            count,
          )
          (recv_loop-Pieces recvs len [] (payload ++ rest) (omega arith)
              (omega (arith, length-append payload rest))
              (subst (λ k. Pieces k recvs) (sym (sub-zero len)) pr)
            ∙ rw (
              sub-zero len,
              take-append_left len payload rest (omega arith),
              drop-append_left len payload rest (omega arith),
            )),
    )

-- A payload below 4 GiB, moved in pieces of at least a byte, is sent with success and received whole,
-- and what follows it in the stream is left unread.
pub recv_frame_whole :
    (sends recvs : List ℤ) (payload rest : Bytes)
    → length payload < 2 ^ 32
    → Pieces (length payload) sends
    → Pieces (length payload) recvs
    → (sent : Sent) × (send_frame (pos 4) sends payload ≡ some sent)
      × (sent.succeeded ≡ true)
      × (recv_frame recvs (sent.wire ++ rest) ≡ some (record { payload = payload; unread = rest }))
recv_frame_whole sends recvs payload rest h ps pr =
    let len : length payload % 2 ^ 32 ≡ length payload = omega arith in
    let (sent, e, all, got) =
      recv_frame-send_frame sends recvs payload rest ps
        (subst (λ k. Pieces k recvs) (sym len) pr) in
    (
      sent,
      e,
      all,
      got
          ∙ rw (
            len,
            take-length (length payload) payload (omega arith),
            drop-length (length payload) payload (omega arith),
          ),
    )

-- What the system promises of `::recv`: it returns no more than it was asked for, and no more than
-- there is.
abbrev pub WithinStream : ℕ → ℕ → List ℤ → Type 0
WithinStream asked there [] = Unit
WithinStream asked there (n ∷ results) =
    (pos_part n ≤ asked)
    × (pos_part n ≤ there)
    × WithinStream (asked - pos_part n) (there - pos_part n) results

recv_loop_stopped :
    (n : ℤ) (results : List ℤ) (len : ℕ) (got stream : Bytes)
    → length got < len
    → pos_part n ≡ 0
    → recv_loop (n ∷ results) len got stream ≡ some (record { payload = []; unread = stream })
unfolding recv_loop
recv_loop_stopped n results len got stream h hn = ground arith

-- Nothing, or all that was announced.
abbrev pub Whole : ℕ → Bytes → Received → Type 0
Whole len stream r =
    (r.payload ≡ []) ⊎ ((length r.payload ≡ len) × (r.payload ++ r.unread ≡ stream))

Whole-done :
    (results : List ℤ) (len : ℕ) (got stream : Bytes) (r : Received)
    → length got ≡ len
    → recv_loop results len got stream ≡ some r
    → Whole len (got ++ stream) r
Whole-done results len got stream r h e =
    let same = some-injective _ r (sym (recv_loop_done results len got stream (omega arith)) ∙ e) in
    subst (Whole len (got ++ stream)) same (inr (h, refl))

recv_loop-Whole :
    (results : List ℤ) (len : ℕ) (got stream : Bytes) (r : Received)
    → length got ≤ len
    → WithinStream (len - length got) (length stream) results
    → recv_loop results len got stream ≡ some r
    → Whole len (got ++ stream) r
recv_loop-Whole [] len got stream r h w e = elim (Bool-cases (ltb (length got) len)) [
  | inl more ↦ absurd (recv_loop_waits len got stream r more e)
  | inr done ↦ Whole-done [] len got stream r (ground arith) e
]
recv_loop-Whole (n ∷ results) len got stream r h (asked, there, w) e =
    elim (Bool-cases (ltb (length got) len)) [
      | inr done ↦ Whole-done (n ∷ results) len got stream r (ground arith) e
      | inl more ↦ elim (Bool-cases (ltb 0 (pos_part n))) [
        | inr stopped ↦ inl (
            ap (λ x. x.payload)
              (some-injective r _ (
                sym e
                ∙ recv_loop_stopped n results len got stream (ltb→lt _ _ more) (ground arith))))
        | inl moved ↦
            let step = pos_part n in
            let grown : length (got ++ take step stream) ≡ length got + step =
              omega (arith, length-append got (take step stream), length-take step stream) in
            subst (λ s. Whole len s r)
              (append_assoc got (take step stream) (drop step stream)
                ∙ ap (λ s. got ++ s) (take-append-drop step stream))
              (recv_loop-Whole results len (got ++ take step stream) (drop step stream) r
                (omega (arith, grown))
                (subst₂ (λ a b. WithinStream a b results) (omega (arith, grown))
                  (sym (length-drop step stream)) w)
                (sym (recv_loop_more n results len got stream (ltb→lt _ _ more) (ltb→lt _ _ moved))
                  ∙ e))
      ]
    ]

-- If `::recv` never gives more than it is asked for or than there is, and `recvData` returns, it
-- returns nothing, or the whole payload of one frame: four bytes of length, so many bytes of
-- payload, and behind them what is left of the stream.
pub recv_frame_all_or_nothing :
    (results : List ℤ) (stream : Bytes) (r : Received)
    → WithinStream (be_value 0 (take 4 stream)) (length (drop 4 stream)) results
    → recv_frame results stream ≡ some r
    → (r.payload ≡ [])
      ⊎ ((length r.payload ≡ be_value 0 (take 4 stream))
          × (take 4 stream ++ (r.payload ++ r.unread) ≡ stream))
recv_frame_all_or_nothing results stream r w e = elim (Bool-cases (ltb (length stream) 4)) [
  | inl short ↦ inl (
      ap (λ x. x.payload)
        (some-injective r _ (sym e ∙ recv_frame_short results stream (ltb→lt _ _ short))))
  | inr long ↦
      elim (recv_loop-Whole results (be_value 0 (take 4 stream)) [] (drop 4 stream) r (omega arith)
        (subst (λ k. WithinStream k (length (drop 4 stream)) results) (sym (sub-zero _)) w)
        (sym (recv_frame_long results stream (ground arith)) ∙ e)) [
          | inl none_read ↦ inl none_read
          | inr (len, same) ↦
              inr (len, ap (λ s. take 4 stream ++ s) same ∙ take-append-drop 4 stream)
        ]
]
