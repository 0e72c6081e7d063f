-- ===== src/Storage/Connections/Replies.antt =====
-- What goes out on each connection of a storage node.
use distributed_file_storage.Base.{
  ℕ, ◌≡◌, refl, sym, ap, ◌∙◌, Bool, true, false, Bool-cases, inl, inr, none, some, Option, List, [],
  ◌∷◌, ◌++◌, append_assoc, append-nil, Bytes, if◌then◌else◌,
}
use distributed_file_storage.Base.Equality.{◌==◌, ℕ_eq}
use distributed_file_storage.Streams.{read_word}
use distributed_file_storage.Storage.{handle_chunk}
use distributed_file_storage.Storage.Connections.{
  Place, testing, reading, receiving, sending, stopping, behind, Connections, Event, proceeds,
  comes_in, message_turn, proceed_turn, connection_of, turn, serve, serve_all, Operation, stored,
  fetched, told, pending, asked, fetched_of, operations_at, operations, place_of,
}
use distributed_file_storage.Storage.{Awaits, command, chunk, closed}

-- The messages that are to be sent for operations.
abbrev pub answers_to : List Operation → List Bytes
answers_to [] = []
answers_to (stored hash bytes sent ∷ ops) = sent ++ answers_to ops
answers_to (fetched hash sent ∷ ops) = sent ++ answers_to ops
answers_to (told sent ∷ ops) = sent ++ answers_to ops

abbrev on_connection : ℕ → Event → List Bytes → List Bytes
on_connection id event messages = if connection_of event == id then messages else []

-- The answers to the operations of one connection, one after another.
unfoldable pub answers_on : ℕ → List Event → Connections → List Bytes
unfolding operations serve
answers_on id [] s = []
answers_on id (event ∷ events) s =
    on_connection id event (answers_to (operations event s)) ++ answers_on id events (serve event s)

-- The messages that go out on one connection.
unfoldable pub sent_on : ℕ → List Event → Connections → List Bytes
unfolding turn serve
sent_on id [] s = []
sent_on id (event ∷ events) s =
    on_connection id event (turn event s).sent ++ sent_on id events (serve event s)

answers_to-fetched_of :
    (word : Option Bytes) (sent : List Bytes) → answers_to (fetched_of word sent) ≡ sent
answers_to-fetched_of none sent = append-nil sent
answers_to-fetched_of (some hash) sent = append-nil sent

nothing_waits : (awaits : Awaits) → pending (place_of awaits) ≡ []
nothing_waits command = refl
nothing_waits (chunk hash) = refl
nothing_waits closed = refl

tested : (up : Bool) → pending (if up then reading else behind) ≡ []
tested true = refl
tested false = refl

-- In a turn of its thread, a connection is sent the first of what was to be sent to it.
proceeds_sent :
    (place : Place) (s : Connections)
    → (proceed_turn place s).serving ≡ true
    → pending place ≡ (proceed_turn place s).sent ++ pending (proceed_turn place s).place
proceeds_sent testing s up = sym (tested s.node.running)
proceeds_sent reading s up = refl
proceeds_sent (receiving hash) s up = refl
proceeds_sent (sending [] awaits) s up = sym (nothing_waits awaits)
proceeds_sent (sending (message ∷ messages) awaits) s up = rw up refl
proceeds_sent stopping s up = cc
proceeds_sent behind s up = refl

message_sent :
    (place : Place) (message : Bytes) (s : Connections)
    → pending place
        ++ answers_to (operations_at place message (pending (message_turn place message s).place))
      ≡ (message_turn place message s).sent ++ pending (message_turn place message s).place
unfolding handle_chunk
message_sent testing message s = refl
message_sent reading [] s = refl
message_sent reading (c ∷ message) s =
    answers_to-fetched_of (asked (read_word (c ∷ message)))
      (pending (message_turn reading (c ∷ message) s).place)
message_sent (receiving hash) [] s = refl
message_sent (receiving hash) (b ∷ bytes) s = append-nil _
message_sent (sending messages awaits) message s = append-nil messages
message_sent stopping message s = refl
message_sent behind message s = refl

turn_sent :
    (event : Event) (s : Connections)
    → (serve event s).serving ≡ true
    → pending (s.places (connection_of event)) ++ answers_to (operations event s)
      ≡ (turn event s).sent ++ pending (turn event s).place
unfolding serve turn operations
turn_sent (proceeds id) s up = append-nil _ ∙ proceeds_sent (s.places id) s up
turn_sent (comes_in id message) s up = message_sent (s.places id) message s

serve_place :
    (id : ℕ) (event : Event) (s : Connections)
    → (serve event s).places id
      ≡ (if connection_of event == id then (turn event s).place else s.places id)
unfolding serve
serve_place id event s = refl

serve_sent :
    (id : ℕ) (event : Event) (s : Connections)
    → (serve event s).serving ≡ true
    → pending (s.places id) ++ on_connection id event (answers_to (operations event s))
      ≡ on_connection id event (turn event s).sent ++ pending ((serve event s).places id)
serve_sent id event s up = elim (Bool-cases (connection_of event == id)) [
  | inl here ↦
      rw (serve_place id event s, here)
        (ap (λ i. pending (s.places i) ++ answers_to (operations event s))
            (sym ((ℕ_eq.equal_iff (connection_of event) id).0 here))
          ∙ turn_sent event s up)
  | inr away ↦ rw (serve_place id event s, away) (append-nil (pending (s.places id)))
]

-- A server that has been stopped stays so.
proceeds_serving :
    (place : Place) (s : Connections) → s.serving ≡ false → (proceed_turn place s).serving ≡ false
proceeds_serving testing s h = h
proceeds_serving reading s h = h
proceeds_serving (receiving hash) s h = h
proceeds_serving (sending [] awaits) s h = h
proceeds_serving (sending (message ∷ messages) awaits) s h = h
proceeds_serving stopping s h = refl
proceeds_serving behind s h = h

message_serving :
    (place : Place) (message : Bytes) (s : Connections)
    → (message_turn place message s).serving ≡ s.serving
message_serving testing message s = refl
message_serving reading [] s = refl
message_serving reading (c ∷ message) s = refl
message_serving (receiving hash) message s = refl
message_serving (sending messages awaits) message s = refl
message_serving stopping message s = refl
message_serving behind message s = refl

serve_stopped :
    (event : Event) (s : Connections) → s.serving ≡ false → (serve event s).serving ≡ false
unfolding serve turn
serve_stopped (proceeds id) s h = proceeds_serving (s.places id) s h
serve_stopped (comes_in id message) s h = message_serving (s.places id) message s ∙ h

serve_all_stopped :
    (events : List Event) (s : Connections)
    → s.serving ≡ false
    → (serve_all events s).serving ≡ false
unfolding serve_all
serve_all_stopped [] s h = h
serve_all_stopped (event ∷ events) s h =
    serve_all_stopped events (serve event s) (serve_stopped event s h)

still_serving :
    (events : List Event) (s : Connections) → (serve_all events s).serving ≡ true → s.serving ≡ true
still_serving events s up = elim (Bool-cases s.serving) [
  | inl serving ↦ serving
  | inr stopped ↦ cc (up, serve_all_stopped events s stopped)
]

pub sent_on-answers_on :
    (id : ℕ) (events : List Event) (s : Connections)
    → (serve_all events s).serving ≡ true
    → pending (s.places id) ++ answers_on id events s
      ≡ sent_on id events s ++ pending ((serve_all events s).places id)
unfolding answers_on sent_on serve_all
sent_on-answers_on id [] s up = append-nil (pending (s.places id))
sent_on-answers_on id (event ∷ events) s up =
    let after = serve event s in
    let ops = on_connection id event (answers_to (operations event s)) in
    let out = on_connection id event (turn event s).sent in
    sym (append_assoc (pending (s.places id)) ops (answers_on id events after))
    ∙ ap (λ l. l ++ answers_on id events after)
        (serve_sent id event s (still_serving events after up))
    ∙ append_assoc out (pending (after.places id)) (answers_on id events after)
    ∙ ap (λ l. out ++ l) (sent_on-answers_on id events after up)
    ∙ sym
        (append_assoc out (sent_on id events after) (pending ((serve_all events after).places id)))
