-- ===== src/Storage/Lifetime/Closed.antt =====
-- What a node opens over its life it closes.
use distributed_file_storage.Base.{
  ℕ, ◌+◌, ◌≤◌, ◌≡◌, refl, sym, subst, ap, ◌∙◌, Bool-cases, inl, inr, true, false, Option, none,
  some, List, [], ◌∷◌, ◌++◌, append-nil, arith, if◌then◌else◌,
}
use distributed_file_storage.Base.Assoc.{insert, lookup-insert}
use distributed_file_storage.Base.Equality.{ℕ_eq, ◌==◌}
use distributed_file_storage.Base.Int.{ℤ, pos, ltb_ℤ}
use distributed_file_storage.Network.Server.{
  SocketContext, TcpServer, Listen, accept_client, descriptor_of, sockets_of, stop,
}
use distributed_file_storage.Network.Server.Descriptors.{
  count, count-append, count-insert, insert-AreUnique,
}
use distributed_file_storage.Storage.Lifetime.{
  Hosted, new_hosted, open_one, start_node, refuses, accept_node, end_handler, stop_node, NodeEvent,
  accepts, handler_ends, dies, happen_all, lifetime,
}
use distributed_file_storage.Storage.Lifetime.Accounts.{
  held, IsAccounted, no_sockets, start_node-IsAccounted, stop_node-IsAccounted,
  end_handler-IsAccounted,
}

accept_node_refused : (fd : ℤ) (h : Hosted) → refuses h.server ≡ true → accept_node fd h ≡ h
unfolding accept_node accept_client
accept_node_refused fd h e = rw e refl

accept_node_failed :
    (fd : ℤ) (h : Hosted)
    → refuses h.server ≡ false
    → ltb_ℤ fd (pos 0) ≡ true
    → accept_node fd h ≡ record h { opened = h.opened ++ [] }
unfolding accept_node accept_client
accept_node_failed fd h e bad = rw (e, bad) refl

accept_node_new :
    (fd : ℤ) (h : Hosted)
    → refuses h.server ≡ false
    → ltb_ℤ fd (pos 0) ≡ false
    → accept_node fd h ≡ record h {
      server = record h.server {
        clients =
            insert h.server.next_client_id (record { socket = fd; valid = true }) h.server.clients;
        next_client_id = h.server.next_client_id + 1;
      };
      opened = h.opened ++ fd ∷ [];
    }
unfolding accept_node accept_client
accept_node_new fd h e good = rw (e, good) refl

still_unused :
    (next id : ℕ) (context : SocketContext) {found : Option SocketContext}
    → next + 1 ≤ id
    → found ≡ none
    → (if next == id then some context else found) ≡ none
still_unused next id context above e = elim (Bool-cases (next == id)) [
  | inl same ↦ absurd (omega (arith, (ℕ_eq.equal_iff next id).0 same))
  | inr apart ↦ rw apart e
]

one_socket :
    (fd : ℤ)
    → ltb_ℤ fd (pos 0) ≡ false
    → descriptor_of (record { socket = fd; valid = true }) ≡ fd ∷ []
one_socket fd good = rw good refl

runs : (s : TcpServer) → refuses s ≡ false → s.running ≡ true
runs s e = ground arith

accept_node-IsAccounted : (fd : ℤ) (h : Hosted) → IsAccounted h → IsAccounted (accept_node fd h)
accept_node-IsAccounted fd h k = elim (Bool-cases (refuses h.server)) [
  | inl refused ↦ subst IsAccounted (sym (accept_node_refused fd h refused)) k
  | inr called ↦ elim (Bool-cases (ltb_ℤ fd (pos 0))) [
    | inl bad ↦
        subst IsAccounted
          (ap (λ l. record h { opened = l }) (sym (append-nil h.opened))
            ∙ sym (accept_node_failed fd h called bad))
          k
    | inr good ↦ subst IsAccounted (sym (accept_node_new fd h called good)) (record {
      counted = λ d.
          let id = h.server.next_client_id in
          let context : SocketContext = record { socket = fd; valid = true } in
          let socket = open_one h.server.server_sock in
          let more = sockets_of (insert id context h.server.clients) in
          omega (
            arith,
            k.counted d,
            count-insert d id context h.server.clients (k.unused id (omega arith)),
            ap (count d) (one_socket fd good),
            count-append d h.opened (fd ∷ []),
            count-append d socket (sockets_of h.server.clients),
            count-append d socket more,
          );
      unique =
          insert-AreUnique h.server.next_client_id _ h.server.clients
            (k.unused h.server.next_client_id (omega arith)) k.unique;
      unused = λ id above.
          lookup-insert h.server.next_client_id id (record { socket = fd; valid = true })
            h.server.clients
          ∙ still_unused h.server.next_client_id id (record { socket = fd; valid = true }) above
              (k.unused id (omega arith));
      down = λ e. cc (e, runs h.server called);
    })
  ]
]

happen_all-IsAccounted :
    (events : List NodeEvent) (h : Hosted) → IsAccounted h → IsAccounted (happen_all events h)
happen_all-IsAccounted [] h k = k
happen_all-IsAccounted (accepts fd ∷ events) h k =
    happen_all-IsAccounted events (accept_node fd h) (accept_node-IsAccounted fd h k)
happen_all-IsAccounted (handler_ends id ∷ events) h k =
    happen_all-IsAccounted events (end_handler id h) (end_handler-IsAccounted id h k)
happen_all-IsAccounted (dies ∷ events) h k =
    happen_all-IsAccounted events (stop_node h) (stop_node-IsAccounted h k)

stopped : (h : Hosted) → (stop_node h).server.running ≡ false
unfolding stop_node stop
stopped h = ground arith

-- However a node starts, whatever connections it accepts, in whatever order their handlers end, and
-- whether or not it is told to die: by the end of its destructor every descriptor that the system has
-- given to its server has been closed, as often as it was given, and none other.
pub lifetime_closes :
    (l : Listen) (events : List NodeEvent) (d : ℤ)
    → count d (lifetime l events).closed ≡ count d (lifetime l events).opened
lifetime_closes l events d =
    let before = happen_all events (start_node l new_hosted) in
    let k =
      stop_node-IsAccounted before
        (happen_all-IsAccounted events (start_node l new_hosted) (start_node-IsAccounted l)) in
    let (shut, empty) = k.down (stopped before) in
    let none_held : held (lifetime l events).server ≡ [] =
      ap (λ clients. open_one (lifetime l events).server.server_sock ++ sockets_of clients) empty
      ∙ rw (shut, no_sockets) refl in
    omega (arith, k.counted d, ap (count d) none_held)
