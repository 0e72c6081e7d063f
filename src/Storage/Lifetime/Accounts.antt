-- ===== src/Storage/Lifetime/Accounts.antt =====
-- What a node has opened it has closed or holds.
use distributed_file_storage.Base.{
  ℕ, ◌+◌, ◌≤◌, ◌≡◌, refl, sym, subst, ap, ◌∙◌, Bool-cases, Option-cases, inl, inr, true, false,
  ◌&&◌, Option, none, some, List, [], ◌∷◌, ◌++◌, append-nil, arith, if◌then◌else◌,
}
use distributed_file_storage.Base.Assoc.{lookup, erase, lookup-erase}
use distributed_file_storage.Base.Equality.{ℕ_eq, ◌==◌}
use distributed_file_storage.Base.Int.{ℤ, pos, ltb_ℤ}
use distributed_file_storage.Network.Server.{
  SocketContext, TcpServer, new_server, Listen, start, descriptor_of, close_client, sockets_of,
  stop,
}
use distributed_file_storage.Network.Server.Descriptors.{
  count, count-append, AreUnique, count-erase, erase-AreUnique,
}
use distributed_file_storage.Storage.Lifetime.{
  Hosted, new_hosted, open_one, start_node, end_handler, stop_node,
}

-- The descriptors that the server holds.
abbrev pub held : TcpServer → List ℤ
held s = open_one s.server_sock ++ sockets_of s.clients

pub record IsAccounted (h : Hosted) : Type 0 where
  pub counted : (d : ℤ) → count d h.opened ≡ count d h.closed + count d (held h.server)
  pub unique : AreUnique h.server.clients
  pub unused : (id : ℕ) → h.server.next_client_id ≤ id → lookup id h.server.clients ≡ none
  pub down :
      h.server.running ≡ false
      → (ltb_ℤ h.server.server_sock (pos 0) ≡ true) × (h.server.clients ≡ [])

pub no_sockets : sockets_of [] ≡ []
unfolding sockets_of
no_sockets = refl

lookup_nil : (id : ℕ) → lookup {V = SocketContext} id [] ≡ none
unfolding lookup
lookup_nil id = refl

abbrev listening : Listen → List ℤ → Hosted
listening l gone = record {
  server = record new_server { server_sock = l.descriptor; running = true };
  running = true;
  opened = l.descriptor ∷ [];
  closed = gone;
}

listens_at :
    (l : Listen) (d : ℤ)
    → ltb_ℤ l.descriptor (pos 0) ≡ false
    → count d (l.descriptor ∷ []) ≡ 0 + count d (open_one l.descriptor ++ sockets_of [])
listens_at l d good = rw (good, no_sockets) (omega arith)

pub start_node-IsAccounted : (l : Listen) → IsAccounted (start_node l new_hosted)
unfolding start_node start
start_node-IsAccounted l = elim (Bool-cases (ltb_ℤ l.descriptor (pos 0))) [
  | inl bad ↦ rw bad (record {
    counted = λ d. rw (bad, no_sockets) refl;
    unique = tt;
    unused = λ id h. lookup_nil id;
    down = λ e. (bad, refl);
  })
  | inr good ↦ elim (Bool-cases (l.option_set && l.bound && l.listening)) [
    | inl up ↦
        let same : start_node l new_hosted ≡ listening l [] = rw (good, up) refl in
        subst IsAccounted (sym same) (record {
          counted = λ d. listens_at l d good;
          unique = tt;
          unused = λ id h. lookup_nil id;
          down = λ e. cc;
        })
    | inr failed ↦
        rw (good, failed)
          (record {
            counted = λ d. rw no_sockets (omega arith);
            unique = tt;
            unused = λ id h. lookup_nil id;
            down = λ e. (refl, refl);
          })
  ]
]

pub stop_node-IsAccounted : (h : Hosted) → IsAccounted h → IsAccounted (stop_node h)
unfolding stop_node stop
stop_node-IsAccounted h k = elim (Bool-cases h.server.running) [
  | inr off ↦ rw off (record {
    counted = λ d.
        k.counted d ∙ ap (λ l. count d l + count d (held h.server)) (sym (append-nil h.closed));
    unique = k.unique;
    unused = k.unused;
    down = λ e. k.down off;
  })
  | inl on ↦ elim (Bool-cases (ltb_ℤ h.server.server_sock (pos 0))) [
    | inl shut ↦
        rw (on, shut)
          (record {
            counted = λ d.
                let held_now : count d h.opened ≡ count d h.closed + count d (held h.server) =
                  k.counted d in
                rw shut (
                  rw shut at held_now
                  ∙ omega (arith, count-append d h.closed (sockets_of h.server.clients)));
            unique = tt;
            unused = λ id below. lookup_nil id;
            down = λ e. (shut, refl);
          })
    | inr listens ↦
        rw (on, listens)
          (record {
            counted = λ d.
                let held_now : count d h.opened ≡ count d h.closed + count d (held h.server) =
                  k.counted d in
                rw listens at held_now
                ∙ omega (
                  arith,
                  count-append d h.closed (h.server.server_sock ∷ sockets_of h.server.clients),
                );
            unique = tt;
            unused = λ id below. lookup_nil id;
            down = λ e. (refl, refl);
          })
  ]
]

end_handler_absent :
    (id : ℕ) (h : Hosted)
    → lookup id h.server.clients ≡ none
    → end_handler id h ≡ record h { closed = h.closed ++ [] }
unfolding end_handler close_client
end_handler_absent id h absent = rw (close_client, absent) refl

end_handler_found :
    (id : ℕ) (h : Hosted) (context : SocketContext)
    → lookup id h.server.clients ≡ some context
    → end_handler id h ≡ record h {
      server = record h.server { clients = erase id h.server.clients };
      closed = h.closed ++ descriptor_of context;
    }
unfolding end_handler close_client
end_handler_found id h context found = rw (close_client, found) refl

pub end_handler-IsAccounted : (id : ℕ) (h : Hosted) → IsAccounted h → IsAccounted (end_handler id h)
end_handler-IsAccounted id h k = elim (Option-cases (lookup id h.server.clients)) [
  | inl absent ↦
      subst IsAccounted
        (ap (λ l. record h { closed = l }) (sym (append-nil h.closed))
          ∙ sym (end_handler_absent id h absent))
        k
  | inr (context, found) ↦ subst IsAccounted (sym (end_handler_found id h context found)) (record {
    counted = λ d.
        let socket = open_one h.server.server_sock in
        let left = sockets_of (erase id h.server.clients) in
        omega (
          arith,
          k.counted d,
          count-erase d id context h.server.clients k.unique found,
          count-append d h.closed (descriptor_of context),
          count-append d socket (sockets_of h.server.clients),
          count-append d socket left,
        );
    unique = erase-AreUnique id h.server.clients k.unique;
    unused = λ other above.
        lookup-erase id other h.server.clients ∙ erased id other (k.unused other above);
    down = λ e.
        let empty = (k.down e).1 in cc (sym (lookup_nil id) ∙ ap (lookup id) (sym empty) ∙ found);
  })
]
  where
    erased :
        {found : Option SocketContext} (id other : ℕ)
        → found ≡ none
        → (if id == other then none else found) ≡ none
    erased id other e = elim (Bool-cases (id == other)) [
      | inl same ↦ rw same refl
      | inr apart ↦ rw apart e
    ]
