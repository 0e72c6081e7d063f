-- ===== src/Storage/Connections/Latest.antt =====
-- A GET is answered with the chunk that was stored last.
use distributed_file_storage.Base.{
  ◌≡◌, refl, ap, ◌∙◌, subst, false, some, List, [], ◌∷◌, ◌++◌, Bytes, codes, All,
}
use distributed_file_storage.Base.Equality.{◌==◌, Bytes_eq, eq_refl}
use distributed_file_storage.Storage.{serve_chunk}
use distributed_file_storage.Storage.Connections.{
  Connections, Event, Operation, stored, fetched, told, history,
}
use distributed_file_storage.Storage.Connections.Linear.{
  Content, content, written, perform, perform_all, AreAnswered, serve_all-AreAnswered,
}

-- The operation does not write under the hash.
abbrev pub Spares : Bytes → Operation → Type 0
Spares hash (stored other bytes sent) = (other == hash) ≡ false
Spares hash (fetched other sent) = Unit
Spares hash (told sent) = Unit

perform-Spares :
    (hash : Bytes) (operation : Operation) (held : Content)
    → Spares hash operation
    → perform operation held hash ≡ held hash
perform-Spares hash (stored other bytes sent) held h = rw h refl
perform-Spares hash (fetched other sent) held h = refl
perform-Spares hash (told sent) held h = refl

AreAnswered_behind :
    (ops more : List Operation) (held : Content)
    → AreAnswered (ops ++ more) held
    → AreAnswered more (perform_all ops held)
AreAnswered_behind [] more held h = h
AreAnswered_behind (operation ∷ ops) more held (first, h) =
    AreAnswered_behind ops more (perform operation held) h

perform_all-Spares :
    (hash : Bytes) (ops : List Operation) (held : Content)
    → All (Spares hash) ops
    → perform_all ops held hash ≡ held hash
perform_all-Spares hash [] held h = refl
perform_all-Spares hash (operation ∷ ops) held (first, h) =
    perform_all-Spares hash ops (perform operation held) h
    ∙ perform-Spares hash operation held first

written_self : (hash bytes : Bytes) (held : Content) → written hash bytes held hash ≡ some bytes
written_self hash bytes held = rw (eq_refl hash)

-- However the turns follow one another, and on whichever connections: a client that asks for a hash is
-- to be sent the chunk that was written last under it before the lock of its GET, and to the client of
-- that chunk ACK is to be sent.
pub fetched_last_stored :
    (events : List Event) (s : Connections) (before between later : List Operation)
    (hash bytes : Bytes) (reply sent : List Bytes)
    → history events s
      ≡ before ++ (stored hash bytes reply ∷ (between ++ (fetched hash sent ∷ later)))
    → All (Spares hash) between
    → (reply ≡ codes "ACK" ∷ []) × (sent ≡ serve_chunk (some bytes))
fetched_last_stored events s before between later hash bytes reply sent happened spares =
    let answered =
      subst (λ ops. AreAnswered ops (content s.node)) happened (serve_all-AreAnswered events s).0 in
    let behind_store =
      AreAnswered_behind before (stored hash bytes reply ∷ (between ++ (fetched hash sent ∷ later)))
        (content s.node) answered in
    let held = written hash bytes (perform_all before (content s.node)) in
    let (fetch, _) = AreAnswered_behind between (fetched hash sent ∷ later) held behind_store.1 in
    let kept : held hash ≡ some bytes =
      written_self hash bytes (perform_all before (content s.node)) in
    (behind_store.0, fetch ∙ ap serve_chunk (perform_all-Spares hash between held spares ∙ kept))
