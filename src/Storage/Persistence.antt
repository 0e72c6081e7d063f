-- ===== src/Storage/Persistence.antt =====
-- A chunk that is stored stays stored.
use distributed_file_storage.Base.{
  ℕ, ◌≡◌, refl, ap, ◌∙◌, Bool, Bool-cases, inl, inr, true, false, Option, none, some, List, [], ◌∷◌,
  Bytes, if◌then◌else◌,
}
use distributed_file_storage.Base.Assoc.{lookup, lookup-insert}
use distributed_file_storage.Base.Equality.{◌==◌, Bytes_eq}
use distributed_file_storage.Streams.{read_word}
use distributed_file_storage.Storage.{
  StorageNode, Awaits, command, chunk, closed, Answer, dispatch, dispatch_word, handle_command,
  handle_chunk, handle_message, handle_client,
}
use distributed_file_storage.Storage.Conversation.{Holds, with_chunk, dispatch-storage}

-- What is stored stands in the chunks alone.
Holds-storage : (g : Bytes) (n m : StorageNode) → m.storage ≡ n.storage → Holds g n → Holds g m
Holds-storage g n m same (b, bytes, found) = (b, bytes, ap (λ s. lookup g s) same ∙ found)

Holds-with_chunk :
    (g hash bytes : Bytes) (b : ℕ) (n : StorageNode)
    → Holds g n
    → Holds g (with_chunk hash (b ∷ bytes) n)
Holds-with_chunk g hash bytes b n (c, old, found) = elim (Bool-cases (hash == g)) [
  | inl same ↦ (b, bytes, lookup-insert hash g (b ∷ bytes) n.storage ∙ rw same refl)
  | inr other ↦ (c, old, lookup-insert hash g (b ∷ bytes) n.storage ∙ rw other found)
]

dispatch_word-Holds :
    (g : Bytes) (n : StorageNode) (word : Option (Bytes × Bytes))
    → Holds g n
    → Holds g (dispatch_word n word).node
dispatch_word-Holds g n none h =
    Holds-storage g n (dispatch [] [] n).node (dispatch-storage [] [] n) h
dispatch_word-Holds g n (some (op, s)) h =
    Holds-storage g n (dispatch op s n).node (dispatch-storage op s n) h

while_running-Holds :
    (g : Bytes) (running : Bool) (x y : Answer)
    → Holds g x.node
    → Holds g y.node
    → Holds g (if running then x else y).node
while_running-Holds g true x y hx hy = hx
while_running-Holds g false x y hx hy = hy

handle_command-Holds :
    (g message : Bytes) (n : StorageNode) → Holds g n → Holds g (handle_command message n).node
unfolding handle_command
handle_command-Holds g [] n h = h
handle_command-Holds g (c ∷ message) n h =
    while_running-Holds g n.running (dispatch_word n (read_word (c ∷ message)))
      (record { sent = []; node = n; awaits = closed })
      (dispatch_word-Holds g n (read_word (c ∷ message)) h) h

handle_chunk-Holds :
    (g hash bytes : Bytes) (n : StorageNode) → Holds g n → Holds g (handle_chunk hash bytes n).node
unfolding handle_chunk
handle_chunk-Holds g hash [] n h = h
handle_chunk-Holds g hash (b ∷ bytes) n h = Holds-with_chunk g hash bytes b n h

handle_message-Holds :
    (g message : Bytes) (a : Awaits) (n : StorageNode)
    → Holds g n
    → Holds g (handle_message a message n).node
unfolding handle_message
handle_message-Holds g message command n h = handle_command-Holds g message n h
handle_message-Holds g message (chunk hash) n h = handle_chunk-Holds g hash message n h
handle_message-Holds g message closed n h = h

-- Whatever messages come in, a hash under which the node holds a chunk with a byte in it is one
-- under which it holds such a chunk afterwards.
pub handle_client-Holds :
    (g : Bytes) (a : Awaits) (messages : List Bytes) (n : StorageNode)
    → Holds g n
    → Holds g (handle_client a messages n).node
unfolding handle_client
handle_client-Holds g a [] n h = h
handle_client-Holds g a (message ∷ messages) n h =
    handle_client-Holds g (handle_message a message n).awaits messages
      (handle_message a message n).node (handle_message-Holds g message a n h)
