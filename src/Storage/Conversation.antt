-- ===== src/Storage/Conversation.antt =====
-- Storing a chunk and fetching it again.
use distributed_file_storage.Base.{
  ℕ, ◌≡◌, refl, ◌∙◌, true, some, List, [], ◌∷◌, ◌++◌, Bytes, codes, arith,
}
use distributed_file_storage.Base.Assoc.{lookup, insert, lookup-insert_self}
use distributed_file_storage.Base.Equality.{Bytes_eq, bytes_eq}
use distributed_file_storage.Streams.Words.{
  IsWord, read_word-append, read_word-space, read_word_last,
}
use distributed_file_storage.Storage.{
  StorageNode, Awaits, command, chunk, Answer, get_command, dispatch, handle_command, handle_chunk,
  handle_message, handle_client,
}

store-IsWord : IsWord (codes "STORE")
store-IsWord = record {
  some_letter = λ e. cc;
  letters = (refl, (refl, (refl, (refl, (refl, tt)))));
}

get-IsWord : IsWord (codes "GET")
get-IsWord = record { some_letter = λ e. cc; letters = (refl, (refl, (refl, tt))) }

-- The commands that the client sends.
abbrev pub store_message : Bytes → Bytes
store_message hash = codes "STORE " ++ hash

abbrev pub get_message : Bytes → Bytes
get_message hash = codes "GET " ++ hash

pub handle_command_store :
    (hash : Bytes) (n : StorageNode)
    → IsWord hash
    → n.running ≡ true
    → handle_command (store_message hash) n
      ≡ record { sent = codes "READY" ∷ []; node = n; awaits = chunk hash }
unfolding handle_command dispatch bytes_eq
handle_command_store hash n h up =
    rw (up, read_word-append (codes "STORE") hash store-IsWord)
      (rw (read_word-space hash ∙ read_word_last hash h) refl)

pub handle_command_get :
    (hash : Bytes) (n : StorageNode)
    → IsWord hash
    → n.running ≡ true
    → handle_command (get_message hash) n ≡ get_command n (some (hash, []))
unfolding handle_command dispatch bytes_eq
handle_command_get hash n h up =
    rw (up, read_word-append (codes "GET") hash get-IsWord)
      (rw (read_word-space hash ∙ read_word_last hash h) refl)

pub get_command_found :
    (hash : Bytes) (b : ℕ) (bytes : Bytes) (n : StorageNode)
    → lookup hash n.storage ≡ some (b ∷ bytes)
    → get_command n (some (hash, []))
      ≡ record { sent = codes "FOUND" ∷ (b ∷ bytes) ∷ []; node = n; awaits = command }
unfolding get_command
get_command_found hash b bytes n stored = rw stored refl

-- The node with a chunk stored.
abbrev pub with_chunk : Bytes → Bytes → StorageNode → StorageNode
with_chunk hash bytes n = record n { storage = insert hash bytes n.storage }

handle_client-cons :
    (a : Awaits) (message : Bytes) (messages : List Bytes) (n : StorageNode) (first : Answer)
    → handle_message a message n ≡ first
    → handle_client a (message ∷ messages) n ≡ record {
      sent = first.sent ++ (handle_client first.awaits messages first.node).sent;
      node = (handle_client first.awaits messages first.node).node;
      awaits = (handle_client first.awaits messages first.node).awaits;
    }
unfolding handle_client
handle_client-cons a message messages n first e = rw e refl

handle_client-nil :
    (a : Awaits) (n : StorageNode)
    → handle_client a [] n ≡ record { sent = []; node = n; awaits = a }
unfolding handle_client
handle_client-nil a n = refl

-- On a node that runs, a client that stores a chunk with a byte in it, under a hash that is a word,
-- and then asks for it is told READY, ACK and FOUND, and is sent the chunk as it was.
pub store_then_get :
    (hash : Bytes) (b : ℕ) (bytes : Bytes) (n : StorageNode)
    → IsWord hash
    → n.running ≡ true
    → handle_client command (store_message hash ∷ (b ∷ bytes) ∷ get_message hash ∷ []) n ≡ record {
      sent = codes "READY" ∷ codes "ACK" ∷ codes "FOUND" ∷ (b ∷ bytes) ∷ [];
      node = with_chunk hash (b ∷ bytes) n;
      awaits = command;
    }
unfolding handle_message handle_chunk
store_then_get hash b bytes n h up =
    let after = with_chunk hash (b ∷ bytes) n in
    rw
      (
        handle_client-cons command (store_message hash) ((b ∷ bytes) ∷ get_message hash ∷ []) n _
            (handle_command_store hash n h up),
        handle_client-cons (chunk hash) (b ∷ bytes) (get_message hash ∷ []) n _ refl,
        handle_client-cons command (get_message hash) [] after _ (
            handle_command_get hash after h up
            ∙ get_command_found hash b bytes after (lookup-insert_self hash (b ∷ bytes) n.storage)),
        handle_client-nil command after,
      )
      refl

-- The node has a chunk with a byte in it under the hash.
abbrev pub Holds : Bytes → StorageNode → Type 0
Holds hash n = (b : ℕ) × (bytes : Bytes) × (lookup hash n.storage ≡ some (b ∷ bytes))

pub dispatch-storage : (op s : Bytes) (n : StorageNode) → (dispatch op s n).node.storage ≡ n.storage
unfolding dispatch
dispatch-storage op s n = ground arith
