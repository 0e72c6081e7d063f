-- ===== src/Client/Chunks.antt =====
-- `uploadChunkToNode` and `downloadChunkFromNode`, behind the reading of the address, over a
-- connection on which every message arrives.
use distributed_file_storage.Base.{
  ℕ, ◌≡◌, refl, ap, ◌∙◌, Bool, true, false, ◌&&◌, Bool-cases, inl, inr, Option, none, some, List,
  [], ◌∷◌, Bytes, codes, if◌then◌else◌,
}
use distributed_file_storage.Base.Assoc.{lookup, lookup-insert_self}
use distributed_file_storage.Base.Equality.{◌==◌, bytes_eq, Bytes_eq}
use distributed_file_storage.Streams.Words.{IsWord}
use distributed_file_storage.Storage.{
  StorageNode, command, Answer, handle_message, handle_chunk, handle_command, get_command,
  serve_chunk,
}
use distributed_file_storage.Storage.Conversation.{
  store_message, get_message, with_chunk, handle_command_store, handle_command_get,
}

-- The messages that `recvMessage` and a second receive return; nothing where there is none.
abbrev pub first_message : List Bytes → Bytes
first_message [] = []
first_message (m ∷ messages) = m

abbrev second_message : List Bytes → Bytes
second_message [] = []
second_message (m ∷ messages) = first_message messages

-- The second half of an upload, given the answer to the STORE.
abbrev upload_behind : Bytes → Answer → Bool × StorageNode
upload_behind bytes a =
    if first_message a.sent == codes "READY"
    then (
      first_message (handle_message a.awaits bytes a.node).sent == codes "ACK",
      (handle_message a.awaits bytes a.node).node,
    )
    else (false, a.node)

-- The result of the upload, and the storage node after it. `connects` says whether the connection
-- can be made.
unfoldable pub upload_chunk_to_node : Bool → Bytes → Bytes → StorageNode → Bool × StorageNode
upload_chunk_to_node connects hash bytes n =
    if connects
    then upload_behind bytes (handle_message command (store_message hash) n)
    else (false, n)

abbrev found_chunk : Answer → Bytes
found_chunk a = if first_message a.sent == codes "FOUND" then second_message a.sent else []

unfoldable pub download_chunk_from_node : Bool → Bytes → StorageNode → Bytes
download_chunk_from_node connects hash n =
    if connects then found_chunk (handle_message command (get_message hash) n) else []

upload_chunk_stored :
    (hash : Bytes) (b : ℕ) (bytes : Bytes) (n : StorageNode)
    → IsWord hash
    → n.running ≡ true
    → upload_chunk_to_node true hash (b ∷ bytes) n ≡ (true, with_chunk hash (b ∷ bytes) n)
unfolding upload_chunk_to_node handle_message handle_chunk bytes_eq
upload_chunk_stored hash b bytes n h up =
    ap (upload_behind (b ∷ bytes)) (handle_command_store hash n h up)

upload_chunk_refused :
    (hash : Bytes) (n : StorageNode)
    → IsWord hash
    → n.running ≡ true
    → upload_chunk_to_node true hash [] n ≡ (false, n)
unfolding upload_chunk_to_node handle_message handle_chunk bytes_eq
upload_chunk_refused hash n h up = ap (upload_behind []) (handle_command_store hash n h up)

upload_chunk_down :
    (hash bytes : Bytes) (n : StorageNode)
    → n.running ≡ false
    → upload_chunk_to_node true hash bytes n ≡ (false, n)
unfolding upload_chunk_to_node handle_message handle_command bytes_eq
upload_chunk_down hash bytes n down = rw down refl

abbrev pub not_empty {ℓ} : {A : Type ℓ} → List A → Bool
not_empty [] = false
not_empty (x ∷ xs) = true

-- Under a hash that is a word, an upload over a connection stores the chunk and succeeds if the node
-- runs and the chunk has a byte in it; otherwise it fails and leaves the node as it is.
pub upload_chunk_to_node_lem :
    (hash bytes : Bytes) (n : StorageNode)
    → IsWord hash
    → upload_chunk_to_node true hash bytes n
      ≡ (if n.running && not_empty bytes then (true, with_chunk hash bytes n) else (false, n))
upload_chunk_to_node_lem hash [] n h = elim (Bool-cases n.running) [
  | inl up ↦ upload_chunk_refused hash n h up ∙ rw up refl
  | inr down ↦ upload_chunk_down hash [] n down ∙ rw down refl
]
upload_chunk_to_node_lem hash (b ∷ bytes) n h = elim (Bool-cases n.running) [
  | inl up ↦ upload_chunk_stored hash b bytes n h up ∙ rw up refl
  | inr down ↦ upload_chunk_down hash (b ∷ bytes) n down ∙ rw down refl
]

-- What a node has under a hash; the empty text where it has nothing.
abbrev pub stored_bytes : Option Bytes → Bytes
stored_bytes none = []
stored_bytes (some bytes) = bytes

serve_chunk-found :
    (n : StorageNode) (found : Option Bytes)
    → found_chunk (record { sent = serve_chunk found; node = n; awaits = command })
      ≡ stored_bytes found
unfolding bytes_eq
serve_chunk-found n none = refl
serve_chunk-found n (some []) = refl
serve_chunk-found n (some (b ∷ bytes)) = refl

get_command-stored :
    (hash : Bytes) (n : StorageNode)
    → found_chunk (get_command n (some (hash, []))) ≡ stored_bytes (lookup hash n.storage)
unfolding get_command
get_command-stored hash n = serve_chunk-found n (lookup hash n.storage)

download_chunk_up :
    (hash : Bytes) (n : StorageNode)
    → IsWord hash
    → n.running ≡ true
    → download_chunk_from_node true hash n ≡ stored_bytes (lookup hash n.storage)
unfolding download_chunk_from_node handle_message
download_chunk_up hash n h up =
    ap found_chunk (handle_command_get hash n h up) ∙ get_command-stored hash n

pub download_chunk_down :
    (hash : Bytes) (n : StorageNode) → n.running ≡ false → download_chunk_from_node true hash n ≡ []
unfolding download_chunk_from_node handle_message handle_command bytes_eq
download_chunk_down hash n down = rw down refl

-- Under a hash that is a word, a download over a connection gives what a running node has stored,
-- and nothing from a node that does not run.
pub download_chunk_from_node_lem :
    (hash : Bytes) (n : StorageNode)
    → IsWord hash
    → download_chunk_from_node true hash n
      ≡ (if n.running then stored_bytes (lookup hash n.storage) else [])
download_chunk_from_node_lem hash n h = elim (Bool-cases n.running) [
  | inl up ↦ download_chunk_up hash n h up ∙ rw up refl
  | inr down ↦ download_chunk_down hash n down ∙ rw down refl
]

-- On a storage node that runs and can be connected to, uploading a chunk with a byte in it, under a
-- hash that is a word, succeeds, and downloading the hash then gives the chunk as it was.
pub upload_then_download :
    (hash : Bytes) (b : ℕ) (bytes : Bytes) (n : StorageNode)
    → IsWord hash
    → n.running ≡ true
    → ((upload_chunk_to_node true hash (b ∷ bytes) n).0 ≡ true)
      × (download_chunk_from_node true hash (upload_chunk_to_node true hash (b ∷ bytes) n).1
          ≡ b ∷ bytes)
upload_then_download hash b bytes n h up = rw (upload_chunk_stored hash b bytes n h up) (
  refl,
  download_chunk_up hash (with_chunk hash (b ∷ bytes) n) h up
      ∙ ap stored_bytes (lookup-insert_self hash (b ∷ bytes) n.storage),
)
