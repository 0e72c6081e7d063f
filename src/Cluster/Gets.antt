-- ===== src/Cluster/Gets.antt =====
-- A GET at the end of a chain that a PUT has gone through.
use distributed_file_storage.Base.{
  ◌≡◌, refl, ap, ◌∙◌, true, none, some, List, [], ◌∷◌, ◌++◌, Bytes, codes,
}
use distributed_file_storage.Base.Assoc.{lookup-insert_self}
use distributed_file_storage.Base.Equality.{Bytes_eq, bytes_eq, eq_refl}
use distributed_file_storage.Client.Download.{response_metadata}
use distributed_file_storage.Cluster.{MetadataNodes, exchange_of, at_work, get_from, get_at}
use distributed_file_storage.Cluster.Puts.{on_route, on_route-later, IsRoute, put_on}
use distributed_file_storage.Metadata.{
  FileMetadata, Link, MetadataNode, Exchange, is_last, put_metadata, handle_get, dispatch,
  dispatch_word, on_get, handle_command, reply,
}
use distributed_file_storage.Metadata.Codec.{IsStorable, metadata_of_response-found_message}
use distributed_file_storage.Metadata.Reads.{handle_get_found}
use distributed_file_storage.Streams.{read_word}
use distributed_file_storage.Streams.Words.{
  IsWord, read_word-append, read_word-space, read_word_last,
}

get-IsWord : IsWord (codes "GET")
get-IsWord = record { some_letter = λ e. cc; letters = (refl, (refl, (refl, tt))) }

handle_command_word :
    (e : Exchange) (command : Bytes) (n : MetadataNode)
    → handle_command e command n ≡ dispatch_word e command n (read_word command)
unfolding handle_command
handle_command_word e command n = refl

dispatch_get :
    (e : Exchange) (command s : Bytes) (n : MetadataNode)
    → dispatch e command (codes "GET") s n ≡ on_get n (read_word s)
unfolding dispatch bytes_eq
dispatch_get e command s n = refl

handle_command_get :
    (e : Exchange) (filename : Bytes) (n : MetadataNode)
    → IsWord filename
    → handle_command e (codes "GET " ++ filename) n ≡ reply (handle_get filename n) n
handle_command_get e filename n h =
    let command = codes "GET " ++ filename in
    handle_command_word e command n
    ∙ ap (dispatch_word e command n) (read_word-append (codes "GET") filename get-IsWord)
    ∙ dispatch_get e command (b' ' ∷ filename) n
    ∙ ap (on_get n) (read_word-space filename ∙ read_word_last filename h)

get_from_found :
    (filename : Bytes) (n : MetadataNode)
    → IsWord filename
    → get_from filename (some n) ≡ some (handle_get filename n)
get_from_found filename n h = rw (handle_command_get (exchange_of none) filename n h)

-- The last link of a route.
abbrev pub last_link : Link → List Link → Link
last_link link [] = link
last_link link (next ∷ links) = last_link next links

-- The node there is the end of the chain.
last_link-is_last :
    (link : Link) (links : List Link) (nodes : MetadataNodes)
    → IsRoute nodes (link ∷ links)
    → (n : MetadataNode) × (nodes (last_link link links) ≡ some n)
      × (n.running ≡ true)
      × (is_last n.role ≡ true)
last_link-is_last link [] nodes route = route
last_link-is_last link (next ∷ links) nodes (_, _, _, _, _, _, _, route) =
    last_link-is_last next links nodes route

on_route-last_link :
    (link : Link) (links : List Link) → on_route (last_link link links) (link ∷ links) ≡ true
on_route-last_link link [] = rw (eq_refl link)
on_route-last_link link (next ∷ links) =
    on_route-later link (last_link next links) (next ∷ links) (on_route-last_link next links)

-- Once a PUT has stored the metadata on a route, a GET of the file name at the last link gives an
-- answer that the client reads as that metadata.
pub get_at-put_on :
    (meta : FileMetadata) (link : Link) (links : List Link) (nodes : MetadataNodes)
    → IsStorable meta
    → IsRoute nodes (link ∷ links)
    → response_metadata meta.filename
        (get_at meta.filename (last_link link links) (put_on meta (link ∷ links) nodes))
      ≡ some meta
unfolding get_at
get_at-put_on meta link links nodes h route =
    let (n, found, up, last) = last_link-is_last link links nodes route in
    let there : put_on meta (link ∷ links) nodes (last_link link links)
        ≡ some (put_metadata meta n) =
      rw (on_route-last_link link links, found) refl in
    let running : at_work (some (put_metadata meta n)) ≡ some (put_metadata meta n) = rw up refl in
    let served =
      get_from_found meta.filename (put_metadata meta n) h.name_word
      ∙ ap some (
          handle_get_found meta.filename meta (put_metadata meta n) last
            (lookup-insert_self meta.filename meta n.metadata_store)) in
    ap (response_metadata meta.filename) (
      ap (λ o. get_from meta.filename (at_work o)) there
      ∙ ap (get_from meta.filename) running
      ∙ served)
    ∙ metadata_of_response-found_message meta.filename meta h
