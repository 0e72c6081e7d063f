-- ===== src/Metadata/Commands.antt =====
-- What is kept by each thing that a command can do to a node is kept by every command.
use distributed_file_storage.Base.{
  ◌≡◌, refl, Bool-cases, inl, inr, true, false, Option, some, none, [], Bytes, codes, if◌then◌else◌,
}
use distributed_file_storage.Base.Equality.{◌==◌, Bytes_eq, bytes_eq_iff}
use distributed_file_storage.Streams.{read_word}
use distributed_file_storage.Metadata.{
  FileMetadata, MetadataNode, Exchange, Link, Step, is_set, with_prev, with_next, put_metadata,
  read_link, on_link, on_get, reply, silent, status, dispatch, dispatch_word, store_and_forward,
  parse_put, handle_command,
}

abbrev pub prev_changed : MetadataNode → Link → MetadataNode
prev_changed n link = record n { prev_node = link; role = with_prev n.role }

abbrev pub next_changed : MetadataNode → Link → MetadataNode
next_changed n link = record n { next_node = link; role = with_next n.role }

-- An UPDATE_NEXT names a node.
abbrev pub NamesNext : Bytes → Bytes → Type 0
NamesNext op s =
    (link : Link) → op ≡ codes "UPDATE_NEXT" → read_link s ≡ some link → is_set link ≡ true

-- The command does not take the next node away: if it is an UPDATE_NEXT that can be read, it names
-- a node.
abbrev pub KeepsNext : Bytes → Type 0
KeepsNext command = (op s : Bytes) → read_word command ≡ some (op, s) → NamesNext op s

-- What a command can do to a node keeps the predicate.
pub record IsKept (P : MetadataNode → Type 0) : Type 0 where
  pub stored : (meta : FileMetadata) (n : MetadataNode) → P n → P (put_metadata meta n)
  pub prev_set : (link : Link) (n : MetadataNode) → P n → P (prev_changed n link)
  pub next_set :
      (link : Link) (n : MetadataNode) → is_set link ≡ true → P n → P (next_changed n link)
  pub skip_set : (link : Link) (n : MetadataNode) → P n → P (record n { skip_to = link })
  pub stopped : (n : MetadataNode) → P n → P (record n { running = false })

module _ (P : MetadataNode → Type 0) (keep : IsKept P) where
  store_and_forward_keeps :
      (e : Exchange) (n : MetadataNode) (parsed : Option FileMetadata)
      → P n
      → P (store_and_forward e n parsed).1
  store_and_forward_keeps e n none h = h
  store_and_forward_keeps e n (some meta) h = keep.stored meta n h

  on_link_keeps :
      (n : MetadataNode) (change : Link → MetadataNode) (link : Option Link)
      → ((l : Link) → link ≡ some l → P (change l))
      → P n
      → P (on_link n change link).node
  on_link_keeps n change none changed h = h
  on_link_keeps n change (some l) changed h = changed l refl

  on_get_keeps : (n : MetadataNode) (name : Option (Bytes × Bytes)) → P n → P (on_get n name).node
  on_get_keeps n none h = h
  on_get_keeps n (some (w, s)) h = h

  -- The branches of `dispatch` from "UPDATE_PREV" on.
  abbrev later_commands : Bytes → Bytes → MetadataNode → Step
  later_commands op s n =
      if op == codes "UPDATE_PREV"
      then on_link n (prev_changed n) (read_link s)
      else if op == codes "UPDATE_NEXT"
      then on_link n (next_changed n) (read_link s)
      else if op == codes "SET_SKIP"
      then on_link n (λ link. record n { skip_to = link }) (read_link s)
      else if op == codes "GET_STATUS"
      then reply (status n) n
      else if op == codes "DIE"
      then silent (record n { running = false })
      else reply (codes "ERROR") n

  last_commands_keep :
      (op : Bytes) (n : MetadataNode)
      → P n
      → P
          (if op == codes "GET_STATUS"
            then reply (status n) n
            else if op == codes "DIE"
            then silent (record n { running = false })
            else reply (codes "ERROR") n).node
  last_commands_keep op n h = elim (Bool-cases (op == codes "GET_STATUS")) [
    | inl e ↦ rw e h
    | inr e ↦
        rw e (elim (Bool-cases (op == codes "DIE")) [
          | inl e ↦ rw e (keep.stopped n h)
          | inr e ↦ rw e h
        ])
  ]

  later_commands_keep :
      (op s : Bytes) (n : MetadataNode) → NamesNext op s → P n → P (later_commands op s n).node
  later_commands_keep op s n named h = elim (Bool-cases (op == codes "UPDATE_PREV")) [
    | inl e ↦
        rw e (on_link_keeps n (prev_changed n) (read_link s) (λ l found. keep.prev_set l n h) h)
    | inr e ↦ rw e (elim (Bool-cases (op == codes "UPDATE_NEXT")) [
      | inl e ↦ rw e (
          on_link_keeps n (next_changed n) (read_link s)
            (λ l found.
              keep.next_set l n (named l ((bytes_eq_iff op (codes "UPDATE_NEXT")).0 e) found) h)
            h)
      | inr e ↦ rw e (elim (Bool-cases (op == codes "SET_SKIP")) [
        | inl e ↦ rw e (
            on_link_keeps n (λ link. record n { skip_to = link }) (read_link s)
              (λ l found. keep.skip_set l n h) h)
        | inr e ↦ rw e (last_commands_keep op n h)
      ])
    ])
  ]

  dispatch_keeps :
      (e : Exchange) (command op s : Bytes) (n : MetadataNode)
      → NamesNext op s
      → P n
      → P (dispatch e command op s n).node
  unfolding dispatch
  dispatch_keeps e command op s n named h = elim (Bool-cases (op == codes "PUT")) [
    | inl put ↦ rw put (store_and_forward_keeps e n (parse_put command) h)
    | inr other ↦ rw other (elim (Bool-cases (op == codes "GET")) [
      | inl get ↦ rw get (on_get_keeps n (read_word s) h)
      | inr other ↦ rw other (elim (Bool-cases (op == codes "PING")) [
        | inl ping ↦ rw ping h
        | inr other ↦ rw other (later_commands_keep op s n named h)
      ])
    ])
  ]

  dispatch_word_keeps :
      (e : Exchange) (command : Bytes) (n : MetadataNode) (word : Option (Bytes × Bytes))
      → ((op s : Bytes) → word ≡ some (op, s) → NamesNext op s)
      → P n
      → P (dispatch_word e command n word).node
  dispatch_word_keeps e command n none named h =
      dispatch_keeps e command [] [] n (λ link is found. cc) h
  dispatch_word_keeps e command n (some (op, s)) named h =
      dispatch_keeps e command op s n (named op s refl) h

  pub handle_command_keeps :
      (e : Exchange) (command : Bytes) (n : MetadataNode)
      → KeepsNext command
      → P n
      → P (handle_command e command n).node
  unfolding handle_command
  handle_command_keeps e command n kept h =
      dispatch_word_keeps e command n (read_word command) kept h
