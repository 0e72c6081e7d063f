-- ===== src/Config/Lines.antt =====
-- Reading a configuration file that lists nodes.
use distributed_file_storage.Base.{
  ℕ, suc, ◌≡◌, refl, sym, ap, ◌∙◌, true, false, some, List, [], ◌∷◌, ◌++◌, Bytes, All, arith,
  append-nil, map, subst,
}
use distributed_file_storage.Base.Tests.{◌==◌}
use distributed_file_storage.Base.Int.{ℤ, pos, negsuc}
use distributed_file_storage.Streams.{is_digit, read_int, to_string, digits_of}
use distributed_file_storage.Streams.Words.{IsWord, read_word-append, read_word-space}
use distributed_file_storage.Streams.Numbers.{
  Fits, read_int-space, read_int-to_string, digits_of-All, digits_of-cons,
}
use distributed_file_storage.Config.{
  NodeInfo, is_blank, skip_blanks, before_text, drop_blanks, read_node, node_of_line, load_config,
}

-- A line as the configuration files have it: id, host and port.
unfoldable pub line_of_node : NodeInfo → Bytes
line_of_node n = to_string n.id ++ b' ' ∷ (n.host ++ b' ' ∷ to_string n.port)

pub record IsListed (n : NodeInfo) : Type 0 where
  pub id_fits : Fits 32 n.id
  pub host_word : IsWord n.host
  pub port_fits : Fits 32 n.port

-- A letter of a printed number is no blank and no '#'.
abbrev IsPlain : ℕ → Type 0
IsPlain c = (is_blank c ≡ false) × ((c == b'#') ≡ false)

IsPlain-digits : (s : Bytes) → All (λ c. is_digit c ≡ true) s → All IsPlain s
IsPlain-digits [] h = tt
IsPlain-digits (c ∷ s) (hc, h) = ((ground arith, ground arith), IsPlain-digits s h)

to_string-cons : (z : ℤ) → (c : ℕ) × (s : Bytes) × (to_string z ≡ c ∷ s) × All IsPlain (c ∷ s)
unfolding to_string
to_string-cons (pos n) =
    let (c, s, e) = digits_of-cons n n in
    (
      c,
      s,
      e,
      subst (All IsPlain) e (IsPlain-digits (digits_of (suc n) n) (digits_of-All (suc n) n)),
    )
to_string-cons (negsuc n) = (
  b'-',
  digits_of (suc (suc n)) (suc n),
  refl,
  (
    (refl, refl),
    IsPlain-digits (digits_of (suc (suc n)) (suc n)) (digits_of-All (suc (suc n)) (suc n)),
  ),
)

drop_blanks-All : (c : ℕ) (s : Bytes) → All IsPlain (c ∷ s) → drop_blanks (c ∷ s) ≡ c ∷ s
unfolding drop_blanks
drop_blanks-All c [] ((hc, _), h) = rw hc refl
drop_blanks-All c (d ∷ s) (hc, h) = ap (before_text c) (drop_blanks-All d s h)

-- A text that is not empty and does not end in a blank.
record IsTrimmed (t : Bytes) : Type 0 where
  some_letter : (c : ℕ) × (s : Bytes) × (t ≡ c ∷ s)
  kept : drop_blanks t ≡ t

IsTrimmed-cons : (x : ℕ) (t : Bytes) → IsTrimmed t → IsTrimmed (x ∷ t)
unfolding drop_blanks
IsTrimmed-cons x t h =
    let (c, s, e) = h.some_letter in
    record { some_letter = (x, t, refl); kept = ap (before_text x) h.kept ∙ rw e refl }

IsTrimmed-append : (xs t : Bytes) → IsTrimmed t → IsTrimmed (xs ++ t)
IsTrimmed-append [] t h = h
IsTrimmed-append (x ∷ xs) t h = IsTrimmed-cons x (xs ++ t) (IsTrimmed-append xs t h)

to_string-IsTrimmed : (z : ℤ) → IsTrimmed (to_string z)
to_string-IsTrimmed z =
    let (c, s, e, plain) = to_string-cons z in
    record { some_letter = (c, s, e); kept = rw e (drop_blanks-All c s plain) }

line_of_node-IsTrimmed : (n : NodeInfo) → IsTrimmed (line_of_node n)
unfolding line_of_node
line_of_node-IsTrimmed n =
    IsTrimmed-append (to_string n.id) (b' ' ∷ (n.host ++ b' ' ∷ to_string n.port)) (
      IsTrimmed-cons b' ' (n.host ++ b' ' ∷ to_string n.port) (
        IsTrimmed-append n.host (b' ' ∷ to_string n.port)
          (IsTrimmed-cons b' ' (to_string n.port) (to_string-IsTrimmed n.port))))

read_node-line_of_node : (n : NodeInfo) → IsListed n → read_node (line_of_node n) ≡ some n
unfolding read_node line_of_node
read_node-line_of_node n h =
    let from_port = to_string n.port in
    let end : read_int 32 (to_string n.port) ≡ some (n.port, []) =
      ap (read_int 32) (sym (append-nil (to_string n.port)))
      ∙ read_int-to_string 32 n.port [] h.port_fits tt in
    rw
      (
        read_int-to_string 32 n.id (b' ' ∷ (n.host ++ b' ' ∷ to_string n.port)) h.id_fits refl,
        read_word-space (n.host ++ b' ' ∷ to_string n.port),
        read_word-append n.host (to_string n.port) h.host_word,
        read_int-space 32 (to_string n.port),
        end,
      )
      refl

node_of_line-plain :
    (c : ℕ) (s : Bytes) → IsPlain c → node_of_line (c ∷ s) ≡ read_node (drop_blanks (c ∷ s))
unfolding node_of_line skip_blanks
node_of_line-plain c s (blank, hash) = rw blank (rw hash refl)

node_of_line-line_of_node : (n : NodeInfo) → IsListed n → node_of_line (line_of_node n) ≡ some n
unfolding line_of_node
node_of_line-line_of_node n h =
    let (c, s, e, plain) = to_string-cons n.id in
    let rest = s ++ b' ' ∷ (n.host ++ b' ' ∷ to_string n.port) in
    let line : line_of_node n ≡ c ∷ rest =
      ap (λ t. t ++ b' ' ∷ (n.host ++ b' ' ∷ to_string n.port)) e in
    ap node_of_line line
    ∙ node_of_line-plain c rest plain.0
    ∙ ap (λ t. read_node (drop_blanks t)) (sym line)
    ∙ ap read_node (line_of_node-IsTrimmed n).kept
    ∙ read_node-line_of_node n h

-- A configuration file with a line for each of the nodes, whose ids and ports fit an int and whose
-- hosts are words, is read as just these nodes.
pub load_config_lines :
    (nodes : List NodeInfo) → All IsListed nodes → load_config (map line_of_node nodes) ≡ nodes
unfolding load_config
load_config_lines [] h = refl
load_config_lines (n ∷ nodes) (hn, h) =
    rw (node_of_line-line_of_node n hn) (ap (λ l. n ∷ l) (load_config_lines nodes h))
