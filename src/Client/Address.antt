-- ===== src/Client/Address.antt =====
-- How the client reads the address of a node: `find(':')`, `substr` and `std::stoi`.
use distributed_file_storage.Base.{
  ℕ, ◌≡◌, refl, sym, ap, ◌∙◌, Bool, true, false, Option, none, some, [], ◌∷◌, ◌++◌, append-nil,
  Bytes, All, if◌then◌else◌,
}
use distributed_file_storage.Base.Tests.{◌==◌}
use distributed_file_storage.Base.Int.{ℤ}
use distributed_file_storage.Metadata.{Link}
use distributed_file_storage.Streams.{span, read_int, to_string}
use distributed_file_storage.Streams.Words.{span-append}
use distributed_file_storage.Streams.Numbers.{Fits, read_int-to_string}

-- `std::stoi` throws where there is no number or it does not fit an `int`; text behind the number is
-- ignored.
pub data Address : Type 0 where
  no_colon : Address
  throws : Address
  endpoint : Link → Address

abbrev pub not_colon : ℕ → Bool
not_colon c = if c == b':' then false else true

abbrev pub endpoint_of : Bytes → Option (ℤ × Bytes) → Address
endpoint_of ip none = throws
endpoint_of ip (some (port, _)) = endpoint (record { ip = ip; port = port })

-- The text in front of the first colon, and the rest with the colon.
abbrev pub at_colon : Bytes × Bytes → Address
at_colon (ip, []) = no_colon
at_colon (ip, _ ∷ digits) = endpoint_of ip (read_int 32 digits)

unfoldable pub parse_address : Bytes → Address
unfolding span
parse_address address = at_colon (span not_colon address)

-- The address of a host without a colon and a port that fits an int is read as that host and port.
pub parse_address-to_string :
    (host : Bytes) (port : ℤ)
    → All (λ c. (c == b':') ≡ false) host
    → Fits 32 port
    → parse_address (host ++ b':' ∷ to_string port) ≡ endpoint (record { ip = host; port = port })
parse_address-to_string host port h fits =
    unfold parse_address in
    ap at_colon (span-append not_colon host b':' (to_string port) (not_colon-All host h) refl)
    ∙ ap (endpoint_of host) (
        ap (read_int 32) (sym (append-nil (to_string port)))
        ∙ read_int-to_string 32 port [] fits tt)
  where
    not_colon-All : (s : Bytes) → All (λ c. (c == b':') ≡ false) s → All (λ c. not_colon c ≡ true) s
    not_colon-All [] e = tt
    not_colon-All (c ∷ s) (ec, e) = (rw ec refl, not_colon-All s e)
