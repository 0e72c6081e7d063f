-- ===== src/Streams.antt =====
-- What the messages of the program are written and read with: `>>` of a `std::istringstream` into a
-- string and into a signed integer, `std::to_string`, `std::getline` up to a comma, and the lists of
-- hashes. A stream is the text that is still to be read, and `none` its fail state.
pub mod Words
pub mod Numbers
pub mod Fields
use distributed_file_storage.Base.{
  ℕ, zero, suc, ◌+◌, ◌-◌, ◌*◌, ◌/◌, ◌%◌, ◌^◌, Bool, true, false, ◌&&◌, ◌||◌, Option, none, some,
  List, [], ◌∷◌, ◌++◌, Bytes, ltb, leb, if◌then◌else◌,
}
use distributed_file_storage.Base.Tests.{◌==◌}
use distributed_file_storage.Base.Int.{ℤ, pos, negsuc}

-- `std::isspace`
abbrev pub is_space : ℕ → Bool
is_space c = c == 32 || (leb 9 c && leb c 13)

abbrev pub is_digit : ℕ → Bool
is_digit c = leb b'0' c && leb c b'9'

unfoldable pub skip_spaces : Bytes → Bytes
skip_spaces [] = []
skip_spaces (c ∷ s) = let rest = skip_spaces s in if is_space c then rest else c ∷ s

-- The letters in front for which `wanted` holds, and the rest.
unfoldable pub span : (ℕ → Bool) → Bytes → Bytes × Bytes
span wanted [] = ([], [])
span wanted (c ∷ s) =
    let (taken, rest) = span wanted s in if wanted c then (c ∷ taken, rest) else ([], c ∷ s)

abbrev pub not_space : ℕ → Bool
not_space c = if is_space c then false else true

abbrev word_read : Bytes × Bytes → Option (Bytes × Bytes)
word_read ([], rest) = none
word_read (c ∷ word, rest) = some (c ∷ word, rest)

-- `iss >> word`
unfoldable pub read_word : Bytes → Option (Bytes × Bytes)
unfolding skip_spaces span
read_word s = word_read (span not_space (skip_spaces s))

unfoldable pub decimal_value : ℕ → Bytes → ℕ
decimal_value n [] = n
decimal_value n (c ∷ s) = decimal_value (10 * n + (c - b'0')) s

abbrev negated : ℕ → ℤ
negated zero = pos 0
negated (suc n) = negsuc n

-- The digits that follow the sign, and what follows them. A number out of range is a failure.
unfoldable pub read_digits : ℕ → Bool → Bytes × Bytes → Option (ℤ × Bytes)
unfolding decimal_value
read_digits width negative ([], rest) = none
read_digits width negative (c ∷ digits, rest) =
    let n = decimal_value 0 (c ∷ digits) in
    if negative
    then if leb n (2 ^ (width - 1)) then some (negated n, rest) else none
    else if ltb n (2 ^ (width - 1))
    then some (pos n, rest)
    else none

unfoldable pub read_sign : ℕ → Bytes → Option (ℤ × Bytes)
unfolding read_digits span
read_sign width [] = none
read_sign width (c ∷ s) =
    if c == b'-'
    then read_digits width true (span is_digit s)
    else if c == b'+'
    then read_digits width false (span is_digit s)
    else read_digits width false (span is_digit (c ∷ s))

-- `iss >> number`, where the number is signed and `width` bits wide.
unfoldable pub read_int : ℕ → Bytes → Option (ℤ × Bytes)
unfolding read_sign skip_spaces
read_int width s = read_sign width (skip_spaces s)

-- The decimal digits; a number has fewer of them than its value plus one.
unfoldable pub digits_of : ℕ → ℕ → Bytes
digits_of zero n = []
digits_of (suc fuel) n =
    let front = digits_of fuel (n / 10) in
    if ltb n 10 then (b'0' + n) ∷ [] else front ++ (b'0' + n % 10) ∷ []

-- `std::to_string`
unfoldable pub to_string : ℤ → Bytes
unfolding digits_of
to_string (pos n) = digits_of (suc n) n
to_string (negsuc n) = b'-' ∷ digits_of (suc (suc n)) (suc n)

-- `if (!h.empty()) hashes.push_back(h);`
abbrev pub push_hash : Bytes → List Bytes → List Bytes
push_hash [] hashes = hashes
push_hash (c ∷ h) hashes = (c ∷ h) ∷ hashes

-- `while (std::getline(hs, h, ','))`, where `h` holds what is read of a hash.
unfoldable pub split_hashes : Bytes → Bytes → List Bytes
split_hashes h [] = push_hash h []
split_hashes h (c ∷ s) =
    let next = split_hashes [] s in
    let longer = split_hashes (h ++ c ∷ []) s in if c == b',' then push_hash h next else longer

-- The loop that joins hashes with commas.
unfoldable pub join_hashes : List Bytes → Bytes
join_hashes [] = []
join_hashes (h ∷ []) = h
join_hashes (h ∷ g ∷ hashes) = h ++ b',' ∷ join_hashes (g ∷ hashes)
