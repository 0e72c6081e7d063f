-- ===== src/Sha256.antt =====
-- common/sha256.hpp and common/sha256.cpp: the hash of a message, block by block.
pub mod Block
pub mod Arrays
pub mod Padding
pub mod LastBlocks
pub mod Absorb
pub mod Schedule
pub mod Digest
use distributed_file_storage.Base.{
  ℕ, zero, suc, ◌+◌, ◌-◌, ◌*◌, ◌/◌, ◌%◌, ◌^◌, Bool, true, false, List, [], ◌∷◌, ◌++◌, Bytes, ltb,
  leb, if◌then◌else◌, length, take, drop, set, replicate,
}
use Block.{Words, sha256_transform}

abbrev pub initial_state : Words
initial_state = record {
  a = 0x6a09e667;
  b = 0xbb67ae85;
  c = 0x3c6ef372;
  d = 0xa54ff53a;
  e = 0x510e527f;
  f = 0x9b05688c;
  g = 0x1f83d9ab;
  h = 0x5be0cd19;
}

-- `memcpy(block, source, n)` on an array.
unfoldable pub memcpy : Bytes → Bytes → ℕ → Bytes
memcpy block source n = take n source ++ drop n block

-- The variables of `sha256` after the first loop.
pub record Progress : Type 0 where
  pub state : Words
  pub block : Bytes
  pub offset : ℕ

-- `while (i + 64 <= len)`
unfoldable pub absorb : ℕ → Bytes → Progress → Progress
unfolding memcpy
absorb zero input p = p
absorb (suc fuel) input p =
    let block = memcpy p.block (drop p.offset input) 64 in
    let rest =
      absorb fuel input (record {
        state = sha256_transform p.state block;
        block = block;
        offset = p.offset + 64;
      }) in
    if leb (p.offset + 64) (length input) then rest else p

-- `while (rem < limit) block[rem++] = 0;`, with the rounds that are left.
unfoldable pub zero_fill : ℕ → ℕ → Bytes → Bytes
zero_fill zero rem block = block
zero_fill (suc rounds) rem block = zero_fill rounds (rem + 1) (set block rem 0)

-- `for (int j = 7; j >= 0; --j)`, with `j + 1` first.
unfoldable pub put_length : ℕ → ℕ → Bytes → Bytes
put_length zero bits block = block
put_length (suc j) bits block = put_length j (bits / 2 ^ 8) (set block (56 + j) (bits % 2 ^ 8))

-- The last block holds `rem` bytes of padded message; the rest is zeros and the length in bits.
unfoldable pub finish : ℕ → ℕ → Words → Bytes → Words
unfolding zero_fill put_length
finish len rem state block =
    sha256_transform state (put_length 8 ((len * 8) % 2 ^ 64) (zero_fill (56 - rem) rem block))

unfoldable pub finish_message : Bytes → Progress → Words
unfolding memcpy finish
finish_message input p =
    let rem = length input - p.offset in
    let block = set (memcpy p.block (drop p.offset input) rem) rem 0x80 in
    if ltb 56 (rem + 1)
    then (let filled = zero_fill (64 - (rem + 1)) (rem + 1) block in
        finish (length input) 0 (sha256_transform p.state filled) filled)
    else finish (length input) (rem + 1) p.state block

abbrev pub hex_digit : ℕ → ℕ
hex_digit n = if ltb n 10 then b'0' + n else b'a' + (n - 10)

-- `std::hex << std::setw(2) << std::setfill('0')` of a byte.
abbrev pub hex_byte : ℕ → Bytes
hex_byte n = hex_digit (n / 16) ∷ hex_digit (n % 16) ∷ []

unfoldable pub hex_word : ℕ → Bytes
hex_word v =
    hex_byte (v / 2 ^ 24 % 2 ^ 8)
    ++ hex_byte (v / 2 ^ 16 % 2 ^ 8)
    ++ hex_byte (v / 2 ^ 8 % 2 ^ 8)
    ++ hex_byte (v % 2 ^ 8)

unfoldable pub hex_words : Words → Bytes
unfolding hex_word
hex_words s =
    hex_word s.a
    ++ hex_word s.b
    ++ hex_word s.c
    ++ hex_word s.d
    ++ hex_word s.e
    ++ hex_word s.f
    ++ hex_word s.g
    ++ hex_word s.h

-- `scratch` is what the array `block` holds before the first `memcpy`: it is not initialised in the
-- source. Each round of the first loop passes 64 bytes, so the length of the input is fuel enough.
unfoldable pub sha256_from : Bytes → Bytes → Bytes
unfolding absorb finish_message hex_words
sha256_from scratch input = hex_words (
    finish_message input
      (absorb (length input) input (record { state = initial_state; block = scratch; offset = 0 })))

unfoldable pub sha256 : Bytes → Bytes
unfolding sha256_from
sha256 = sha256_from (replicate 64 0)
