-- ===== src/Sha256/Digest.antt =====
-- `sha256` computes the specification, and its result is 64 hexadecimal digits.
use mathlib.Core.Path.{ap₂}
use distributed_file_storage.Base.{
  ℕ, ◌+◌, ◌*◌, ◌/◌, ◌%◌, ◌^◌, ◌≤◌, ◌<◌, ◌≡◌, ◌⊎◌, refl, sym, ap, ◌∙◌, ◌++◌, arith, Bytes, All,
  All-append, length, drop, length-append, length-drop, replicate,
}
use distributed_file_storage.Base.BigEndian.{be_bytes, length-be_bytes}
use distributed_file_storage.Sha256.{
  initial_state, Progress, finish_message, hex_words, hex_word, hex_byte, hex_digit, sha256_from,
  sha256,
}
use distributed_file_storage.Sha256.Block.{Words}
use distributed_file_storage.Sha256.Padding.{
  padding, pad, hash_blocks, hash_blocks-append, digest, length-zeros, zeros_for,
}
use distributed_file_storage.Sha256.LastBlocks.{finish_message-hash_blocks, blocks_left}
use distributed_file_storage.Sha256.Absorb.{IsAbsorbed, absorb-IsAbsorbed}

-- The blocks of the padded message are those of the first loop and those left behind it.
length-append-div : (xs ys : Bytes) → length (xs ++ ys) / 64 ≡ (length xs + length ys) / 64
length-append-div xs ys = ap (λ n. n / 64) (length-append xs ys)

length-padding : (len : ℕ) → (len + length (padding len)) / 64 ≡ len / 64 + blocks_left (len % 64)
unfolding padding
length-padding len = ground (
  arith,
  length-append (replicate (zeros_for len) 0) (be_bytes 8 ((len * 8) % 18446744073709551616)),
  length-zeros (zeros_for len),
  length-be_bytes 8 ((len * 8) % 18446744073709551616),
)

begin : Bytes → Progress
begin scratch = record { state = initial_state; block = scratch; offset = 0 }

from_blocks :
    (scratch input : Bytes) (r : Progress)
    → IsAbsorbed input (begin scratch) r
    → finish_message input r ≡ hash_blocks (length (pad input) / 64) initial_state (pad input)
unfolding begin pad
from_blocks scratch input r a =
    let m = drop (64 * a.rounds) input in
    let at_blocks : r.offset ≡ 64 * a.rounds = omega (arith, a.moved) in
    let short : length m < 64 =
      omega (arith, length-drop (64 * a.rounds) input, a.ended, a.inside) in
    let left : length input % 64 ≡ length m =
      omega (arith, length-drop (64 * a.rounds) input, a.inside) in
    let rounds_and_rest : length input / 64 + blocks_left (length input % 64)
        ≡ a.rounds + blocks_left (length m) =
      ap₂ (λ q rem. q + blocks_left rem) (omega (arith, a.moved, a.ended, a.inside)) left in
    let total : length (input ++ padding (length input)) / 64 ≡ a.rounds + blocks_left (length m) =
      length-append-div input (padding (length input))
      ∙ length-padding (length input)
      ∙ rounds_and_rest in
    finish_message-hash_blocks input r m a.array (ap (λ i. drop i input) (sym at_blocks))
      (omega (arith, length-drop (64 * a.rounds) input)) short left
    ∙ rw (
      a.hashed,
      total,
      hash_blocks-append a.rounds (blocks_left (length m)) initial_state input
          (padding (length input)) (omega (arith, a.inside)),
    )

-- For every message, and whatever the 64 bytes of the uninitialised array hold, the code pads the
-- message and compresses its blocks in order with `sha256_transform`, as SHA-256 is specified.
pub sha256_from-eq-digest :
    (scratch input : Bytes) → length scratch ≡ 64 → sha256_from scratch input ≡ digest input
unfolding sha256_from digest begin
sha256_from-eq-digest scratch input h = ap hex_words (
    from_blocks scratch input _
      (absorb-IsAbsorbed (length input) input (begin scratch) h (omega arith) (omega arith)))

-- A digit 0 to 9 or a to f.
abbrev pub IsHexDigit : ℕ → Type 0
IsHexDigit c = ((b'0' ≤ c) × (c ≤ b'9')) ⊎ ((b'a' ≤ c) × (c ≤ b'f'))

hex_digit-IsHexDigit : (n : ℕ) → n < 16 → IsHexDigit (hex_digit n)
hex_digit-IsHexDigit n h = ground arith

hex_byte-IsHexDigit : (n : ℕ) → n < 256 → All IsHexDigit (hex_byte n)
hex_byte-IsHexDigit n h =
    (hex_digit-IsHexDigit (n / 16) (omega arith), (hex_digit-IsHexDigit (n % 16) (omega arith), tt))

join_digits : (xs ys : Bytes) → All IsHexDigit xs → All IsHexDigit ys → All IsHexDigit (xs ++ ys)
join_digits = All-append IsHexDigit

hex_word-IsHexDigit : (v : ℕ) → All IsHexDigit (hex_word v)
unfolding hex_word
hex_word-IsHexDigit v =
    let byte = λ (n : ℕ). hex_byte-IsHexDigit (n % 2 ^ 8) (omega arith) in
    let first = hex_byte (v / 2 ^ 24 % 2 ^ 8) in
    let second = hex_byte (v / 2 ^ 16 % 2 ^ 8) in
    let third = hex_byte (v / 2 ^ 8 % 2 ^ 8) in
    join_digits (first ++ second ++ third) (hex_byte (v % 2 ^ 8))
      (join_digits (first ++ second) third
        (join_digits first second (byte (v / 2 ^ 24)) (byte (v / 2 ^ 16))) (byte (v / 2 ^ 8)))
      (byte v)

add_word : (xs : Bytes) (v : ℕ) → All IsHexDigit xs → All IsHexDigit (xs ++ hex_word v)
add_word xs v h = join_digits xs (hex_word v) h (hex_word-IsHexDigit v)

hex_words_step :
    (s : Words)
    → hex_words s
      ≡ hex_word s.a
        ++ hex_word s.b
        ++ hex_word s.c
        ++ hex_word s.d
        ++ hex_word s.e
        ++ hex_word s.f
        ++ hex_word s.g
        ++ hex_word s.h
unfolding hex_words
hex_words_step s = refl

hex_words-IsHexDigit : (s : Words) → All IsHexDigit (hex_words s)
hex_words-IsHexDigit s =
    let a = hex_word s.a in
    let b = a ++ hex_word s.b in
    let c = b ++ hex_word s.c in
    let d = c ++ hex_word s.d in
    let e = d ++ hex_word s.e in
    let f = e ++ hex_word s.f in
    rw (hex_words_step s) (
      add_word (f ++ hex_word s.g) s.h (
        add_word f s.g (
          add_word e s.f (
            add_word d s.e
              (add_word c s.d (add_word b s.c (add_word a s.b (hex_word-IsHexDigit s.a))))))))

-- A digest is 64 hexadecimal digits.
pub sha256_hex : (input : Bytes) → (length (sha256 input) ≡ 64) × All IsHexDigit (sha256 input)
unfolding sha256 sha256_from
sha256_hex input = (refl, hex_words-IsHexDigit _)
