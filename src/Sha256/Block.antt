-- ===== src/Sha256/Block.antt =====
-- common/sha256.cpp, up to `sha256_transform`: the constants, the functions on 32-bit words and the
-- compression of one block of 64 bytes.
use Prim.Native.Nat.{bit_and, bit_or, bit_xor}
use distributed_file_storage.Base.{
  ℕ, zero, suc, ◌+◌, ◌-◌, ◌*◌, ◌/◌, ◌%◌, ◌^◌, List, [], ◌∷◌, Bytes, get_or, set, replicate,
}

abbrev pub u32 : ℕ → ℕ
u32 n = n % 2 ^ 32

unfoldable pub k : List ℕ
k =
    0x428a2f98 ∷ 0x71374491 ∷ 0xb5c0fbcf ∷ 0xe9b5dba5 ∷ 0x3956c25b ∷ 0x59f111f1 ∷ 0x923f82a4
    ∷ 0xab1c5ed5 ∷ 0xd807aa98 ∷ 0x12835b01 ∷ 0x243185be ∷ 0x550c7dc3 ∷ 0x72be5d74 ∷ 0x80deb1fe
    ∷ 0x9bdc06a7 ∷ 0xc19bf174 ∷ 0xe49b69c1 ∷ 0xefbe4786 ∷ 0x0fc19dc6 ∷ 0x240ca1cc ∷ 0x2de92c6f
    ∷ 0x4a7484aa ∷ 0x5cb0a9dc ∷ 0x76f988da ∷ 0x983e5152 ∷ 0xa831c66d ∷ 0xb00327c8 ∷ 0xbf597fc7
    ∷ 0xc6e00bf3 ∷ 0xd5a79147 ∷ 0x06ca6351 ∷ 0x14292967 ∷ 0x27b70a85 ∷ 0x2e1b2138 ∷ 0x4d2c6dfc
    ∷ 0x53380d13 ∷ 0x650a7354 ∷ 0x766a0abb ∷ 0x81c2c92e ∷ 0x92722c85 ∷ 0xa2bfe8a1 ∷ 0xa81a664b
    ∷ 0xc24b8b70 ∷ 0xc76c51a3 ∷ 0xd192e819 ∷ 0xd6990624 ∷ 0xf40e3585 ∷ 0x106aa070 ∷ 0x19a4c116
    ∷ 0x1e376c08 ∷ 0x2748774c ∷ 0x34b0bcb5 ∷ 0x391c0cb3 ∷ 0x4ed8aa4a ∷ 0x5b9cca4f ∷ 0x682e6ff3
    ∷ 0x748f82ee ∷ 0x78a5636f ∷ 0x84c87814 ∷ 0x8cc70208 ∷ 0x90befffa ∷ 0xa4506ceb ∷ 0xbef9a3f7
    ∷ 0xc67178f2 ∷ []

unfoldable pub rotr : ℕ → ℕ → ℕ
rotr x n = bit_or (x / 2 ^ n) (u32 (x * 2 ^ (32 - n)))

-- `~x` is `2 ^ 32 - 1 - x`.
unfoldable pub ch : ℕ → ℕ → ℕ → ℕ
ch x y z = bit_xor (bit_and x y) (bit_and (2 ^ 32 - 1 - x) z)

unfoldable pub maj : ℕ → ℕ → ℕ → ℕ
maj x y z = bit_xor (bit_xor (bit_and x y) (bit_and x z)) (bit_and y z)

unfoldable pub sig0 : ℕ → ℕ
unfolding rotr
sig0 x = bit_xor (bit_xor (rotr x 2) (rotr x 13)) (rotr x 22)

unfoldable pub sig1 : ℕ → ℕ
unfolding rotr
sig1 x = bit_xor (bit_xor (rotr x 6) (rotr x 11)) (rotr x 25)

unfoldable pub gam0 : ℕ → ℕ
unfolding rotr
gam0 x = bit_xor (bit_xor (rotr x 7) (rotr x 18)) (x / 2 ^ 3)

unfoldable pub gam1 : ℕ → ℕ
unfolding rotr
gam1 x = bit_xor (bit_xor (rotr x 17) (rotr x 19)) (x / 2 ^ 10)

-- `uint32_t state[8]`, and the eight variables of the rounds.
pub record Words : Type 0 where
  pub a : ℕ
  pub b : ℕ
  pub c : ℕ
  pub d : ℕ
  pub e : ℕ
  pub f : ℕ
  pub g : ℕ
  pub h : ℕ

abbrev byte_at : Bytes → ℕ → ℕ
byte_at block i = get_or block i 0

abbrev pub big_endian : Bytes → ℕ → ℕ
big_endian block i =
    bit_or
      (bit_or (bit_or (u32 (byte_at block (i * 4) * 2 ^ 24)) (byte_at block (i * 4 + 1) * 2 ^ 16))
        (byte_at block (i * 4 + 2) * 2 ^ 8))
      (byte_at block (i * 4 + 3))

-- `for (int i = 0; i < 16; ++i)`, with the rounds left first.
unfoldable pub load_words : ℕ → ℕ → Bytes → List ℕ → List ℕ
load_words zero i block w = w
load_words (suc rounds) i block w = load_words rounds (i + 1) block (set w i (big_endian block i))

-- `for (int i = 16; i < 64; ++i)`
unfoldable pub extend_words : ℕ → ℕ → List ℕ → List ℕ
unfolding gam0 gam1
extend_words zero i w = w
extend_words (suc rounds) i w = extend_words rounds (i + 1) (
    set w i (
      u32 (
        gam1 (get_or w (i - 2) 0)
        + get_or w (i - 7) 0
        + gam0 (get_or w (i - 15) 0)
        + get_or w (i - 16) 0)))

unfoldable pub compress_round : ℕ → ℕ → Words → Words
unfolding sig0 sig1 ch maj
compress_round ki wi s =
    let t1 = u32 (s.h + sig1 s.e + ch s.e s.f s.g + ki + wi) in
    let t2 = u32 (sig0 s.a + maj s.a s.b s.c) in
    record {
      a = u32 (t1 + t2);
      b = s.a;
      c = s.b;
      d = s.c;
      e = u32 (s.d + t1);
      f = s.e;
      g = s.f;
      h = s.g;
    }

-- `for (int i = 0; i < 64; ++i)`
unfoldable pub compress_rounds : ℕ → ℕ → List ℕ → Words → Words
unfolding k compress_round
compress_rounds zero i w s = s
compress_rounds (suc rounds) i w s =
    compress_rounds rounds (i + 1) w (compress_round (get_or k i 0) (get_or w i 0) s)

unfoldable pub add_words : Words → Words → Words
add_words s t = record {
  a = u32 (s.a + t.a);
  b = u32 (s.b + t.b);
  c = u32 (s.c + t.c);
  d = u32 (s.d + t.d);
  e = u32 (s.e + t.e);
  f = u32 (s.f + t.f);
  g = u32 (s.g + t.g);
  h = u32 (s.h + t.h);
}

-- The array `w` is not initialised in the source. The two loops write each entry before it is read.
unfoldable pub sha256_transform : Words → Bytes → Words
unfolding load_words extend_words compress_rounds add_words
sha256_transform state block =
    let w = extend_words 48 16 (load_words 16 0 block (replicate 64 0)) in
    add_words state (compress_rounds 64 0 w state)
