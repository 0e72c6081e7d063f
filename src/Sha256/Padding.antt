-- ===== src/Sha256/Padding.antt =====
-- The specification of the hash: the message is padded whole, cut into blocks of 64 bytes, and the
-- blocks are compressed one after another. And how the code's last one or two blocks meet it.
use Prim.Native.Nat.add
use native.Mathlib.Nat.{zero-add}
use distributed_file_storage.Base.{
  ℕ, zero, suc, ◌+◌, ◌-◌, ◌*◌, ◌/◌, ◌%◌, ◌^◌, ◌≤◌, ◌≡◌, refl, sym, ap, ◌∙◌, [], ◌∷◌, ◌++◌,
  append_assoc, append-nil, arith, Bytes, length, take, drop, replicate, length-append, length-drop,
  length-replicate,
}
use distributed_file_storage.Base.Index.{
  take-length, drop-length, drop-drop, take-append_left, drop-append_left,
}
use distributed_file_storage.Base.BigEndian.{be_bytes, length-be_bytes}
use distributed_file_storage.Sha256.{initial_state, hex_words, finish}
use distributed_file_storage.Sha256.Block.{Words, sha256_transform}
use distributed_file_storage.Sha256.Arrays.{zero_fill-append, put_length-append}

abbrev pub zeros_for : ℕ → ℕ
zeros_for len = (119 - len % 64) % 64

-- A one bit, zeros up to 8 bytes before the end of a block, and the length in bits.
unfoldable pub padding : ℕ → Bytes
padding len = 0x80 ∷ (replicate (zeros_for len) 0 ++ be_bytes 8 ((len * 8) % 2 ^ 64))

unfoldable pub pad : Bytes → Bytes
unfolding padding
pad m = m ++ padding (length m)

unfoldable pub hash_blocks : ℕ → Words → Bytes → Words
hash_blocks zero s m = s
hash_blocks (suc n) s m = hash_blocks n (sha256_transform s (take 64 m)) (drop 64 m)

-- What SHA-256 of a message is, given the compression of a block.
unfoldable pub digest : Bytes → Bytes
unfolding hash_blocks pad
digest m = hex_words (hash_blocks (length (pad m) / 64) initial_state (pad m))

pub length-zeros : (n : ℕ) → length (replicate {A = ℕ} n 0) ≡ n
length-zeros n = length-replicate n _

-- A padded message is a whole number of blocks.
pub length-pad : (m : Bytes) → length (pad m) % 64 ≡ 0
unfolding pad
length-pad m = omega (
  arith,
  length-append m (padding (length m)),
  length-append (replicate (zeros_for (length m)) 0) (be_bytes 8 ((length m * 8) % 2 ^ 64)),
  length-zeros (zeros_for (length m)),
  length-be_bytes 8 ((length m * 8) % 2 ^ 64),
)

pub hash_blocks-suc :
    (n : ℕ) (s : Words) (m : Bytes)
    → hash_blocks (suc n) s m ≡ hash_blocks n (sha256_transform s (take 64 m)) (drop 64 m)
unfolding hash_blocks
hash_blocks-suc n s m = refl

pub hash_blocks-append :
    (q n : ℕ) (s : Words) (m t : Bytes)
    → 64 * q ≤ length m
    → hash_blocks (q + n) s (m ++ t) ≡ hash_blocks n (hash_blocks q s m) (drop (64 * q) m ++ t)
hash_blocks-append zero n s m t h =
    unfold hash_blocks in ap (λ k. hash_blocks k s (m ++ t)) (zero-add n)
hash_blocks-append (suc q) n s m t h =
    let more : 64 + 64 * q ≡ 64 * suc q = omega arith in
    ap (λ k. hash_blocks k s (m ++ t)) (add.suc q n)
    ∙ rw (
      hash_blocks-suc (q + n) s (m ++ t),
      hash_blocks-suc q s m,
      take-append_left 64 m t (omega arith),
      drop-append_left 64 m t (omega arith),
      hash_blocks-append q n (sha256_transform s (take 64 m)) (drop 64 m) t
          (omega (arith, length-drop 64 m)),
      drop-drop (64 * q) 64 m,
      more,
    )

pub hash_blocks_block :
    (n : ℕ) (s : Words) (b m : Bytes)
    → length b ≡ 64
    → hash_blocks (suc n) s (b ++ m) ≡ hash_blocks n (sha256_transform s b) m
hash_blocks_block n s b m e = rw (
  hash_blocks-suc n s (b ++ m),
  take-append_left 64 b m (omega arith),
  drop-append_left 64 b m (omega arith),
  take-length 64 b (omega arith),
  drop-length 64 b (omega arith),
)

pub hash_blocks_last :
    (s : Words) (b : Bytes) → length b ≡ 64 → hash_blocks 1 s b ≡ sha256_transform s b
unfolding hash_blocks
hash_blocks_last s b e = rw (take-length 64 b (omega arith))

-- The end of the message, `xs`, is followed in its block by zeros and the length.
pub finish_block :
    (len : ℕ) (s : Words) (xs ys : Bytes) (rem : ℕ)
    → length xs ≡ rem
    → rem ≤ 56
    → length ys ≡ 64 - rem
    → finish len rem s (xs ++ ys)
      ≡ sha256_transform s (xs ++ (replicate (56 - rem) 0 ++ be_bytes 8 ((len * 8) % 2 ^ 64)))
unfolding finish
finish_block len s xs ys rem hx hr hy =
    let zeros : Bytes = replicate (56 - rem) 0 in
    let tail = drop (56 - rem) ys in
    let bits = (len * 8) % 2 ^ 64 in
    let h56 : length (xs ++ zeros) ≡ 56 =
      omega (arith, length-append xs zeros, length-zeros (56 - rem)) in
    let h8 : length tail ≡ 8 = omega (arith, length-drop (56 - rem) ys) in
    let regroup : xs ++ (zeros ++ tail) ≡ (xs ++ zeros) ++ (tail ++ []) =
      rw (append_assoc xs zeros (tail ++ []), append-nil tail) in
    rw (
      zero_fill-append (56 - rem) xs ys rem (sym hx) (omega arith),
      regroup,
      put_length-append 8 bits (xs ++ zeros) tail [] h56 h8,
      append-nil (be_bytes 8 bits),
      append_assoc xs zeros (be_bytes 8 bits),
    )
