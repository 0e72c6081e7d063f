-- ===== src/Sha256/LastBlocks.antt =====
-- The one or two blocks that `sha256` compresses behind its first loop.
use distributed_file_storage.Base.{
  ℕ, suc, ◌+◌, ◌-◌, ◌*◌, ◌%◌, ◌^◌, ◌≤◌, ◌<◌, ◌≡◌, refl, sym, ◌∙◌, Bool-cases, inl, inr, [], ◌∷◌,
  ◌++◌, append_assoc, append-nil, arith, Bytes, ltb, ltb→lt, if◌then◌else◌, length, drop, set,
  replicate, length-append, length-drop,
}
use distributed_file_storage.Base.Index.{drop-length, replicate-add, drop-get_elem?}
use distributed_file_storage.Base.BigEndian.{be_bytes, length-be_bytes}
use distributed_file_storage.Sha256.{memcpy, finish, zero_fill, Progress, finish_message}
use distributed_file_storage.Sha256.Block.{Words, sha256_transform}
use distributed_file_storage.Sha256.Arrays.{set-append, zero_fill-append, memcpy_all}
use distributed_file_storage.Sha256.Padding.{
  padding, zeros_for, hash_blocks, hash_blocks_block, hash_blocks_last, finish_block, length-zeros,
}

-- The bytes that follow the message, with the byte 0x80 in front.
marked : Bytes → Bytes
marked m = m ++ 0x80 ∷ []

length-marked : (m : Bytes) → length (marked m) ≡ length m + 1
unfolding marked
length-marked m = length-append m (0x80 ∷ [])

-- Copying what is left of the message and marking its end: the old bytes of the array, `ys`, are
-- left behind the mark.
mark_end :
    (block m : Bytes)
    → length block ≡ 64
    → length m < 64
    → (ys : Bytes) × (set (memcpy block m (length m)) (length m) 0x80 ≡ marked m ++ ys)
      × (length ys ≡ 63 - length m)
unfolding marked
mark_end block m hb hm =
    let (y, _, split) = drop-get_elem? block (length m) (omega arith) in
    (
      drop (suc (length m)) block,
      rw (
        memcpy_all block m (length m) refl,
        split,
        set-append m y 0x80 (drop (suc (length m)) block) (length m) refl,
        append_assoc m (0x80 ∷ []) (drop (suc (length m)) block),
      ),
      omega (arith, length-drop (suc (length m)) block),
    )

module _ (len : ℕ) (s : Words) (m : Bytes) (rest : len % 64 ≡ length m) where
  bits : Bytes
  bits = be_bytes 8 ((len * 8) % 2 ^ 64)

  padded : (n : ℕ) → zeros_for len ≡ n → m ++ padding len ≡ marked m ++ (replicate n 0 ++ bits)
  unfolding padding marked bits
  padded n e = rw (e, append_assoc m (0x80 ∷ []) (replicate n 0 ++ bits))

  -- Up to 55 bytes of message leave room for the length in their block.
  one_block :
      (ys : Bytes)
      → length m + 1 ≤ 56
      → length ys ≡ 63 - length m
      → finish len (length m + 1) s (marked m ++ ys) ≡ hash_blocks 1 s (m ++ padding len)
  unfolding bits
  one_block ys short hy =
      let zeros : Bytes = replicate (56 - (length m + 1)) 0 in
      finish_block len s (marked m) ys (length m + 1) (length-marked m) short (omega arith)
      ∙ sym (
          rw (padded (56 - (length m + 1)) (omega arith)) (
            hash_blocks_last s (marked m ++ (zeros ++ bits)) (
              omega (
                arith,
                length-append (marked m) (zeros ++ bits),
                length-append zeros bits,
                length-zeros (56 - (length m + 1)),
                length-marked m,
                length-be_bytes 8 ((len * 8) % 2 ^ 64),
              ))))

  -- The block that has no room for the length.
  filled : Bytes
  filled = marked m ++ replicate (63 - length m) 0

  length-filled : length m < 64 → length filled ≡ 64
  unfolding filled
  length-filled hm = omega (
    arith,
    length-append (marked m) (replicate (63 - length m) 0),
    length-zeros (63 - length m),
    length-marked m,
  )

  fill_block :
      (ys : Bytes)
      → length m < 64
      → length ys ≡ 63 - length m
      → zero_fill (64 - (length m + 1)) (length m + 1) (marked m ++ ys) ≡ filled
  unfolding filled
  fill_block ys hm hy =
      let rounds : 64 - (length m + 1) ≡ 63 - length m = omega arith in
      rw (
        rounds,
        zero_fill-append (63 - length m) (marked m) ys (length m + 1) (sym (length-marked m))
            (omega arith),
        drop-length (63 - length m) ys (omega arith),
        append-nil (replicate {A = ℕ} (63 - length m) 0),
      )

  split_padding :
      56 < length m + 1 → length m < 64 → m ++ padding len ≡ filled ++ (replicate 56 0 ++ bits)
  unfolding filled
  split_padding long hm =
      let zeros : zeros_for len ≡ 63 - length m + 56 = omega arith in
      rw (
        padded (63 - length m + 56) zeros,
        replicate-add {A = ℕ} (63 - length m) 56 0,
        append_assoc (replicate {A = ℕ} (63 - length m) 0) (replicate 56 0) bits,
        append_assoc (marked m) (replicate (63 - length m) 0) (replicate 56 0 ++ bits),
      )

  -- With more, the block is filled with zeros and the length goes into a block of its own.
  two_blocks :
      (ys : Bytes)
      → 56 < length m + 1
      → length m < 64
      → length ys ≡ 63 - length m
      → (let block = zero_fill (64 - (length m + 1)) (length m + 1) (marked m ++ ys) in
          finish len 0 (sha256_transform s block) block)
        ≡ hash_blocks 2 s (m ++ padding len)
  unfolding bits
  two_blocks ys long hm hy =
      rw (fill_block ys hm hy, split_padding long hm)
        (finish_block len (sha256_transform s filled) [] filled 0 refl (omega arith)
            (length-filled hm)
          ∙ sym (
              hash_blocks_block 1 s filled (replicate 56 0 ++ bits) (length-filled hm)
              ∙ hash_blocks_last (sha256_transform s filled) (replicate 56 0 ++ bits) (
                  omega (
                    arith,
                    length-append (replicate 56 0) bits,
                    length-zeros 56,
                    length-be_bytes 8 ((len * 8) % 2 ^ 64),
                  ))))

-- How many blocks are left when `rem` bytes of the message are.
abbrev pub blocks_left : ℕ → ℕ
blocks_left rem = if ltb 56 (rem + 1) then 2 else 1

-- Behind the first loop the code compresses the rest of the message with its padding, whatever the
-- array still holds.
pub finish_message-hash_blocks :
    (input : Bytes) (p : Progress) (m : Bytes)
    → length p.block ≡ 64
    → m ≡ drop p.offset input
    → length m ≡ length input - p.offset
    → length m < 64
    → length input % 64 ≡ length m
    → finish_message input p
      ≡ hash_blocks (blocks_left (length m)) p.state (m ++ padding (length input))
unfolding finish_message
finish_message-hash_blocks input p m hb em hm short rest =
    let (ys, marked_end, hy) = mark_end p.block m hb short in
    elim (Bool-cases (ltb 56 (length m + 1))) [
      | inl long ↦
          rw (← em, ← hm, long, marked_end)
            (two_blocks (length input) p.state m rest ys (ltb→lt _ _ long) short hy)
      | inr room ↦
          rw (← em, ← hm, room, marked_end)
            (one_block (length input) p.state m rest ys (ground arith) hy)
    ]
