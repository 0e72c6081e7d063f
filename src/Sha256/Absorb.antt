-- ===== src/Sha256/Absorb.antt =====
-- The first loop of `sha256`: whole blocks of the message.
use distributed_file_storage.Base.{
  ℕ, zero, suc, ◌+◌, ◌*◌, ◌≤◌, ◌<◌, ◌≡◌, refl, ◌∙◌, Bool-cases, inl, inr, append-nil, arith, Bytes,
  leb, length, take, drop, length-take, length-drop,
}
use distributed_file_storage.Base.Index.{drop-length, drop-drop}
use distributed_file_storage.Sha256.{memcpy, absorb, Progress}
use distributed_file_storage.Sha256.Block.{sha256_transform}
use distributed_file_storage.Sha256.Padding.{hash_blocks, hash_blocks-suc}

-- From `p` the loop has gone on to `r`, where less than a block is left.
pub record IsAbsorbed (input : Bytes) (p r : Progress) : Type 0 where
  pub rounds : ℕ
  pub moved : r.offset ≡ p.offset + 64 * rounds
  pub inside : r.offset ≤ length input
  pub ended : length input < r.offset + 64
  pub array : length r.block ≡ 64
  pub hashed : r.state ≡ hash_blocks rounds p.state (drop p.offset input)

memcpy_block :
    (block source : Bytes)
    → length block ≡ 64
    → 64 ≤ length source
    → (memcpy block source 64 ≡ take 64 source) × (length (memcpy block source 64) ≡ 64)
unfolding memcpy
memcpy_block block source hb hs =
    rw (drop-length 64 block (omega arith), append-nil (take 64 source))
      (refl, omega (arith, length-take 64 source))

round_of : Bytes → Progress → Progress
round_of input p =
    let block = memcpy p.block (drop p.offset input) 64 in
    record { state = sha256_transform p.state block; block = block; offset = p.offset + 64 }

absorb_more :
    (fuel : ℕ) (input : Bytes) (p : Progress)
    → p.offset + 64 ≤ length input
    → absorb (suc fuel) input p ≡ absorb fuel input (round_of input p)
unfolding absorb round_of
absorb_more fuel input p h = ground arith

absorb_stop :
    (fuel : ℕ) (input : Bytes) (p : Progress)
    → length input < p.offset + 64
    → absorb fuel input p ≡ p
unfolding absorb
absorb_stop zero input p h = refl
absorb_stop (suc fuel) input p h = ground arith

IsAbsorbed-here :
    (input : Bytes) (p : Progress)
    → length p.block ≡ 64
    → p.offset ≤ length input
    → length input < p.offset + 64
    → IsAbsorbed input p p
unfolding hash_blocks
IsAbsorbed-here input p hb h ended = record {
  rounds = 0;
  moved = omega arith;
  inside = h;
  ended = ended;
  array = hb;
  hashed = refl;
}

IsAbsorbed-round :
    (input : Bytes) (p r : Progress)
    → length p.block ≡ 64
    → p.offset + 64 ≤ length input
    → IsAbsorbed input (round_of input p) r
    → IsAbsorbed input p r
unfolding round_of
IsAbsorbed-round input p r hb h a =
    let copied =
      memcpy_block p.block (drop p.offset input) hb (omega (arith, length-drop p.offset input)) in
    record {
      rounds = suc a.rounds;
      moved = omega (arith, a.moved);
      inside = a.inside;
      ended = a.ended;
      array = a.array;
      hashed =
          a.hashed
          ∙ rw (
            hash_blocks-suc a.rounds p.state (drop p.offset input),
            drop-drop 64 p.offset input,
            copied.0,
          );
    }

pub absorb-IsAbsorbed :
    (fuel : ℕ) (input : Bytes) (p : Progress)
    → length p.block ≡ 64
    → p.offset ≤ length input
    → length input ≤ p.offset + fuel
    → IsAbsorbed input p (absorb fuel input p)
unfolding round_of
absorb-IsAbsorbed zero input p hb h enough =
    rw (absorb_stop zero input p (omega arith)) (IsAbsorbed-here input p hb h (omega arith))
absorb-IsAbsorbed (suc fuel) input p hb h enough =
    elim (Bool-cases (leb (p.offset + 64) (length input))) [
      | inl more ↦
          let fits : p.offset + 64 ≤ length input = ground arith in
          rw (absorb_more fuel input p fits) (
            IsAbsorbed-round input p _ hb fits (
              absorb-IsAbsorbed fuel input (round_of input p)
                (memcpy_block p.block (drop p.offset input) hb
                  (omega (arith, length-drop p.offset input))).1
                fits (omega arith)))
      | inr done ↦
          let last : length input < p.offset + 64 = ground arith in
          rw (absorb_stop (suc fuel) input p last) (IsAbsorbed-here input p hb h last)
    ]
