-- ===== src/Hashing/Cid.antt =====
-- The content identifier of a file: its form, and what it means that two files share it.
use mathlib.Core.Path.{ap₂, subst₂}
use distributed_file_storage.Base.{
  ◌≡◌, ◌≢◌, ◌⊎◌, inl, inr, refl, sym, ap, ◌∙◌, Bool-cases, some, List, [], ◌∷◌, ◌++◌, append_assoc,
  arith, Bytes, All, length, take, drop, length-append,
}
use distributed_file_storage.Base.Index.{
  take-length, drop-length, take-append_left, drop-append_left,
}
use distributed_file_storage.Base.Equality.{bytes_eq, bytes_eq_iff}
use distributed_file_storage.Files.{Chunk, split_file_into_chunks, write_chunks}
use distributed_file_storage.Files.RoundTrip.{write_chunks-split}
use distributed_file_storage.Sha256.{sha256}
use distributed_file_storage.Sha256.Digest.{IsHexDigit, sha256_hex}
use distributed_file_storage.Hashing.{
  hash_all_chunks, combine, compute_root_hash, chunk_hashes, cid_of_chunks, compute_cid,
}

-- Two different texts of these two kinds with one digest.
pub record Collision (Left Right : Bytes → Type 0) : Type 0 where
  pub left : Bytes
  pub right : Bytes
  pub of_left : Left left
  pub of_right : Right right
  pub differ : left ≢ right
  pub same : sha256 left ≡ sha256 right

-- What `hashChunk` hashes for these chunks.
abbrev pub ChunkOf : List Chunk → Bytes → Type 0
ChunkOf [] x = ⊥
ChunkOf (c ∷ cs) x = (x ≡ take c.size c.contents) ⊎ ChunkOf cs x

-- What a CID of these chunks is computed from: their contents, and their hashes one after another.
abbrev pub HashedFor : List Chunk → Bytes → Type 0
HashedFor cs x = ChunkOf cs x ⊎ (x ≡ combine (chunk_hashes (hash_all_chunks cs)))

abbrev pub PartOf : Bytes → Bytes → Type 0
PartOf whole x = (before : Bytes) × (after : Bytes) × (whole ≡ before ++ (x ++ after))

-- The runs of `computeCID` on two files hash two different texts to one digest.
abbrev pub CidCollision : Bytes → Bytes → Type 0
CidCollision f g =
    Collision (HashedFor (split_file_into_chunks (some f)))
      (HashedFor (split_file_into_chunks (some g)))

-- A part of what was written and a chunk of the file that was uploaded have one digest, and differ.
abbrev pub WrittenCollision : Bytes → Bytes → Type 0
WrittenCollision written f = Collision (PartOf written) (ChunkOf (split_file_into_chunks (some f)))

pub weaken :
    {P Q R S : Bytes → Type 0}
    → ((x : Bytes) → P x → R x)
    → ((x : Bytes) → Q x → S x)
    → Collision P Q
    → Collision R S
weaken f g c = record {
  left = c.left;
  right = c.right;
  of_left = f c.left c.of_left;
  of_right = g c.right c.of_right;
  differ = c.differ;
  same = c.same;
}

first_part : (x after : Bytes) → PartOf (x ++ after) x
first_part x after = ([], after, refl)

later_part : (x before whole : Bytes) → PartOf whole x → PartOf (before ++ whole) x
later_part x before whole (front, back, e) =
    (before ++ front, back, ap (λ l. before ++ l) e ∙ sym (append_assoc before front (x ++ back)))

-- A chunk is a part of the file that is written for the chunks.
pub ChunkOf-PartOf : (cs : List Chunk) (x : Bytes) → ChunkOf cs x → PartOf (write_chunks cs) x
unfolding write_chunks
ChunkOf-PartOf [] x h = absurd h
ChunkOf-PartOf (c ∷ cs) x (inl e) = rw e (first_part (take c.size c.contents) (write_chunks cs))
ChunkOf-PartOf (c ∷ cs) x (inr h) =
    later_part x (take c.size c.contents) (write_chunks cs) (ChunkOf-PartOf cs x h)

same_or_collision :
    {P Q : Bytes → Type 0} (x y : Bytes) → P x → Q y → sha256 x ≡ sha256 y → (x ≡ y) ⊎ Collision P Q
same_or_collision x y hx hy e = elim (Bool-cases (bytes_eq x y)) [
  | inl same ↦ inl ((bytes_eq_iff x y).0 same)
  | inr apart ↦ inr (record {
    left = x;
    right = y;
    of_left = hx;
    of_right = hy;
    differ = λ eq. cc ((bytes_eq_iff x y).1 eq);
    same = e;
  })
]

abbrev AreDigests : List Bytes → Type 0
AreDigests = All (λ h. length h ≡ 64)

combine_first :
    (h : Bytes) (hs : List Bytes)
    → length h ≡ 64
    → (take 64 (combine (h ∷ hs)) ≡ h) × (drop 64 (combine (h ∷ hs)) ≡ combine hs)
unfolding combine
combine_first h hs e = (
  take-append_left 64 h (combine hs) (omega arith) ∙ take-length 64 h (omega arith),
  drop-append_left 64 h (combine hs) (omega arith)
      ∙ ap (λ l. l ++ combine hs) (drop-length 64 h (omega arith)),
)

combine-ne : (h : Bytes) (hs : List Bytes) → length h ≡ 64 → combine (h ∷ hs) ≢ combine []
unfolding combine
combine-ne h hs e same = absurd (omega (arith, ap length same, length-append h (combine hs)))

-- Digests have one length, so their concatenation shows each of them.
combine-injective :
    (hs gs : List Bytes) → AreDigests hs → AreDigests gs → combine hs ≡ combine gs → hs ≡ gs
combine-injective [] [] h g e = refl
combine-injective [] (y ∷ gs) h (gy, g) e = absurd (combine-ne y gs gy (sym e))
combine-injective (x ∷ hs) [] (hx, h) g e = absurd (combine-ne x hs hx e)
combine-injective (x ∷ hs) (y ∷ gs) (hx, h) (gy, g) e =
    let (tx, dx) = combine_first x hs hx in
    let (ty, dy) = combine_first y gs gy in
    cc (
      ap (take 64) e,
      ap (drop 64) e,
      tx,
      ty,
      dx,
      dy,
      combine-injective hs gs h g (sym dx ∙ ap (drop 64) e ∙ dy),
    )

hashes_of : (cs : List Chunk) → AreDigests (chunk_hashes (hash_all_chunks cs))
unfolding chunk_hashes hash_all_chunks
hashes_of [] = tt
hashes_of (c ∷ cs) = ((sha256_hex (take c.size c.contents)).0, hashes_of cs)

join_pieces :
    {p q xs ys : Bytes} {P Q R S : Bytes → Type 0}
    → ((x : Bytes) → P x → R x)
    → ((x : Bytes) → Q x → S x)
    → (p ≡ q) ⊎ Collision R S
    → (xs ≡ ys) ⊎ Collision P Q
    → (p ++ xs ≡ q ++ ys) ⊎ Collision R S
join_pieces f g (inr c) _ = inr c
join_pieces f g (inl e) (inr c) = inr (weaken f g c)
join_pieces f g (inl e) (inl e') = inl (ap₂ (λ s t. s ++ t) e e')

pub same_chunks_or_collision :
    (cs ds : List Chunk)
    → chunk_hashes (hash_all_chunks cs) ≡ chunk_hashes (hash_all_chunks ds)
    → (write_chunks cs ≡ write_chunks ds) ⊎ Collision (ChunkOf cs) (ChunkOf ds)
unfolding chunk_hashes hash_all_chunks write_chunks
same_chunks_or_collision [] [] e = inl refl
same_chunks_or_collision [] (d ∷ ds) e = cc
same_chunks_or_collision (c ∷ cs) [] e = cc
same_chunks_or_collision (c ∷ cs) (d ∷ ds) e =
    join_pieces {P = ChunkOf cs} {Q = ChunkOf ds} (λ x h. inr h) (λ x h. inr h)
      (same_or_collision (take c.size c.contents) (take d.size d.contents) (inl refl) (inl refl)
        (cc))
      (same_chunks_or_collision cs ds (cc))

root_or_collision :
    (cs ds : List Chunk)
    → compute_root_hash (chunk_hashes (hash_all_chunks cs))
      ≡ compute_root_hash (chunk_hashes (hash_all_chunks ds))
    → (write_chunks cs ≡ write_chunks ds) ⊎ Collision (HashedFor cs) (HashedFor ds)
unfolding compute_root_hash
root_or_collision cs ds e =
    elim (same_or_collision {P = HashedFor cs} {Q = HashedFor ds}
      (combine (chunk_hashes (hash_all_chunks cs))) (combine (chunk_hashes (hash_all_chunks ds)))
      (inr refl) (inr refl) e) [
        | inl same ↦
            elim (same_chunks_or_collision cs ds
              (combine-injective _ _ (hashes_of cs) (hashes_of ds) same)) [
                | inl equal ↦ inl equal
                | inr c ↦ inr (weaken (λ x h. inl h) (λ x h. inl h) c)
              ]
        | inr c ↦ inr c
      ]

cid-ne-nil : (c : Chunk) (cs : List Chunk) → cid_of_chunks (c ∷ cs) ≢ []
unfolding cid_of_chunks
cid-ne-nil c cs e =
    omega (arith, ap length e, (sha256_hex (combine (chunk_hashes (hash_all_chunks (c ∷ cs))))).0)

cid_or_collision :
    (cs ds : List Chunk)
    → cid_of_chunks cs ≡ cid_of_chunks ds
    → (write_chunks cs ≡ write_chunks ds) ⊎ Collision (HashedFor cs) (HashedFor ds)
unfolding cid_of_chunks
cid_or_collision [] [] e = inl refl
cid_or_collision [] (d ∷ ds) e = absurd (cid-ne-nil d ds (sym e))
cid_or_collision (c ∷ cs) [] e = absurd (cid-ne-nil c cs e)
cid_or_collision (c ∷ cs) (d ∷ ds) e = root_or_collision (c ∷ cs) (d ∷ ds) e

compute_cid_step :
    (f : Bytes) → compute_cid (some f) ≡ cid_of_chunks (split_file_into_chunks (some f))
unfolding compute_cid
compute_cid_step f = refl

-- `verify_files` compares two CIDs. If they are equal, the files are equal byte for byte, or among the
-- texts that the two runs hash, the chunks of each file and the joined hashes of its chunks, there is
-- one of the first file and another one of the second with the same SHA-256 digest.
pub compute_cid-eq :
    (f g : Bytes) → compute_cid (some f) ≡ compute_cid (some g) → (f ≡ g) ⊎ CidCollision f g
compute_cid-eq f g e =
    subst₂ (λ x y. (x ≡ y) ⊎ CidCollision f g) (write_chunks-split f) (write_chunks-split g)
      (cid_or_collision (split_file_into_chunks (some f)) (split_file_into_chunks (some g))
        (sym (compute_cid_step f) ∙ e ∙ compute_cid_step g))

cid_form :
    (cs : List Chunk)
    → (cs ≡ []) ⊎ ((length (cid_of_chunks cs) ≡ 64) × All IsHexDigit (cid_of_chunks cs))
unfolding cid_of_chunks compute_root_hash
cid_form [] = inl refl
cid_form (c ∷ cs) = inr (sha256_hex (combine (chunk_hashes (hash_all_chunks (c ∷ cs)))))

-- The CID of a file with a byte in it is 64 hexadecimal digits.
pub compute_cid_hex :
    (f : Bytes)
    → f ≢ []
    → (length (compute_cid (some f)) ≡ 64) × All IsHexDigit (compute_cid (some f))
compute_cid_hex f some_byte = elim (cid_form (split_file_into_chunks (some f))) [
  | inl empty ↦
      absurd (
        some_byte
          (sym (write_chunks-split f) ∙ ap write_chunks empty ∙ unfold write_chunks in refl))
  | inr digits ↦ rw (compute_cid_step f) digits
]
