-- ===== src/Client/Integrity.antt =====
-- What a download can give: the file that was uploaded, and nothing else.
use distributed_file_storage.Base.{
  ℕ, ◌+◌, ◌≡◌, ◌⊎◌, inl, inr, refl, sym, ap, ◌∙◌, Bool, some, List, [], ◌∷◌, Bytes, All, length,
  subst, arith,
}
use mathlib.Core.Path.{ap₂}
use mathlib.Core.Option.{some-injective}
use distributed_file_storage.Base.Index.{take-length}
use distributed_file_storage.Base.Int.{pos}
use distributed_file_storage.Client.Address.{Address, no_colon, throws, endpoint, parse_address}
use distributed_file_storage.Client.Download.{
  Client, Outcome, went_on, returned, threw, ◌>>=◌, or_throw, chunk_at, download_chunk, or_rest,
  first_copy, chunk_with, chunk_of, download_chunks, find_metadata, backwards, download_file,
}
use distributed_file_storage.Cluster.{Cluster}
use distributed_file_storage.Cluster.Chunks.{ContentAddressed, fetch_at-sha256}
use distributed_file_storage.Dht.Ring.{Ring, get_nodes_for_key}
use distributed_file_storage.Files.{Chunk, split_file_into_chunks, reconstruct_file}
use distributed_file_storage.Files.Order.{
  Numbered, reconstruct_file-Numbered, reconstruct_file_written,
}
use distributed_file_storage.Files.RoundTrip.{write_chunks-split}
use distributed_file_storage.Hashing.{hash_all_chunks, chunk_hashes}
use distributed_file_storage.Hashing.Cid.{
  WrittenCollision, PartOf, ChunkOf-PartOf, weaken, same_chunks_or_collision,
}
use distributed_file_storage.Hashing.Digests.{chunk_hashes-IsWord}
use distributed_file_storage.Metadata.{FileMetadata}
use distributed_file_storage.Sha256.{sha256}
use distributed_file_storage.Streams.Words.{IsWord}

-- A chain that goes on went on at each of its parts.
pub went_on_inv {ℓ κ} :
    {A : Type ℓ} {B : Type κ} (o : Outcome A) (next : A → Outcome B) (b : B)
    → (o >>= next) ≡ went_on b
    → (a : A) × (o ≡ went_on a) × (next a ≡ went_on b)
went_on_inv (went_on a) next b e = (a, refl, e)
went_on_inv returned next b e = cc
went_on_inv threw next b e = cc

payload {ℓ} : {A : Type ℓ} → A → Outcome A → A
payload a (went_on b) = b
payload a returned = a
payload a threw = a

pub went_on-injective {ℓ} : {A : Type ℓ} (a b : A) → went_on a ≡ went_on b → a ≡ b
unfolding payload
went_on-injective a b e = ap (payload a) e

module _ (hash : Bytes) (c : Cluster) (word : IsWord hash) (addressed : ContentAddressed c) where
  chunk_at-sha256 :
      (address : Address) (b : ℕ) (bytes : Bytes)
      → chunk_at address hash c ≡ went_on (b ∷ bytes)
      → sha256 (b ∷ bytes) ≡ hash
  chunk_at-sha256 no_colon b bytes e = cc
  chunk_at-sha256 throws b bytes e = cc
  chunk_at-sha256 (endpoint link) b bytes e =
      fetch_at-sha256 hash b bytes link c word addressed (went_on-injective _ _ e)

  download_chunk-sha256 :
      (address : Bytes) (b : ℕ) (bytes : Bytes)
      → download_chunk hash address c ≡ went_on (b ∷ bytes)
      → sha256 (b ∷ bytes) ≡ hash
  unfolding download_chunk
  download_chunk-sha256 address b bytes e = chunk_at-sha256 (parse_address address) b bytes e

  of_first :
      (first : Bytes) (others : Outcome Bytes) (b : ℕ) (bytes : Bytes)
      → ((d : ℕ) (ds : Bytes) → went_on first ≡ went_on (d ∷ ds) → sha256 (d ∷ ds) ≡ hash)
      → (others ≡ went_on (b ∷ bytes) → sha256 (b ∷ bytes) ≡ hash)
      → or_rest first others ≡ went_on (b ∷ bytes)
      → sha256 (b ∷ bytes) ≡ hash
  of_first [] others b bytes here later e = later e
  of_first (d ∷ ds) others b bytes here later e = here b bytes e

  first_copy-sha256 :
      (addresses : List Bytes) (b : ℕ) (bytes : Bytes)
      → first_copy addresses hash c ≡ went_on (b ∷ bytes)
      → sha256 (b ∷ bytes) ≡ hash
  unfolding first_copy
  first_copy-sha256 [] b bytes e = cc
  first_copy-sha256 (address ∷ addresses) b bytes e =
      let (first, found, rest) = went_on_inv (download_chunk hash address c) _ _ e in
      of_first first (first_copy addresses hash c) b bytes
        (λ d ds found'. download_chunk-sha256 address d ds (found ∙ found'))
        (first_copy-sha256 addresses b bytes) rest

hashed_chunk :
    (index : ℕ) (hash bytes : Bytes) (rest : List Chunk) (hashes : List Bytes)
    → sha256 bytes ≡ hash
    → chunk_hashes (hash_all_chunks rest) ≡ hashes
    → chunk_hashes (hash_all_chunks (chunk_with index hash bytes ∷ rest)) ≡ hash ∷ hashes
unfolding hash_all_chunks chunk_hashes
hashed_chunk index hash bytes rest hashes intact tails =
    ap₂ (λ h l. h ∷ l) (ap sha256 (take-length (length bytes) bytes (omega arith)) ∙ intact) tails

pub no_hashes : chunk_hashes (hash_all_chunks []) ≡ []
unfolding hash_all_chunks chunk_hashes
no_hashes = refl

chunk_of-went_on :
    (index : ℕ) (hash bytes : Bytes) (chunk : Chunk)
    → chunk_of index hash bytes ≡ went_on chunk
    → (b : ℕ) × (bs : Bytes) × (bytes ≡ b ∷ bs) × (chunk ≡ chunk_with index hash (b ∷ bs))
chunk_of-went_on index hash [] chunk e = cc
chunk_of-went_on index hash (b ∷ bytes) chunk e = (b, bytes, refl, sym (went_on-injective _ _ e))

-- The chunks that a download gathers from a content-addressed cluster have the hashes that were
-- asked for, and are numbered in order.
pub download_chunks-hashes :
    (ring : Ring) (index : ℕ) (hashes : List Bytes) (c : Cluster) (chunks : List Chunk)
    → All IsWord hashes
    → ContentAddressed c
    → download_chunks ring index hashes c ≡ went_on chunks
    → (chunk_hashes (hash_all_chunks chunks) ≡ hashes) × Numbered index chunks
unfolding download_chunks
download_chunks-hashes ring index [] c chunks words addressed e =
    subst (λ l. (chunk_hashes (hash_all_chunks l) ≡ []) × Numbered index l)
      (went_on-injective _ _ e) (no_hashes, tt)
download_chunks-hashes ring index (hash ∷ hashes) c chunks (word, words) addressed e =
    let (nodes, _, e1) = went_on_inv (or_throw (get_nodes_for_key hash (pos 2) ring)) _ _ e in
    let (bytes, copied, e2) = went_on_inv (first_copy nodes hash c) _ _ e1 in
    let (chunk, made, e3) = went_on_inv (chunk_of index hash bytes) _ _ e2 in
    let (rest, later, e4) = went_on_inv (download_chunks ring (index + 1) hashes c) _ _ e3 in
    let (b, bs, some_byte, same) = chunk_of-went_on index hash bytes chunk made in
    let intact =
      first_copy-sha256 hash c word addressed nodes b bs (copied ∙ ap went_on some_byte) in
    let (tail_hashes, numbered) =
      download_chunks-hashes ring (index + 1) hashes c rest words addressed later in
    subst (λ l. (chunk_hashes (hash_all_chunks l) ≡ hash ∷ hashes) × Numbered index l)
      (went_on-injective _ _ e4)
      (rw same (hashed_chunk index hash (b ∷ bs) rest hashes intact tail_hashes, (refl, numbered)))

-- The bytes that are written for chunks with the hashes of a file.
written_or_collision :
    (writable : Bool) (f g : Bytes) (chunks : List Chunk)
    → Numbered 0 chunks
    → chunk_hashes (hash_all_chunks chunks)
      ≡ chunk_hashes (hash_all_chunks (split_file_into_chunks (some f)))
    → reconstruct_file writable chunks ≡ some g
    → (g ≡ f) ⊎ WrittenCollision g f
written_or_collision writable f g [] n e w =
    absurd (((reconstruct_file_written writable []).0 (λ x. cc)).1 refl)
written_or_collision writable f g (x ∷ chunks) n e w =
    let opened = ((reconstruct_file_written writable (x ∷ chunks)).0 (λ x. cc)).0 in
    let written = some-injective _ _ (
      sym (reconstruct_file-Numbered x chunks n)
      ∙ ap (λ o. reconstruct_file o (x ∷ chunks)) (sym opened)
      ∙ w) in
    let split = split_file_into_chunks (some f) in
    elim (same_chunks_or_collision (x ∷ chunks) split e) [
      | inl same ↦ inl (sym written ∙ same ∙ write_chunks-split f)
      | inr c ↦ inr (
          weaken (λ y h. subst (λ l. PartOf l y) written (ChunkOf-PartOf (x ∷ chunks) y h))
            (λ y h. h) c)
    ]

-- Downloading, from nodes that have every chunk under its hash, a file whose metadata lists the
-- hashes of the chunks of `f`: if a file is written, its bytes are those of `f`, or a part of what is
-- written and a chunk of `f` differ and have one SHA-256 digest. Any node may have failed, and a copy
-- may be missing.
pub download_file_intact :
    (client : Client) (filename f g : Bytes) (writable : Bool) (c : Cluster) (meta : FileMetadata)
    → ContentAddressed c
    → find_metadata (backwards client.metadata_nodes []) filename c ≡ went_on meta
    → meta.chunk_hashes ≡ chunk_hashes (hash_all_chunks (split_file_into_chunks (some f)))
    → download_file client filename writable c ≡ went_on (some g)
    → (g ≡ f) ⊎ WrittenCollision g f
unfolding download_file
download_file_intact client filename f g writable c meta addressed known listed e =
    let (found, known', e1) =
      went_on_inv (find_metadata (backwards client.metadata_nodes []) filename c) _ _ e in
    let (chunks, gathered, e2) =
      went_on_inv (download_chunks client.dht 0 found.chunk_hashes c) _ _ e1 in
    let same = went_on-injective _ _ (sym known' ∙ known) in
    let hashes = ap (λ m. m.chunk_hashes) same ∙ listed in
    let words =
      subst (All IsWord) (sym hashes) (chunk_hashes-IsWord (split_file_into_chunks (some f))) in
    let (of_hashes, numbered) =
      download_chunks-hashes client.dht 0 found.chunk_hashes c chunks words addressed gathered in
    written_or_collision writable f g chunks numbered (of_hashes ∙ hashes)
      (went_on-injective _ _ e2)
