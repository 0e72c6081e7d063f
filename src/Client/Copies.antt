-- ===== src/Client/Copies.antt =====
-- The copies that an upload makes of each chunk.
use distributed_file_storage.Base.{
  ℕ, zero, suc, ◌+◌, ◌<◌, ◌≡◌, ◌⊎◌, inl, inr, refl, ap, true, false, Bool, Option, none, some, List,
  [], ◌∷◌, Bytes, All, arith, subst, if◌then◌else◌,
}
use distributed_file_storage.Base.Int.{pos}
use distributed_file_storage.Client.Address.{Address, no_colon, throws, endpoint, parse_address}
use distributed_file_storage.Client.Upload.{
  Ending, gives, returns, throwing, ◌>>=◌, upload_to, upload_chunk, upload_copies, replicas,
  some_copy, upload_chunks,
}
use distributed_file_storage.Client.Uploads.{
  left_cluster, IsHashed, upload_copies_keeps, upload_chunks_keeps,
}
use distributed_file_storage.Cluster.{Cluster, store_at}
use distributed_file_storage.Cluster.Copies.{ServedAt, store_at-ServedAt, store_at_served}
use distributed_file_storage.Dht.Ring.{Ring, get_nodes_for_key}
use distributed_file_storage.Files.{Chunk}
use distributed_file_storage.Metadata.{Link}
use distributed_file_storage.Streams.Words.{IsWord}

-- A running node listens at the address and has the chunk.
abbrev pub CopyAt : Bytes → Cluster → Address → Type 0
CopyAt hash c no_colon = ⊥
CopyAt hash c throws = ⊥
CopyAt hash c (endpoint link) = ServedAt hash c link

-- One of the addresses has a copy.
abbrev pub HasCopy : Bytes → List Bytes → Cluster → Type 0
HasCopy hash [] c = ⊥
HasCopy hash (address ∷ addresses) c =
    CopyAt hash c (parse_address address) ⊎ HasCopy hash addresses c

-- One of the two nodes that the ring names for the hash has a copy.
abbrev pub Copied : Ring → Cluster → Bytes → Type 0
Copied ring c hash =
    (nodes : List Bytes) × (get_nodes_for_key hash (pos 2) ring ≡ some nodes) × HasCopy hash nodes c

pub gives_inv {ℓ κ} :
    {A : Type ℓ} {B : Type κ} (o : Ending A) (next : A → Cluster → Ending B) (b : B) (c : Cluster)
    → (o >>= next) ≡ gives b c
    → (a : A) × (d : Cluster) × (o ≡ gives a d) × (next a d ≡ gives b c)
gives_inv (gives a d) next b c e = (a, d, refl, e)
gives_inv (returns d) next b c e = cc
gives_inv (throwing d) next b c e = cc

result {ℓ} : {A : Type ℓ} → A → Ending A → A
result d (gives a c) = a
result d (returns c) = d
result d (throwing c) = d

pub gives-injective {ℓ} :
    {A : Type ℓ} (a b : A) (c d : Cluster) → gives a c ≡ gives b d → (a ≡ b) × (c ≡ d)
unfolding result
gives-injective a b c d e = (ap (result a) e, ap left_cluster e)

module _ (hash bytes other : Bytes) (word : IsWord hash) where
  pub store_at-CopyAt :
      (link : Link) (c : Cluster) (address : Address)
      → CopyAt other c address
      → CopyAt other (store_at hash bytes link c).1 address
  store_at-CopyAt link c no_colon h = h
  store_at-CopyAt link c throws h = h
  store_at-CopyAt link c (endpoint at) h = store_at-ServedAt hash bytes other link at c word h

  store_at-HasCopy :
      (addresses : List Bytes) (link : Link) (c : Cluster)
      → HasCopy other addresses c
      → HasCopy other addresses (store_at hash bytes link c).1
  store_at-HasCopy [] link c h = h
  store_at-HasCopy (address ∷ addresses) link c (inl here) =
      inl (store_at-CopyAt link c (parse_address address) here)
  store_at-HasCopy (address ∷ addresses) link c (inr there) =
      inr (store_at-HasCopy addresses link c there)

module _ (chunk : Chunk) (word : IsWord chunk.hash) where
  pub upload_to-CopyAt :
      (address : Address) (c d : Cluster)
      → upload_to address chunk c ≡ gives true d
      → CopyAt chunk.hash d address
  upload_to-CopyAt no_colon c d e = cc (gives-injective _ _ _ _ e).0
  upload_to-CopyAt throws c d e = cc
  upload_to-CopyAt (endpoint link) c d e =
      let (ok, same) = gives-injective _ _ _ _ e in
      subst (λ x. ServedAt chunk.hash x link) same
        (store_at_served chunk.hash chunk.contents link c word ok)

  upload_copies-HasCopy :
      (addresses : List Bytes) (s t : ℕ) (c d : Cluster)
      → upload_copies chunk addresses s c ≡ gives t d
      → s < t
      → HasCopy chunk.hash addresses d
  unfolding upload_copies upload_chunk
  upload_copies-HasCopy [] s t c d e more =
      absurd (omega (arith, (gives-injective _ _ _ _ e).0, more))
  upload_copies-HasCopy (address ∷ addresses) s t c d e more =
      let (stored, c1, here, rest) = gives_inv (upload_chunk chunk address c) _ t d e in
      of_first stored c1 here rest (λ below. upload_copies-HasCopy addresses s t c1 d below more)
    where
      of_first :
          (stored : Bool) (c1 : Cluster)
          → upload_chunk chunk address c ≡ gives stored c1
          → upload_copies chunk addresses (if stored then s + 1 else s) c1 ≡ gives t d
          → (upload_copies chunk addresses s c1 ≡ gives t d → HasCopy chunk.hash addresses d)
          → HasCopy chunk.hash (address ∷ addresses) d
      of_first false c1 here rest later = inr (later rest)
      of_first true c1 here rest later = inl (
          subst (λ x. CopyAt chunk.hash x (parse_address address)) (ap left_cluster rest)
            (upload_copies_keeps (λ x. CopyAt chunk.hash x (parse_address address)) chunk
              (λ link x.
                store_at-CopyAt chunk.hash chunk.contents chunk.hash word link x
                  (parse_address address))
              addresses (s + 1) c1 (upload_to-CopyAt (parse_address address) c c1 here)))

pub some_copy-gives :
    (n : ℕ) (c d : Cluster) {done : Unit {0}} → some_copy n c ≡ gives done d → (0 < n) × (c ≡ d)
some_copy-gives zero c d e = cc
some_copy-gives (suc n) c d e = (omega arith, ap left_cluster e)

pub replicas-gives :
    (found : Option (List Bytes)) (nodes : List Bytes) (c d : Cluster)
    → replicas found c ≡ gives nodes d
    → found ≡ some nodes
replicas-gives none nodes c d e = cc
replicas-gives (some l) nodes c d e = ap some (gives-injective _ _ _ _ e).0

pub replicas-same :
    (found : Option (List Bytes)) (nodes : List Bytes) (c d : Cluster)
    → replicas found c ≡ gives nodes d
    → c ≡ d
replicas-same none nodes c d e = cc
replicas-same (some l) nodes c d e = (gives-injective _ _ _ _ e).1

-- A chunk that has a copy keeps it while further chunks are uploaded.
upload_chunks-HasCopy :
    (hash : Bytes) (nodes : List Bytes) (ring : Ring) (chunks : List Chunk) (c d : Cluster)
    → All IsHashed chunks
    → upload_chunks ring chunks c ≡ gives tt d
    → HasCopy hash nodes c
    → HasCopy hash nodes d
upload_chunks-HasCopy hash nodes ring chunks c d hashed e h =
    subst (HasCopy hash nodes) (ap left_cluster e) (
      upload_chunks_keeps (HasCopy hash nodes)
        (λ k (_, word) link x. store_at-HasCopy k.hash k.contents hash word nodes link x) ring
        chunks c hashed h)

-- When the loop of an upload over its chunks comes to its end, the ring names for each of them a
-- node that runs and has a copy.
pub upload_chunks-Copied :
    (ring : Ring) (chunks : List Chunk) (c d : Cluster)
    → All IsHashed chunks
    → upload_chunks ring chunks c ≡ gives tt d
    → All (λ chunk. Copied ring d chunk.hash) chunks
unfolding upload_chunks
upload_chunks-Copied ring [] c d hashed e = tt
upload_chunks-Copied ring (chunk ∷ chunks) c d ((hash, word), hashed) e =
    let found = get_nodes_for_key chunk.hash (pos 2) ring in
    let (nodes, c1, e1, f1) = gives_inv (replicas found c) _ tt d e in
    let (successes, c2, e2, f2) = gives_inv (upload_copies chunk nodes 0 c1) _ tt d f1 in
    let (done, c3, e3, f3) = gives_inv (some_copy successes c2) _ tt d f2 in
    let (more, same) = some_copy-gives successes c2 c3 e3 in
    let copied =
      subst (HasCopy chunk.hash nodes) same
        (upload_copies-HasCopy chunk word nodes 0 successes c1 c2 e2 more) in
    (
      (
        nodes,
        replicas-gives found nodes c c1 e1,
        upload_chunks-HasCopy chunk.hash nodes ring chunks c3 d hashed f3 copied,
      ),
      upload_chunks-Copied ring chunks c3 d hashed f3,
    )
