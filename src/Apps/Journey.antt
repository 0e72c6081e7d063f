-- ===== src/Apps/Journey.antt =====
-- A file on its way through the programs: uploaded, downloaded and verified.
use distributed_file_storage.Base.{
  ℕ, ◌≡◌, ◌≢◌, ◌⊎◌, inl, inr, refl, ap, ◌∙◌, true, Bool, Bool-cases, Option, none, some, List, [],
  ◌∷◌, Bytes, codes, All, arith, length,
}
use distributed_file_storage.Apps.{
  FileTree, write_file, compare_cids, verify_files, exits, after_upload, after_download, run_client,
}
use distributed_file_storage.Base.Int.{pos}
use distributed_file_storage.Client.Completion.{upload_file_complete}
use distributed_file_storage.Client.Download.{Client, download_file}
use distributed_file_storage.Client.RoundTrip.{upload_file_then_download}
use distributed_file_storage.Client.Route.{PutFits, IsChainOf}
use distributed_file_storage.Client.Running.{RunsAt, RunsAt-Readable}
use distributed_file_storage.Client.Upload.{base_name, upload_file}
use distributed_file_storage.Cluster.{Cluster}
use distributed_file_storage.Cluster.Chunks.{ContentAddressed}
use distributed_file_storage.Dht.Lookup.{IsRing}
use distributed_file_storage.Dht.Ring.{get_all_nodes}
use distributed_file_storage.Files.{split_file_into_chunks}
use distributed_file_storage.Streams.Numbers.{Fits}
use distributed_file_storage.Streams.Words.{IsWord}
use distributed_file_storage.Base.Equality.{◌==◌, Bytes_eq, bytes_eq, bytes_eq_iff, eq_refl}
use distributed_file_storage.Hashing.{compute_cid}
use distributed_file_storage.Hashing.Cid.{
  CidCollision, WrittenCollision, compute_cid-eq, compute_cid_hex,
}

compare_cids-zero : (s t : Bytes) → compare_cids s t ≡ 0 → (s ≢ []) × (s ≡ t)
compare_cids-zero [] t e = cc
compare_cids-zero (o ∷ s) [] e = cc
compare_cids-zero (o ∷ s) (r ∷ t) e = elim (Bool-cases ((o ∷ s) == (r ∷ t))) [
  | inl same ↦ (λ x. cc, (bytes_eq_iff (o ∷ s) (r ∷ t)).0 same)
  | inr differ ↦ cc (rw differ at e)
]

compare_cids_self : (s : Bytes) → s ≢ [] → compare_cids s s ≡ 0
compare_cids_self [] h = absurd (h refl)
compare_cids_self (o ∷ s) h = rw (eq_refl (o ∷ s))

no_cid : compute_cid none ≡ []
unfolding compute_cid
no_cid = refl

-- There are two files.
two_files :
    (o r : Option Bytes)
    → compare_cids (compute_cid o) (compute_cid r) ≡ 0
    → (f : Bytes) × (g : Bytes) × (o ≡ some f) × (r ≡ some g) × ((f ≡ g) ⊎ CidCollision f g)
two_files none r e = absurd ((compare_cids-zero _ _ e).0 no_cid)
two_files (some f) none e =
    absurd ((compare_cids-zero _ _ e).0 ((compare_cids-zero _ _ e).1 ∙ no_cid))
two_files (some f) (some g) e = (f, g, refl, refl, compute_cid-eq f g (compare_cids-zero _ _ e).1)

-- `verify_files` returns 0 only if it was given two paths and there is a file at both, and then the
-- two files are equal, or the two runs hash two different texts to one SHA-256 digest.
pub verify_files-zero :
    (argv : List Bytes) (files : FileTree)
    → verify_files argv files ≡ 0
    → (original : Bytes) × (reconstructed : Bytes) × (f : Bytes) × (g : Bytes) × (argv
        ≡ original ∷ reconstructed ∷ [])
      × (files original ≡ some f)
      × (files reconstructed ≡ some g)
      × ((f ≡ g) ⊎ CidCollision f g)
unfolding verify_files
verify_files-zero [] files e = cc
verify_files-zero (o ∷ []) files e = cc
verify_files-zero (o ∷ r ∷ m ∷ rest) files e = cc
verify_files-zero (o ∷ r ∷ []) files e =
    let (f, g, here, there, same) = two_files (files o) (files r) e in
    (o, r, f, g, refl, here, there, same)

-- It returns 0 for two paths with one file that is not empty.
pub verify_files_same :
    (original reconstructed f : Bytes) (files : FileTree)
    → f ≢ []
    → files original ≡ some f
    → files reconstructed ≡ some f
    → verify_files (original ∷ reconstructed ∷ []) files ≡ 0
unfolding verify_files
verify_files_same original reconstructed f files some_byte here there =
    rw (here, there)
      (compare_cids_self (compute_cid (some f))
        λ e. omega (arith, ap length e, (compute_cid_hex f some_byte).0))

run_client_upload :
    (fuel : ℕ) (client : Client) (path : Bytes) (writable : Bytes → Bool) (files : FileTree)
    (c : Cluster)
    → run_client fuel client (codes "upload" ∷ path ∷ []) writable files c
      ≡ after_upload files (upload_file fuel client path (files path) c)
unfolding run_client bytes_eq
run_client_upload fuel client path writable files c = refl

run_client_download :
    (fuel : ℕ) (client : Client) (name path : Bytes) (writable : Bytes → Bool) (files : FileTree)
    (c : Cluster)
    → run_client fuel client (codes "download" ∷ name ∷ path ∷ []) writable files c
      ≡ after_download path files c (download_file client name (writable path) c)
unfolding run_client bytes_eq
run_client_download fuel client name path writable files c = refl

write_file_self :
    (path contents : Bytes) (files : FileTree) → write_file path contents files path ≡ some contents
write_file_self path contents files = rw (eq_refl path)

write_file_same :
    (path other contents : Bytes) (files : FileTree)
    → files other ≡ some contents
    → write_file path contents files other ≡ some contents
write_file_same path other contents files h = elim (Bool-cases (path == other)) [
  | inl e ↦ rw e refl
  | inr e ↦ rw e h
]

-- The user uploads a file and downloads it under its name: the files after that.
abbrev pub fetched : ℕ → Client → Bytes → Bytes → (Bytes → Bool) → FileTree → Cluster → FileTree
fetched fuel client path output writable files c =
    let up = run_client fuel client (codes "upload" ∷ path ∷ []) writable files c in
    (run_client fuel client (codes "download" ∷ base_name path ∷ output ∷ []) writable up.files
      up.cluster).files

-- And verifies the two.
abbrev pub journey : ℕ → Client → Bytes → Bytes → (Bytes → Bool) → FileTree → Cluster → ℕ
journey fuel client path output writable files c =
    verify_files (path ∷ output ∷ []) (fetched fuel client path output writable files c)

-- A file with a byte in it is uploaded, downloaded and verified, each by its program: a file is
-- written, and `verify_files` returns 0, or a part of what was written and a chunk of the file
-- differ and have one SHA-256 digest. A running storage node is to listen at every address of the
-- ring, of which there is one at least, and to have every chunk under its hash, the metadata nodes
-- are to be a chain with its head first and its end last in the client's list, the name is to be a
-- word, the size and the number of chunks to fit their types, the PUT of the metadata to be below 4
-- GiB, and the output file is to be one that can be created.
pub journey_verified :
    (fuel : ℕ) (client : Client) (path output f : Bytes) (writable : Bytes → Bool)
    (files : FileTree) (c : Cluster)
    → f ≢ []
    → files path ≡ some f
    → writable output ≡ true
    → IsWord (base_name path)
    → Fits 64 (pos (length f))
    → Fits 32 (pos (length (split_file_into_chunks (some f))))
    → PutFits path f
    → IsRing client.dht
    → client.dht ≢ []
    → All (RunsAt c) (get_all_nodes client.dht)
    → ContentAddressed c
    → IsChainOf fuel client.metadata_nodes c.metadata_nodes
    → (g : Bytes) × (fetched fuel client path output writable files c output ≡ some g)
      × ((journey fuel client path output writable files c ≡ 0) ⊎ WrittenCollision g f)
journey_verified fuel client path output f writable files c some_byte here created name size total
      frame ring some_node up addressed chain =
    let (d, uploaded) =
      upload_file_complete fuel client path f c some_byte name size total frame ring some_node up
        chain in
    let (g, downloaded, same) =
      upload_file_then_download fuel client path f c d some_byte name size total frame
        (RunsAt-Readable c (get_all_nodes client.dht) up) addressed chain uploaded in
    let first : run_client fuel client (codes "upload" ∷ path ∷ []) writable files c
        ≡ exits 0 files d =
      run_client_upload fuel client path writable files c
      ∙ ap (λ o. after_upload files (upload_file fuel client path o c)) here
      ∙ ap (after_upload files) uploaded in
    let second : run_client fuel client (codes "download" ∷ base_name path ∷ output ∷ []) writable
          files d
        ≡ exits 0 (write_file output g files) d =
      run_client_download fuel client (base_name path) output writable files d
      ∙ ap (λ w. after_download output files d (download_file client (base_name path) w d)) created
      ∙ ap (after_download output files d) downloaded in
    let after : fetched fuel client path output writable files c ≡ write_file output g files =
      ap
        (λ r.
          (run_client fuel client (codes "download" ∷ base_name path ∷ output ∷ []) writable r.files
            r.cluster).files)
        first
      ∙ ap (λ r. r.files) second in
    let there = ap (λ t. t output) after ∙ write_file_self output g files in
    elim same [
      | inr collision ↦ (g, there, inr collision)
      | inl equal ↦ (
        g,
        there,
        inl (
            ap (verify_files (path ∷ output ∷ [])) after
            ∙ ap (λ x. verify_files (path ∷ output ∷ []) (write_file output x files)) equal
            ∙ verify_files_same path output f (write_file output f files) some_byte
                (write_file_same output path f files here) (write_file_self output f files)),
      )
    ]
