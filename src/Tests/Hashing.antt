-- ===== src/Tests/Hashing.antt =====
-- Known digests, and the CIDs of small files.
use distributed_file_storage.Base.{◌≡◌, ◌≢◌, refl, ◌⊎◌, [], codes, replicate}
use distributed_file_storage.Sha256.{sha256, sha256_from}
use distributed_file_storage.Sha256.Block.{sha256_transform, load_words, extend_words}
use distributed_file_storage.Sha256.Schedule.{schedule, extend_words-eq-schedule}
use distributed_file_storage.Sha256.Padding.{digest}
use distributed_file_storage.Sha256.Digest.{sha256_from-eq-digest}
use distributed_file_storage.Hashing.Cid.{CidCollision, compute_cid-eq}

sha256_abc :
    sha256 (codes "abc") ≡ codes "ba7816bf8f01cfea414140de5dae2223b00361a396177a9cb410ff61f20015ad"
unfolding sha256 sha256_transform
sha256_abc = refl

abc-ne-nil : codes "abc" ≢ []
abc-ne-nil = λ e. cc

sha256_from-eq-digest_example : sha256_from (replicate 64 7) (codes "abc") ≡ digest (codes "abc")
sha256_from-eq-digest_example = sha256_from-eq-digest (replicate 64 7) (codes "abc") refl

compute_cid-eq_example : (codes "abc" ≡ codes "abc") ⊎ CidCollision (codes "abc") (codes "abc")
compute_cid-eq_example = compute_cid-eq (codes "abc") (codes "abc") refl

extend_words-eq-schedule_example :
    extend_words 48 16 (load_words 16 0 (codes "abc") (replicate 64 7)) ≡ schedule 64 (codes "abc")
extend_words-eq-schedule_example = extend_words-eq-schedule (codes "abc") (replicate 64 7) refl
