-- ===== src/Streams/Fields.antt =====
-- Reading a list of hashes that was written.
use distributed_file_storage.Base.{
  ◌≡◌, ◌≢◌, refl, sym, ap, ◌∙◌, false, List, [], ◌∷◌, ◌++◌, append-nil, append_assoc, Bytes, All,
}
use distributed_file_storage.Base.Tests.{◌==◌}
use distributed_file_storage.Streams.{push_hash, split_hashes, join_hashes}

-- A hash that a comma may follow: not empty, and without a comma.
pub record IsField (h : Bytes) : Type 0 where
  pub some_letter : h ≢ []
  pub letters : All (λ c. (c == b',') ≡ false) h

push_hash-cons : (h : Bytes) (hashes : List Bytes) → h ≢ [] → push_hash h hashes ≡ h ∷ hashes
push_hash-cons [] hashes e = absurd (e refl)
push_hash-cons (c ∷ h) hashes e = refl

split_hashes-append :
    (g h s : Bytes)
    → All (λ c. (c == b',') ≡ false) h
    → split_hashes g (h ++ s) ≡ split_hashes (g ++ h) s
unfolding split_hashes
split_hashes-append g [] s e = rw (append-nil g) refl
split_hashes-append g (c ∷ h) s (ec, e) =
    rw ec (split_hashes-append (g ++ c ∷ []) h s e ∙ rw (append_assoc g (c ∷ []) h) refl)

split_hashes-comma : (h s : Bytes) → split_hashes h (b',' ∷ s) ≡ push_hash h (split_hashes [] s)
unfolding split_hashes
split_hashes-comma h s = refl

split_hashes-nil : (h : Bytes) → split_hashes h [] ≡ push_hash h []
unfolding split_hashes
split_hashes-nil h = refl

-- Hashes that are not empty and have no comma in them are split again when they have been joined
-- with commas.
pub split_hashes-join_hashes :
    (hashes : List Bytes) → All IsField hashes → split_hashes [] (join_hashes hashes) ≡ hashes
unfolding join_hashes
split_hashes-join_hashes [] e = split_hashes-nil []
split_hashes-join_hashes (h ∷ []) (eh, e) =
    ap (split_hashes []) (sym (append-nil h))
    ∙ split_hashes-append [] h [] eh.letters
    ∙ split_hashes-nil h
    ∙ push_hash-cons h [] eh.some_letter
split_hashes-join_hashes (h ∷ g ∷ hashes) (eh, e) =
    split_hashes-append [] h (b',' ∷ join_hashes (g ∷ hashes)) eh.letters
    ∙ split_hashes-comma h (join_hashes (g ∷ hashes))
    ∙ push_hash-cons h _ eh.some_letter
    ∙ ap (λ t. h ∷ t) (split_hashes-join_hashes (g ∷ hashes) e)
