-- ===== src/Streams/Words.antt =====
-- Reading a word that was written.
use distributed_file_storage.Base.{
  ℕ, ◌≡◌, ◌≢◌, refl, Bool, true, false, some, [], ◌∷◌, ◌++◌, Bytes, All,
}
use distributed_file_storage.Streams.{is_space, not_space, skip_spaces, span, read_word}

-- A text that `>>` reads in one go: not empty, and without white space.
pub record IsWord (w : Bytes) : Type 0 where
  pub some_letter : w ≢ []
  pub letters : All (λ c. is_space c ≡ false) w

pub span-append :
    (wanted : ℕ → Bool) (w : Bytes) (c : ℕ) (s : Bytes)
    → All (λ x. wanted x ≡ true) w
    → wanted c ≡ false
    → span wanted (w ++ c ∷ s) ≡ (w, c ∷ s)
unfolding span
span-append wanted [] c s h stop = rw stop refl
span-append wanted (x ∷ w) c s (hx, h) stop = rw (span-append wanted w c s h stop, hx) refl

pub span-All :
    (wanted : ℕ → Bool) (w : Bytes) → All (λ x. wanted x ≡ true) w → span wanted w ≡ (w, [])
unfolding span
span-All wanted [] h = refl
span-All wanted (x ∷ w) (hx, h) = rw (span-All wanted w h, hx) refl

not_space-All : (w : Bytes) → All (λ c. is_space c ≡ false) w → All (λ c. not_space c ≡ true) w
not_space-All [] h = tt
not_space-All (c ∷ w) (hc, h) = (rw hc refl, not_space-All w h)

-- White space in front of a word is skipped.
pub skip_spaces-space : (s : Bytes) → skip_spaces (b' ' ∷ s) ≡ skip_spaces s
unfolding skip_spaces
skip_spaces-space s = refl

pub skip_spaces-letter : (c : ℕ) (s : Bytes) → is_space c ≡ false → skip_spaces (c ∷ s) ≡ c ∷ s
unfolding skip_spaces
skip_spaces-letter c s h = rw h refl

pub read_word-space : (s : Bytes) → read_word (b' ' ∷ s) ≡ read_word s
unfolding read_word
read_word-space s = refl

pub read_word-append : (w s : Bytes) → IsWord w → read_word (w ++ b' ' ∷ s) ≡ some (w, b' ' ∷ s)
unfolding read_word
read_word-append [] s h = absurd (h.some_letter refl)
read_word-append (c ∷ w) s h =
    rw (skip_spaces-letter c (w ++ b' ' ∷ s) h.letters.0)
      (rw (span-append not_space (c ∷ w) b' ' s (not_space-All (c ∷ w) h.letters) refl) refl)

pub read_word_last : (w : Bytes) → IsWord w → read_word w ≡ some (w, [])
unfolding read_word
read_word_last [] h = absurd (h.some_letter refl)
read_word_last (c ∷ w) h =
    rw (skip_spaces-letter c w h.letters.0)
      (rw (span-All not_space (c ∷ w) (not_space-All (c ∷ w) h.letters)) refl)
