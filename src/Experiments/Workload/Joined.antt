-- ===== src/Experiments/Workload/Joined.antt =====
-- Clients that take all their steps come to their end.
use distributed_file_storage.Base.{
  ℕ, zero, suc, ◌<◌, ◌≡◌, refl, sym, ap, ◌∙◌, Bool, false, Bool-cases, inl, inr, Option, none, some,
  List, [], ◌∷◌, ◌++◌, Bytes, arith,
}
use distributed_file_storage.Base.Equality.{◌==◌, ℕ_eq, eq_refl}
use distributed_file_storage.Client.Download.{Outcome, went_on, returned, threw}
use distributed_file_storage.Client.Upload.{Ending, gives, returns, throwing}
use distributed_file_storage.Experiments.Workload.{
  ClientProgress, fresh, uploaded, over, Workload, ClientStep, uploads, downloads, behind_upload,
  behind_download, upload_step, download_step, client_step, run_threads, with_file, upload_of,
}

-- Each client in its turn uploads, and then downloads.
abbrev pub one_by_one : ℕ → List ClientStep
one_by_one zero = []
one_by_one (suc k) = one_by_one k ++ uploads k 0 ∷ downloads k 0 ∷ []

run_threads-append :
    (fuel : ℕ) (writable : Bytes → Bool) (contents : Bytes) (steps more : List ClientStep)
    (w : Workload)
    → run_threads fuel writable contents (steps ++ more) w
      ≡ run_threads fuel writable contents more (run_threads fuel writable contents steps w)
unfolding run_threads
run_threads-append fuel writable contents [] more w = refl
run_threads-append fuel writable contents (step ∷ steps) more w =
    run_threads-append fuel writable contents steps more (client_step fuel writable contents step w)

-- A client that is not fresh, at its end or behind its upload.
abbrev HasUploaded : ClientProgress → Type 0
HasUploaded fresh = ⊥
HasUploaded (uploaded up) = Unit
HasUploaded over = Unit

behind_upload_self :
    (i time : ℕ) (w : Workload) (ending : Ending Bool)
    → HasUploaded ((behind_upload i time w ending).progress i)
behind_upload_self i time w (gives complete c) = rw (eq_refl i) tt
behind_upload_self i time w (returns c) = rw (eq_refl i) tt
behind_upload_self i time w (throwing c) = rw (eq_refl i) tt

behind_download_self :
    (i up time : ℕ) (w : Workload) (outcome : Outcome (Option Bytes))
    → (behind_download i up time w outcome).progress i ≡ over
behind_download_self i up time w (went_on none) = rw (eq_refl i) refl
behind_download_self i up time w (went_on (some contents)) = rw (eq_refl i) refl
behind_download_self i up time w returned = rw (eq_refl i) refl
behind_download_self i up time w threw = rw (eq_refl i) refl

behind_upload_other :
    (i j time : ℕ) (w : Workload) (ending : Ending Bool)
    → (i == j) ≡ false
    → (behind_upload i time w ending).progress j ≡ w.progress j
behind_upload_other i j time w (gives complete c) apart = rw apart
behind_upload_other i j time w (returns c) apart = rw apart
behind_upload_other i j time w (throwing c) apart = rw apart

behind_download_other :
    (i j up time : ℕ) (w : Workload) (outcome : Outcome (Option Bytes))
    → (i == j) ≡ false
    → (behind_download i up time w outcome).progress j ≡ w.progress j
behind_download_other i j up time w (went_on none) apart = rw apart
behind_download_other i j up time w (went_on (some contents)) apart = rw apart
behind_download_other i j up time w returned apart = rw apart
behind_download_other i j up time w threw apart = rw apart

module _ (fuel : ℕ) (writable : Bytes → Bool) (contents : Bytes) where
  uploads_self :
      (i time : ℕ) (w : Workload)
      → HasUploaded ((client_step fuel writable contents (uploads i time) w).progress i)
  unfolding client_step
  uploads_self i time w = of_progress (w.progress i) refl
    where
      of_progress :
          (p : ClientProgress)
          → w.progress i ≡ p
          → HasUploaded ((upload_step fuel writable contents i time w p).progress i)
      of_progress fresh at =
          behind_upload_self i time (with_file writable contents i w)
            (upload_of fuel i (with_file writable contents i w))
      of_progress (uploaded up) at = rw at tt
      of_progress over at = rw at tt

  downloads_self :
      (i time : ℕ) (w : Workload)
      → HasUploaded (w.progress i)
      → (client_step fuel writable contents (downloads i time) w).progress i ≡ over
  unfolding client_step
  downloads_self i time w h = of_progress (w.progress i) refl h
    where
      of_progress :
          (p : ClientProgress)
          → w.progress i ≡ p
          → HasUploaded p
          → (download_step writable i time w p).progress i ≡ over
      of_progress fresh at h = absurd h
      of_progress (uploaded up) at h = behind_download_self i up time w _
      of_progress over at h = at

  uploads_other :
      (i j time : ℕ) (w : Workload)
      → (i == j) ≡ false
      → (client_step fuel writable contents (uploads i time) w).progress j ≡ w.progress j
  unfolding client_step
  uploads_other i j time w apart = of_progress (w.progress i)
    where
      of_progress :
          (p : ClientProgress)
          → (upload_step fuel writable contents i time w p).progress j ≡ w.progress j
      of_progress fresh =
          behind_upload_other i j time (with_file writable contents i w)
            (upload_of fuel i (with_file writable contents i w)) apart
      of_progress (uploaded up) = refl
      of_progress over = refl

  downloads_other :
      (i j time : ℕ) (w : Workload)
      → (i == j) ≡ false
      → (client_step fuel writable contents (downloads i time) w).progress j ≡ w.progress j
  unfolding client_step
  downloads_other i j time w apart = of_progress (w.progress i)
    where
      of_progress :
          (p : ClientProgress) → (download_step writable i time w p).progress j ≡ w.progress j
      of_progress fresh = refl
      of_progress (uploaded up) = behind_download_other i j up time w _ apart
      of_progress over = refl

  run_one :
      (k : ℕ) (w : Workload)
      → run_threads fuel writable contents (uploads k 0 ∷ downloads k 0 ∷ []) w
        ≡ client_step fuel writable contents
            (downloads k 0)
            (client_step fuel writable contents (uploads k 0) w)
  unfolding run_threads
  run_one k w = refl

  -- However little the nodes answer, each client is at its end.
  pub one_by_one_over :
      (n i : ℕ) (w : Workload)
      → i < n
      → (run_threads fuel writable contents (one_by_one n) w).progress i ≡ over
  one_by_one_over zero i w h = absurd (omega arith)
  one_by_one_over (suc k) i w h =
      let before = run_threads fuel writable contents (one_by_one k) w in
      let sent = client_step fuel writable contents (uploads k 0) before in
      ap (λ x. x.progress i)
        (run_threads-append fuel writable contents (one_by_one k) (uploads k 0 ∷ downloads k 0 ∷ [])
            w
          ∙ run_one k before)
      ∙ elim (Bool-cases (k == i)) [
        | inl same ↦
            ap (client_step fuel writable contents (downloads k 0) sent).progress
              (sym ((ℕ_eq.equal_iff k i).0 same))
            ∙ downloads_self k 0 sent (uploads_self k 0 before)
        | inr apart ↦
            downloads_other k i 0 sent apart
            ∙ uploads_other k i 0 before apart
            ∙ one_by_one_over k i w (ground (arith, ℕ_eq.equal_iff k i))
      ]
