-- ===== src/Experiments/Workload/Tally.antt =====
-- What the vectors of a workload hold, step by step.
use distributed_file_storage.Apps.{main_client}
use distributed_file_storage.Base.{
  ℕ, zero, suc, ◌+◌, ◌≤◌, ◌<◌, ◌≡◌, ◌≢◌, refl, ap, Bool, true, false, Bool-cases, inl, inr, ltb,
  ltb→lt, Option, none, some, List, [], ◌∷◌, ◌++◌, Bytes, length, length-append, arith,
  if◌then◌else◌,
}
use distributed_file_storage.Base.Equality.{◌==◌, ℕ_eq}
use distributed_file_storage.Client.Download.{Outcome, went_on, returned, threw, download_file}
use distributed_file_storage.Client.Exceptions.{NoThrow, NoThrowOutcome}
use distributed_file_storage.Client.Exceptions.Calls.{upload_download-NoThrow}
use distributed_file_storage.Client.Upload.{Ending, gives, returns, throwing}
use distributed_file_storage.Experiments.Journeys.{main_client-IsConfigured}
use distributed_file_storage.Experiments.Workload.{with_file, upload_of}
use distributed_file_storage.Experiments.Workload.{
  ClientProgress, fresh, uploaded, over, Workload, ClientStep, uploads, downloads, file_name,
  out_name, progress_to, behind_upload, finish_client, behind_download, upload_step, download_step,
  client_step, run_threads, count_true,
}

abbrev pub is_over : ClientProgress → ℕ
is_over fresh = 0
is_over (uploaded up) = 0
is_over over = 1

-- How many of the clients below `n` have come to their end.
abbrev pub count_over : ℕ → (ℕ → ClientProgress) → ℕ
count_over zero progress = 0
count_over (suc k) progress = count_over k progress + is_over (progress k)

abbrev changed : ℕ → ClientProgress → (ℕ → ClientProgress) → ℕ → ClientProgress
changed i p progress other = if i == other then p else progress other

count_over-changed_above :
    (n i : ℕ) (p : ClientProgress) (progress : ℕ → ClientProgress)
    → n ≤ i
    → count_over n (changed i p progress) ≡ count_over n progress
count_over-changed_above zero i p progress h = refl
count_over-changed_above (suc k) i p progress h = elim (Bool-cases (i == k)) [
  | inl same ↦ absurd (omega (arith, (ℕ_eq.equal_iff i k).0 same))
  | inr apart ↦
      rw apart
        (ap (λ c. c + is_over (progress k)) (count_over-changed_above k i p progress (omega arith)))
]

-- A client that goes on changes the count by what it does itself.
count_over-changed :
    (n i : ℕ) (p : ClientProgress) (progress : ℕ → ClientProgress)
    → i < n
    → count_over n (changed i p progress) + is_over (progress i) ≡ count_over n progress + is_over p
count_over-changed zero i p progress h = absurd (omega arith)
count_over-changed (suc k) i p progress h = elim (Bool-cases (i == k)) [
  | inl same ↦
      let here = (ℕ_eq.equal_iff i k).0 same in
      rw (same, here) (omega (arith, count_over-changed_above k k p progress (omega arith), here))
  | inr apart ↦
      let below = count_over-changed k i p progress (ground (arith, ℕ_eq.equal_iff i k)) in
      rw apart (omega (arith, below))
]

-- Each client that has come to its end has left a `true`, and a latency of each kind.
pub record IsTallied (n : ℕ) (w : Workload) : Type 0 where
  pub paired : length w.upload_latencies ≡ length w.download_latencies
  pub all_true : count_true w.successes ≡ length w.upload_latencies
  pub ended : count_true w.successes ≡ count_over n w.progress
  pub others_over : (i : ℕ) → n ≤ i → w.progress i ≡ over

not_over-lt : (n i : ℕ) (w : Workload) → IsTallied n w → w.progress i ≢ over → i < n
not_over-lt n i w h runs = elim (Bool-cases (ltb i n)) [
  | inl below ↦ ltb→lt i n below
  | inr above ↦ absurd (runs (h.others_over i (ground arith)))
]

-- The client goes on, or comes to its end with its entries in the vectors.
progress_to-over :
    (n i j : ℕ) (p : ClientProgress) (w : Workload)
    → IsTallied n w
    → i < n
    → n ≤ j
    → (progress_to i p w).progress j ≡ over
progress_to-over n i j p w h below above = elim (Bool-cases (i == j)) [
  | inl same ↦ absurd (omega (arith, (ℕ_eq.equal_iff i j).0 same))
  | inr apart ↦ rw apart (h.others_over j above)
]

uploaded-IsTallied :
    (n i up : ℕ) (w : Workload)
    → w.progress i ≡ fresh
    → IsTallied n w
    → IsTallied n (progress_to i (uploaded up) w)
uploaded-IsTallied n i up w at h =
    let below = not_over-lt n i w h λ e. cc in
    let count = count_over-changed n i (uploaded up) w.progress below in
    record {
      paired = h.paired;
      all_true = h.all_true;
      ended = omega (arith, h.ended, count, ap is_over at);
      others_over = λ j above. progress_to-over n i j (uploaded up) w h below above;
    }

count_true-append : (l : List Bool) → count_true (l ++ true ∷ []) ≡ suc (count_true l)
count_true-append [] = refl
count_true-append (true ∷ l) = ap suc (count_true-append l)
count_true-append (false ∷ l) = count_true-append l

finish_client-IsTallied :
    (n i start up down : ℕ) (w : Workload)
    → w.progress i ≡ uploaded start
    → IsTallied n w
    → IsTallied n (finish_client i up down w)
finish_client-IsTallied n i start up down w at h =
    let below = not_over-lt n i w h λ e. cc in
    let count = count_over-changed n i over w.progress below in
    let ups = length-append w.upload_latencies (up ∷ []) in
    let downs = length-append w.download_latencies (down ∷ []) in
    let trues = count_true-append w.successes in
    record {
      paired = omega (arith, h.paired, ups, downs);
      all_true = omega (arith, h.all_true, ups, trues);
      ended = omega (arith, h.ended, count, ap is_over at, trues);
      others_over = λ j above. progress_to-over n i j over w h below above;
    }

behind_upload-IsTallied :
    (n i time : ℕ) (w : Workload) (ending : Ending Bool)
    → NoThrow ending
    → w.progress i ≡ fresh
    → IsTallied n w
    → IsTallied n (behind_upload i time w ending)
behind_upload-IsTallied n i time w (gives complete c) calm at h =
    uploaded-IsTallied n i time (record w { cluster = c }) at
      (record {
        paired = h.paired;
        all_true = h.all_true;
        ended = h.ended;
        others_over = h.others_over;
      })
behind_upload-IsTallied n i time w (returns c) calm at h =
    uploaded-IsTallied n i 0 (record w { cluster = c }) at
      (record {
        paired = h.paired;
        all_true = h.all_true;
        ended = h.ended;
        others_over = h.others_over;
      })
behind_upload-IsTallied n i time w (throwing c) calm at h = absurd calm

behind_download-IsTallied :
    (n i up time : ℕ) (w : Workload) (outcome : Outcome (Option Bytes))
    → NoThrowOutcome outcome
    → w.progress i ≡ uploaded up
    → IsTallied n w
    → IsTallied n (behind_download i up time w outcome)
behind_download-IsTallied n i up time w (went_on none) calm at h =
    finish_client-IsTallied n i up up time w at h
behind_download-IsTallied n i up time w (went_on (some contents)) calm at h =
    let tallied = finish_client-IsTallied n i up up time w at h in
    record {
      paired = tallied.paired;
      all_true = tallied.all_true;
      ended = tallied.ended;
      others_over = tallied.others_over;
    }
behind_download-IsTallied n i up time w returned calm at h =
    finish_client-IsTallied n i up up 0 w at h
behind_download-IsTallied n i up time w threw calm at h = absurd calm

module _ (fuel : ℕ) (writable : Bytes → Bool) (contents : Bytes) (n : ℕ) where
  upload_step-IsTallied :
      (i time : ℕ) (w : Workload) (p : ClientProgress)
      → w.progress i ≡ p
      → IsTallied n w
      → IsTallied n (upload_step fuel writable contents i time w p)
  upload_step-IsTallied i time w fresh at h =
      let written = with_file writable contents i w in
      behind_upload-IsTallied n i time written (upload_of fuel i written)
        (upload_download-NoThrow fuel main_client (file_name i) [] (written.files (file_name i))
          true w.cluster w.cluster main_client-IsConfigured).0
        at
        (record {
          paired = h.paired;
          all_true = h.all_true;
          ended = h.ended;
          others_over = h.others_over;
        })
  upload_step-IsTallied i time w (uploaded up) at h = h
  upload_step-IsTallied i time w over at h = h

  download_step-IsTallied :
      (i time : ℕ) (w : Workload) (p : ClientProgress)
      → w.progress i ≡ p
      → IsTallied n w
      → IsTallied n (download_step writable i time w p)
  download_step-IsTallied i time w fresh at h = h
  download_step-IsTallied i time w (uploaded up) at h =
      behind_download-IsTallied n i up time w
        (download_file main_client (file_name i) (writable (out_name i)) w.cluster)
        (upload_download-NoThrow fuel main_client [] (file_name i) none (writable (out_name i))
          w.cluster w.cluster main_client-IsConfigured).1
        at h
  download_step-IsTallied i time w over at h = h

  client_step-IsTallied :
      (step : ClientStep) (w : Workload)
      → IsTallied n w
      → IsTallied n (client_step fuel writable contents step w)
  unfolding client_step
  client_step-IsTallied (uploads i time) w h = upload_step-IsTallied i time w (w.progress i) refl h
  client_step-IsTallied (downloads i time) w h =
      download_step-IsTallied i time w (w.progress i) refl h

  pub run_threads-IsTallied :
      (steps : List ClientStep) (w : Workload)
      → IsTallied n w
      → IsTallied n (run_threads fuel writable contents steps w)
  unfolding run_threads
  run_threads-IsTallied [] w h = h
  run_threads-IsTallied (step ∷ steps) w h =
      run_threads-IsTallied steps (client_step fuel writable contents step w)
        (client_step-IsTallied step w h)
