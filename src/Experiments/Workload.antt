-- ===== src/Experiments/Workload.antt =====
-- `runWorkload`: clients that upload a file and download it again, each in a thread of its own. An
-- upload or a download is one step, and the steps of different clients come in any order. Times are
-- milliseconds, what the clock says of a step is a part of it, and what the program computes in
-- `double` is kept as a fraction.
pub mod Sums
pub mod Tally
pub mod Rate
pub mod Joined
use distributed_file_storage.Apps.{FileTree, write_file, main_client}
use distributed_file_storage.Base.{
  ℕ, zero, suc, ◌+◌, ◌*◌, Bool, true, false, ltb, Option, none, some, List, [], ◌∷◌, ◌++◌, Bytes,
  codes, length, get_elem?, if◌then◌else◌,
}
use distributed_file_storage.Base.Equality.{◌==◌, Bytes_eq, ℕ_eq}
use distributed_file_storage.Base.Int.{pos}
use distributed_file_storage.Base.Options.{◌>>=◌}
use distributed_file_storage.Client.Download.{Outcome, went_on, returned, threw, download_file}
use distributed_file_storage.Client.Upload.{Ending, gives, returns, throwing, upload_file}
use distributed_file_storage.Cluster.{Cluster}
use distributed_file_storage.Streams.{to_string}

-- How far the thread of a client is: before its upload, behind it with `lastTotalUploadDuration`, or
-- at its end.
pub data ClientProgress : Type 0 where
  fresh : ClientProgress
  uploaded : ℕ → ClientProgress
  over : ClientProgress

pub record Workload : Type 0 where
  pub files : FileTree
  pub cluster : Cluster
  pub upload_latencies : List ℕ
  pub download_latencies : List ℕ
  pub successes : List Bool
  pub progress : ℕ → ClientProgress

-- A step of the client with this number, and how long it takes.
pub data ClientStep : Type 0 where
  uploads : ℕ → ℕ → ClientStep
  downloads : ℕ → ℕ → ClientStep

abbrev pub file_name : ℕ → Bytes
file_name i = codes "perf_test_" ++ (to_string (pos i) ++ codes ".bin")

abbrev pub out_name : ℕ → Bytes
out_name i = codes "perf_out_" ++ (to_string (pos i) ++ codes ".bin")

-- `remove`
abbrev pub remove_file : Bytes → FileTree → FileTree
remove_file path files other = if path == other then none else files other

abbrev pub progress_to : ℕ → ClientProgress → Workload → Workload
progress_to i p w = record w { progress = λ other. if i == other then p else w.progress other }

-- `catch (...)`
abbrev pub catch_client : ℕ → Workload → Workload
catch_client i w = progress_to i over (record w { successes = w.successes ++ false ∷ [] })

-- Behind the upload of client `i`; its duration stays 0 where `uploadFile` returns early.
abbrev pub behind_upload : ℕ → ℕ → Workload → Ending Bool → Workload
behind_upload i time w (gives complete c) = progress_to i (uploaded time) (record w { cluster = c })
behind_upload i time w (returns c) = progress_to i (uploaded 0) (record w { cluster = c })
behind_upload i time w (throwing c) = catch_client i (record w { cluster = c })

-- The file of client `i`, written if it can be.
abbrev pub with_file : (Bytes → Bool) → Bytes → ℕ → Workload → Workload
with_file writable contents i w = record w {
  files = if writable (file_name i) then write_file (file_name i) contents w.files else w.files;
}

abbrev pub upload_of : ℕ → ℕ → Workload → Ending Bool
upload_of fuel i w = upload_file fuel main_client (file_name i) (w.files (file_name i)) w.cluster

-- The end of the thread of client `i`.
abbrev pub finish_client : ℕ → ℕ → ℕ → Workload → Workload
finish_client i up down w = progress_to i over (record w {
  files = remove_file (out_name i) (remove_file (file_name i) w.files);
  upload_latencies = w.upload_latencies ++ up ∷ [];
  download_latencies = w.download_latencies ++ down ∷ [];
  successes = w.successes ++ true ∷ [];
})

-- Behind the download of client `i`; its duration stays 0 where `downloadFile` returns early.
abbrev pub behind_download : ℕ → ℕ → ℕ → Workload → Outcome (Option Bytes) → Workload
behind_download i up time w (went_on none) = finish_client i up time w
behind_download i up time w (went_on (some contents)) =
    finish_client i up time (record w { files = write_file (out_name i) contents w.files })
behind_download i up time w returned = finish_client i up 0 w
behind_download i up time w threw = catch_client i w

-- A step that is not the next of its client does nothing.
abbrev pub upload_step : ℕ → (Bytes → Bool) → Bytes → ℕ → ℕ → Workload → ClientProgress → Workload
upload_step fuel writable contents i time w fresh =
    let written = with_file writable contents i w in
    behind_upload i time written (upload_of fuel i written)
upload_step fuel writable contents i time w (uploaded up) = w
upload_step fuel writable contents i time w over = w

abbrev pub download_step : (Bytes → Bool) → ℕ → ℕ → Workload → ClientProgress → Workload
download_step writable i time w fresh = w
download_step writable i time w (uploaded up) =
    behind_download i up time w
      (download_file main_client (file_name i) (writable (out_name i)) w.cluster)
download_step writable i time w over = w

unfoldable pub client_step : ℕ → (Bytes → Bool) → Bytes → ClientStep → Workload → Workload
unfolding upload_file download_file
client_step fuel writable contents (uploads i time) w =
    upload_step fuel writable contents i time w (w.progress i)
client_step fuel writable contents (downloads i time) w =
    download_step writable i time w (w.progress i)

unfoldable pub run_threads : ℕ → (Bytes → Bool) → Bytes → List ClientStep → Workload → Workload
unfolding client_step
run_threads fuel writable contents [] w = w
run_threads fuel writable contents (step ∷ steps) w =
    run_threads fuel writable contents steps (client_step fuel writable contents step w)

-- The vectors are empty, and the threads of the clients below `client_count` begin.
abbrev pub new_workload : ℕ → FileTree → Cluster → Workload
new_workload client_count files c = record {
  files = files;
  cluster = c;
  upload_latencies = [];
  download_latencies = [];
  successes = [];
  progress = λ i. if ltb i client_count then fresh else over;
}

pub record Fraction : Type 0 where
  pub numerator : ℕ
  pub denominator : ℕ

abbrev pub no_value : Fraction
no_value = record { numerator = 0; denominator = 1 }

pub record ExperimentResult : Type 0 where
  pub avg_upload : Fraction
  pub avg_download : Fraction
  pub success_rate : Fraction

-- `sum += latencies[j]` for `j` below the count; there is no sum where `j` leaves the vector.
unfoldable pub sum_below : ℕ → List ℕ → Option ℕ
sum_below zero latencies = some 0
sum_below (suc j) latencies = do
  sum ← sum_below j latencies
  latency ← get_elem? latencies j
  some (sum + latency)

abbrev pub count_true : List Bool → ℕ
count_true [] = 0
count_true (true ∷ l) = suc (count_true l)
count_true (false ∷ l) = count_true l

abbrev pub rate_of : ℕ → List Bool → Fraction
rate_of zero successes = no_value
rate_of (suc k) successes = record { numerator = 100 * count_true successes; denominator = suc k }

-- Both loops run to the length of `uploadLatencies`.
abbrev pub averages_of : List ℕ → List ℕ → Option (Fraction × Fraction)
averages_of [] downs = some (no_value, no_value)
averages_of (up ∷ ups) downs = do
  sum_up ← sum_below (length (up ∷ ups)) (up ∷ ups)
  sum_down ← sum_below (length (up ∷ ups)) downs
  some (
    record { numerator = sum_up; denominator = length (up ∷ ups) },
    record { numerator = sum_down; denominator = length downs },
  )

abbrev pub result_with : ℕ → List Bool → Option (Fraction × Fraction) → Option ExperimentResult
result_with client_count successes none = none
result_with client_count successes (some (up, down)) =
    some (record {
      avg_upload = up;
      avg_download = down;
      success_rate = rate_of client_count successes;
    })

-- `runWorkload` behind `t.join()`.
unfoldable pub result_of : ℕ → Workload → Option ExperimentResult
unfolding sum_below
result_of client_count w =
    result_with client_count w.successes (averages_of w.upload_latencies w.download_latencies)

-- The contents of the file are those of `data`, and `steps` what the threads do.
unfoldable pub run_workload :
    ℕ
    → (Bytes → Bool)
    → Bytes
    → List ClientStep
    → ℕ
    → FileTree
    → Cluster
    → Option ExperimentResult × Workload
unfolding run_threads result_of
run_workload fuel writable contents steps client_count files c =
    let w = run_threads fuel writable contents steps (new_workload client_count files c) in
    (result_of client_count w, w)
