-- ===== src/Experiments/Workload/Rate.antt =====
-- What the vectors of a workload hold, whatever the clients see.
use distributed_file_storage.Apps.{FileTree}
use distributed_file_storage.Base.{
  ℕ, zero, suc, ◌*◌, ◌≤◌, ◌<◌, ◌≡◌, refl, sym, ap, ◌∙◌, Bool, ltb, lt→ltb, some, List, Bytes, arith,
  if◌then◌else◌,
}
use distributed_file_storage.Base.Equality.{ℕ_eq}
use distributed_file_storage.Cluster.{Cluster}
use distributed_file_storage.Experiments.Workload.{
  ClientProgress, fresh, over, ClientStep, run_threads, new_workload, run_workload,
}
use distributed_file_storage.Experiments.Workload.Sums.{average, result_of-average}
use distributed_file_storage.Experiments.Workload.Tally.{
  is_over, count_over, IsTallied, run_threads-IsTallied,
}

none_over : (n k : ℕ) → k ≤ n → count_over k (λ i. if ltb i n then fresh else over) ≡ 0
none_over n zero h = refl
none_over n (suc k) h = rw (lt→ltb k n (omega arith)) (omega (arith, none_over n k (omega arith)))

new_workload-IsTallied :
    (n : ℕ) (files : FileTree) (c : Cluster) → IsTallied n (new_workload n files c)
new_workload-IsTallied n files c = record {
  paired = refl;
  all_true = refl;
  ended = sym (none_over n n (omega arith));
  others_over = λ i above. ground arith;
}

all_over :
    (k : ℕ) (progress : ℕ → ClientProgress)
    → ((i : ℕ) → i < k → progress i ≡ over)
    → count_over k progress ≡ k
all_over zero progress h = refl
all_over (suc k) progress h =
    omega
      (arith, all_over k progress (λ i below. h i (omega arith)), ap is_over (h k (omega arith)))

-- Whatever the clients find, in whatever order they take their steps, and whatever is lost: the loops
-- over the latencies stay in their vectors, the averages are those of the latencies, and the success
-- rate is 100 %. Every client is to have come to its end, and there is to be one at least.
pub run_workload_full_rate :
    (fuel : ℕ) (writable : Bytes → Bool) (contents : Bytes) (steps : List ClientStep) (n : ℕ)
    (files : FileTree) (c : Cluster)
    → ((i : ℕ)
        → i < suc n
        → (run_workload fuel writable contents steps (suc n) files c).1.progress i ≡ over)
    → let w = (run_workload fuel writable contents steps (suc n) files c).1 in
      (run_workload fuel writable contents steps (suc n) files c).0
      ≡ some (record {
        avg_upload = average w.upload_latencies;
        avg_download = average w.download_latencies;
        success_rate = record { numerator = 100 * suc n; denominator = suc n };
      })
unfolding run_workload
run_workload_full_rate fuel writable contents steps n files c finished =
    let w = run_threads fuel writable contents steps (new_workload (suc n) files c) in
    let tallied =
      run_threads-IsTallied fuel writable contents (suc n) steps (new_workload (suc n) files c)
        (new_workload-IsTallied (suc n) files c) in
    let all = tallied.ended ∙ all_over (suc n) w.progress finished in
    result_of-average (suc n) w tallied.paired
    ∙ ap
        (λ k. some (record {
          avg_upload = average w.upload_latencies;
          avg_download = average w.download_latencies;
          success_rate = record { numerator = 100 * k; denominator = suc n };
        }))
        all
