-- ===== src/Experiments/Workload/Sums.antt =====
-- The averages: the loop over the latencies stays in both vectors.
use distributed_file_storage.Base.{
  ℕ, zero, suc, ◌+◌, ◌≤◌, ◌<◌, take, ◌≡◌, refl, sym, ap, ◌∙◌, some, List, [], ◌∷◌, length,
  get_elem?, arith,
}
use distributed_file_storage.Base.Index.{take-length}
use distributed_file_storage.Experiments.Workload.{
  Workload, Fraction, no_value, sum_below, averages_of, result_with, rate_of, result_of,
}

abbrev pub total : List ℕ → ℕ
total [] = 0
total (x ∷ l) = x + total l

-- The sum of the latencies over their number, where there is one.
abbrev pub average : List ℕ → Fraction
average [] = no_value
average (x ∷ l) = record { numerator = total (x ∷ l); denominator = length (x ∷ l) }

next_latency :
    (l : List ℕ) (j : ℕ)
    → j < length l
    → (x : ℕ) × (get_elem? l j ≡ some x) × (total (take (suc j) l) ≡ total (take j l) + x)
next_latency [] j h = absurd (omega arith)
next_latency (y ∷ l) zero h = (y, refl, omega arith)
next_latency (y ∷ l) (suc j) h =
    let (x, found, sum) = next_latency l j (omega arith) in (x, found, omega (arith, sum))

sum_below-take : (j : ℕ) (l : List ℕ) → j ≤ length l → sum_below j l ≡ some (total (take j l))
unfolding sum_below
sum_below-take zero l h = refl
sum_below-take (suc j) l h =
    let (x, found, sum) = next_latency l j (omega arith) in
    rw (sum_below-take j l (omega arith), found) (ap some (sym sum))

pub sum_below-total : (l : List ℕ) (n : ℕ) → n ≡ length l → sum_below n l ≡ some (total l)
sum_below-total l n same =
    sum_below-take n l (omega (arith, same))
    ∙ ap (λ k. some (total k)) (take-length n l (omega (arith, same)))

averages_of-average :
    (ups downs : List ℕ)
    → length ups ≡ length downs
    → averages_of ups downs ≡ some (average ups, average downs)
averages_of-average [] [] same = refl
averages_of-average [] (d ∷ downs) same = cc
averages_of-average (u ∷ ups) [] same = cc
averages_of-average (u ∷ ups) (d ∷ downs) same =
    rw
      (
        sum_below-total (u ∷ ups) (length (u ∷ ups)) refl,
        sum_below-total (d ∷ downs) (length (u ∷ ups)) same,
      )
      refl

-- With as many latencies of each kind, there is a result, with the averages.
pub result_of-average :
    (client_count : ℕ) (w : Workload)
    → length w.upload_latencies ≡ length w.download_latencies
    → result_of client_count w
      ≡ some (record {
        avg_upload = average w.upload_latencies;
        avg_download = average w.download_latencies;
        success_rate = rate_of client_count w.successes;
      })
unfolding result_of
result_of-average client_count w same =
    ap (result_with client_count w.successes)
      (averages_of-average w.upload_latencies w.download_latencies same)
