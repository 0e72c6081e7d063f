-- ===== src/Experiments/Rounds.antt =====
-- `main` of apps/main_performance_experiments.cpp: rounds of a workload on a deployment of its own,
-- and a line of the results for each.
pub mod Rows
use distributed_file_storage.Apps.{FileTree}
use distributed_file_storage.Base.{
  ℕ, ◌+◌, ◌*◌, Bool, Option, none, some, List, [], ◌∷◌, ◌++◌, Bytes, codes, if◌then◌else◌,
}
use distributed_file_storage.Base.Int.{pos}
use distributed_file_storage.Base.Options.{◌>>=◌}
use distributed_file_storage.Cluster.{Cluster}
use distributed_file_storage.Experiments.Deploy.{start_cluster, stop_cluster}
use distributed_file_storage.Experiments.Workload.{
  ClientStep, Workload, Fraction, ExperimentResult, run_workload,
}
use distributed_file_storage.Streams.{to_string}

-- What the program does not decide: the nodes that a PUT may go through, the files that can be
-- created, the random bytes of a round by their number, what the threads of a round do by the number
-- of the clients, which ports are free behind `stopCluster` of a round, and how `<<` writes a `double`.
pub record World : Type 0 where
  pub fuel : ℕ
  pub writable : Bytes → Bool
  pub random_bytes : ℕ → ℕ → Bytes
  pub thread_steps : ℕ → ℕ → List ClientStep
  pub released : ℕ → ℕ → Bool
  pub show_double : Fraction → Bytes

-- What the program works on: the files, the deployment, and what is in the file of the results.
pub record Program : Type 0 where
  pub files : FileTree
  pub cluster : Cluster
  pub written : Bytes

abbrev pub results_file : Bytes
results_file = codes "results.csv"

abbrev pub header_line : Bytes
header_line = codes "Experiment,Variable,Value,AvgUploadLatency,AvgDownloadLatency,SuccessRate\n"

abbrev pub result_line : World → Bytes → ℕ → ExperimentResult → Bytes
result_line world label value r =
    label
    ++ (to_string (pos value)
        ++ (codes ","
            ++ (world.show_double r.avg_upload
                ++ (codes ","
                    ++ (world.show_double r.avg_download
                        ++ (codes "," ++ (world.show_double r.success_rate ++ codes "\n")))))))

-- Behind `runWorkload`: the line is written and the deployment stopped.
abbrev pub write_result :
    World → ℕ → Bytes → ℕ → Bytes → Option ExperimentResult × Workload → Option Program
write_result world k label value written (none, w) = none
write_result world k label value written (some r, w) = some (record {
  files = w.files;
  cluster = stop_cluster (world.released k) 2 w.cluster;
  written = written ++ result_line world label value r;
})

-- The body of both loops, in the round with this number.
unfoldable pub run_round : World → ℕ → Bytes → ℕ → ℕ → ℕ → Program → Option Program
unfolding start_cluster run_workload stop_cluster
run_round world k label value client_count file_size p =
    write_result world k label value p.written (
      run_workload world.fuel world.writable (world.random_bytes k file_size)
        (world.thread_steps k client_count) client_count p.files (start_cluster 2 p.cluster))

abbrev pub scalability_label : Bytes
scalability_label = codes "Scalability,Clients,"

abbrev pub throughput_label : Bytes
throughput_label = codes "Throughput,FileSize,"

abbrev pub file_size : ℕ
file_size = 100 * 1024

unfoldable pub scalability : World → ℕ → List ℕ → Program → Option Program
unfolding run_round
scalability world k [] p = some p
scalability world k (clients ∷ client_counts) p = do
  q ← run_round world k scalability_label clients clients file_size p
  scalability world (k + 1) client_counts q

unfoldable pub throughput : World → ℕ → List ℕ → Program → Option Program
unfolding run_round
throughput world k [] p = some p
throughput world k (size ∷ file_sizes) p = do
  q ← run_round world k throughput_label size 1 size p
  throughput world (k + 1) file_sizes q

abbrev pub client_counts : List ℕ
client_counts = 1 ∷ 5 ∷ 10 ∷ 20 ∷ 50 ∷ []

abbrev pub file_sizes : List ℕ
file_sizes = 10 * 1024 ∷ 100 * 1024 ∷ 1024 * 1024 ∷ 10 * 1024 * 1024 ∷ []

abbrev both_experiments : World → Program → Option (ℕ × Program)
both_experiments world p = do
  q ← scalability world 0 client_counts p
  r ← throughput world 5 file_sizes q
  some (0, r)

-- The exit code and what the program leaves; `none` would be a read outside of a vector.
unfoldable pub main_experiments : World → FileTree → Cluster → Option (ℕ × Program)
unfolding scalability throughput
main_experiments world files c =
    if world.writable results_file
    then both_experiments world (record { files = files; cluster = c; written = header_line })
    else some (1, record { files = files; cluster = c; written = [] })
