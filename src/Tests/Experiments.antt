-- ===== src/Tests/Experiments.antt =====
-- Deployments that are started where nothing listens, with one client or many.
use distributed_file_storage.Apps.{FileTree, main_client}
use distributed_file_storage.Apps.Journey.{fetched, journey}
use distributed_file_storage.Base.{
  ℕ, ◌+◌, ◌*◌, ◌<◌, ◌≡◌, ◌⊎◌, refl, Bool, true, false, none, some, [], ◌++◌, Bytes, codes, arith,
}
use distributed_file_storage.Client.Download.{went_on, download_file}
use distributed_file_storage.Client.Failover.{without}
use distributed_file_storage.Client.Exceptions.{NoThrow, NoThrowOutcome}
use distributed_file_storage.Client.Exceptions.Calls.{upload_download-NoThrow}
use distributed_file_storage.Client.Survival.{survives_one_loss}
use distributed_file_storage.Client.Upload.{gives, base_name, upload_file}
use distributed_file_storage.Cluster.{Cluster}
use distributed_file_storage.Cluster.Chunks.{ContentAddressed}
use distributed_file_storage.Experiments.Clear.{IsClear}
use distributed_file_storage.Experiments.Deploy.{start_cluster, kill_node}
use distributed_file_storage.Experiments.Evaluation.{
  Bench, Evaluation, report_header, small_size, medium_size, large_size, main_evaluation,
}
use distributed_file_storage.Experiments.Evaluation.Reports.{IsSection, main_evaluation_sections}
use distributed_file_storage.Experiments.Journeys.{
  main_client-IsRing, main_client-IsConfigured, started_journey,
}
use distributed_file_storage.Experiments.Killed.{
  two_nodes_known, main_client-AreEndpoints, killed_then_download,
}
use distributed_file_storage.Experiments.Rounds.{
  World, Program, header_line, client_counts, file_sizes, main_experiments,
}
use distributed_file_storage.Experiments.Rounds.Rows.{
  IsJoined, AreClientLines, AreSizeLines, main_experiments_lines,
}
use distributed_file_storage.Experiments.Workload.{over, new_workload, run_workload}
use distributed_file_storage.Experiments.Workload.Joined.{one_by_one, one_by_one_over}
use distributed_file_storage.Experiments.Workload.Rate.{run_workload_full_rate}
use distributed_file_storage.Experiments.Workload.Sums.{average}
use distributed_file_storage.Hashing.Cid.{WrittenCollision}
use distributed_file_storage.Tests.Apps.{
  deployment, home, main_client-RunsAt, deployment-ContentAddressed, deployment-IsChainOf,
  notes-IsWord, notes-ne-nil, notes_chunks-Fits, notes_frame, home_notes,
}
use distributed_file_storage.Tests.Client.{local}

-- Nothing listens anywhere.
abbrev silence : Cluster
silence = record { storage_nodes = λ link. none; metadata_nodes = λ link. none }

silence-IsClear : (count : ℕ) → IsClear count silence
silence-IsClear count = record {
  storage_free = λ k h. record { no_storage = refl; no_metadata = refl };
  head_free = record { no_storage = refl; no_metadata = refl };
  middle_free = record { no_storage = refl; no_metadata = refl };
  tail_free = record { no_storage = refl; no_metadata = refl };
}

silence-ContentAddressed : ContentAddressed silence
silence-ContentAddressed link hash = tt

survives_one_loss_example :
    (d : Cluster) × (g : Bytes) × (upload_file 3 main_client
        (codes "home/notes")
        (some (codes "hello"))
        deployment
      ≡ gives true d)
    × (download_file main_client (base_name (codes "home/notes")) true (without (local 8001) d)
        ≡ went_on (some g))
    × ((g ≡ codes "hello") ⊎ WrittenCollision g (codes "hello"))
survives_one_loss_example =
    survives_one_loss 3 main_client (codes "home/notes") (codes "hello") deployment (local 8001)
      notes-ne-nil notes-IsWord (omega arith, omega arith) notes_chunks-Fits notes_frame
      main_client-IsRing (omega (arith, two_nodes_known)) main_client-AreEndpoints
      main_client-RunsAt deployment-ContentAddressed deployment-IsChainOf

killed_then_download_example :
    (d : Cluster) × (g : Bytes) × (upload_file 3 main_client
        (codes "home/notes")
        (some (codes "hello"))
        (start_cluster 2 silence)
      ≡ gives true d)
    × (download_file main_client
          (base_name (codes "home/notes"))
          true
          (kill_node false (8001 + 0) d)
        ≡ went_on (some g))
    × ((g ≡ codes "hello") ⊎ WrittenCollision g (codes "hello"))
killed_then_download_example =
    killed_then_download 3 0 false (codes "home/notes") (codes "hello") silence (omega arith)
      (omega arith) (silence-IsClear 2) silence-ContentAddressed notes-ne-nil notes-IsWord
      (omega arith, omega arith) notes_chunks-Fits notes_frame

started_journey_example :
    (g : Bytes) × (fetched 3 main_client
        (codes "home/notes")
        (codes "copy")
        (λ path. true)
        home
        (start_cluster 2 silence)
        (codes "copy")
      ≡ some g)
    × ((journey 3 main_client
            (codes "home/notes")
            (codes "copy")
            (λ path. true)
            home
            (start_cluster 2 silence)
          ≡ 0)
        ⊎ WrittenCollision g (codes "hello"))
started_journey_example =
    started_journey 3 2 (codes "home/notes") (codes "copy") (codes "hello") (λ path. true) home
      silence (omega arith) (omega arith) (omega arith) (silence-IsClear 2) silence-ContentAddressed
      notes-ne-nil home_notes refl notes-IsWord (omega arith, omega arith) notes_chunks-Fits
      notes_frame

upload_download-NoThrow_example :
    NoThrow (upload_file 3 main_client (codes "home/notes") (some (codes "hello")) silence)
    × NoThrowOutcome (download_file main_client (codes "notes") true silence)
upload_download-NoThrow_example =
    upload_download-NoThrow 3 main_client (codes "home/notes") (codes "notes")
      (some (codes "hello")) true silence silence main_client-IsConfigured

joined :
    (fuel n i : ℕ) (writable : Bytes → Bool) (contents : Bytes) (files : FileTree) (c : Cluster)
    → i < n
    → (run_workload fuel writable contents (one_by_one n) n files c).1.progress i ≡ over
unfolding run_workload
joined fuel n i writable contents files c h =
    one_by_one_over fuel writable contents n i (new_workload n files c) h

-- Five clients and no node.
run_workload_full_rate_example :
    let w = (run_workload 3 (λ path. true) (codes "hello") (one_by_one 5) 5 home silence).1 in
    (run_workload 3 (λ path. true) (codes "hello") (one_by_one 5) 5 home silence).0
    ≡ some (record {
      avg_upload = average w.upload_latencies;
      avg_download = average w.download_latencies;
      success_rate = record { numerator = 100 * 5; denominator = 5 };
    })
run_workload_full_rate_example =
    run_workload_full_rate 3 (λ path. true) (codes "hello") (one_by_one 5) 4 home silence
      (λ i h. joined 3 5 i (λ path. true) (codes "hello") home silence h)

abbrev quick_world : World
quick_world = record {
  released = λ k port. false;
  fuel = 3;
  writable = λ path. true;
  random_bytes = λ k size. [];
  thread_steps = λ k n. one_by_one n;
  show_double = λ d. [];
}

quick_world-IsJoined : IsJoined quick_world
quick_world-IsJoined k n i contents files c h = joined 3 n i (λ path. true) contents files c h

main_experiments_lines_example :
    (p : Program) × (rows : Bytes) × (more : Bytes) × (main_experiments quick_world home silence
      ≡ some (0, p))
    × (p.written ≡ header_line ++ (rows ++ more))
    × AreClientLines quick_world client_counts rows
    × AreSizeLines quick_world file_sizes more
main_experiments_lines_example =
    main_experiments_lines quick_world quick_world-IsJoined home silence refl

abbrev quick_bench : Bench
quick_bench = record {
  fuel = 3;
  writable = λ path. true;
  random_bytes = λ name size. [];
  times = λ name. record { upload = 1; chunk_upload = 1; metadata_upload = 1; download = 1 };
  show_fixed = λ d. [];
}

main_evaluation_sections_example :
    (d : Evaluation) × (small : Bytes) × (medium : Bytes) × (large : Bytes) × (main_evaluation
        quick_bench home silence
      ≡ some (0, d))
    × (d.report ≡ ((report_header ++ small) ++ medium) ++ large)
    × IsSection quick_bench (codes "small_file.dat") small_size small
    × IsSection quick_bench (codes "medium_file.dat") medium_size medium
    × IsSection quick_bench (codes "large_file.dat") large_size large
main_evaluation_sections_example = main_evaluation_sections quick_bench home silence refl
