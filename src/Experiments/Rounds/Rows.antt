-- ===== src/Experiments/Rounds/Rows.antt =====
-- What the experiments write.
use distributed_file_storage.Apps.{FileTree}
use distributed_file_storage.Base.{
  ℕ, zero, suc, All, arith, ◌+◌, ◌*◌, ◌<◌, ◌≡◌, refl, sym, ap, ◌∙◌, true, some, List, [], ◌∷◌, ◌++◌,
  Bytes, append_assoc, append-nil,
}
use distributed_file_storage.Base.Options.{◌>>=◌}
use distributed_file_storage.Cluster.{Cluster}
use distributed_file_storage.Experiments.Deploy.{start_cluster}
use distributed_file_storage.Experiments.Rounds.{
  World, Program, results_file, header_line, result_line, write_result, run_round,
  scalability_label, throughput_label, file_size, scalability, throughput, client_counts,
  file_sizes, main_experiments,
}
use distributed_file_storage.Experiments.Workload.{Fraction, over, run_workload}
use distributed_file_storage.Experiments.Workload.Sums.{average}
use distributed_file_storage.Experiments.Workload.Rate.{run_workload_full_rate}

-- Every thread of every workload comes to its end.
abbrev pub IsJoined : World → Type 0
IsJoined world =
    (k n i : ℕ) (contents : Bytes) (files : FileTree) (c : Cluster)
    → i < n
    → (run_workload world.fuel world.writable contents (world.thread_steps k n) n files
          c).1.progress
        i
      ≡ over

-- A line with a success rate of 100 %, and some averages.
abbrev pub IsFullLine : World → Bytes → ℕ → ℕ → Bytes → Type 0
IsFullLine world label value clients line =
    (up : Fraction) × (down : Fraction) × (line
      ≡ result_line world label value (record {
        avg_upload = up;
        avg_download = down;
        success_rate = record { numerator = 100 * clients; denominator = clients };
      }))

-- A line for each of the numbers of clients, and one for each of the sizes.
abbrev pub AreClientLines : World → List ℕ → Bytes → Type 0
AreClientLines world [] text = text ≡ []
AreClientLines world (clients ∷ counts) text =
    (line : Bytes) × (rest : Bytes) × (text ≡ line ++ rest)
    × IsFullLine world scalability_label clients clients line
    × AreClientLines world counts rest

abbrev pub AreSizeLines : World → List ℕ → Bytes → Type 0
AreSizeLines world [] text = text ≡ []
AreSizeLines world (size ∷ sizes) text =
    (line : Bytes) × (rest : Bytes) × (text ≡ line ++ rest)
    × IsFullLine world throughput_label size 1 line
    × AreSizeLines world sizes rest

module _ (world : World) (joined : IsJoined world) where
  run_round-IsFullLine :
      (k : ℕ) (label : Bytes) (value n size : ℕ) (p : Program)
      → (q : Program) × (line : Bytes) × (run_round world k label value (suc n) size p ≡ some q)
        × (q.written ≡ p.written ++ line)
        × IsFullLine world label value (suc n) line
  unfolding run_round
  run_round-IsFullLine k label value n size p =
      let c = start_cluster 2 p.cluster in
      let contents = world.random_bytes k size in
      let steps = world.thread_steps k (suc n) in
      let run = run_workload world.fuel world.writable contents steps (suc n) p.files c in
      let result =
        run_workload_full_rate world.fuel world.writable contents steps n p.files c
          (λ i below. joined k (suc n) i contents p.files c below) in
      (
        _,
        _,
        ap (λ r. write_result world k label value p.written (r, run.1)) result,
        refl,
        (average run.1.upload_latencies, average run.1.download_latencies, refl),
      )

  scalability_lines :
      (k : ℕ) (counts : List ℕ) (p : Program)
      → All (λ n. 0 < n) counts
      → (q : Program) × (text : Bytes) × (scalability world k counts p ≡ some q)
        × (q.written ≡ p.written ++ text)
        × AreClientLines world counts text
  unfolding scalability
  scalability_lines k [] p h = (p, [], refl, sym (append-nil p.written), refl)
  scalability_lines k (zero ∷ counts) p (h, more) = absurd (omega (arith, h))
  scalability_lines k (suc n ∷ counts) p (h, more) =
      let (q, line, first, wrote, full) =
        run_round-IsFullLine k scalability_label (suc n) n file_size p in
      let (r, rest, later, wrote_rest, lines) = scalability_lines (k + 1) counts q more in
      (
        r,
        line ++ rest,
        ap (λ o. o >>= λ q'. scalability world (k + 1) counts q') first ∙ later,
        wrote_rest ∙ ap (λ t. t ++ rest) wrote ∙ append_assoc p.written line rest,
        (line, rest, refl, full, lines),
      )

  throughput_lines :
      (k size : ℕ) (sizes : List ℕ) (p : Program)
      → (q : Program) × (text : Bytes) × (throughput world k (size ∷ sizes) p ≡ some q)
        × (q.written ≡ p.written ++ text)
        × AreSizeLines world (size ∷ sizes) text
  unfolding throughput
  throughput_lines k size [] p =
      let (q, line, first, wrote, full) = run_round-IsFullLine k throughput_label size 0 size p in
      (
        q,
        line,
        ap (λ o. o >>= λ q'. some q') first,
        wrote,
        (line, [], sym (append-nil line), full, refl),
      )
  throughput_lines k size (next ∷ sizes) p =
      let (q, line, first, wrote, full) = run_round-IsFullLine k throughput_label size 0 size p in
      let (r, rest, later, wrote_rest, lines) = throughput_lines (k + 1) next sizes q in
      (
        r,
        line ++ rest,
        ap (λ o. o >>= λ q'. throughput world (k + 1) (next ∷ sizes) q') first ∙ later,
        wrote_rest ∙ ap (λ t. t ++ rest) wrote ∙ append_assoc p.written line rest,
        (line, rest, refl, full, lines),
      )

  pub main_experiments_lines :
      (files : FileTree) (c : Cluster)
      → world.writable results_file ≡ true
      → (p : Program) × (rows : Bytes) × (more : Bytes) × (main_experiments world files c
          ≡ some (0, p))
        × (p.written ≡ header_line ++ (rows ++ more))
        × AreClientLines world client_counts rows
        × AreSizeLines world file_sizes more
  unfolding main_experiments
  main_experiments_lines files c created =
      let start : Program = record { files = files; cluster = c; written = header_line } in
      let (q, rows, first, wrote, client_lines) =
        scalability_lines 0 client_counts start
          (omega arith, (omega arith, (omega arith, (omega arith, (omega arith, tt))))) in
      let (r, more, second, wrote_more, size_lines) =
        throughput_lines 5 (10 * 1024) (100 * 1024 ∷ 1024 * 1024 ∷ 10 * 1024 * 1024 ∷ []) q in
      (
        r,
        rows,
        more,
        rw created (
            ap (λ o. o >>= λ q'. throughput world 5 file_sizes q' >>= λ r'. some (0, r')) first
            ∙ ap (λ o. o >>= λ r'. some (0, r')) second),
        wrote_more ∙ ap (λ t. t ++ more) wrote ∙ append_assoc header_line rows more,
        client_lines,
        size_lines,
      )
