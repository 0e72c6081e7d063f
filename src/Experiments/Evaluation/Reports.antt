-- ===== src/Experiments/Evaluation/Reports.antt =====
-- What the evaluation reports, and what it leaves.
use distributed_file_storage.Apps.{FileTree, main_client}
use distributed_file_storage.Base.{
  ℕ, ◌≡◌, ◌⊎◌, inl, inr, refl, ap, ◌∙◌, Bool, true, Option, none, some, [], ◌++◌, Bytes, codes,
  append_assoc,
}
use distributed_file_storage.Base.Equality.{Bytes_eq, eq_refl}
use distributed_file_storage.Client.Download.{Outcome, went_on, returned, threw, download_file}
use distributed_file_storage.Client.Exceptions.{NoThrow, NoThrowOutcome}
use distributed_file_storage.Client.Exceptions.Calls.{upload_download-NoThrow}
use distributed_file_storage.Client.Upload.{Ending, gives, returns, throwing, upload_file}
use distributed_file_storage.Cluster.{Cluster}
use distributed_file_storage.Experiments.Deploy.{start_cluster}
use distributed_file_storage.Experiments.Evaluation.{
  Times, Bench, Evaluation, test_path, download_path, create_dummy_file, test_header, upload_lines,
  download_lines, test_upload, test_download, with_lines, run_test, output_file, report_header,
  small_size, medium_size, large_size, main_evaluation,
}
use distributed_file_storage.Experiments.Journeys.{main_client-IsConfigured}
use distributed_file_storage.Experiments.Workload.{remove_file}

-- The durations of the parts of the upload: those of this test, or those that the test before left.
abbrev pub AreDurations : Times → Evaluation → ℕ → ℕ → Type 0
AreDurations times before chunk_time metadata_time =
    ((chunk_time ≡ times.chunk_upload) × (metadata_time ≡ times.metadata_upload))
    ⊎ ((chunk_time ≡ before.last_chunk_upload) × (metadata_time ≡ before.last_metadata_upload))

test_upload-Durations :
    (times : Times) (e : Evaluation) (ending : Ending Bool)
    → NoThrow ending
    → (up : Evaluation) × (test_upload times e ending ≡ some up)
      × (up.files ≡ e.files)
      × (up.report ≡ e.report)
      × AreDurations times e up.last_chunk_upload up.last_metadata_upload
test_upload-Durations times e (gives complete c) calm = (_, refl, refl, refl, inl (refl, refl))
test_upload-Durations times e (returns c) calm = (_, refl, refl, refl, inr (refl, refl))
test_upload-Durations times e (throwing c) calm = absurd calm

test_download_removed :
    (path : Bytes) (e : Evaluation) (outcome : Outcome (Option Bytes))
    → NoThrowOutcome outcome
    → test_download path e outcome ≡ some (record e { files = remove_file path e.files })
test_download_removed path e (went_on contents) calm = refl
test_download_removed path e returned calm = refl
test_download_removed path e threw calm = absurd calm

-- The test of a file, on whatever deployment: it is reported on, and no download of it is left.
pub run_test_report :
    (bench : Bench) (filename : Bytes) (size : ℕ) (e : Evaluation)
    → (d : Evaluation) × (chunk_time : ℕ) × (metadata_time : ℕ) × (run_test bench filename size e
        ≡ some d)
      × (d.report ≡ (
          ((e.report ++ test_header filename size)
            ++ upload_lines bench size (bench.times filename).upload chunk_time metadata_time)
          ++ download_lines bench size (bench.times filename).download))
      × AreDurations (bench.times filename) e chunk_time metadata_time
      × (d.files (download_path filename) ≡ none)
unfolding run_test
run_test_report bench filename size e =
    let path = test_path filename in
    let times = bench.times filename in
    let made =
      with_lines (test_header filename size) (create_dummy_file bench filename path size e) in
    let (up, uploaded, files, report, durations) =
      test_upload-Durations times made
        (upload_file bench.fuel main_client path (made.files path) made.cluster)
        (upload_download-NoThrow bench.fuel main_client path [] (made.files path) true made.cluster
          made.cluster main_client-IsConfigured).0 in
    let lines = upload_lines bench size times.upload up.last_chunk_upload up.last_metadata_upload in
    let told = with_lines lines up in
    let downloaded =
      test_download_removed (download_path filename) told
        (download_file main_client filename (bench.writable (download_path filename)) told.cluster)
        (upload_download-NoThrow bench.fuel main_client [] filename none
          (bench.writable (download_path filename)) told.cluster told.cluster
          main_client-IsConfigured).1 in
    let removed : Evaluation = record told {
      files = remove_file (download_path filename) told.files;
    } in
    (
      with_lines (download_lines bench size times.download) removed,
      up.last_chunk_upload,
      up.last_metadata_upload,
      rw (uploaded, downloaded) refl,
      ap (λ r. (r ++ lines) ++ download_lines bench size times.download) report,
      durations,
      rw (eq_refl (download_path filename)) refl,
    )

-- The part of the report on one test.
abbrev pub section_of : Bench → Bytes → ℕ → ℕ → ℕ → Bytes
section_of bench filename size chunk_time metadata_time =
    test_header filename size
    ++ (upload_lines bench size (bench.times filename).upload chunk_time metadata_time
        ++ download_lines bench size (bench.times filename).download)

abbrev pub IsSection : Bench → Bytes → ℕ → Bytes → Type 0
IsSection bench filename size text =
    (chunk_time : ℕ) × (metadata_time : ℕ) × (text
      ≡ section_of bench filename size chunk_time metadata_time)

run_test-IsSection :
    (bench : Bench) (filename : Bytes) (size : ℕ) (e : Evaluation)
    → (d : Evaluation) × (text : Bytes) × (run_test bench filename size e ≡ some d)
      × (d.report ≡ e.report ++ text)
      × IsSection bench filename size text
run_test-IsSection bench filename size e =
    let (d, chunk_time, metadata_time, ran, report, _, _) = run_test_report bench filename size e in
    let top = test_header filename size in
    let middle = upload_lines bench size (bench.times filename).upload chunk_time metadata_time in
    let bottom = download_lines bench size (bench.times filename).download in
    (
      d,
      top ++ (middle ++ bottom),
      ran,
      report
          ∙ append_assoc (e.report ++ top) middle bottom
          ∙ append_assoc e.report top (middle ++ bottom),
      (chunk_time, metadata_time, refl),
    )

-- If its output file can be created, `main` of the evaluation returns 0, whatever the deployment
-- does, and has written the header and then a section on each of the three files.
pub main_evaluation_sections :
    (bench : Bench) (files : FileTree) (c : Cluster)
    → bench.writable output_file ≡ true
    → (d : Evaluation) × (small : Bytes) × (medium : Bytes) × (large : Bytes) × (main_evaluation
          bench files c
        ≡ some (0, d))
      × (d.report ≡ ((report_header ++ small) ++ medium) ++ large)
      × IsSection bench (codes "small_file.dat") small_size small
      × IsSection bench (codes "medium_file.dat") medium_size medium
      × IsSection bench (codes "large_file.dat") large_size large
unfolding main_evaluation
main_evaluation_sections bench files c created =
    let start : Evaluation = record {
      files = files;
      cluster = start_cluster 2 c;
      last_chunk_upload = 0;
      last_metadata_upload = 0;
      report = report_header;
    } in
    let (d1, small, e1, r1, s1) =
      run_test-IsSection bench (codes "small_file.dat") small_size start in
    let (d2, medium, e2, r2, s2) =
      run_test-IsSection bench (codes "medium_file.dat") medium_size d1 in
    let (d3, large, e3, r3, s3) = run_test-IsSection bench (codes "large_file.dat") large_size d2 in
    (
      d3,
      small,
      medium,
      large,
      rw (created, e1, e2, e3) refl,
      r3 ∙ ap (λ r. r ++ large) (r2 ∙ ap (λ r. r ++ medium) r1),
      s1,
      s2,
      s3,
    )
