-- ===== src/Experiments/Evaluation.antt =====
-- apps/main_performance_evaluation.cpp: three files of growing size that one client uploads and
-- downloads. Times are milliseconds, and a throughput is a fraction.
pub mod Reports
use distributed_file_storage.Apps.{FileTree, write_file, main_client}
use distributed_file_storage.Base.{
  ℕ, ◌*◌, Bool, Option, none, some, List, [], ◌∷◌, ◌++◌, Bytes, codes, if◌then◌else◌,
}
use distributed_file_storage.Base.Int.{pos}
use distributed_file_storage.Base.Options.{◌>>=◌}
use distributed_file_storage.Client.Download.{Outcome, went_on, returned, threw, download_file}
use distributed_file_storage.Client.Upload.{Ending, gives, returns, throwing, upload_file}
use distributed_file_storage.Cluster.{Cluster}
use distributed_file_storage.Experiments.Deploy.{start_cluster}
use distributed_file_storage.Experiments.Workload.{Fraction, remove_file}
use distributed_file_storage.Streams.{to_string}

-- What the clock says of a test.
pub record Times : Type 0 where
  pub upload : ℕ
  pub chunk_upload : ℕ
  pub metadata_upload : ℕ
  pub download : ℕ

-- What the program does not decide; `show_fixed` is `<<` of a `double` with two digits behind the
-- point.
pub record Bench : Type 0 where
  pub fuel : ℕ
  pub writable : Bytes → Bool
  pub random_bytes : Bytes → ℕ → Bytes
  pub times : Bytes → Times
  pub show_fixed : Fraction → Bytes

-- The files and the deployment, the two durations that the client keeps and the report prints, and
-- the report.
pub record Evaluation : Type 0 where
  pub files : FileTree
  pub cluster : Cluster
  pub last_chunk_upload : ℕ
  pub last_metadata_upload : ℕ
  pub report : Bytes

abbrev pub test_path : Bytes → Bytes
test_path filename = codes "test_data/" ++ filename

abbrev pub download_path : Bytes → Bytes
download_path filename = codes "test_data/downloaded_" ++ filename

-- `createDummyFile`
abbrev pub create_dummy_file : Bench → Bytes → Bytes → ℕ → Evaluation → Evaluation
create_dummy_file bench filename path size e = record e {
  files =
      if bench.writable path
      then write_file path (bench.random_bytes filename size) e.files
      else e.files;
}

-- `sizeBytes / 1024.0 / 1024.0 / (latency / 1000.0)`
abbrev pub throughput_of : ℕ → ℕ → Fraction
throughput_of size latency = record { numerator = size * 1000; denominator = 1024 * 1024 * latency }

abbrev pub milliseconds : Bytes → ℕ → Bytes
milliseconds name time = name ++ (codes " Latency: " ++ (to_string (pos time) ++ codes " ms\n"))

abbrev pub megabytes : Bench → Bytes → Fraction → Bytes
megabytes bench name rate =
    name ++ (codes " Throughput: " ++ (bench.show_fixed rate ++ codes " MB/s\n"))

-- The parts of the report on one test, in the order in which they are written.
abbrev pub test_header : Bytes → ℕ → Bytes
test_header filename size =
    codes "Test Case: "
    ++ (filename
        ++ (codes "\n-------------------------------\nFile Size: "
            ++ (to_string (pos size) ++ codes " bytes\n")))

abbrev pub upload_lines : Bench → ℕ → ℕ → ℕ → ℕ → Bytes
upload_lines bench size time chunk_time metadata_time =
    milliseconds (codes "Total Upload") time
    ++ (megabytes bench (codes "Upload") (throughput_of size time)
        ++ (milliseconds (codes "Chunk Upload") chunk_time
            ++ milliseconds (codes "Metadata Chain") metadata_time))

abbrev pub download_lines : Bench → ℕ → ℕ → Bytes
download_lines bench size time =
    milliseconds (codes "Total Download") time
    ++ (megabytes bench (codes "Download") (throughput_of size time) ++ codes "\n")

-- `uploadFile` sets the durations unless it returns early; `none` is an exception.
abbrev pub test_upload : Times → Evaluation → Ending Bool → Option Evaluation
test_upload times e (gives complete c) = some (record e {
  cluster = c;
  last_chunk_upload = times.chunk_upload;
  last_metadata_upload = times.metadata_upload;
})
test_upload times e (returns c) = some (record e { cluster = c })
test_upload times e (throwing c) = none

-- `downloadFile`, behind which the file that it wrote is removed.
abbrev pub test_download : Bytes → Evaluation → Outcome (Option Bytes) → Option Evaluation
test_download path e (went_on contents) = some (record e { files = remove_file path e.files })
test_download path e returned = some (record e { files = remove_file path e.files })
test_download path e threw = none

abbrev pub with_lines : Bytes → Evaluation → Evaluation
with_lines lines e = record e { report = e.report ++ lines }

unfoldable pub run_test : Bench → Bytes → ℕ → Evaluation → Option Evaluation
unfolding upload_file download_file
run_test bench filename size e = do
  let path = test_path filename
  let times = bench.times filename
  let made = with_lines (test_header filename size) (create_dummy_file bench filename path size e)
  up ←
      test_upload times made
        (upload_file bench.fuel main_client path (made.files path) made.cluster)
  let told =
      with_lines (upload_lines bench size times.upload up.last_chunk_upload up.last_metadata_upload)
        up
  down ←
      test_download (download_path filename) told
        (download_file main_client filename (bench.writable (download_path filename)) told.cluster)
  some (with_lines (download_lines bench size times.download) down)

abbrev pub output_file : Bytes
output_file = codes "performance_evaluation.txt"

abbrev pub report_header : Bytes
report_header = codes "Performance Evaluation Results\n==============================\n\n"

abbrev pub small_size : ℕ
small_size = 100 * 1024

abbrev pub medium_size : ℕ
medium_size = 5 * 1024 * 1024

abbrev pub large_size : ℕ
large_size = 20 * 1024 * 1024

abbrev pub three_tests : Bench → Evaluation → Option (ℕ × Evaluation)
three_tests bench e = do
  small ← run_test bench (codes "small_file.dat") small_size e
  medium ← run_test bench (codes "medium_file.dat") medium_size small
  large ← run_test bench (codes "large_file.dat") large_size medium
  some (0, large)

-- The exit code and what the program leaves.
unfoldable pub main_evaluation : Bench → FileTree → Cluster → Option (ℕ × Evaluation)
unfolding run_test start_cluster
main_evaluation bench files c =
    let start : Evaluation = record {
      files = files;
      cluster = c;
      last_chunk_upload = 0;
      last_metadata_upload = 0;
      report = [];
    } in
    if bench.writable output_file
    then three_tests bench (record start { cluster = start_cluster 2 c; report = report_header })
    else some (1, start)
