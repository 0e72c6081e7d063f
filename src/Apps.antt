-- ===== src/Apps.antt =====
-- apps/main_client.cpp and apps/main_verify_files.cpp: the programs that a user starts. `argv` is the
-- list of the arguments behind the name of the program.
pub mod Journey
pub mod Nodes
pub mod Chain
use distributed_file_storage.Base.{
  ℕ, Bool, true, false, Option, none, some, List, [], ◌∷◌, Bytes, codes, if◌then◌else◌,
}
use distributed_file_storage.Base.Equality.{◌==◌, Bytes_eq}
use distributed_file_storage.Client.Download.{
  Client, Outcome, went_on, returned, threw, download_file,
}
use distributed_file_storage.Client.Upload.{
  Ending, gives, returns, throwing, new_client, upload_file,
}
use distributed_file_storage.Cluster.{Cluster}
use distributed_file_storage.Hashing.{compute_cid}

-- What stands at each path.
abbrev pub FileTree : Type 0
FileTree = Bytes → Option Bytes

abbrev pub write_file : Bytes → Bytes → FileTree → FileTree
write_file path contents files other = if path == other then some contents else files other

-- Behind the two calls of `computeCID`.
abbrev pub compare_cids : Bytes → Bytes → ℕ
compare_cids [] reconstructed = 1
compare_cids (o ∷ original) [] = 1
compare_cids (o ∷ original) (r ∷ reconstructed) =
    if (o ∷ original) == (r ∷ reconstructed) then 0 else 1

-- The exit code of `verify_files`.
unfoldable pub verify_files : List Bytes → FileTree → ℕ
unfolding compute_cid
verify_files [] files = 1
verify_files (original ∷ []) files = 1
verify_files (original ∷ reconstructed ∷ []) files =
    compare_cids (compute_cid (files original)) (compute_cid (files reconstructed))
verify_files (original ∷ reconstructed ∷ more ∷ rest) files = 1

-- The exit code, or `none` where an exception ends the program, and what the program leaves.
pub record Run : Type 0 where
  pub exit_code : Option ℕ
  pub files : FileTree
  pub cluster : Cluster

abbrev pub exits : ℕ → FileTree → Cluster → Run
exits code files c = record { exit_code = some code; files = files; cluster = c }

abbrev pub after_upload : FileTree → Ending Bool → Run
after_upload files (gives complete c) = exits 0 files c
after_upload files (returns c) = exits 0 files c
after_upload files (throwing c) = record { exit_code = none; files = files; cluster = c }

abbrev pub after_download : Bytes → FileTree → Cluster → Outcome (Option Bytes) → Run
after_download path files c (went_on none) = exits 0 files c
after_download path files c (went_on (some contents)) = exits 0 (write_file path contents files) c
after_download path files c returned = exits 0 files c
after_download path files c threw = record { exit_code = none; files = files; cluster = c }

-- The addresses that `main_client` is built with.
abbrev pub storage_addresses : List Bytes
storage_addresses = codes "127.0.0.1:8001" ∷ codes "127.0.0.1:8002" ∷ []

abbrev pub metadata_addresses : List Bytes
metadata_addresses = codes "127.0.0.1:9001" ∷ codes "127.0.0.1:9002" ∷ codes "127.0.0.1:9003" ∷ []

unfoldable pub main_client : Client
unfolding new_client
main_client = new_client storage_addresses metadata_addresses

abbrev pub run_download : Client → Bytes → List Bytes → (Bytes → Bool) → FileTree → Cluster → Run
run_download client name [] writable files c = exits 1 files c
run_download client name (output ∷ rest) writable files c =
    after_download output files c (download_file client name (writable output) c)

-- The branches on the command. `writable` says which files can be created.
unfoldable pub run_client : ℕ → Client → List Bytes → (Bytes → Bool) → FileTree → Cluster → Run
unfolding upload_file download_file
run_client fuel client [] writable files c = exits 1 files c
run_client fuel client (command ∷ []) writable files c = exits 1 files c
run_client fuel client (command ∷ argument ∷ rest) writable files c =
    if command == codes "upload"
    then after_upload files (upload_file fuel client argument (files argument) c)
    else if command == codes "download"
    then run_download client argument rest writable files c
    else exits 1 files c
