-- ===== src/Client/Exceptions/Calls.antt =====
-- No exception leaves a call of the client.
use distributed_file_storage.Base.{ℕ, Bool, Option, none, some, [], Bytes}
use distributed_file_storage.Client.Availability.{Readable}
use distributed_file_storage.Client.Download.{
  Client, find_metadata, download_chunks, backwards, download_file,
}
use distributed_file_storage.Client.Upload.{upload_file}
use distributed_file_storage.Cluster.{Cluster}
use distributed_file_storage.Files.{split_file_into_chunks}
use distributed_file_storage.Client.Exceptions.{
  NoThrow, NoThrowOutcome, bind-NoThrowOutcome, IsConfigured,
}
use distributed_file_storage.Client.Exceptions.Upload.{upload_split-NoThrow}
use distributed_file_storage.Client.Exceptions.Download.{
  download_chunks-NoThrow, find_metadata-NoThrow, backwards-All,
}

-- Whatever the nodes answer, no exception leaves an upload or a download of a client whose addresses
-- can be read and whose ring is well-formed.
pub upload_download-NoThrow :
    (fuel : ℕ) (client : Client) (path name : Bytes) (file : Option Bytes) (writable : Bool)
    (c d : Cluster)
    → IsConfigured client
    → NoThrow (upload_file fuel client path file c)
      × NoThrowOutcome (download_file client name writable d)
unfolding upload_file download_file
upload_download-NoThrow fuel client path name file writable c d h = (
  of_file file,
  bind-NoThrowOutcome (find_metadata (backwards client.metadata_nodes []) name d) _
      (find_metadata-NoThrow (backwards client.metadata_nodes []) name d
        (backwards-All Readable client.metadata_nodes [] h.metadata_readable tt))
      λ meta e.
        bind-NoThrowOutcome (download_chunks client.dht 0 meta.chunk_hashes d) _
          (download_chunks-NoThrow client.dht h.ring h.storage_readable 0 meta.chunk_hashes d)
          λ chunks e'. tt,
)
  where
    of_file : (file : Option Bytes) → NoThrow (upload_file fuel client path file c)
    of_file none = tt
    of_file (some f) = upload_split-NoThrow fuel client path f (split_file_into_chunks (some f)) c h
