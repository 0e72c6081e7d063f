-- ===== src/Client.antt =====
-- client/client.hpp and client/client.cpp: the messages of the client to the metadata
-- nodes, and the transfer of one chunk.
pub mod Chunks
pub mod Address
pub mod Download
pub mod Upload
pub mod Integrity
pub mod Uploads
pub mod Copies
pub mod Availability
pub mod Route
pub mod RoundTrip
pub mod Running
pub mod Completion
pub mod Replication
pub mod Failover
pub mod Survival
pub mod Answers
pub mod Exceptions
use distributed_file_storage.Base.{
  ◌&&◌, Option, none, some, [], ◌∷◌, ◌++◌, Bytes, codes, ltb, length, take, drop, if◌then◌else◌,
}
use distributed_file_storage.Base.Options.{◌>>=◌}
use distributed_file_storage.Base.Equality.{◌==◌, Bytes_eq}
use distributed_file_storage.Streams.{read_word, read_int, to_string, split_hashes, join_hashes}
use distributed_file_storage.Metadata.{FileMetadata}

-- The command of `putMetadataToNode`; the fields of `meta` are its local variables.
unfoldable pub put_command : FileMetadata → Bytes
put_command meta =
    codes "PUT "
    ++ (meta.filename
        ++ b' '
          ∷ (to_string meta.file_size
              ++ b' '
                ∷ (to_string meta.chunk_size
                    ++ b' '
                      ∷ (to_string meta.total_chunks
                          ++ b' ' ∷ (meta.root_hash ++ b' ' ∷ join_hashes meta.chunk_hashes)))))

-- The text behind "FOUND ". Where a read fails, the file name and the hashes of the result stay
-- empty, which is `none`.
unfoldable pub read_metadata : Bytes → Bytes → Option FileMetadata
read_metadata filename s = do
  file_size ← read_int 64 s
  chunk_size ← read_int 32 file_size.1
  total_chunks ← read_int 32 chunk_size.1
  root_hash ← read_word total_chunks.1
  hashes ← read_word root_hash.1
  some (record {
    filename = filename;
    root_hash = root_hash.0;
    file_size = file_size.0;
    chunk_size = chunk_size.0;
    total_chunks = total_chunks.0;
    chunk_hashes = split_hashes [] hashes.0;
  })

-- What `getMetadataFromNode` makes of the response.
unfoldable pub metadata_of_response : Bytes → Bytes → Option FileMetadata
metadata_of_response filename response =
    if ltb 6 (length response) && (take 6 response == codes "FOUND ")
    then read_metadata filename (drop 6 response)
    else none
