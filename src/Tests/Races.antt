-- ===== src/Tests/Races.antt =====
-- Two versions of one file, put to two nodes of a chain.
use distributed_file_storage.Base.{◌≡◌, refl, some, [], codes}
use distributed_file_storage.Base.Int.{pos}
use distributed_file_storage.Metadata.{FileMetadata, MetadataNode, no_link, new_node}
use distributed_file_storage.Metadata.Races.{Neighbours, Race, at_rest, stored, race_diverges}
use distributed_file_storage.Tests.Metadata.{notes}

abbrev newer_notes : FileMetadata
newer_notes = record notes { root_hash = codes "cd34" }

abbrev idle_node : MetadataNode
idle_node = new_node no_link (pos 9003)

-- The node in front of it.
abbrev busy_node : MetadataNode
busy_node = new_node (record { ip = codes "127.0.0.1"; port = pos 9003 }) (pos 9002)

race_diverges_example :
    (t : Neighbours) × Race (at_rest busy_node idle_node) t
    × (t.under_way ≡ [])
    × (stored (codes "notes") t.front ≡ some newer_notes)
    × (stored (codes "notes") t.back ≡ some notes)
race_diverges_example = race_diverges busy_node idle_node notes newer_notes refl refl
