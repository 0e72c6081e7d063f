-- ===== src/Tests/Config.antt =====
-- Two nodes and their lines.
use distributed_file_storage.Base.{◌≡◌, refl, [], ◌∷◌, map, codes, arith}
use distributed_file_storage.Base.Int.{pos}
use distributed_file_storage.Config.{NodeInfo, load_config}
use distributed_file_storage.Config.Lines.{line_of_node, IsListed, load_config_lines}

abbrev storage_node : NodeInfo
storage_node = record { id = pos 1; host = codes "::1"; port = pos 8001 }

abbrev metadata_node : NodeInfo
metadata_node = record { id = pos 11; host = codes "::1"; port = pos 9001 }

storage_node-IsListed : IsListed storage_node
storage_node-IsListed = record {
  id_fits = (omega arith, omega arith);
  host_word = record { some_letter = λ e. cc; letters = (refl, (refl, (refl, tt))) };
  port_fits = (omega arith, omega arith);
}

metadata_node-IsListed : IsListed metadata_node
metadata_node-IsListed = record {
  id_fits = (omega arith, omega arith);
  host_word = record { some_letter = λ e. cc; letters = (refl, (refl, (refl, tt))) };
  port_fits = (omega arith, omega arith);
}

load_config_lines_example :
    load_config (map line_of_node (storage_node ∷ metadata_node ∷ []))
    ≡ storage_node ∷ metadata_node ∷ []
load_config_lines_example =
    load_config_lines (storage_node ∷ metadata_node ∷ [])
      (storage_node-IsListed, (metadata_node-IsListed, tt))
