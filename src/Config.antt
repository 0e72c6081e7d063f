-- ===== src/Config.antt =====
-- common/node_config.hpp, common/node_config.cpp, common/node_info.hpp, and the choice of the next
-- node in apps/main_metadata_node.cpp.
pub mod Lines
use distributed_file_storage.Base.{
  ℕ, Bool, ◌||◌, Option, none, some, List, [], ◌∷◌, ◌++◌, Bytes, if◌then◌else◌,
}
use distributed_file_storage.Base.Int.{ℤ, pos, eqb_ℤ, ltb_ℤ}
use distributed_file_storage.Base.Options.{◌>>=◌}
use distributed_file_storage.Base.Sorting.{sort}
use distributed_file_storage.Base.Tests.{◌==◌}
use distributed_file_storage.Metadata.{Link, no_link}
use distributed_file_storage.Streams.{read_word, read_int, to_string}

pub record NodeInfo : Type 0 where
  pub id : ℤ
  pub host : Bytes
  pub port : ℤ

-- `NodeInfo{}`
abbrev pub no_node : NodeInfo
no_node = record { id = pos 0; host = []; port = pos 0 }

unfoldable pub get_address : NodeInfo → Bytes
get_address n = n.host ++ b':' ∷ to_string n.port

pub record NodeConfig : Type 0 where
  pub my_node_id : ℤ
  pub nodes : List NodeInfo

abbrev pub is_blank : ℕ → Bool
is_blank c = c == 32 || c == 9

-- From `find_first_not_of(" \t")` on.
unfoldable pub skip_blanks : Bytes → Bytes
skip_blanks [] = []
skip_blanks (c ∷ line) = let rest = skip_blanks line in if is_blank c then rest else c ∷ line

-- A letter in front of a text without blanks at its end.
abbrev pub before_text : ℕ → Bytes → Bytes
before_text c [] = if is_blank c then [] else c ∷ []
before_text c (d ∷ text) = c ∷ d ∷ text

-- Up to `find_last_not_of(" \t")`.
unfoldable pub drop_blanks : Bytes → Bytes
drop_blanks [] = []
drop_blanks (c ∷ line) = before_text c (drop_blanks line)

-- `iss >> id >> host >> port`
unfoldable pub read_node : Bytes → Option NodeInfo
read_node line = do
  id ← read_int 32 line
  host ← read_word id.1
  port ← read_int 32 host.1
  some (record { id = id.0; host = host.0; port = port.0 })

-- One line of the file, without the blanks in front of it.
abbrev pub node_of_text : Bytes → Option NodeInfo
node_of_text [] = none
node_of_text (c ∷ line) = if c == b'#' then none else read_node (drop_blanks (c ∷ line))

unfoldable pub node_of_line : Bytes → Option NodeInfo
node_of_line line = node_of_text (skip_blanks line)

abbrev pub push_node : Option NodeInfo → List NodeInfo → List NodeInfo
push_node none nodes = nodes
push_node (some n) nodes = n ∷ nodes

-- `loadConfig` on the lines of the file; a file that cannot be opened has none.
unfoldable pub load_config : List Bytes → List NodeInfo
load_config [] = []
load_config (line ∷ lines) = push_node (node_of_line line) (load_config lines)

-- The first node with the id, or `NodeInfo{}`.
unfoldable pub find_node : ℤ → List NodeInfo → NodeInfo
find_node id [] = no_node
find_node id (n ∷ nodes) = if eqb_ℤ n.id id then n else find_node id nodes

unfoldable pub get_my_node : NodeConfig → NodeInfo
unfolding find_node
get_my_node c = find_node c.my_node_id c.nodes

unfoldable pub get_node_by_id : ℤ → NodeConfig → NodeInfo
unfolding find_node
get_node_by_id id c = find_node id c.nodes

unfoldable pub other_nodes : ℤ → List NodeInfo → List NodeInfo
other_nodes id [] = []
other_nodes id (n ∷ nodes) =
    let rest = other_nodes id nodes in if eqb_ℤ n.id id then rest else n ∷ rest

unfoldable pub get_peer_nodes : NodeConfig → List NodeInfo
unfolding other_nodes
get_peer_nodes c = other_nodes c.my_node_id c.nodes

-- The nodes with an id of 11 or more.
unfoldable pub metadata_nodes : List NodeInfo → List NodeInfo
metadata_nodes [] = []
metadata_nodes (n ∷ nodes) =
    let rest = metadata_nodes nodes in if ltb_ℤ n.id (pos 11) then rest else n ∷ rest

abbrev pub by_id : NodeInfo → NodeInfo → Bool
by_id a b = ltb_ℤ a.id b.id

abbrev pub link_of_first : List NodeInfo → Link
link_of_first [] = no_link
link_of_first (n ∷ nodes) = record { ip = n.host; port = n.port }

-- The loop over the sorted nodes: the one behind the first with the id.
unfoldable pub node_behind : ℤ → List NodeInfo → Link
node_behind id [] = no_link
node_behind id (n ∷ nodes) = if eqb_ℤ n.id id then link_of_first nodes else node_behind id nodes

unfoldable pub next_node : ℤ → List NodeInfo → Link
unfolding metadata_nodes sort node_behind
next_node id nodes = node_behind id (sort by_id (metadata_nodes nodes))
