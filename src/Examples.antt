-- ===== src/Examples.antt =====
-- The theorems at concrete inputs: the platform `Sample.sample`, a table with one column, and the
-- states of a storage that holds nothing yet.
pub mod Objects
pub mod Sessions
pub mod Stored
pub mod Postgres
pub mod Texts
pub mod Statistics
pub mod Nested
pub mod Classes
use metadata_manager.Prelude.{pos, negsuc, String, List, [], ◌∷◌, Option, none, false, true}
use metadata_manager.Sample.{sample, Tree}
use metadata_manager.Sample.Forest.{node, nil, cons}
use metadata_manager.Session.{World}

abbrev leaf : String → Tree
leaf v = node v nil

abbrev pub user_column : Tree
user_column = node "" (
    cons "name" (leaf "id") (
      cons "columnNumber" (leaf "1")
        (cons "dataTypeId" (leaf "23") (cons "isNotNull" (leaf "true") nil))))

abbrev pub user_table : Tree
user_table =
    node "" (cons "name" (leaf "users") (cons "columns" (node "" (cons "" user_column nil)) nil))

-- nothing was stored yet
abbrev pub new_world : World
new_world = record { disk = []; oids = none; contents_map = []; locking = false }

abbrev pub open_world : World
open_world = record { disk = []; oids = none; contents_map = []; locking = true }

-- what the first load of the tables gives
abbrev pub no_tables : Tree
no_tables = node "" (cons "tables" (leaf "") nil)
