-- ===== src/Dao/Nested.antt =====
-- What `ColumnsDaoJson` and `ConstraintsDaoJson` share: rows that stand in a node of their table's row
-- (src/dao/json/columns_dao_json.cpp; src/dao/json/constraints_dao_json.cpp has the same loops). The
-- parameter `node` is `Table::COLUMNS_NODE` or `Table::CONSTRAINTS_NODE`.
pub mod Items
pub mod Missing
use metadata_manager.Prelude.{
  ℤ, String, Bool, true, false, Option, none, some, List, [], ◌∷◌, ◌++◌, str_eq, if◌then◌else◌,
}
use metadata_manager.Key.{Key, ◌=?◌}
use metadata_manager.Platform.{Platform}
use metadata_manager.Outcome.{Outcome, ok, thrown, ◌>>=◌}
use metadata_manager.Ptree.{get_string?}
use metadata_manager.Ptree.Helper.{Keys, is_match, int_value_to_string}
use metadata_manager.Dao.{get_child}
use metadata_manager.Dao.Rows.{Rows, row_id, find_loop}

-- `keys.find(TABLE_ID)`, which becomes the keys that pre-qualify the tables
unfoldable pub table_keys : Keys → Keys
table_keys [] = []
table_keys ((k, v) ∷ keys) = if k =? Key.table_id then (Key.id, v) ∷ [] else table_keys keys

module _ ⦃P : Platform⦄ where
  open P use {Tree, empty, children, set_children, get_child?, put_child, add_child}

  -- `table.get<std::string>(Table::ID)`, for the log, throws where the member is absent.
  logged_id : Tree → Outcome (Unit {0})
  logged_id table = elim (get_string? Key.id table) [ none ↦ thrown | some _ ↦ ok tt ]

  -- the first table that the keys select
  first_table : Keys → Rows Tree → Outcome (Rows Tree)
  unfolding logged_id
  first_table tkeys [] = ok []
  first_table tkeys ((n, table) ∷ rows) = elim (logged_id table) [
    | ok _ ↦ elim (is_match table tkeys) [
      | true ↦ ok (("", table) ∷ [])
      | false ↦ first_table tkeys rows
    ]
    | _ ↦ thrown
  ]

  unfoldable pub candidates : Keys → Tree → Outcome (Rows Tree)
  unfolding first_table get_child
  candidates [] objects = elim (get_child? Key.tables objects) [
    | none ↦ ok []
    | some root_node ↦ ok (children root_node)
  ]
  candidates (key ∷ tkeys) objects = do
    root_node ← get_child Key.tables objects
    first_table (key ∷ tkeys) (children root_node)

  unfoldable pub find_in_tables : Key → Keys → Rows Tree → Tree → Tree
  unfolding find_loop
  find_in_tables node keys [] object = object
  find_in_tables node keys ((_, table) ∷ rows) object =
      find_in_tables node keys rows (elim (get_child? node table) [
        | none ↦ object
        | some items ↦ find_loop keys (children items) object
      ])

  unfoldable pub find_metadata_object : Key → Tree → Keys → Outcome Tree
  unfolding candidates find_in_tables table_keys
  find_metadata_object node objects keys = do
    tables ← candidates (table_keys keys) objects
    ok (find_in_tables node keys tables empty)

  -- the items that stay and the identifiers of those removed
  unfoldable pub delete_items : Keys → Rows Tree → Rows Tree × List ℤ
  delete_items keys [] = ([], [])
  delete_items keys ((n, item) ∷ items) =
      let (kept, ids) = delete_items keys items in
      if is_match item keys then (kept, row_id item ∷ ids) else ((n, item) ∷ kept, ids)

  delete_in_table : Key → Keys → Tree → Tree × List ℤ
  unfolding delete_items
  delete_in_table node keys table = elim (get_child? node table) [
    | none ↦ (table, [])
    | some items ↦
        let (kept, ids) = delete_items keys (children items) in
        (put_child node (set_children kept items) table, ids)
  ]

  -- `none` where the table is passed over; the log reads its identifier in both cases
  selected : Keys → Tree → Outcome Bool
  unfolding logged_id
  selected [] table = ok true
  selected (key ∷ tkeys) table = do _ ← logged_id table; ok (is_match table (key ∷ tkeys))

  delete_in_row : Key → Keys → Keys → Tree → Outcome (Tree × List ℤ)
  unfolding selected delete_in_table
  delete_in_row node tkeys keys table = do
    chosen ← selected tkeys table
    ok (if chosen then delete_in_table node keys table else (table, []))

  unfoldable pub delete_in_tables : Key → Keys → Keys → Rows Tree → Outcome (Rows Tree × List ℤ)
  unfolding delete_in_row
  delete_in_tables node tkeys keys [] = ok ([], [])
  delete_in_tables node tkeys keys ((n, table) ∷ rows) = do
    changed ← delete_in_row node tkeys keys table
    rest ← delete_in_tables node tkeys keys rows
    ok ((n, changed.0) ∷ rest.0, changed.1 ++ rest.1)

  unfoldable pub delete_metadata_object : Key → Tree → Keys → Outcome (Tree × List ℤ)
  unfolding delete_in_tables get_child table_keys
  delete_metadata_object node objects keys = do
    root_node ← get_child Key.tables objects
    removed ← delete_in_tables node (table_keys keys) keys (children root_node)
    ok (put_child Key.tables (set_children removed.0 root_node) objects, removed.1)

  -- the loop of `insert` that looks for the row of a table, which `change` then changes in place
  unfoldable pub change_table : String → (Tree → Tree) → Rows Tree → Option (Rows Tree)
  change_table table_id change [] = none
  change_table table_id change ((n, table) ∷ rows) =
      if str_eq (int_value_to_string Key.id table) table_id
      then some ((n, change table) ∷ rows)
      else elim (change_table table_id change rows) [
        | none ↦ none
        | some changed ↦ some ((n, table) ∷ changed)
      ]

  -- `if (find(k) == not_found()) add_child(k, empty)`
  unfoldable pub with_node : Key → Tree → Tree
  with_node k t = elim (get_child? k t) [ none ↦ add_child k empty t | some _ ↦ t ]
