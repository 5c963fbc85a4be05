-- ===== src/Dao/Constraints.antt =====
-- `ConstraintsDaoJson` of src/dao/json/constraints_dao_json.cpp.
use metadata_manager.Prelude.{ℤ, none, some, List}
use metadata_manager.Key.{Key}
use metadata_manager.Platform.{Platform}
use metadata_manager.Action.{Action, lift, pure, ◌>>=◌, ◌>>◌}
use metadata_manager.Ptree.{value_or}
use metadata_manager.Ptree.Helper.{Keys, int_value_to_string}
use metadata_manager.Session.{World, load_contents, set_contents}
use metadata_manager.Dao.{get_child}
use metadata_manager.Dao.Tables.{tables_database}
use metadata_manager.Dao.Nested
use metadata_manager.Dao.Nested.{change_table, with_node}
use metadata_manager.Dao.Columns.{identify, append_item}

module _ ⦃P : Platform⦄ where
  open P use {Tree, children, set_children, put_child}

  -- `columns` and `columnsId` are present in every stored constraint
  unfoldable pub completed : Tree → Tree
  unfolding with_node
  completed object = with_node Key.columns_id (with_node Key.columns object)

  -- As for columns, a missing table is no error.
  unfoldable pub insert : Tree → ℤ → Action World ℤ
  unfolding identify append_item completed change_table get_child load_contents set_contents ◌>>=◌
  insert object object_id = do
    contents ← load_contents tables_database Key.tables
    root_node ← lift (get_child Key.tables contents)
    let table_id = int_value_to_string Key.table_id object
    elim (change_table table_id (λ table. table) (children root_node)) [
      | none ↦ pure object_id
      | some _ ↦ do
        identified ← identify object
        set_contents tables_database (
            put_child Key.tables
              (set_children
                (value_or (children root_node) (
                  change_table table_id (append_item Key.constraints (completed identified.1))
                    (children root_node)))
                root_node)
              contents)
        pure identified.0
    ]

  unfoldable pub select : Keys → Tree → Action World Tree
  unfolding Nested.find_metadata_object load_contents ◌>>=◌
  select keys object = do
    contents ← load_contents tables_database Key.tables
    lift (Nested.find_metadata_object Key.constraints contents keys)

  unfoldable pub remove : Keys → Action World (List ℤ)
  unfolding Nested.delete_metadata_object load_contents set_contents ◌>>=◌
  remove keys = do
    contents ← load_contents tables_database Key.tables
    removed ← lift (Nested.delete_metadata_object Key.constraints contents keys)
    set_contents tables_database removed.0
    pure removed.1
