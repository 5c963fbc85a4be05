-- ===== src/Dao/Columns.antt =====
-- `ColumnsDaoJson` of src/dao/json/columns_dao_json.cpp.
use metadata_manager.Prelude.{ℤ, none, some, List, is_positive, if◌then◌else◌}
use metadata_manager.Key.{Key}
use metadata_manager.Platform.{Platform}
use metadata_manager.Action.{Action, lift, pure, ◌>>=◌, ◌>>◌}
use metadata_manager.Ptree.{value_or, get_int?, put_int, push_back}
use metadata_manager.Ptree.Helper.{Keys, int_value_to_string}
use metadata_manager.Session.{World, load_contents, set_contents}
use metadata_manager.Dao.{get_child, generate_oid, update_oid}
use metadata_manager.Dao.Tables.{tables_database}
use metadata_manager.Dao.Nested
use metadata_manager.Dao.Nested.{change_table, with_node}

module _ ⦃P : Platform⦄ where
  open P use {Tree, empty, children, set_children, get_child?, put_child}

  -- A specified identifier goes to the generator's `update`, whose result is returned, and the object
  -- keeps the specified one; else an identifier is generated.
  unfoldable pub identify : Tree → Action World (ℤ × Tree)
  unfolding generate_oid update_oid ◌>>=◌
  identify object =
      let specified = value_or (ℤ.negsuc 0) (get_int? Key.id object) in
      if is_positive specified
      then (do object_id ← update_oid Key.global specified; pure (object_id, object))
      else (do
        object_id ← generate_oid Key.global
        pure (object_id, put_int Key.id object_id object))

  -- `node.push_back(item)` in the row of a table, whose node is made where it is absent
  unfoldable pub append_item : Key → Tree → Tree → Tree
  unfolding with_node
  append_item node item table =
      let prepared = with_node node table in
      put_child node (push_back item (value_or empty (get_child? node prepared))) prepared

  -- Where there is no such table, the comparison `error == NOT_FOUND` stands for an assignment, and the
  -- function returns the `OK` of the load.
  unfoldable pub insert : Tree → ℤ → Action World ℤ
  unfolding identify append_item change_table get_child load_contents set_contents ◌>>=◌
  insert object object_id = do
    contents ← load_contents tables_database Key.tables
    root_node ← lift (get_child Key.tables contents)
    let table_id = int_value_to_string Key.table_id object
    elim (change_table table_id (λ table. table) (children root_node)) [
      | none ↦ pure object_id
      | some _ ↦ do
        identified ← identify object
        set_contents tables_database (
            put_child Key.tables
              (set_children
                (value_or (children root_node) (
                  change_table table_id (append_item Key.columns identified.1)
                    (children root_node)))
                root_node)
              contents)
        pure identified.0
    ]

  unfoldable pub select : Keys → Tree → Action World Tree
  unfolding Nested.find_metadata_object load_contents ◌>>=◌
  select keys object = do
    contents ← load_contents tables_database Key.tables
    lift (Nested.find_metadata_object Key.columns contents keys)

  unfoldable pub remove : Keys → Action World (List ℤ)
  unfolding Nested.delete_metadata_object load_contents set_contents ◌>>=◌
  remove keys = do
    contents ← load_contents tables_database Key.tables
    removed ← lift (Nested.delete_metadata_object Key.columns contents keys)
    set_contents tables_database removed.0
    pure removed.1
