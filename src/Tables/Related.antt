-- ===== src/Tables/Related.antt =====
-- The private member functions of `Tables` on columns, constraints, indexes and statistics
-- (src/tables.cpp).
use metadata_manager.Prelude.{ℤ, String, to_string, none, some, [], ◌∷◌}
use metadata_manager.Key.{Key}
use metadata_manager.Platform.{Platform}
use metadata_manager.ErrorCode.{internal_error}
use metadata_manager.Action.{Action, pure, fail, recover, ◌>>=◌, ◌>>◌}
use metadata_manager.Ptree.{get_int?}
use metadata_manager.Provider.{DbSessionManager, is_not_found}
use metadata_manager.Provider.Get.{get_column_metadata, get_constraint_metadata}
use metadata_manager.Provider.Change.{
  update_column_metadata, update_constraint_metadata, remove_column_metadata, remove_index_metadata,
  remove_constraint_metadata, remove_column_statistics,
}

module _ ⦃P : Platform⦄ {S : Type 0} (session : DbSessionManager S) where
  open P use {Tree, empty, add_child, get_child?}

  -- the rows of a table; a not-found error leaves the tree empty
  unfoldable pub related_rows : String → Tree → Action S Tree
  unfolding get_column_metadata get_constraint_metadata ◌>>=◌
  related_rows table_id object = do
    column_rows ←
        recover is_not_found empty
          (get_column_metadata session ((Key.table_id, table_id) ∷ []) empty)
    constraint_rows ←
        recover is_not_found empty
          (get_constraint_metadata session ((Key.table_id, table_id) ∷ []) empty)
    pure (add_child Key.constraints constraint_rows (add_child Key.columns column_rows object))

  unfoldable pub get_related_metadata : Tree → Action S Tree
  unfolding related_rows
  get_related_metadata object = elim (get_int? Key.id object) [
    | none ↦ fail internal_error
    | some table_id ↦ related_rows (to_string table_id) object
  ]

  unfoldable pub update_columns : String → Tree → Action S (Unit {0})
  unfolding update_column_metadata ◌>>=◌
  update_columns table_id object = elim (get_child? Key.columns object) [
    | none ↦ pure tt
    | some node ↦ do update_column_metadata session ((Key.table_id, table_id) ∷ []) node; pure tt
  ]

  unfoldable pub update_constraints : String → Tree → Action S (Unit {0})
  unfolding update_constraint_metadata ◌>>=◌
  update_constraints table_id object = elim (get_child? Key.constraints object) [
    | none ↦ pure tt
    | some node ↦ do
      update_constraint_metadata session ((Key.table_id, table_id) ∷ []) node
      pure tt
  ]

  unfoldable pub update_related_metadata : ℤ → Tree → Action S (Unit {0})
  unfolding update_columns update_constraints ◌>>=◌
  update_related_metadata object_id object = do
    update_columns (to_string object_id) object
    update_constraints (to_string object_id) object

  unfoldable pub remove_related_metadata : ℤ → Action S (Unit {0})
  unfolding remove_column_metadata remove_index_metadata remove_constraint_metadata
      remove_column_statistics ◌>>=◌
  remove_related_metadata object_id = do
    recover is_not_found []
        (remove_column_metadata session ((Key.table_id, to_string object_id) ∷ []))
    recover is_not_found []
        (remove_index_metadata session ((Key.table_id, to_string object_id) ∷ []))
    recover is_not_found []
        (remove_constraint_metadata session ((Key.table_id, to_string object_id) ∷ []))
    recover is_not_found []
        (remove_column_statistics session ((Key.table_id, to_string object_id) ∷ []))
    pure tt
