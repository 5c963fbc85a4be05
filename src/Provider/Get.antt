-- ===== src/Provider/Get.antt =====
-- The operations of `MetadataProvider` that retrieve objects (src/provider/metadata_provider.cpp).
use metadata_manager.ErrorCode.{result_multiple_rows}
use metadata_manager.Prelude.{[], ◌∷◌, ◌==◌, if◌then◌else◌}
use metadata_manager.Platform.{Platform}
use metadata_manager.Action.{Action, pure, fail, ◌>>=◌}
use metadata_manager.Ptree.{size}
use metadata_manager.Ptree.Helper.{Keys}
use metadata_manager.Provider.{DbSessionManager, init, get_not_found_error_code}

module _ ⦃P : Platform⦄ {S : Type 0} (session : DbSessionManager S) where
  open P use {Tree, children}

  -- `if ((error == OK) && (object.size() == 0)) error = get_not_found_error_code(keys);`
  unfoldable pub found_or_error : Keys → Tree → Action S Tree
  unfolding get_not_found_error_code
  found_or_error keys object =
      if size object == 0 then fail (get_not_found_error_code keys) else pure object

  unfoldable pub get_table_metadata : Keys → Tree → Action S Tree
  unfolding init found_or_error ◌>>=◌
  get_table_metadata keys object = do
    daos ← init session
    selected ← daos.table_dao.select keys object
    found_or_error keys selected

  unfoldable pub get_column_metadata : Keys → Tree → Action S Tree
  unfolding init found_or_error ◌>>=◌
  get_column_metadata keys object = do
    daos ← init session
    selected ← daos.column_dao.select keys object
    found_or_error keys selected

  unfoldable pub get_index_metadata : Keys → Tree → Action S Tree
  unfolding init found_or_error ◌>>=◌
  get_index_metadata keys object = do
    daos ← init session
    selected ← daos.index_dao.select keys object
    found_or_error keys selected

  unfoldable pub get_constraint_metadata : Keys → Tree → Action S Tree
  unfolding init found_or_error ◌>>=◌
  get_constraint_metadata keys object = do
    daos ← init session
    selected ← daos.constraint_dao.select keys object
    found_or_error keys selected

  unfoldable pub get_column_statistic : Keys → Tree → Action S Tree
  unfolding init found_or_error ◌>>=◌
  get_column_statistic keys object = do
    daos ← init session
    selected ← daos.statistic_dao.select keys object
    found_or_error keys selected

  unfoldable pub get_datatype_metadata : Keys → Tree → Action S Tree
  unfolding init found_or_error ◌>>=◌
  get_datatype_metadata keys object = do
    daos ← init session
    selected ← daos.datatype_dao.select keys object
    found_or_error keys selected

  unfoldable pub get_role_metadata : Keys → Tree → Action S Tree
  unfolding init found_or_error ◌>>=◌
  get_role_metadata keys object = do
    daos ← init session
    selected ← daos.role_dao.select keys object
    found_or_error keys selected

  -- what the classes do with the rows: `if (object.size() == 1) … else error = RESULT_MULTIPLE_ROWS`
  unfoldable pub only_row : Tree → Action S Tree
  only_row tmp_object = elim (children tmp_object) [
    | [] ↦ fail result_multiple_rows
    | (_, row) ∷ rest ↦ elim rest [ [] ↦ pure row | _ ∷ _ ↦ fail result_multiple_rows ]
  ]
