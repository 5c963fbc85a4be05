-- ===== src/Provider/Change.antt =====
-- The operations of `MetadataProvider` that update and remove objects
-- (src/provider/metadata_provider.cpp).
use metadata_manager.Prelude.{
  ℕ, ℤ, String, Option, none, some, List, [], ◌∷◌, length, ◌==◌, if◌then◌else◌,
}
use metadata_manager.Key.{Key}
use metadata_manager.Platform.{Platform}
use metadata_manager.ErrorCode.{not_supported}
use metadata_manager.Action.{Action, pure, fail, ◌>>=◌}
use metadata_manager.Ptree.{put}
use metadata_manager.Ptree.Helper.{Keys}
use metadata_manager.Dao.{Dao}
use metadata_manager.Provider.{DbSessionManager, init, find_key, get_not_found_error_code}
use metadata_manager.Provider.Add.{items, insert_items}

module _ ⦃P : Platform⦄ {S : Type 0} (session : DbSessionManager S) where
  open P use {Tree}

  -- `if (updated_rows == 0) error = get_not_found_error_code(keys);`
  unfoldable pub rows_or_error : Keys → ℕ → Action S ℕ
  unfolding get_not_found_error_code
  rows_or_error keys rows = if rows == 0 then fail (get_not_found_error_code keys) else pure rows

  -- `if (removed_ids.size() == 0) error = get_not_found_error_code(keys);`
  unfoldable pub ids_or_error : Keys → List ℤ → Action S (List ℤ)
  unfolding get_not_found_error_code
  ids_or_error keys [] = fail (get_not_found_error_code keys)
  ids_or_error keys (removed ∷ ids) = pure (removed ∷ ids)

  unfoldable pub update_table_metadata : Keys → Tree → Action S ℕ
  unfolding init rows_or_error ◌>>=◌
  update_table_metadata keys object = do
    daos ← init session
    updated_rows ← daos.table_dao.update keys object
    rows_or_error keys updated_rows

  unfoldable pub update_index_metadata : Keys → Tree → Action S ℕ
  unfolding init rows_or_error ◌>>=◌
  update_index_metadata keys object = do
    daos ← init session
    updated_rows ← daos.index_dao.update keys object
    rows_or_error keys updated_rows

  -- the rows of a table are removed, and those of `object` inserted in their place
  unfoldable pub replace_items : Dao S → Keys → Option String → Tree → Action S ℕ
  unfolding items insert_items ◌>>=◌
  replace_items dao keys none object = fail not_supported
  replace_items dao keys (some table_id) object = do
    removed_ids ← dao.remove keys
    oids ← insert_items dao (put Key.table_id table_id) (items object)
    pure (length (items object))

  unfoldable pub update_column_metadata : Keys → Tree → Action S ℕ
  unfolding init find_key replace_items ◌>>=◌
  update_column_metadata keys object = do
    daos ← init session
    replace_items daos.column_dao keys (find_key Key.table_id keys) object

  unfoldable pub update_constraint_metadata : Keys → Tree → Action S ℕ
  unfolding init find_key replace_items ◌>>=◌
  update_constraint_metadata keys object = do
    daos ← init session
    replace_items daos.constraint_dao keys (find_key Key.table_id keys) object

  unfoldable pub remove_table_metadata : Keys → Action S (List ℤ)
  unfolding init ids_or_error ◌>>=◌
  remove_table_metadata keys = do
    daos ← init session
    removed_ids ← daos.table_dao.remove keys
    ids_or_error keys removed_ids

  unfoldable pub remove_column_metadata : Keys → Action S (List ℤ)
  unfolding init ids_or_error ◌>>=◌
  remove_column_metadata keys = do
    daos ← init session
    removed_ids ← daos.column_dao.remove keys
    ids_or_error keys removed_ids

  unfoldable pub remove_index_metadata : Keys → Action S (List ℤ)
  unfolding init ids_or_error ◌>>=◌
  remove_index_metadata keys = do
    daos ← init session
    removed_ids ← daos.index_dao.remove keys
    ids_or_error keys removed_ids

  unfoldable pub remove_constraint_metadata : Keys → Action S (List ℤ)
  unfolding init ids_or_error ◌>>=◌
  remove_constraint_metadata keys = do
    daos ← init session
    removed_ids ← daos.constraint_dao.remove keys
    ids_or_error keys removed_ids

  unfoldable pub remove_column_statistics : Keys → Action S (List ℤ)
  unfolding init ids_or_error ◌>>=◌
  remove_column_statistics keys = do
    daos ← init session
    removed_ids ← daos.statistic_dao.remove keys
    ids_or_error keys removed_ids
