-- ===== src/Postgres/Indexes/Access.antt =====
-- `IndexDaoPg` of src/dao/postgresql/index_dao_pg.cpp: its operations.
use mathlib.Core.List.{◌++◌}
use metadata_manager.Prelude.{ℕ, ℤ, Option, List, [], ◌∷◌}
use metadata_manager.Platform.{Platform}
use metadata_manager.Libpq.{Libpq}
use metadata_manager.ErrorCode.{not_supported, result_multiple_rows}
use metadata_manager.Action.{Action, lift, fail, pure, ◌>>=◌}
use metadata_manager.Ptree.Helper.{Keys}
use metadata_manager.Dao.{Dao}
use metadata_manager.Postgres.{deletion, DaoPg, PgWorld, default_key, get_number_of_rows_affected}
use metadata_manager.Postgres.Prepared.{
  entry, create_prepared_statements, no_statements, prepare_all, create_dao_instance,
}
use metadata_manager.Postgres.Results.{
  key_or_default, first_key, execute_by_key, added_id, removed_ids, all_rows,
}
use metadata_manager.Postgres.Indexes.{
  source, get_delete_statement, insert_params, update_params, convert_pgresult_to_ptree,
}

module _ ⦃P : Platform⦄ ⦃L : Libpq⦄ where
  open P use {Tree}

  unfoldable pub make : Option ℕ → DaoPg
  unfolding create_prepared_statements
  make pg_conn =
      let dao = create_prepared_statements source (no_statements pg_conn) in
      record dao {
        delete_statements =
            dao.delete_statements
            ++ entry source deletion "tableId" (get_delete_statement "table_id") ∷ [];
      }

  unfoldable pub insert : DaoPg → Tree → Action PgWorld ℤ
  unfolding execute_by_key added_id insert_params ◌>>=◌
  insert dao object = do
    params ← lift (insert_params object)
    res ← execute_by_key dao.pg_conn dao.insert_statements default_key params
    lift (added_id result_multiple_rows res)

  unfoldable pub select : DaoPg → Keys → Action PgWorld Tree
  unfolding execute_by_key all_rows convert_pgresult_to_ptree ◌>>=◌
  select dao keys = do
    let (statement_key, params) = key_or_default keys
    res ← execute_by_key dao.pg_conn dao.select_statements statement_key params
    lift (all_rows convert_pgresult_to_ptree res)

  unfoldable pub update : DaoPg → Keys → Tree → Action PgWorld ℕ
  unfolding execute_by_key get_number_of_rows_affected update_params ◌>>=◌
  update dao [] object = fail not_supported
  update dao ((key, key_value) ∷ keys) object = do
    params ← lift (update_params object key_value)
    let (statement_key, _) = first_key (key, key_value)
    res ← execute_by_key dao.pg_conn dao.update_statements statement_key params
    lift (get_number_of_rows_affected res)

  unfoldable pub remove : DaoPg → Keys → Action PgWorld (List ℤ)
  unfolding execute_by_key removed_ids ◌>>=◌
  remove dao [] = fail not_supported
  remove dao (key ∷ keys) = do
    let (statement_key, params) = first_key key
    res ← execute_by_key dao.pg_conn dao.delete_statements statement_key params
    lift (removed_ids res)

  unfoldable pub indexes_dao_pg : DaoPg → Dao PgWorld
  unfolding insert select update remove
  indexes_dao_pg dao = record {
    insert = λ object object_id. insert dao object;
    select = λ keys object. select dao keys;
    update = λ keys object. update dao keys object;
    remove = λ keys. remove dao keys;
  }

  unfoldable pub get_indexes_dao : Action PgWorld (Dao PgWorld)
  unfolding make create_dao_instance prepare_all indexes_dao_pg ◌>>=◌
  get_indexes_dao = do
    dao ← create_dao_instance "indexes" make prepare_all
    pure (indexes_dao_pg dao)
