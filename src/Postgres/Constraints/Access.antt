-- ===== src/Postgres/Constraints/Access.antt =====
-- `ConstraintsDaoPg` of src/dao/postgresql/constraints_dao_pg.cpp: its operations.
use mathlib.Core.List.{◌++◌}
use metadata_manager.Prelude.{ℕ, ℤ, String, Option, List, [], ◌∷◌, str_eq, if◌then◌else◌}
use metadata_manager.Key.{Key}
use metadata_manager.Platform.{Platform}
use metadata_manager.Libpq.{Libpq}
use metadata_manager.ErrorCode.{invalid_parameter, not_supported}
use metadata_manager.Action.{Action, lift, fail, pure, ◌>>=◌}
use metadata_manager.Ptree.Helper.{Keys, int_value_to_string}
use metadata_manager.Dao.{Dao}
use metadata_manager.Postgres.{insertion, selection, deletion, DaoPg, PgWorld, default_key}
use metadata_manager.Postgres.Prepared.{
  entry, create_prepared_statements, no_statements, prepare_all, create_dao_instance,
}
use metadata_manager.Postgres.Results.{
  key_or_default, first_key, execute_by_key, added_id_by_count, removed_ids, all_rows,
}
use metadata_manager.Postgres.Constraints.{
  source, get_insert_statement_id, get_select_statement, get_delete_statement, insert_params,
  convert_pgresult_to_ptree,
}

module _ ⦃P : Platform⦄ ⦃L : Libpq⦄ where
  open P use {Tree}

  unfoldable pub make : Option ℕ → DaoPg
  unfolding create_prepared_statements
  make pg_conn =
      let dao = create_prepared_statements source (no_statements pg_conn) in
      record dao {
        insert_statements =
            dao.insert_statements
            ++ entry source insertion "ConstraintId" get_insert_statement_id ∷ [];
        select_statements =
            dao.select_statements
            ++ entry source selection "tableId" (get_select_statement "table_id") ∷ [];
        delete_statements =
            dao.delete_statements
            ++ entry source deletion "tableId" (get_delete_statement "table_id") ∷ [];
      }

  -- the key of the insertion, with an identifier or without
  abbrev pub insert_key : Tree → String
  insert_key object =
      if str_eq (int_value_to_string Key.id object) "" then default_key else "ConstraintId"

  unfoldable pub insert : DaoPg → Tree → Action PgWorld ℤ
  unfolding execute_by_key added_id_by_count insert_params int_value_to_string ◌>>=◌
  insert dao object = do
    params ← lift (insert_params object)
    res ← execute_by_key dao.pg_conn dao.insert_statements (insert_key object) params
    lift (added_id_by_count res)

  unfoldable pub select : DaoPg → Keys → Action PgWorld Tree
  unfolding execute_by_key all_rows convert_pgresult_to_ptree ◌>>=◌
  select dao keys = do
    let (statement_key, params) = key_or_default keys
    res ← execute_by_key dao.pg_conn dao.select_statements statement_key params
    lift (all_rows convert_pgresult_to_ptree res)

  unfoldable pub remove : DaoPg → Keys → Action PgWorld (List ℤ)
  unfolding execute_by_key removed_ids ◌>>=◌
  remove dao [] = fail invalid_parameter
  remove dao (key ∷ keys) = do
    let (statement_key, params) = first_key key
    res ← execute_by_key dao.pg_conn dao.delete_statements statement_key params
    lift (removed_ids res)

  unfoldable pub constraints_dao_pg : DaoPg → Dao PgWorld
  unfolding insert select remove
  constraints_dao_pg dao = record {
    insert = λ object object_id. insert dao object;
    select = λ keys object. select dao keys;
    update = λ keys object. fail not_supported;
    remove = λ keys. remove dao keys;
  }

  unfoldable pub get_constraints_dao : Action PgWorld (Dao PgWorld)
  unfolding make create_dao_instance prepare_all constraints_dao_pg ◌>>=◌
  get_constraints_dao = do
    dao ← create_dao_instance "constraints" make prepare_all
    pure (constraints_dao_pg dao)
