-- ===== src/Postgres/Statistics/Access.antt =====
-- `StatisticsDaoPg` of src/dao/postgresql/statistics_dao_pg.cpp: its operations.
use mathlib.Core.List.{◌++◌}
use metadata_manager.Prelude.{ℕ, ℤ, String, Option, List, [], ◌∷◌}
use metadata_manager.Platform.{Platform}
use metadata_manager.Libpq.{Libpq}
use metadata_manager.ErrorCode.{invalid_parameter, not_supported}
use metadata_manager.Outcome.{Outcome, ok}
use metadata_manager.Action.{Action, lift, fail, pure, ◌>>=◌}
use metadata_manager.Ptree.Helper.{Keys}
use metadata_manager.Dao.{Dao}
use metadata_manager.Postgres.{
  Kind, insertion, selection, deletion, Statement, DaoPg, PgWorld, default_key,
}
use metadata_manager.Postgres.Prepared.{
  entry, create_prepared_statements, no_statements, prepare_all, create_dao_instance,
}
use metadata_manager.Postgres.Results.{execute_by_key, added_id, removed_ids, all_rows}
use metadata_manager.Postgres.Statistics.{
  source, get_insert_statement_columns, get_select_statement, get_select_statement_tid,
  get_select_statement_columns, get_delete_statement, get_delete_statement_tid,
  get_delete_statement_columns, set_key_params, insert_params, insert_key,
  convert_pgresult_to_ptree,
}

-- A statement of the source under the key of the map and a key of its own.
abbrev named : Kind → String → String → String → String × Statement
named kind map_key key text = (map_key, (entry source kind key text).1)

module _ ⦃P : Platform⦄ ⦃L : Libpq⦄ where
  open P use {Tree}

  unfoldable pub make : Option ℕ → DaoPg
  unfolding create_prepared_statements
  make pg_conn =
      let dao = create_prepared_statements source (no_statements pg_conn) in
      record dao {
        insert_statements =
            dao.insert_statements
            ++ (entry source insertion "columnName" (get_insert_statement_columns "name")
                ∷ entry source insertion "columnNumber"
                    (get_insert_statement_columns "column_number")
                ∷ []);
        select_statements =
            dao.select_statements
            ++ (named selection "tableId" "table_id" get_select_statement_tid
                ∷ entry source selection "columnId" (get_select_statement "column_id")
                ∷ entry source selection "columnName" (get_select_statement_columns "name")
                ∷ entry source selection "columnNumber"
                    (get_select_statement_columns "column_number")
                ∷ []);
        delete_statements =
            dao.delete_statements
            ++ (named deletion "tableId" "table_id" get_delete_statement_tid
                ∷ entry source deletion "columnId" (get_delete_statement "column_id")
                ∷ entry source deletion "columnName" (get_delete_statement_columns "name")
                ∷ entry source deletion "columnNumber"
                    (get_delete_statement_columns "column_number")
                ∷ []);
      }

  unfoldable pub insert : DaoPg → Tree → Action PgWorld ℤ
  unfolding execute_by_key added_id insert_params insert_key ◌>>=◌
  insert dao object = do
    res ←
        execute_by_key dao.pg_conn dao.insert_statements (insert_key object) (insert_params object)
    lift (added_id invalid_parameter res)

  -- With no search key all are returned.
  unfoldable pub select_key : Keys → Outcome (String × List (Option String))
  unfolding set_key_params
  select_key [] = ok (default_key, [])
  select_key (key ∷ keys) = set_key_params (key ∷ keys)

  unfoldable pub select : DaoPg → Keys → Action PgWorld Tree
  unfolding execute_by_key all_rows convert_pgresult_to_ptree select_key ◌>>=◌
  select dao keys = do
    (statement_key, params) ← lift (select_key keys)
    res ← execute_by_key dao.pg_conn dao.select_statements statement_key params
    lift (all_rows convert_pgresult_to_ptree res)

  unfoldable pub remove : DaoPg → Keys → Action PgWorld (List ℤ)
  unfolding execute_by_key removed_ids set_key_params ◌>>=◌
  remove dao [] = fail not_supported
  remove dao (key ∷ keys) = do
    (statement_key, params) ← lift (set_key_params (key ∷ keys))
    res ← execute_by_key dao.pg_conn dao.delete_statements statement_key params
    lift (removed_ids res)

  unfoldable pub statistics_dao_pg : DaoPg → Dao PgWorld
  unfolding insert select remove
  statistics_dao_pg dao = record {
    insert = λ object object_id. insert dao object;
    select = λ keys object. select dao keys;
    update = λ keys object. fail not_supported;
    remove = λ keys. remove dao keys;
  }

  unfoldable pub get_statistics_dao : Action PgWorld (Dao PgWorld)
  unfolding make create_dao_instance prepare_all statistics_dao_pg ◌>>=◌
  get_statistics_dao = do
    dao ← create_dao_instance "statistics" make prepare_all
    pure (statistics_dao_pg dao)
