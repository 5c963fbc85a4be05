-- ===== src/Postgres/DataTypes/Access.antt =====
-- `DataTypesDaoPg` of src/dao/postgresql/datatypes_dao_pg.cpp: its operations.
use mathlib.Core.List.{◌++◌}
use metadata_manager.Prelude.{ℕ, Option, [], ◌∷◌}
use metadata_manager.Platform.{Platform}
use metadata_manager.Libpq.{Libpq}
use metadata_manager.ErrorCode.{invalid_parameter, not_supported}
use metadata_manager.Action.{Action, lift, fail, pure, ◌>>=◌}
use metadata_manager.Ptree.Helper.{Keys}
use metadata_manager.Dao.{Dao}
use metadata_manager.Postgres.{selection, DaoPg, PgWorld}
use metadata_manager.Postgres.Prepared.{
  entry, create_prepared_statements, no_statements, prepare_all, create_dao_instance,
}
use metadata_manager.Postgres.Results.{first_key, execute_by_key, all_rows}
use metadata_manager.Postgres.DataTypes.{source, get_select_statement, convert_pgresult_to_ptree}

module _ ⦃P : Platform⦄ ⦃L : Libpq⦄ where
  open P use {Tree}

  unfoldable pub make : Option ℕ → DaoPg
  unfolding create_prepared_statements
  make pg_conn =
      let dao = create_prepared_statements source (no_statements pg_conn) in
      record dao {
        select_statements =
            dao.select_statements
            ++ (entry source selection "pg_dataType" (get_select_statement "pg_data_type")
                ∷ entry source selection "pg_dataTypeName"
                    (get_select_statement "pg_data_type_name")
                ∷ entry source selection "pg_dataTypeQualifiedName"
                    (get_select_statement "pg_data_type_qualified_name")
                ∷ []);
      }

  unfoldable pub select : DaoPg → Keys → Action PgWorld Tree
  unfolding execute_by_key all_rows convert_pgresult_to_ptree ◌>>=◌
  select dao [] = fail invalid_parameter
  select dao (key ∷ keys) = do
    let (statement_key, params) = first_key key
    res ← execute_by_key dao.pg_conn dao.select_statements statement_key params
    lift (all_rows convert_pgresult_to_ptree res)

  unfoldable pub datatypes_dao_pg : DaoPg → Dao PgWorld
  unfolding select
  datatypes_dao_pg dao = record {
    insert = λ object object_id. fail not_supported;
    select = λ keys object. select dao keys;
    update = λ keys object. fail not_supported;
    remove = λ keys. fail not_supported;
  }

  unfoldable pub get_datatypes_dao : Action PgWorld (Dao PgWorld)
  unfolding make create_dao_instance prepare_all datatypes_dao_pg ◌>>=◌
  get_datatypes_dao = do
    dao ← create_dao_instance "types" make prepare_all
    pure (datatypes_dao_pg dao)
