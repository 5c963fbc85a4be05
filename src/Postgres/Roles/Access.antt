-- ===== src/Postgres/Roles/Access.antt =====
-- `RolesDaoPg` of src/dao/postgresql/roles_dao_pg.cpp: its operations. Only selections are prepared, under the
-- names of the columns.
use metadata_manager.Prelude.{ℕ, Option, [], ◌∷◌}
use metadata_manager.Platform.{Platform}
use metadata_manager.Libpq.{Libpq}
use metadata_manager.ErrorCode.{invalid_parameter, not_supported}
use metadata_manager.Action.{Action, lift, fail, pure, ◌>>=◌}
use metadata_manager.Ptree.Helper.{Keys}
use metadata_manager.Dao.{Dao}
use metadata_manager.Postgres.{selection, DaoPg, PgWorld}
use metadata_manager.Postgres.Prepared.{entry, no_statements, prepare_all, create_dao_instance}
use metadata_manager.Postgres.Results.{first_key, execute_by_key, all_rows}
use metadata_manager.Postgres.Roles.{source, get_select_statement, convert_pgresult_to_ptree}

module _ ⦃P : Platform⦄ ⦃L : Libpq⦄ where
  open P use {Tree}

  unfoldable pub make : Option ℕ → DaoPg
  make pg_conn = record (no_statements pg_conn) {
    select_statements =
        ("id", (entry source selection "oid" (get_select_statement "oid")).1)
        ∷ ("name", (entry source selection "rolname" (get_select_statement "rolname")).1)
        ∷ [];
  }

  unfoldable pub select : DaoPg → Keys → Action PgWorld Tree
  unfolding execute_by_key all_rows convert_pgresult_to_ptree ◌>>=◌
  select dao [] = fail invalid_parameter
  select dao (key ∷ keys) = do
    let (statement_key, params) = first_key key
    res ← execute_by_key dao.pg_conn dao.select_statements statement_key params
    lift (all_rows convert_pgresult_to_ptree res)

  unfoldable pub roles_dao_pg : DaoPg → Dao PgWorld
  unfolding select
  roles_dao_pg dao = record {
    insert = λ object object_id. fail not_supported;
    select = λ keys object. select dao keys;
    update = λ keys object. fail not_supported;
    remove = λ keys. fail not_supported;
  }

  unfoldable pub get_roles_dao : Action PgWorld (Dao PgWorld)
  unfolding make create_dao_instance prepare_all roles_dao_pg ◌>>=◌
  get_roles_dao = do dao ← create_dao_instance "roles" make prepare_all; pure (roles_dao_pg dao)
