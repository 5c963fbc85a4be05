-- ===== src/Postgres/Manager/Held.antt =====
-- `MetadataProvider::init` where the connection is open and the provider holds all DAOs
-- (src/provider/metadata_provider.cpp, include/manager/metadata/dao/db_session_manager.h).
use metadata_manager.Prelude.{ℕ, String, List, true, ◌≡◌, refl}
use metadata_manager.Platform.{Platform}
use metadata_manager.Libpq.{Libpq}
use metadata_manager.Outcome.{ok}
use metadata_manager.Action.{◌>>=◌}
use metadata_manager.Provider.{Daos, init}
use metadata_manager.Postgres.{PgWorld, DaoPg, is_open}
use metadata_manager.Postgres.Session.{connect}
use metadata_manager.Postgres.Prepared.{prepare_all}
use metadata_manager.Postgres.Guarded.{Holds, HoldsAll, found_lem}
use metadata_manager.Postgres.Tables
use metadata_manager.Postgres.Columns
use metadata_manager.Postgres.Indexes
use metadata_manager.Postgres.Constraints
use metadata_manager.Postgres.Privileges
use metadata_manager.Postgres.Statistics
use metadata_manager.Postgres.DataTypes
use metadata_manager.Postgres.Roles
use metadata_manager.Postgres.Tables.Access.{get_tables_dao, tables_dao_pg}
use metadata_manager.Postgres.Columns.Access.{get_columns_dao, columns_dao_pg}
use metadata_manager.Postgres.Indexes.Access.{get_indexes_dao, indexes_dao_pg}
use metadata_manager.Postgres.Constraints.Access.{get_constraints_dao, constraints_dao_pg}
use metadata_manager.Postgres.Privileges.Access.{get_privileges_dao, privileges_dao_pg}
use metadata_manager.Postgres.Statistics.Access.{get_statistics_dao, statistics_dao_pg}
use metadata_manager.Postgres.DataTypes.Access.{get_datatypes_dao, datatypes_dao_pg}
use metadata_manager.Postgres.Roles.Access.{get_roles_dao, roles_dao_pg}
use metadata_manager.Postgres.Manager.{pg_session}

module _ ⦃P : Platform⦄ ⦃L : Libpq⦄ where
  get_tables_dao_lem :
      (h : ℕ) (w : PgWorld) (k : Holds h w.daos "tables")
      → get_tables_dao w ≡ (ok (tables_dao_pg k.0), w)
  unfolding get_tables_dao ◌>>=◌
  get_tables_dao_lem h w k = rw (found_lem _ Tables.Access.make prepare_all w k.0 k.1) refl

  get_columns_dao_lem :
      (h : ℕ) (w : PgWorld) (k : Holds h w.daos "columns")
      → get_columns_dao w ≡ (ok (columns_dao_pg k.0), w)
  unfolding get_columns_dao ◌>>=◌
  get_columns_dao_lem h w k = rw (found_lem _ Columns.Access.make prepare_all w k.0 k.1) refl

  get_indexes_dao_lem :
      (h : ℕ) (w : PgWorld) (k : Holds h w.daos "indexes")
      → get_indexes_dao w ≡ (ok (indexes_dao_pg k.0), w)
  unfolding get_indexes_dao ◌>>=◌
  get_indexes_dao_lem h w k = rw (found_lem _ Indexes.Access.make prepare_all w k.0 k.1) refl

  get_constraints_dao_lem :
      (h : ℕ) (w : PgWorld) (k : Holds h w.daos "constraints")
      → get_constraints_dao w ≡ (ok (constraints_dao_pg k.0), w)
  unfolding get_constraints_dao ◌>>=◌
  get_constraints_dao_lem h w k =
      rw (found_lem _ Constraints.Access.make prepare_all w k.0 k.1) refl

  get_privileges_dao_lem :
      (h : ℕ) (w : PgWorld) (k : Holds h w.daos "privileges")
      → get_privileges_dao w ≡ (ok (privileges_dao_pg k.0), w)
  unfolding get_privileges_dao ◌>>=◌
  get_privileges_dao_lem h w k =
      rw (found_lem _ Privileges.Access.make Privileges.Access.prepare_privileges w k.0 k.1) refl

  get_statistics_dao_lem :
      (h : ℕ) (w : PgWorld) (k : Holds h w.daos "statistics")
      → get_statistics_dao w ≡ (ok (statistics_dao_pg k.0), w)
  unfolding get_statistics_dao ◌>>=◌
  get_statistics_dao_lem h w k = rw (found_lem _ Statistics.Access.make prepare_all w k.0 k.1) refl

  get_datatypes_dao_lem :
      (h : ℕ) (w : PgWorld) (k : Holds h w.daos "types")
      → get_datatypes_dao w ≡ (ok (datatypes_dao_pg k.0), w)
  unfolding get_datatypes_dao ◌>>=◌
  get_datatypes_dao_lem h w k = rw (found_lem _ DataTypes.Access.make prepare_all w k.0 k.1) refl

  get_roles_dao_lem :
      (h : ℕ) (w : PgWorld) (k : Holds h w.daos "roles")
      → get_roles_dao w ≡ (ok (roles_dao_pg k.0), w)
  unfolding get_roles_dao ◌>>=◌
  get_roles_dao_lem h w k = rw (found_lem _ Roles.Access.make prepare_all w k.0 k.1) refl

  -- the DAOs that the provider holds
  abbrev pub held : (h : ℕ) (daos : List (String × DaoPg)) → HoldsAll h daos → Daos PgWorld
  held h daos k = record {
    table_dao = tables_dao_pg k.0.0;
    column_dao = columns_dao_pg k.1.0;
    index_dao = indexes_dao_pg k.2.0;
    constraint_dao = constraints_dao_pg k.3.0;
    privilege_dao = privileges_dao_pg k.4.0;
    statistic_dao = statistics_dao_pg k.5.0;
    datatype_dao = datatypes_dao_pg k.6.0;
    role_dao = roles_dao_pg k.7.0;
  }

  -- After `connect`, `init` gives the DAOs that the provider holds and changes nothing.
  pub init_lem :
      (h : ℕ) (w w' : PgWorld) (k : HoldsAll h w'.daos)
      → connect w ≡ (ok tt, w')
      → init pg_session w ≡ (ok (held h w'.daos k), w')
  unfolding init pg_session ◌>>=◌
  init_lem h w w' k connected =
      rw
        (
          connected,
          get_tables_dao_lem h w' k.0,
          get_columns_dao_lem h w' k.1,
          get_indexes_dao_lem h w' k.2,
          get_constraints_dao_lem h w' k.3,
          get_privileges_dao_lem h w' k.4,
          get_statistics_dao_lem h w' k.5,
          get_datatypes_dao_lem h w' k.6,
          get_roles_dao_lem h w' k.7,
        )
        refl

  pub connect_open : (w : PgWorld) → is_open w.pg_conn w.server ≡ true → connect w ≡ (ok tt, w)
  unfolding connect
  connect_open w opened = rw opened refl
