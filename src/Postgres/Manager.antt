-- ===== src/Postgres/Manager.antt =====
-- `DbSessionManagerPg` as a session manager (src/dao/postgresql/db_session_manager_pg.cpp).
pub mod Guarded
pub mod Held
pub mod Atomic
pub mod Settled
pub mod Stale
use metadata_manager.Platform.{Platform}
use metadata_manager.Libpq.{Libpq}
use metadata_manager.Provider.{DbSessionManager}
use metadata_manager.Postgres.{PgWorld}
use metadata_manager.Postgres.Session.{connect, start_transaction, commit, rollback}
use metadata_manager.Postgres.Tables.Access.{get_tables_dao}
use metadata_manager.Postgres.Columns.Access.{get_columns_dao}
use metadata_manager.Postgres.Indexes.Access.{get_indexes_dao}
use metadata_manager.Postgres.Constraints.Access.{get_constraints_dao}
use metadata_manager.Postgres.Privileges.Access.{get_privileges_dao}
use metadata_manager.Postgres.Statistics.Access.{get_statistics_dao}
use metadata_manager.Postgres.DataTypes.Access.{get_datatypes_dao}
use metadata_manager.Postgres.Roles.Access.{get_roles_dao}

module _ ⦃P : Platform⦄ ⦃L : Libpq⦄ where
  unfoldable pub pg_session : DbSessionManager PgWorld
  unfolding connect get_tables_dao get_columns_dao get_indexes_dao get_constraints_dao
      get_privileges_dao get_statistics_dao get_datatypes_dao get_roles_dao start_transaction commit
      rollback
  pg_session = record {
    connect = connect;
    get_tables_dao = get_tables_dao;
    get_columns_dao = get_columns_dao;
    get_indexes_dao = get_indexes_dao;
    get_constraints_dao = get_constraints_dao;
    get_privileges_dao = get_privileges_dao;
    get_statistics_dao = get_statistics_dao;
    get_datatypes_dao = get_datatypes_dao;
    get_roles_dao = get_roles_dao;
    start_transaction = start_transaction;
    commit = commit;
    rollback = rollback;
  }
