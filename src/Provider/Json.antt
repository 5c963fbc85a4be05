-- ===== src/Provider/Json.antt =====
-- `DbSessionManagerJson` as a session manager (src/dao/json/db_session_manager_json.cpp,
-- include/manager/metadata/dao/json/db_session_manager_json.h): the connection and the preparation of
-- its DAOs cannot fail.
use metadata_manager.Platform.{Platform}
use metadata_manager.Action.{pure}
use metadata_manager.Session.{World, start_transaction, commit, rollback}
use metadata_manager.Dao.Fixed.{statistics_dao, privileges_dao, roles_dao}
use metadata_manager.Dao.Stored.{
  tables_dao, columns_dao, constraints_dao, indexes_dao, data_types_dao,
}
use metadata_manager.Provider.{DbSessionManager}

module _ ⦃P : Platform⦄ where
  unfoldable pub json_session : DbSessionManager World
  unfolding tables_dao columns_dao indexes_dao constraints_dao privileges_dao statistics_dao
      data_types_dao roles_dao start_transaction commit rollback
  json_session = record {
    connect = pure tt;
    get_tables_dao = pure tables_dao;
    get_columns_dao = pure columns_dao;
    get_indexes_dao = pure indexes_dao;
    get_constraints_dao = pure constraints_dao;
    get_privileges_dao = pure privileges_dao;
    get_statistics_dao = pure statistics_dao;
    get_datatypes_dao = pure data_types_dao;
    get_roles_dao = pure roles_dao;
    start_transaction = start_transaction;
    commit = commit;
    rollback = rollback;
  }
