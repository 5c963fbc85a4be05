-- ===== src/Postgres/Session.antt =====
-- `DbSessionManagerPg` of src/dao/postgresql/db_session_manager_pg.cpp: the connection and the transactions.
pub mod Sent
use metadata_manager.Prelude.{ℕ, String, Option, none, some, if◌then◌else◌}
use metadata_manager.Libpq.{Libpq, Status, command_ok, tuples_ok, failure, search_path}
use metadata_manager.ErrorCode.{not_initialized, database_access_failure}
use metadata_manager.Outcome.{ok, err}
use metadata_manager.Action.{Action}
use metadata_manager.Postgres.{PgWorld, is_open}
use metadata_manager.Ptree.{value_or}

module _ ⦃L : Libpq⦄ where
  open L use {result_status}

  -- `Config::get_connection_string`
  unfoldable pub get_connection_string : String
  get_connection_string = value_or "dbname=tsurugi" L.connection_string

  -- A command that returns no rows, on the connection of the session.
  unfoldable pub command : String → Action PgWorld (Unit {0})
  command text w = elim w.pg_conn [
    | none ↦ (err not_initialized, w)
    | some h ↦
        if L.is_ok h w.server
        then (let (res, s) = L.exec h text w.server in
            elim (result_status res) [
              | command_ok ↦ (ok tt, record w { server = s })
              | tuples_ok ↦ (err database_access_failure, record w { server = s })
              | failure ↦ (err database_access_failure, record w { server = s })
            ])
        else (err not_initialized, w)
  ]

  unfoldable pub start_transaction : Action PgWorld (Unit {0})
  unfolding command
  start_transaction = command "BEGIN"

  unfoldable pub commit : Action PgWorld (Unit {0})
  unfolding command
  commit = command "COMMIT"

  unfoldable pub rollback : Action PgWorld (Unit {0})
  unfolding command
  rollback = command "ROLLBACK"

  unfoldable pub set_always_secure_search_path : Action PgWorld (Unit {0})
  set_always_secure_search_path w = elim w.pg_conn [
    | none ↦ (err not_initialized, w)
    | some h ↦
        if L.is_ok h w.server
        then (let (res, s) = L.exec h search_path w.server in
            elim (result_status res) [
              | command_ok ↦ (err database_access_failure, record w { server = s })
              | tuples_ok ↦ (ok tt, record w { server = s })
              | failure ↦ (err database_access_failure, record w { server = s })
            ])
        else (err not_initialized, w)
  ]

  -- The result of the search path is not looked at.
  unfoldable pub connect : Action PgWorld (Unit {0})
  unfolding is_open get_connection_string set_always_secure_search_path
  connect w =
      if is_open w.pg_conn w.server
      then (ok tt, w)
      else (let (h, s) = L.connectdb get_connection_string w.server in
          let connected = record w { pg_conn = some h; server = s } in
          if L.is_ok h s
          then (ok tt, (set_always_secure_search_path connected).1)
          else (err database_access_failure, connected))
