-- ===== src/Postgres/Manager/Stale.antt =====
-- The provider after a reconnection: `connect` of src/dao/postgresql/db_session_manager_pg.cpp replaces the
-- connection of the session, and `create_dao_instance` of
-- include/manager/metadata/dao/db_session_manager.h keeps the DAOs.
use metadata_manager.Prelude.{ℕ, String, true, false, some, [], ◌∷◌, ◌≡◌, refl, ap}
use metadata_manager.Key.{Key}
use metadata_manager.Platform.{Platform}
use metadata_manager.Libpq.{Libpq, Status, command_ok, tuples_ok, failure, search_path}
use metadata_manager.ErrorCode.{not_initialized, database_access_failure}
use metadata_manager.Outcome.{Outcome, ok, err}
use metadata_manager.Action.{◌>>=◌}
use metadata_manager.Provider.{init}
use metadata_manager.Provider.Add.{add_table_metadata}
use metadata_manager.Provider.Get.{get_table_metadata}
use metadata_manager.Postgres.{PgWorld, is_open, find_statement}
use metadata_manager.Postgres.Session.{
  connect, get_connection_string, set_always_secure_search_path,
}
use metadata_manager.Postgres.Prepared.{create_prepared_statements}
use metadata_manager.Postgres.Guarded.{HoldsAll}
use metadata_manager.Postgres.Tables.Access.{make, insert, select, tables_dao_pg}
use metadata_manager.Postgres.Manager.{pg_session}
use metadata_manager.Postgres.Manager.Held.{held, init_lem}

module _ ⦃P : Platform⦄ ⦃L : Libpq⦄ where
  open P use {Tree}

  -- a new connection of the session, and what the server is then
  abbrev pub new_connection : PgWorld → ℕ
  new_connection w = (L.connectdb get_connection_string w.server).0

  abbrev pub after_connectdb : PgWorld → L.Server
  after_connectdb w = (L.connectdb get_connection_string w.server).1

  abbrev pub reconnected : PgWorld → PgWorld
  reconnected w = record w {
    pg_conn = some (new_connection w);
    server = (L.exec (new_connection w) search_path (after_connectdb w)).1;
  }

  searched_lem :
      (status : Status) (w : PgWorld)
      → (elim status as (λ _. Outcome (Unit {0}) × PgWorld) [
        | command_ok ↦ (err database_access_failure, w)
        | tuples_ok ↦ (ok tt, w)
        | failure ↦ (err database_access_failure, w)
      ]).1
        ≡ w
  searched_lem command_ok w = refl
  searched_lem tuples_ok w = refl
  searched_lem failure w = refl

  connect_lem :
      (w : PgWorld)
      → is_open w.pg_conn w.server ≡ false
      → L.is_ok (new_connection w) (after_connectdb w) ≡ true
      → connect w ≡ (ok tt, reconnected w)
  unfolding connect set_always_secure_search_path
  connect_lem w closed opened =
      rw (closed, opened)
        (ap (λ v. (ok tt, v))
          (searched_lem
            (L.result_status (L.exec (new_connection w) search_path (after_connectdb w)).0)
            (reconnected w)))

  is_open-some :
      (h : ℕ) (w : PgWorld)
      → w.pg_conn ≡ some h
      → L.is_ok h w.server ≡ false
      → is_open w.pg_conn w.server ≡ false
  unfolding is_open
  is_open-some h w e closed = rw e closed

  broken-reconnected :
      (h : ℕ) (w : PgWorld) → L.is_ok h w.server ≡ false → L.is_ok h (reconnected w).server ≡ false
  broken-reconnected h w broken =
      L.exec-is_ok h _ search_path _ (L.connectdb-is_ok h get_connection_string w.server broken)

  -- Where the connection of the session and of the DAO of tables is broken and the server can be reached
  -- again, `init` reconnects and succeeds, and all the same the insertion of a table and the search for
  -- one by its identifier fail with NOT_INITIALIZED: the DAO keeps the broken connection.
  pub stale_lem :
      (h : ℕ) (w : PgWorld) (k : HoldsAll h w.daos) (object : Tree) (id : String)
      → k.0.0 ≡ make (some h)
      → w.pg_conn ≡ some h
      → L.is_ok h w.server ≡ false
      → L.is_ok (new_connection w) (after_connectdb w) ≡ true
      → (init pg_session w ≡ (ok (held h w.daos k), reconnected w))
        × ((add_table_metadata pg_session object w).0 ≡ err not_initialized)
        × ((get_table_metadata pg_session ((Key.id, id) ∷ []) object w).0 ≡ err not_initialized)
  unfolding add_table_metadata get_table_metadata insert select find_statement
      create_prepared_statements tables_dao_pg ◌>>=◌
  stale_lem h w k object id tables conn broken opened =
      let started : init pg_session w ≡ (ok (held h w.daos k), reconnected w) =
        init_lem h w (reconnected w) k (connect_lem w (is_open-some h w conn broken) opened) in
      let broken' = broken-reconnected h w broken in
      (started, rw (started, tables, broken') refl, rw (started, tables, broken') refl)
