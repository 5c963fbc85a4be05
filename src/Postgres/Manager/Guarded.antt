-- ===== src/Postgres/Manager/Guarded.antt =====
-- Inside of a transaction on PostgreSQL the session manager gives DAOs that commit nothing, also where
-- `connect` opens another connection (src/dao/postgresql/db_session_manager_pg.cpp).
use metadata_manager.Prelude.{ℕ, String, some, true, ◌≡◌, refl, ◌∙◌, Bool-cases, inl, inr}
use metadata_manager.Platform.{Platform}
use metadata_manager.Libpq.{
  Libpq, Status, command_ok, tuples_ok, failure, search_path, opens, is_quiet,
}
use metadata_manager.ErrorCode.{database_access_failure}
use metadata_manager.Outcome.{Outcome, ok, err}
use metadata_manager.Keeping.{Keeps, Gives, Gives-then, Gives-pure, Gives-Keeps}
use metadata_manager.Provider.{init}
use metadata_manager.Provider.Keeps.{KeepsSession}
use metadata_manager.Postgres.{PgWorld, is_open}
use metadata_manager.Postgres.Session.{connect, get_connection_string}
use metadata_manager.Postgres.Prepared.{prepare_all}
use metadata_manager.Postgres.Guarded.{Guarded, Gives-create_dao_instance}
use metadata_manager.Postgres.Tables.Guarded.{Gives-get_tables_dao}
use metadata_manager.Postgres.Columns.Guarded.{Gives-get_columns_dao}
use metadata_manager.Postgres.Indexes.Guarded.{Gives-get_indexes_dao}
use metadata_manager.Postgres.Constraints.Guarded.{Gives-get_constraints_dao}
use metadata_manager.Postgres.Statistics.Guarded.{Gives-get_statistics_dao}
use metadata_manager.Postgres.DataTypes.Guarded.{Gives-get_datatypes_dao}
use metadata_manager.Postgres.Privileges.Access.{prepare_privileges, get_privileges_dao}
use metadata_manager.Postgres.Privileges.Access
use metadata_manager.Postgres.Roles.Access.{make, get_roles_dao}
use metadata_manager.Postgres.Manager.{pg_session}

module _ ⦃P : Platform⦄ ⦃L : Libpq⦄ (h : ℕ) (c : L.Committed) where
  -- a command that leaves transaction blocks open
  Guarded-exec :
      (g : ℕ) (text : String) (w : PgWorld)
      → opens text ≡ true
      → is_quiet text ≡ true
      → Guarded h c w
      → Guarded h c (record w { server = (L.exec g text w.server).1 })
  Guarded-exec g text w opening quiet k = record {
    daos = k.daos;
    committed = L.exec-committed g text w.server quiet ∙ k.committed;
    is_guarded = L.exec-is_guarded h g text w.server opening k.is_guarded;
  }

  Guarded-searched :
      (status : Status) (w : PgWorld)
      → Guarded h c w
      → Guarded h c
          (elim status as (λ _. Outcome (Unit {0}) × PgWorld) [
            | command_ok ↦ (err database_access_failure, w)
            | tuples_ok ↦ (ok tt, w)
            | failure ↦ (err database_access_failure, w)
          ]).1
  Guarded-searched command_ok w k = k
  Guarded-searched tuples_ok w k = k
  Guarded-searched failure w k = k

  Guarded-connected :
      (info : String) (w : PgWorld)
      → Guarded h c w
      → Guarded h c (record w {
        pg_conn = some (L.connectdb info w.server).0;
        server = (L.connectdb info w.server).1;
      })
  Guarded-connected info w k = record {
    daos = k.daos;
    committed = L.connectdb-committed info w.server ∙ k.committed;
    is_guarded = L.connectdb-is_guarded h info w.server k.is_guarded;
  }

  -- `connect` after PQconnectdb
  Guarded-search_path_set :
      (g : ℕ) (w : PgWorld)
      → Guarded h c w
      → Guarded h c
          (elim (L.result_status (L.exec g search_path w.server).0)
            as (λ _. Outcome (Unit {0}) × PgWorld) [
              | command_ok ↦ (
                err database_access_failure,
                record w { server = (L.exec g search_path w.server).1 },
              )
              | tuples_ok ↦ (ok tt, record w { server = (L.exec g search_path w.server).1 })
              | failure ↦ (
                err database_access_failure,
                record w { server = (L.exec g search_path w.server).1 },
              )
            ]).1
  Guarded-search_path_set g w k =
      Guarded-searched (L.result_status (L.exec g search_path w.server).0) _
        (Guarded-exec g search_path w refl refl k)

  Keeps-connect : Keeps (Guarded h c) connect
  unfolding connect
  Keeps-connect = record {
    keeps = λ w k.
        let connected : Guarded h c _ = Guarded-connected get_connection_string w k in
        elim (Bool-cases (is_open w.pg_conn w.server)) [
          | inl opened ↦ rw opened k
          | inr closed ↦
              rw closed
                (elim (Bool-cases (
                  L.is_ok (L.connectdb get_connection_string w.server).0
                    (L.connectdb get_connection_string w.server).1)) [
                      | inl opened ↦ rw opened (Guarded-search_path_set _ _ connected)
                      | inr failed ↦ rw failed connected
                    ])
        ];
  }

  Gives-get_privileges_dao : Gives (Guarded h c) (λ _. Unit {0}) get_privileges_dao
  unfolding get_privileges_dao
  Gives-get_privileges_dao =
      Gives-then (Gives-create_dao_instance h c _ Access.make prepare_privileges (λ _ g. g.daos.4))
        (λ _ _. Gives-pure tt)

  Gives-get_roles_dao : Gives (Guarded h c) (λ _. Unit {0}) get_roles_dao
  unfolding get_roles_dao
  Gives-get_roles_dao =
      Gives-then (Gives-create_dao_instance h c _ make prepare_all (λ _ g. g.daos.7))
        (λ _ _. Gives-pure tt)

  pub KeepsSession-pg_session : KeepsSession (Guarded h c) pg_session
  unfolding init pg_session
  KeepsSession-pg_session = record {
    init_daos = Gives-then (Gives-Keeps Keeps-connect) (λ _ _.
        Gives-then (Gives-get_tables_dao h c) (λ tables t.
          Gives-then (Gives-get_columns_dao h c) (λ columns cs.
            Gives-then (Gives-get_indexes_dao h c) (λ indexes i.
              Gives-then (Gives-get_constraints_dao h c) (λ constraints k.
                Gives-then Gives-get_privileges_dao (λ _ _.
                  Gives-then (Gives-get_statistics_dao h c) (λ statistics s.
                    Gives-then (Gives-get_datatypes_dao h c) (λ datatypes d.
                      Gives-then Gives-get_roles_dao (λ _ _. Gives-pure (record {
                        table_dao = t;
                        column_dao = cs;
                        index_dao = i;
                        constraint_dao = k;
                        statistic_dao = s;
                        datatype_dao = d;
                      }))))))))));
  }
