-- ===== src/Postgres/Session/Sent.antt =====
-- What becomes of a command on the connection of the session (src/dao/postgresql/db_session_manager_pg.cpp,
-- `start_transaction`, `commit` and `rollback`).
use metadata_manager.Prelude.{
  ℕ, String, Option, none, some, ◌≡◌, ◌≢◌, List, inl, inr, refl, Bool-cases,
}
use metadata_manager.Libpq.{Libpq, Status, command_ok, tuples_ok, failure}
use metadata_manager.ErrorCode.{not_initialized, database_access_failure}
use metadata_manager.Outcome.{Outcome, ok, err}
use metadata_manager.Postgres.{PgWorld, DaoPg}
use metadata_manager.Postgres.Session.{command}

module _ ⦃L : Libpq⦄ where
  abbrev pub status_of : ℕ → String → PgWorld → Status
  status_of g text w = L.result_status (L.exec g text w.server).0

  abbrev pub sent : ℕ → String → PgWorld → PgWorld
  sent g text w = record w { server = (L.exec g text w.server).1 }

  pub data Sent (text : String) (w : PgWorld) : Outcome (Unit {0}) × PgWorld → Type 0 where
    unsent : Sent text w (err not_initialized, w)
    accepted :
        (g : ℕ)
        → w.pg_conn ≡ some g
        → status_of g text w ≡ command_ok
        → Sent text w (ok tt, sent g text w)
    refused :
        (g : ℕ)
        → w.pg_conn ≡ some g
        → status_of g text w ≢ command_ok
        → Sent text w (err database_access_failure, sent g text w)

  Sent-answered :
      (text : String) (g : ℕ) (w : PgWorld) (status : Status)
      → w.pg_conn ≡ some g
      → status_of g text w ≡ status
      → Sent text w (elim status as (λ _. Outcome (Unit {0}) × PgWorld) [
        | command_ok ↦ (ok tt, sent g text w)
        | tuples_ok ↦ (err database_access_failure, sent g text w)
        | failure ↦ (err database_access_failure, sent g text w)
      ])
  Sent-answered text g w command_ok conn e = accepted g conn e
  Sent-answered text g w tuples_ok conn e = refused g conn (rw e (λ d. cc))
  Sent-answered text g w failure conn e = refused g conn (rw e (λ d. cc))

  Sent-on :
      (text : String) (pg_conn : Option ℕ) (daos : List (String × DaoPg)) (server : L.Server)
      → Sent text
          (record { pg_conn = pg_conn; daos = daos; server = server })
          (command text (record { pg_conn = pg_conn; daos = daos; server = server }))
  unfolding command
  Sent-on text none daos server = unsent
  Sent-on text (some g) daos server = elim (Bool-cases (L.is_ok g server)) [
    | inl opened ↦ rw opened (Sent-answered text g _ _ refl refl)
    | inr closed ↦ rw closed unsent
  ]

  -- A command is not sent, or is sent on the connection of the session and accepted or refused.
  pub Sent-command : (text : String) (w : PgWorld) → Sent text w (command text w)
  Sent-command text w = Sent-on text w.pg_conn w.daos w.server
