-- ===== src/Postgres/Guarded.antt =====
-- What holds between the BEGIN and the COMMIT of a transaction on PostgreSQL: the DAOs work on a connection that
-- commits nothing (src/dao/postgresql/dbc_utils_pg.cpp, db_session_manager_pg.cpp).
use metadata_manager.Prelude.{
  ℕ, String, true, Option, some, List, ◌≡◌, refl, ◌∙◌, inl, inr, Bool-cases,
}
use metadata_manager.Libpq.{Libpq}
use metadata_manager.Action.{Action}
use metadata_manager.Outcome.{ok}
use metadata_manager.Keeping.{Gives, Keeps, Keeps-lift, Keeps-option}
use metadata_manager.Postgres.{PgWorld, DaoPg, Statements, name, find_statement, execute_statement}
use metadata_manager.Postgres.Prepared.{find_dao, create_dao_instance}
use metadata_manager.Postgres.Results.{execute_by_key}

module _ ⦃L : Libpq⦄ where
  -- The provider holds a DAO of the source on the handle.
  abbrev pub Holds : ℕ → List (String × DaoPg) → String → Type 0
  Holds h daos source = (dao : DaoPg) × (find_dao source daos ≡ some dao) × (dao.pg_conn ≡ some h)

  abbrev pub HoldsAll : ℕ → List (String × DaoPg) → Type 0
  HoldsAll h daos =
      Holds h daos "tables"
      × Holds h daos "columns"
      × Holds h daos "indexes"
      × Holds h daos "constraints"
      × Holds h daos "privileges"
      × Holds h daos "statistics"
      × Holds h daos "types"
      × Holds h daos "roles"

  pub record Guarded (h : ℕ) (c : L.Committed) (w : PgWorld) : Type 0 where
    pub daos : HoldsAll h w.daos
    pub committed : L.committed w.server ≡ c
    pub is_guarded : L.is_guarded h w.server ≡ true

  Keeps-execute_statement :
      (h : ℕ) (c : L.Committed) (statement_name : String) (params : List (Option String))
      → Keeps (Guarded h c) (execute_statement (some h) statement_name params)
  unfolding execute_statement
  Keeps-execute_statement h c statement_name params = record {
    keeps = λ w g. elim (Bool-cases (L.is_ok h w.server)) [
      | inl e ↦ rw e (record {
        daos = g.daos;
        committed =
            L.exec_prepared-committed h statement_name params w.server g.is_guarded ∙ g.committed;
        is_guarded = L.exec_prepared-is_guarded h statement_name params w.server g.is_guarded;
      })
      | inr e ↦ rw e g
    ];
  }

  -- The run of a statement by its key, on the connection of the DAO.
  pub Keeps-execute_by_key :
      (h : ℕ) (c : L.Committed) (dao : DaoPg) (statements : Statements) (key : String)
      (params : List (Option String))
      → dao.pg_conn ≡ some h
      → Keeps (Guarded h c) (execute_by_key dao.pg_conn statements key params)
  unfolding execute_by_key
  Keeps-execute_by_key h c dao statements key params e = rw e (
      Keeps-option (find_statement key statements) (Keeps-lift _)
        (λ statement. Keeps-execute_statement h c (name statement) params))

  pub found_lem :
      (source : String) (make : Option ℕ → DaoPg) (prepare_dao : DaoPg → Action PgWorld (Unit {0}))
      (w : PgWorld) (dao : DaoPg)
      → find_dao source w.daos ≡ some dao
      → create_dao_instance source make prepare_dao w ≡ (ok dao, w)
  unfolding create_dao_instance
  found_lem source make prepare_dao w dao found = rw (create_dao_instance, found) refl

  -- A DAO that the provider holds is given on its connection.
  pub Gives-create_dao_instance :
      (h : ℕ) (c : L.Committed) (source : String) (make : Option ℕ → DaoPg)
      (prepare_dao : DaoPg → Action PgWorld (Unit {0}))
      → ((w : PgWorld) → Guarded h c w → Holds h w.daos source)
      → Gives
          (Guarded h c)
          (λ dao. dao.pg_conn ≡ some h)
          (create_dao_instance source make prepare_dao)
  Gives-create_dao_instance h c source make prepare_dao held = record {
    gives = λ w g.
        let (dao, found, conn) = held w g in
        rw (found_lem source make prepare_dao w dao found) (g, conn);
  }
