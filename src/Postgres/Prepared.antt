-- ===== src/Postgres/Prepared.antt =====
-- `DaoPg` of src/dao/postgresql/dao_pg.cpp: the preparation of the statements of a DAO, and
-- `create_dao_instance` of include/manager/metadata/dao/db_session_manager.h.
use metadata_manager.Prelude.{
  ℕ, String, Option, none, some, List, [], ◌∷◌, ◌++◌, str_eq, if◌then◌else◌,
}
use metadata_manager.Libpq.{Libpq}
use metadata_manager.ErrorCode.{ErrorCode}
use metadata_manager.Outcome.{ok, err, thrown, undefined}
use metadata_manager.Action.{Action, pure, ◌>>=◌, ◌>>◌}
use metadata_manager.Postgres.{
  Kind, insertion, selection, change, deletion, Statement, Statements, name, default_key, DaoPg,
  PgWorld, prepare,
}

-- What a class that derives from `DaoPg` gives: the names of the source and its texts.
pub record Source : Type 0 where
  pub get_source_name : String
  pub get_insert_statement : String
  pub get_select_all_statement : String
  pub get_select_statement : String → String
  pub get_update_statement : String → String
  pub get_delete_statement : String → String

-- A statement under its own key.
abbrev pub entry : Source → Kind → String → String → String × Statement
entry source kind key text =
    (key, record { kind = kind; table_name = source.get_source_name; statement = text; key = key })

abbrev pub no_statements : Option ℕ → DaoPg
no_statements pg_conn = record {
  pg_conn = pg_conn;
  insert_statements = [];
  select_statements = [];
  update_statements = [];
  delete_statements = [];
}

-- `create_prepared_statements` of the base class
unfoldable pub create_prepared_statements : Source → DaoPg → DaoPg
create_prepared_statements source dao = record dao {
  insert_statements =
      dao.insert_statements ++ entry source insertion default_key source.get_insert_statement ∷ [];
  select_statements =
      dao.select_statements
      ++ (entry source selection default_key source.get_select_all_statement
          ∷ entry source selection "id" (source.get_select_statement "id")
          ∷ entry source selection "name" (source.get_select_statement "name")
          ∷ []);
  update_statements =
      dao.update_statements
      ++ (entry source change "id" (source.get_update_statement "id")
          ∷ entry source change "name" (source.get_update_statement "name")
          ∷ []);
  delete_statements =
      dao.delete_statements
      ++ (entry source deletion "id" (source.get_delete_statement "id")
          ∷ entry source deletion "name" (source.get_delete_statement "name")
          ∷ []);
}

module _ ⦃L : Libpq⦄ where
  -- The loop stops at the first statement that cannot be prepared.
  unfoldable pub exec_prepare : Option ℕ → Statements → Action PgWorld (Unit {0})
  unfolding prepare ◌>>=◌
  exec_prepare pg_conn [] = pure tt
  exec_prepare pg_conn ((_, s) ∷ statements) = do
    prepare pg_conn (name s) s.statement []
    exec_prepare pg_conn statements

  -- The error code of a call that is not assigned.
  abbrev pub ignored : Action PgWorld (Unit {0}) → Action PgWorld (Unit {0})
  ignored m w =
      let (r, w') = m w in
      elim r [
        | ok _ ↦ (ok tt, w')
        | err _ ↦ (ok tt, w')
        | thrown ↦ (thrown, w')
        | undefined ↦ (undefined, w')
      ]

  -- Only the error code of the insertions is kept.
  unfoldable pub prepare_all : DaoPg → Action PgWorld (Unit {0})
  unfolding exec_prepare ◌>>=◌
  prepare_all dao = do
    exec_prepare dao.pg_conn dao.insert_statements
    ignored (exec_prepare dao.pg_conn dao.select_statements)
    ignored (exec_prepare dao.pg_conn dao.update_statements)
    ignored (exec_prepare dao.pg_conn dao.delete_statements)

  unfoldable pub find_dao : String → List (String × DaoPg) → Option DaoPg
  find_dao source [] = none
  find_dao source ((n, dao) ∷ daos) = if str_eq n source then some dao else find_dao source daos

  -- A DAO that the provider holds is kept; a new one takes the connection of the session. `make` is the
  -- constructor with `create_prepared_statements`, and `prepare_dao` the rest of `prepare`.
  unfoldable pub create_dao_instance :
      String → (Option ℕ → DaoPg) → (DaoPg → Action PgWorld (Unit {0})) → Action PgWorld DaoPg
  create_dao_instance source make prepare_dao w = elim (find_dao source w.daos) [
    | some dao ↦ (ok dao, w)
    | none ↦
        let temp_dao : DaoPg = make w.pg_conn in
        let (error, w') = prepare_dao temp_dao w in
        elim error [
          | ok _ ↦ (ok temp_dao, record w' { daos = (source, temp_dao) ∷ w'.daos })
          | err ErrorCode.not_supported ↦
              (ok temp_dao, record w' { daos = (source, temp_dao) ∷ w'.daos })
          | err e ↦ (err e, w')
          | thrown ↦ (thrown, w')
          | undefined ↦ (undefined, w')
        ]
  ]
