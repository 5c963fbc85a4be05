-- ===== src/Postgres/Privileges/Access.antt =====
-- `PrivilegesDaoPg` of src/dao/postgresql/privileges_dao_pg.cpp: its operations.
use metadata_manager.Prelude.{
  ℕ, ℤ, to_string, String, Bool, false, Option, none, some, List, [], ◌∷◌, ◌==◌, str_eq,
  if◌then◌else◌,
}
use metadata_manager.Platform.{Platform}
use metadata_manager.Libpq.{Libpq}
use metadata_manager.ErrorCode.{invalid_parameter, not_supported, not_found}
use metadata_manager.Outcome.{Outcome, ok, err, thrown, undefined}
use metadata_manager.Action.{Action, fail, pure, ◌>>=◌, ◌>>◌}
use metadata_manager.Utility.{convert_boolean_expression, str_to_boolean}
use metadata_manager.Dao.{Dao}
use metadata_manager.Ptree.Helper.{Keys}
use metadata_manager.Postgres.{
  Statement, Statements, selection, name, find_statement, prepare, DaoPg, PgWorld, checked,
}
use metadata_manager.Postgres.Prepared.{no_statements, create_dao_instance}
use metadata_manager.Postgres.Results.{first_key, execute_by_key}
use metadata_manager.Postgres.Privileges.{get_select_statement, get_exists_statement, tables_loop}

abbrev privilege_entry : String → String → String × Statement
privilege_entry key text =
    (key, record { kind = selection; table_name = "privileges"; statement = text; key = key })

-- the identifier of the type `int8`
abbrev param_types : Statement → List ℕ
param_types s = if str_eq s.key "id" then 20 ∷ [] else []

module _ ⦃P : Platform⦄ ⦃L : Libpq⦄ where
  open P use {Tree, empty}
  open L use {Result, ntuples, getvalue, sqlstate}

  unfoldable pub make : Option ℕ → DaoPg
  make pg_conn = record (no_statements pg_conn) {
    select_statements =
        privilege_entry "id" (get_select_statement "id")
        ∷ privilege_entry "name" (get_select_statement "name")
        ∷ privilege_entry "Exists" get_exists_statement
        ∷ [];
  }

  prepare_loop : Option ℕ → Statements → Action PgWorld (Unit {0})
  unfolding prepare ◌>>=◌
  prepare_loop pg_conn [] = pure tt
  prepare_loop pg_conn ((_, s) ∷ statements) = do
    prepare pg_conn (name s) s.statement (param_types s)
    prepare_loop pg_conn statements

  unfoldable pub prepare_privileges : DaoPg → Action PgWorld (Unit {0})
  unfolding prepare_loop
  prepare_privileges dao = prepare_loop dao.pg_conn dao.select_statements

  -- The Boolean value of a result with one row. `convert_boolean_expression` takes a null pointer for an empty text.
  unfoldable pub exists_in : Result → Bool
  unfolding convert_boolean_expression str_to_boolean
  exists_in res =
      if ntuples res == 1
      then elim (getvalue res 0 0) [
        | none ↦ false
        | some string ↦ str_to_boolean (convert_boolean_expression string)
      ]
      else false

  unfoldable pub exists : DaoPg → ℤ → Action PgWorld Bool
  unfolding execute_by_key exists_in
  exists dao object_id w =
      let (r, w') =
        execute_by_key dao.pg_conn dao.select_statements "Exists" (some (to_string object_id) ∷ [])
          w in
      elim r [
        | ok res ↦ (ok (exists_in res), w')
        | err _ ↦ (ok false, w')
        | thrown ↦ (thrown, w')
        | undefined ↦ (undefined, w')
      ]

  -- What is made of a result: an undefined object is not found.
  unfoldable pub selected : Result → Outcome Tree
  unfolding checked tables_loop
  selected res = elim (checked res) [
    | ok _ ↦ tables_loop res (ntuples res) 0 empty
    | err e ↦ elim (sqlstate res) [
      | none ↦ undefined
      | some result_error ↦ if str_eq result_error "42704" then err not_found else err e
    ]
    | thrown ↦ thrown
    | undefined ↦ undefined
  ]

  -- Where the connection is not open there is no result, and the text of its error code is made of a null pointer.
  unfoldable pub select_statement : Option ℕ → String → List (Option String) → Action PgWorld Tree
  unfolding selected
  select_statement none statement_name params w = (undefined, w)
  select_statement (some h) statement_name params w =
      if L.is_ok h w.server
      then (let (res, s) = L.exec_prepared h statement_name params w.server in
          (selected res, record w { server = s }))
      else (undefined, w)

  unfoldable pub select : DaoPg → Keys → Action PgWorld Tree
  unfolding find_statement select_statement
  select dao [] = fail invalid_parameter
  select dao (key ∷ keys) =
      let (statement_key, params) = first_key key in
      elim (find_statement statement_key dao.select_statements) [
        | none ↦ fail invalid_parameter
        | some statement ↦ select_statement dao.pg_conn (name statement) params
      ]

  unfoldable pub privileges_dao_pg : DaoPg → Dao PgWorld
  unfolding select
  privileges_dao_pg dao = record {
    insert = λ object object_id. fail not_supported;
    select = λ keys object. select dao keys;
    update = λ keys object. fail not_supported;
    remove = λ keys. fail not_supported;
  }

  unfoldable pub get_privileges_dao : Action PgWorld (Dao PgWorld)
  unfolding make create_dao_instance prepare_privileges privileges_dao_pg ◌>>=◌
  get_privileges_dao = do
    dao ← create_dao_instance "privileges" make prepare_privileges
    pure (privileges_dao_pg dao)
