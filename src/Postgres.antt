-- ===== src/Postgres.antt =====
-- The storage in PostgreSQL: its state, the statements of include/manager/metadata/dao/common/statements.h
-- and `DbcUtils` of src/dao/postgresql/dbc_utils_pg.cpp.
pub mod Session
pub mod Prepared
pub mod Results
pub mod Params
pub mod Row
pub mod Tables
pub mod DataTypes
pub mod Roles
pub mod Privileges
pub mod Indexes
pub mod Columns
pub mod Constraints
pub mod Statistics
pub mod Manager
pub mod Guarded
pub mod Arity
pub mod Catalog
pub mod Rows
use Prim.Native.String.{◌++◌}
use metadata_manager.Prelude.{
  ℕ, String, Bool, true, false, Option, none, some, List, [], ◌∷◌, str_eq, if◌then◌else◌,
}
use metadata_manager.Libpq.{Libpq, Status, command_ok, tuples_ok, failure}
use metadata_manager.ErrorCode.{
  not_initialized, database_access_failure, already_exists, invalid_parameter,
}
use metadata_manager.Outcome.{Outcome, ok, err, undefined, ◌>>=◌}
use metadata_manager.Action.{Action}
use metadata_manager.Utility.{str_to_uint64}

-- The classes `InsertStatement`, `SelectStatement`, `UpdateStatement` and `DeleteStatement`.
pub data Kind : Type 0 where
  insertion selection change deletion : Kind

-- `get_base_name`: the number of the line on which it stands
abbrev pub base_name : Kind → String
base_name insertion = "86"
base_name selection = "100"
base_name change = "114"
base_name deletion = "128"

pub record Statement : Type 0 where
  pub kind : Kind
  pub table_name : String
  pub statement : String
  pub key : String

abbrev pub name : Statement → String
name s = s.table_name ++ ":" ++ base_name s.kind ++ "-" ++ s.key

abbrev pub default_key : String
default_key = "DefaultStatementKey"

-- The unordered map of the statements of one kind, in the order of insertion: `emplace` does not replace.
abbrev pub Statements : Type 0
Statements = List (String × Statement)

unfoldable pub find_statement : String → Statements → Option Statement
find_statement key [] = none
find_statement key ((k, s) ∷ statements) =
    if str_eq k key then some s else find_statement key statements

-- The members of a `DaoPg`. The pointer to the connection is copied when the DAO is made.
pub record DaoPg : Type 0 where
  pub pg_conn : Option ℕ
  pub insert_statements : Statements
  pub select_statements : Statements
  pub update_statements : Statements
  pub delete_statements : Statements

module _ ⦃L : Libpq⦄ where
  open L use {Server, Result, is_ok, result_status, sqlstate, cmd_tuples}

  -- The connection of the session manager, the DAOs that the provider holds by the name of their source,
  -- and the server.
  pub record PgWorld : Type 0 where
    pub pg_conn : Option ℕ
    pub daos : List (String × DaoPg)
    pub server : Server

  unfoldable pub is_open : Option ℕ → Server → Bool
  is_open none s = false
  is_open (some h) s = is_ok h s

  unfoldable pub prepare : Option ℕ → String → String → List ℕ → Action PgWorld (Unit {0})
  prepare none statement_name statement param_types w = (err not_initialized, w)
  prepare (some h) statement_name statement param_types w =
      if is_ok h w.server
      then (let (res, s) = L.prepare h statement_name statement param_types w.server in
          elim (result_status res) [
            | command_ok ↦ (ok tt, record w { server = s })
            | tuples_ok ↦ (err database_access_failure, record w { server = s })
            | failure ↦ (err database_access_failure, record w { server = s })
          ])
      else (err not_initialized, w)

  -- A text made of a null pointer is undefined behaviour: an error that libpq itself finds has no code.
  unfoldable pub checked : Result → Outcome Result
  checked res = elim (result_status res) [
    | command_ok ↦ ok res
    | tuples_ok ↦ ok res
    | failure ↦ elim (sqlstate res) [
      | none ↦ undefined
      | some error_code ↦
          if str_eq error_code "23505" then err already_exists else err invalid_parameter
    ]
  ]

  unfoldable pub execute_statement :
      Option ℕ → String → List (Option String) → Action PgWorld Result
  unfolding checked
  execute_statement none statement_name param_values w = (err not_initialized, w)
  execute_statement (some h) statement_name param_values w =
      if is_ok h w.server
      then (let (res, s) = L.exec_prepared h statement_name param_values w.server in
          (checked res, record w { server = s }))
      else (err not_initialized, w)

  unfoldable pub get_number_of_rows_affected : Result → Outcome ℕ
  unfolding str_to_uint64
  get_number_of_rows_affected res = str_to_uint64 (cmd_tuples res)
