-- ===== src/Postgres/Results.antt =====
-- What the DAOs for PostgreSQL share (src/dao/postgresql/*_dao_pg.cpp): the run of a statement by its key, and
-- the loops over the rows of a result. A value that libpq does not have is a null pointer, of which a text
-- cannot be made.
use metadata_manager.Prelude.{
  ℕ, zero, suc, ◌+◌, ℤ, String, Option, none, some, List, [], ◌∷◌, ◌==◌, if◌then◌else◌,
}
use metadata_manager.Key.{Key, spelling}
use metadata_manager.Platform.{Platform}
use metadata_manager.Libpq.{Libpq}
use metadata_manager.ErrorCode.{ErrorCode, invalid_parameter}
use metadata_manager.Outcome.{Outcome, ok, err, undefined, ◌>>=◌}
use metadata_manager.Action.{Action, fail}
use metadata_manager.Ptree.{push_back}
use metadata_manager.Ptree.Helper.{Keys}
use metadata_manager.Utility.{str_to_int64, convert_boolean_expression}
use metadata_manager.Postgres.{
  Statements, name, default_key, find_statement, PgWorld, execute_statement,
  get_number_of_rows_affected,
}

-- The statement and its parameter for the first search key.
abbrev pub first_key : Key × String → String × List (Option String)
first_key (key, value) = (spelling key, some value ∷ [])

-- With no search key all are returned.
abbrev pub key_or_default : Keys → String × List (Option String)
key_or_default [] = (default_key, [])
key_or_default (key ∷ _) = first_key key

module _ ⦃L : Libpq⦄ where
  open L use {Result, ntuples, getvalue}

  -- `statements.at(key)`, and the run of what it finds
  unfoldable pub execute_by_key :
      Option ℕ → Statements → String → List (Option String) → Action PgWorld Result
  unfolding find_statement execute_statement
  execute_by_key pg_conn statements key params = elim (find_statement key statements) [
    | none ↦ fail invalid_parameter
    | some statement ↦ execute_statement pg_conn (name statement) params
  ]

  -- `get_result_value` at a text and at a Boolean value
  unfoldable pub get_result_value : Result → ℕ → ℕ → Outcome String
  get_result_value res row_number column = elim (getvalue res row_number column) [
    | none ↦ undefined
    | some result_value ↦ ok result_value
  ]

  unfoldable pub get_result_bool : Result → ℕ → ℕ → Outcome String
  unfolding get_result_value convert_boolean_expression
  get_result_bool res row_number column = do
    result_value ← get_result_value res row_number column
    ok (convert_boolean_expression result_value)

  -- The identifier in the first column of a row.
  unfoldable pub id_at : Result → ℕ → Outcome ℤ
  unfolding get_result_value str_to_int64
  id_at res row_number = do
    result_value ← get_result_value res row_number 0
    str_to_int64 result_value

  -- The identifier of the added row, where there is one row and no more.
  unfoldable pub added_id : ErrorCode → Result → Outcome ℤ
  unfolding id_at
  added_id error res = if ntuples res == 1 then id_at res 0 else err error

  unfoldable pub added_id_by_count : Result → Outcome ℤ
  unfolding get_number_of_rows_affected id_at
  added_id_by_count res = do
    number_of_rows_affected ← get_number_of_rows_affected res
    if number_of_rows_affected == 1 then id_at res 0 else err invalid_parameter

  -- An identifier that is no number is not set, and reading it is undefined behaviour.
  unfoldable pub removed_id : Result → ℕ → Outcome ℤ
  unfolding id_at
  removed_id res row_number = elim (id_at res row_number) [ ok v ↦ ok v | _ ↦ undefined ]

  -- `row_number` with the number of rows that are left
  unfoldable pub removed_loop : Result → ℕ → ℕ → Outcome (List ℤ)
  unfolding removed_id
  removed_loop res zero row_number = ok []
  removed_loop res (suc left) row_number = do
    object_id ← removed_id res row_number
    object_ids ← removed_loop res left (row_number + 1)
    ok (object_id ∷ object_ids)

  unfoldable pub removed_ids : Result → Outcome (List ℤ)
  unfolding get_number_of_rows_affected removed_loop
  removed_ids res = do
    number_of_rows_affected ← get_number_of_rows_affected res
    removed_loop res number_of_rows_affected 0

  module _ ⦃P : Platform⦄ where
    open P use {Tree, empty}

    unfoldable pub rows_loop : (ℕ → Outcome Tree) → ℕ → ℕ → Tree → Outcome Tree
    unfolding push_back
    rows_loop convert zero row_number object = ok object
    rows_loop convert (suc left) row_number object = do
      row ← convert row_number
      rows_loop convert left (row_number + 1) (push_back row object)

    -- `object.clear()` and the rows of a result
    unfoldable pub all_rows : (Result → ℕ → Outcome Tree) → Result → Outcome Tree
    unfolding rows_loop
    all_rows convert_pgresult_to_ptree res =
        rows_loop (convert_pgresult_to_ptree res) (ntuples res) 0 empty
