-- ===== src/Postgres/Statistics.antt =====
-- `StatisticsDaoPg` of src/dao/postgresql/statistics_dao_pg.cpp: its statements, parameters and rows.
pub mod Access
pub mod Guarded
use Prim.Native.String.{◌++◌}
use metadata_manager.Prelude.{
  ℕ, ℤ, String, Option, none, some, List, [], ◌∷◌, str_eq, if◌then◌else◌,
}
use metadata_manager.Key.{Key}
use metadata_manager.Platform.{Platform}
use metadata_manager.Libpq.{Libpq}
use metadata_manager.ErrorCode.{invalid_parameter}
use metadata_manager.Outcome.{Outcome, ok, err, ◌>>=◌}
use metadata_manager.Ptree.{put, get_string?, get_int?}
use mathlib.Core.Option
use metadata_manager.Ptree.Helper.{Keys, value_to_string, int_value_to_string}
use metadata_manager.Postgres.Prepared.{Source}
use metadata_manager.Postgres.Params.{
  nullable, schema, sequence_id, format_version, generation, listed, bool_value_to_string,
  ptree_to_json, json_or_empty, array_json, child_json,
}
use metadata_manager.Postgres.Row.{Column, text, boolean, json, count, items, put_columns}
use metadata_manager.Key.{spelling, ◌=?◌}
use metadata_manager.Postgres.{default_key}

abbrev pub columns : List String
columns = "format_version" ∷ "generation" ∷ "id" ∷ "name" ∷ "column_id" ∷ "column_statistic" ∷ []

abbrev insert_into : String
insert_into =
    "INSERT INTO "
    ++ schema
    ++ ".statistics ("
    ++ listed "" columns
    ++ ") VALUES ($1, $2, nextval('"
    ++ sequence_id
    ++ "'), $3, "

-- what is done where the column has a statistic, with the parameter of the statistic
abbrev on_conflict : String → String
on_conflict parameter =
    " ON CONFLICT (column_id) DO UPDATE SET format_version = $1, generation = $2, name = $3,"
    ++ " column_statistic = " ++ parameter ++ " RETURNING id"

unfoldable pub get_insert_statement : String
get_insert_statement = insert_into ++ "$4, $5)" ++ on_conflict "$5"

unfoldable pub get_insert_statement_columns : String → String
get_insert_statement_columns key =
    insert_into
    ++ "(SELECT id FROM "
    ++ schema
    ++ ".columns WHERE table_id=$4 AND "
    ++ key
    ++ "=$5), $6)"
    ++ on_conflict "$6"

abbrev select_from : String
select_from =
    "SELECT "
    ++ listed "sts." columns
    ++ " , col.table_id, col.column_number, col.name column_name FROM "
    ++ schema
    ++ ".statistics sts JOIN "
    ++ schema
    ++ ".columns col ON (sts.column_id = col.id)"

unfoldable pub get_select_all_statement : String
get_select_all_statement = select_from ++ " ORDER BY table_id, column_number"

unfoldable pub get_select_statement : String → String
get_select_statement key = select_from ++ " WHERE (sts." ++ key ++ " = $1)"

unfoldable pub get_select_statement_tid : String
get_select_statement_tid = select_from ++ " WHERE col.table_id = $1 ORDER BY column_number"

unfoldable pub get_select_statement_columns : String → String
get_select_statement_columns key =
    select_from ++ " WHERE (col.table_id = $1) AND (col." ++ key ++ " = $2)"

unfoldable pub get_delete_statement : String → String
get_delete_statement key =
    "DELETE FROM " ++ schema ++ ".statistics WHERE " ++ key ++ " = $1 RETURNING id"

abbrev delete_using : String
delete_using =
    "DELETE FROM " ++ schema ++ ".statistics sts USING " ++ schema
    ++ ".columns col WHERE (sts.column_id = col.id) AND (col.table_id = $1)"

unfoldable pub get_delete_statement_tid : String
get_delete_statement_tid = delete_using ++ " RETURNING sts.id"

unfoldable pub get_delete_statement_columns : String → String
get_delete_statement_columns key = delete_using ++ " AND (col." ++ key ++ " = $2) RETURNING sts.id"

abbrev pub source : Source
source = record {
  get_source_name = "statistics";
  get_insert_statement = get_insert_statement;
  get_select_all_statement = get_select_all_statement;
  get_select_statement = get_select_statement;
  get_update_statement = λ (key : String). "";
  get_delete_statement = get_delete_statement;
}

-- the columns of `OrdinalPosition`
abbrev pub fields : List (Key × Column × ℕ)
fields =
    (Key.format_version, text, 0)
    ∷ (Key.generation, text, 1)
    ∷ (Key.id, text, 2)
    ∷ (Key.name, text, 3)
    ∷ (Key.table_id, text, 6)
    ∷ (Key.column_number, text, 7)
    ∷ (Key.column_id, text, 4)
    ∷ (Key.column_name, text, 8)
    ∷ (Key.column_statistic, json, 5)
    ∷ []

abbrev find_key : Key → Keys → Option String
find_key key [] = none
find_key key ((k, v) ∷ keys) = if k =? key then some v else find_key key keys

-- The first of the candidates that is a search key, with its value.
first_of : List Key → Keys → Option (Key × String)
first_of [] keys = none
first_of (candidate ∷ candidates) keys = elim (find_key candidate keys) [
  | some v ↦ some (candidate, v)
  | none ↦ first_of candidates keys
]

-- A column of the table, where a second key names one.
with_column : Keys → Key × String → String × List (Option String)
unfolding first_of
with_column keys (key, v) =
    if key =? Key.table_id
    then elim (first_of (Key.column_name ∷ Key.column_number ∷ []) keys) [
      | none ↦ (spelling key, some v ∷ [])
      | some (second, w) ↦ (spelling second, some v ∷ some w ∷ [])
    ]
    else (spelling key, some v ∷ [])

unfoldable pub set_key_params : Keys → Outcome (String × List (Option String))
unfolding first_of with_column
set_key_params keys = elim (first_of (Key.id ∷ Key.name ∷ Key.table_id ∷ Key.column_id ∷ []) keys) [
  | none ↦ err invalid_parameter
  | some found ↦ ok (with_column keys found)
]

module _ ⦃P : Platform⦄ where
  open P use {Tree, empty, get_child?}

  -- An error of the conversion leaves the text empty.
  unfoldable pub statistic_json : Tree → String
  unfolding ptree_to_json
  statistic_json object = elim (get_child? Key.column_statistic object) [
    | none ↦ ""
    | some p_statistic ↦ elim (ptree_to_json p_statistic) [ ok s_statistic ↦ s_statistic | _ ↦ "" ]
  ]

  -- the column, by its identifier or by the table with a number or a name
  unfoldable pub column_params : Tree → List (Option String) → List (Option String)
  unfolding value_to_string int_value_to_string
  column_params object params =
      let column_id = value_to_string Key.column_id object in
      let column_number = int_value_to_string Key.column_number object in
      if str_eq column_id ""
      then some (value_to_string Key.table_id object)
        ∷ (if str_eq column_number ""
            then some (value_to_string Key.column_name object)
            else some column_number)
        ∷ params
      else some column_id ∷ params

  unfoldable pub insert_params : Tree → List (Option String)
  unfolding value_to_string column_params statistic_json
  insert_params object =
      some format_version
      ∷ some generation
      ∷ some (value_to_string Key.name object)
      ∷ column_params object (nullable (statistic_json object) ∷ [])

  unfoldable pub insert_key : Tree → String
  unfolding value_to_string int_value_to_string
  insert_key object =
      if str_eq (value_to_string Key.column_id object) ""
      then if str_eq (int_value_to_string Key.column_number object) ""
        then "columnName"
        else "columnNumber"
      else default_key

  unfoldable pub convert_pgresult_to_ptree : ⦃L : Libpq⦄ → L.Result → ℕ → Outcome Tree
  unfolding put_columns
  convert_pgresult_to_ptree res row_number = put_columns fields res row_number empty
