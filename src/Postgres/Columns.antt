-- ===== src/Postgres/Columns.antt =====
-- `ColumnsDaoPg` of src/dao/postgresql/columns_dao_pg.cpp: its statements, parameters and rows.
pub mod Access
pub mod Guarded
use Prim.Native.String.{◌++◌}
use metadata_manager.Prelude.{
  ℕ, ℤ, String, Option, none, some, List, [], ◌∷◌, str_eq, if◌then◌else◌,
}
use metadata_manager.Key.{Key}
use metadata_manager.Platform.{Platform}
use metadata_manager.Libpq.{Libpq}
use metadata_manager.ErrorCode.{invalid_parameter}
use metadata_manager.Outcome.{Outcome, ok, err, ◌>>=◌}
use metadata_manager.Ptree.{put, get_string?, get_int?}
use mathlib.Core.Option
use metadata_manager.Ptree.Helper.{Keys, value_to_string, int_value_to_string}
use metadata_manager.Postgres.Prepared.{Source}
use metadata_manager.Postgres.Params.{
  nullable, schema, sequence_id, format_version, generation, listed, bool_value_to_string,
  ptree_to_json, json_or_empty, array_json, child_json,
}
use metadata_manager.Postgres.Row.{Column, text, boolean, json, count, items, put_columns}

abbrev pub columns : List String
columns =
    "format_version" ∷ "generation" ∷ "id" ∷ "table_id" ∷ "name" ∷ "column_number" ∷ "data_type_id"
    ∷ "data_length" ∷ "varying" ∷ "is_not_null" ∷ "default_expression" ∷ "is_funcexpr" ∷ []

unfoldable pub get_insert_statement : String
get_insert_statement =
    "INSERT INTO "
    ++ schema
    ++ ".columns ("
    ++ listed "" columns
    ++ ") VALUES ($1, $2, nextval('"
    ++ sequence_id
    ++ "'), $3, $4, $5, $6, $7, $8, $9, $10, $11) RETURNING id"

unfoldable pub get_insert_statement_id : String
get_insert_statement_id =
    "INSERT INTO "
    ++ schema
    ++ ".columns ("
    ++ listed "" columns
    ++ ") VALUES ($1, $2, $3, $4, $5, $6, $7, $8, $9, $10, $11, $12) RETURNING id"

unfoldable pub get_select_statement : String → String
get_select_statement key =
    "SELECT "
    ++ listed "" (
        "format_version" ∷ "generation" ∷ "id" ∷ "name" ∷ "table_id" ∷ "column_number"
        ∷ "data_type_id" ∷ "data_length" ∷ "varying" ∷ "is_not_null" ∷ "default_expression"
        ∷ "is_funcexpr" ∷ [])
    ++ " FROM "
    ++ schema
    ++ ".columns WHERE "
    ++ key
    ++ " = $1 ORDER BY column_number"

unfoldable pub get_delete_statement : String → String
get_delete_statement key =
    "DELETE FROM " ++ schema ++ ".columns WHERE " ++ key ++ " = $1 RETURNING id"

abbrev pub source : Source
source = record {
  get_source_name = "columns";
  get_insert_statement = get_insert_statement;
  get_select_all_statement = "";
  get_select_statement = get_select_statement;
  get_update_statement = λ (key : String). "";
  get_delete_statement = get_delete_statement;
}

-- the columns of `OrdinalPosition`
abbrev pub fields : List (Key × Column × ℕ)
fields =
    (Key.format_version, text, 0)
    ∷ (Key.generation, text, 1)
    ∷ (Key.id, text, 2)
    ∷ (Key.name, text, 3)
    ∷ (Key.table_id, text, 4)
    ∷ (Key.column_number, text, 5)
    ∷ (Key.data_type_id, text, 6)
    ∷ (Key.data_length, json, 7)
    ∷ (Key.varying, boolean, 8)
    ∷ (Key.is_not_null, boolean, 9)
    ∷ (Key.default_expr, text, 10)
    ∷ (Key.is_funcexpr, boolean, 11)
    ∷ []

module _ ⦃P : Platform⦄ where
  open P use {Tree, empty}

  -- the identifier of the object, where it has one
  abbrev pub given_id : Tree → List (Option String) → List (Option String)
  given_id object params =
      let column_id = int_value_to_string Key.id object in
      if str_eq column_id "" then params else some column_id ∷ params

  abbrev required : String → Outcome String
  required value = if str_eq value "" then err invalid_parameter else ok value

  unfoldable pub insert_params : Tree → Outcome (List (Option String))
  unfolding int_value_to_string value_to_string array_json
  insert_params object = do
    name ← required (value_to_string Key.name object)
    data_length_json ← array_json Key.data_length object
    is_not_null ← required (value_to_string Key.is_not_null object)
    ok (
        some format_version
        ∷ some generation
        ∷ given_id object (
            some (int_value_to_string Key.table_id object)
            ∷ some name
            ∷ nullable (value_to_string Key.column_number object)
            ∷ nullable (value_to_string Key.data_type_id object)
            ∷ some data_length_json
            ∷ nullable (value_to_string Key.varying object)
            ∷ some is_not_null
            ∷ nullable (value_to_string Key.default_expr object)
            ∷ nullable (value_to_string Key.is_funcexpr object)
            ∷ []))

  unfoldable pub convert_pgresult_to_ptree : ⦃L : Libpq⦄ → L.Result → ℕ → Outcome Tree
  unfolding put_columns
  convert_pgresult_to_ptree res row_number = put_columns fields res row_number empty
