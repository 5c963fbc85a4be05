-- ===== src/Postgres/Constraints.antt =====
-- `ConstraintsDaoPg` of src/dao/postgresql/constraints_dao_pg.cpp: its statements, parameters and rows.
pub mod Access
pub mod Guarded
use Prim.Native.String.{◌++◌}
use metadata_manager.Prelude.{
  ℕ, ℤ, String, Option, none, some, List, [], ◌∷◌, str_eq, if◌then◌else◌,
}
use metadata_manager.Key.{Key}
use metadata_manager.Platform.{Platform}
use metadata_manager.Libpq.{Libpq}
use metadata_manager.ErrorCode.{invalid_parameter}
use metadata_manager.Outcome.{Outcome, ok, err, ◌>>=◌}
use metadata_manager.Ptree.{put, get_string?, get_int?}
use mathlib.Core.Option
use metadata_manager.Ptree.Helper.{Keys, value_to_string, int_value_to_string}
use metadata_manager.Postgres.Prepared.{Source}
use metadata_manager.Postgres.Params.{
  nullable, schema, sequence_id, format_version, generation, listed, bool_value_to_string,
  ptree_to_json, json_or_empty, array_json, child_json,
}
use metadata_manager.Postgres.Row.{Column, text, boolean, json, count, items, put_columns}
use metadata_manager.Postgres.Columns.{given_id}

abbrev pub columns : List String
columns =
    "format_version" ∷ "generation" ∷ "id" ∷ "name" ∷ "table_id" ∷ "type" ∷ "columns" ∷ "columns_id"
    ∷ "index_id" ∷ "expression" ∷ "pk_table" ∷ "pk_columns" ∷ "pk_columns_id" ∷ "fk_match_type"
    ∷ "fk_delete_action" ∷ "fk_update_action" ∷ []

unfoldable pub get_insert_statement : String
get_insert_statement =
    "INSERT INTO "
    ++ schema
    ++ ".constraints ("
    ++ listed "" columns
    ++ ") VALUES ($1, $2, nextval('"
    ++ sequence_id
    ++ "'), $3, $4, $5, $6, $7, $8, $9, $10, $11, $12, $13, $14, $15) RETURNING id"

unfoldable pub get_insert_statement_id : String
get_insert_statement_id =
    "INSERT INTO "
    ++ schema
    ++ ".constraints ("
    ++ listed "" columns
    ++ ") VALUES ($1, $2, $3, $4, $5, $6, $7, $8, $9, $10, $11, $12, $13, $14, $15, $16) RETURNING id"

unfoldable pub get_select_all_statement : String
get_select_all_statement =
    "SELECT " ++ listed "" columns ++ " FROM " ++ schema ++ ".constraints ORDER BY table_id, id"

unfoldable pub get_select_statement : String → String
get_select_statement key =
    "SELECT "
    ++ listed "" columns
    ++ " FROM "
    ++ schema
    ++ ".constraints WHERE "
    ++ key
    ++ " = $1 ORDER BY table_id, id"

unfoldable pub get_delete_statement : String → String
get_delete_statement key =
    "DELETE FROM " ++ schema ++ ".constraints WHERE " ++ key ++ " = $1 RETURNING id"

abbrev pub source : Source
source = record {
  get_source_name = "constraints";
  get_insert_statement = get_insert_statement;
  get_select_all_statement = get_select_all_statement;
  get_select_statement = get_select_statement;
  get_update_statement = λ (key : String). "";
  get_delete_statement = get_delete_statement;
}

-- the columns of `OrdinalPosition`, the name twice
abbrev pub fields : List (Key × Column × ℕ)
fields =
    (Key.format_version, text, 0)
    ∷ (Key.generation, text, 1)
    ∷ (Key.id, text, 2)
    ∷ (Key.name, text, 3)
    ∷ (Key.table_id, text, 4)
    ∷ (Key.name, text, 3)
    ∷ (Key.type, text, 5)
    ∷ (Key.columns, json, 6)
    ∷ (Key.columns_id, json, 7)
    ∷ (Key.index_id, text, 8)
    ∷ (Key.expression, text, 9)
    ∷ []

module _ ⦃P : Platform⦄ where
  open P use {Tree, empty}

  -- The members of a foreign key are null.
  unfoldable pub insert_params : Tree → Outcome (List (Option String))
  unfolding int_value_to_string value_to_string array_json
  insert_params object = do
    columns_json ← array_json Key.columns object
    columns_id_json ← array_json Key.columns_id object
    ok (
        some format_version
        ∷ some generation
        ∷ given_id object (
            some (value_to_string Key.name object)
            ∷ some (int_value_to_string Key.table_id object)
            ∷ some (int_value_to_string Key.type object)
            ∷ some columns_json
            ∷ some columns_id_json
            ∷ nullable (int_value_to_string Key.index_id object)
            ∷ get_string? Key.expression object
            ∷ none
            ∷ none
            ∷ none
            ∷ none
            ∷ none
            ∷ none
            ∷ []))

  unfoldable pub convert_pgresult_to_ptree : ⦃L : Libpq⦄ → L.Result → ℕ → Outcome Tree
  unfolding put_columns
  convert_pgresult_to_ptree res row_number = put_columns fields res row_number empty
