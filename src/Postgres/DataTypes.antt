-- ===== src/Postgres/DataTypes.antt =====
-- `DataTypesDaoPg` of src/dao/postgresql/datatypes_dao_pg.cpp: its statements and rows.
pub mod Access
pub mod Guarded
use Prim.Native.String.{◌++◌}
use metadata_manager.Prelude.{
  ℕ, ℤ, String, Option, none, some, List, [], ◌∷◌, str_eq, if◌then◌else◌,
}
use metadata_manager.Key.{Key}
use metadata_manager.Platform.{Platform}
use metadata_manager.Libpq.{Libpq}
use metadata_manager.ErrorCode.{invalid_parameter}
use metadata_manager.Outcome.{Outcome, ok, err, ◌>>=◌}
use metadata_manager.Ptree.{put, get_string?, get_int?}
use mathlib.Core.Option
use metadata_manager.Ptree.Helper.{Keys, value_to_string, int_value_to_string}
use metadata_manager.Postgres.Prepared.{Source}
use metadata_manager.Postgres.Params.{
  nullable, schema, sequence_id, format_version, generation, listed, bool_value_to_string,
  ptree_to_json, json_or_empty, array_json, child_json,
}
use metadata_manager.Postgres.Row.{Column, text, boolean, json, count, items, put_columns}

unfoldable pub get_select_statement : String → String
get_select_statement key =
    "SELECT "
    ++ listed "" (
        "format_version" ∷ "generation" ∷ "id" ∷ "name" ∷ "pg_data_type" ∷ "pg_data_type_name"
        ∷ "pg_data_type_qualified_name" ∷ [])
    ++ " FROM "
    ++ schema
    ++ ".types WHERE "
    ++ key
    ++ " = $1"

abbrev pub source : Source
source = record {
  get_source_name = "types";
  get_insert_statement = "";
  get_select_all_statement = "";
  get_select_statement = get_select_statement;
  get_update_statement = λ (key : String). "";
  get_delete_statement = λ (key : String). "";
}

-- the columns of `OrdinalPosition`
abbrev pub fields : List (Key × Column × ℕ)
fields =
    (Key.format_version, text, 0)
    ∷ (Key.generation, text, 1)
    ∷ (Key.id, text, 2)
    ∷ (Key.name, text, 3)
    ∷ (Key.pg_data_type, text, 4)
    ∷ (Key.pg_data_type_name, text, 5)
    ∷ (Key.pg_data_type_qualified_name, text, 6)
    ∷ []

module _ ⦃P : Platform⦄ where
  open P use {Tree, empty}

  unfoldable pub convert_pgresult_to_ptree : ⦃L : Libpq⦄ → L.Result → ℕ → Outcome Tree
  unfolding put_columns
  convert_pgresult_to_ptree res row_number = put_columns fields res row_number empty
