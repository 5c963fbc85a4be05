-- ===== src/Postgres/Indexes.antt =====
-- `IndexDaoPg` of src/dao/postgresql/index_dao_pg.cpp: its statements, parameters and rows.
pub mod Access
pub mod Guarded
use Prim.Native.String.{◌++◌}
use metadata_manager.Prelude.{
  ℕ, ℤ, String, Option, none, some, List, [], ◌∷◌, str_eq, if◌then◌else◌,
}
use metadata_manager.Key.{Key}
use metadata_manager.Platform.{Platform}
use metadata_manager.Libpq.{Libpq}
use metadata_manager.ErrorCode.{invalid_parameter}
use metadata_manager.Outcome.{Outcome, ok, err, ◌>>=◌}
use metadata_manager.Ptree.{put, get_string?, get_int?}
use mathlib.Core.Option
use metadata_manager.Ptree.Helper.{Keys, value_to_string, int_value_to_string}
use metadata_manager.Postgres.Prepared.{Source}
use metadata_manager.Postgres.Params.{
  nullable, schema, sequence_id, format_version, generation, listed, bool_value_to_string,
  ptree_to_json, json_or_empty, array_json, child_json,
}
use metadata_manager.Postgres.Row.{Column, text, boolean, json, count, items, put_columns}

abbrev pub columns : List String
columns =
    "format_version" ∷ "generation" ∷ "id" ∷ "name" ∷ "namespace" ∷ "owner_id" ∷ "acl" ∷ "table_id"
    ∷ "access_method" ∷ "is_unique" ∷ "is_primary" ∷ "number_of_key_column" ∷ "columns"
    ∷ "columns_id" ∷ "options" ∷ []

unfoldable pub get_insert_statement : String
get_insert_statement =
    "INSERT INTO "
    ++ schema
    ++ ".indexes ("
    ++ listed "" columns
    ++ ") VALUES ($1, $2, nextval('"
    ++ sequence_id
    ++ "'), $3, $4, $5, $6, $7, $8, $9, $10, $11, $12, $13, $14) RETURNING id"

unfoldable pub get_select_all_statement : String
get_select_all_statement =
    "SELECT " ++ listed "" columns ++ " FROM " ++ schema ++ ".indexes ORDER BY id"

unfoldable pub get_select_statement : String → String
get_select_statement key =
    "SELECT "
    ++ listed "" columns
    ++ " FROM "
    ++ schema
    ++ ".indexes WHERE "
    ++ key
    ++ " = $1 ORDER BY id"

unfoldable pub get_update_statement : String → String
get_update_statement key =
    "UPDATE " ++ schema
    ++ ".indexes SET name = $1, namespace = $2, owner_id = $3, acl = $4, table_id = $5, access_method = $6, is_unique = $7, is_primary = $8, number_of_key_column = $9, columns = $10, columns_id = $11, options = $12 WHERE "
    ++ key ++ " = $13"

unfoldable pub get_delete_statement : String → String
get_delete_statement key =
    "DELETE FROM " ++ schema ++ ".indexes WHERE " ++ key ++ " = $1 RETURNING id"

abbrev pub source : Source
source = record {
  get_source_name = "indexes";
  get_insert_statement = get_insert_statement;
  get_select_all_statement = get_select_all_statement;
  get_select_statement = get_select_statement;
  get_update_statement = get_update_statement;
  get_delete_statement = get_delete_statement;
}

-- the columns of `OrdinalPosition`
abbrev pub fields : List (Key × Column × ℕ)
fields =
    (Key.format_version, text, 0)
    ∷ (Key.generation, text, 1)
    ∷ (Key.id, text, 2)
    ∷ (Key.name, text, 3)
    ∷ (Key.namespace, text, 4)
    ∷ (Key.owner_id, text, 5)
    ∷ (Key.acl, text, 6)
    ∷ (Key.table_id, text, 7)
    ∷ (Key.access_method, text, 8)
    ∷ (Key.is_unique, boolean, 9)
    ∷ (Key.is_primary, boolean, 10)
    ∷ (Key.number_of_key_columns, text, 11)
    ∷ (Key.columns, json, 12)
    ∷ (Key.columns_id, json, 13)
    ∷ (Key.options, json, 14)
    ∷ []

module _ ⦃P : Platform⦄ where
  open P use {Tree, empty}

  -- the parameters that `insert` and `update` share
  abbrev index_params : Tree → List (Option String) → List (Option String)
  index_params object params =
      get_string? Key.name object
      ∷ get_string? Key.namespace object
      ∷ nullable (int_value_to_string Key.owner_id object)
      ∷ get_string? Key.acl object
      ∷ nullable (int_value_to_string Key.table_id object)
      ∷ nullable (int_value_to_string Key.access_method object)
      ∷ nullable (bool_value_to_string Key.is_unique object)
      ∷ nullable (bool_value_to_string Key.is_primary object)
      ∷ nullable (int_value_to_string Key.number_of_key_columns object)
      ∷ params

  unfoldable pub insert_params : Tree → Outcome (List (Option String))
  unfolding int_value_to_string bool_value_to_string array_json
  insert_params object = do
    columns_json ← array_json Key.columns object
    columns_id_json ← array_json Key.columns_id object
    options_json ← array_json Key.options object
    ok (
        some format_version
        ∷ some generation
        ∷ index_params object (some columns_json ∷ some columns_id_json ∷ some options_json ∷ []))

  unfoldable pub update_params : Tree → String → Outcome (List (Option String))
  unfolding int_value_to_string bool_value_to_string child_json
  update_params object key_value = do
    columns_json ← child_json Key.columns object
    columns_id_json ← child_json Key.columns_id object
    options_json ← child_json Key.options object
    ok (
        index_params object
          (some columns_json ∷ some columns_id_json ∷ some options_json ∷ some key_value ∷ []))

  unfoldable pub convert_pgresult_to_ptree : ⦃L : Libpq⦄ → L.Result → ℕ → Outcome Tree
  unfolding put_columns
  convert_pgresult_to_ptree res row_number = put_columns fields res row_number empty
