-- ===== src/Postgres/Tables.antt =====
-- `TablesDaoPg` of src/dao/postgresql/tables_dao_pg.cpp: its statements, parameters and rows.
pub mod Access
pub mod Guarded
use Prim.Native.String.{◌++◌}
use metadata_manager.Prelude.{
  ℕ, ℤ, String, Option, none, some, List, [], ◌∷◌, str_eq, if◌then◌else◌,
}
use metadata_manager.Key.{Key}
use metadata_manager.Platform.{Platform}
use metadata_manager.Libpq.{Libpq}
use metadata_manager.ErrorCode.{invalid_parameter}
use metadata_manager.Outcome.{Outcome, ok, err, ◌>>=◌}
use metadata_manager.Ptree.{put, get_string?, get_int?}
use mathlib.Core.Option
use metadata_manager.Ptree.Helper.{Keys, value_to_string, int_value_to_string}
use metadata_manager.Postgres.Prepared.{Source}
use metadata_manager.Postgres.Params.{
  nullable, schema, sequence_id, format_version, generation, listed, bool_value_to_string,
  ptree_to_json, json_or_empty, array_json, child_json,
}
use metadata_manager.Postgres.Row.{Column, text, boolean, json, count, items, put_columns}

abbrev pub columns : List String
columns = "format_version" ∷ "generation" ∷ "id" ∷ "name" ∷ "namespace" ∷ "number_of_tuples" ∷ []

unfoldable pub get_insert_statement : String
get_insert_statement =
    "INSERT INTO "
    ++ schema
    ++ ".tables ("
    ++ listed "" columns
    ++ ") VALUES ($1, $2, nextval('"
    ++ sequence_id
    ++ "'), $3, $4, $5) RETURNING id"

unfoldable pub get_select_all_statement : String
get_select_all_statement =
    "SELECT "
    ++ listed "tbl." columns
    ++ ", cls.relowner, cls.relacl FROM "
    ++ schema
    ++ ".tables tbl LEFT JOIN pg_class cls ON (tbl.name = cls.relname) ORDER BY id"

unfoldable pub get_select_statement : String → String
get_select_statement key =
    "SELECT "
    ++ listed "tbl." columns
    ++ " , cls.relowner, cls.relacl FROM "
    ++ schema
    ++ ".tables tbl LEFT JOIN pg_class cls ON (tbl.name = cls.relname) WHERE tbl."
    ++ key
    ++ " = $1"

unfoldable pub get_update_statement : String → String
get_update_statement key =
    "UPDATE " ++ schema ++ ".tables SET name = $1, namespace = $2, number_of_tuples = $3 WHERE "
    ++ key ++ " = $4"

unfoldable pub get_delete_statement : String → String
get_delete_statement key =
    "DELETE FROM " ++ schema ++ ".tables WHERE " ++ key ++ " = $1 RETURNING id"

abbrev pub source : Source
source = record {
  get_source_name = "tables";
  get_insert_statement = get_insert_statement;
  get_select_all_statement = get_select_all_statement;
  get_select_statement = get_select_statement;
  get_update_statement = get_update_statement;
  get_delete_statement = get_delete_statement;
}

-- the columns of `OrdinalPosition`
abbrev pub fields : List (Key × Column × ℕ)
fields =
    (Key.format_version, text, 0)
    ∷ (Key.generation, text, 1)
    ∷ (Key.id, text, 2)
    ∷ (Key.name, text, 3)
    ∷ (Key.namespace, text, 4)
    ∷ (Key.number_of_tuples, count, 5)
    ∷ (Key.owner_role_id, text, 6)
    ∷ (Key.acl, items, 7)
    ∷ []

module _ ⦃P : Platform⦄ where
  open P use {Tree, empty}

  -- the parameters that `insert` and `update` share
  abbrev table_params : Tree → List (Option String) → List (Option String)
  table_params object params =
      some (value_to_string Key.name object)
      ∷ some (value_to_string Key.namespace object)
      ∷ nullable (value_to_string Key.number_of_tuples object)
      ∷ params

  unfoldable pub insert_params : Tree → List (Option String)
  unfolding value_to_string
  insert_params object = some format_version ∷ some generation ∷ table_params object []

  unfoldable pub update_params : Tree → String → List (Option String)
  unfolding value_to_string
  update_params object key_value = table_params object (some key_value ∷ [])

  unfoldable pub convert_pgresult_to_ptree : ⦃L : Libpq⦄ → L.Result → ℕ → Outcome Tree
  unfolding put_columns
  convert_pgresult_to_ptree res row_number = put_columns fields res row_number empty
