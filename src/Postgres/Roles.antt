-- ===== src/Postgres/Roles.antt =====
-- `RolesDaoPg` of src/dao/postgresql/roles_dao_pg.cpp: its statements and rows.
pub mod Access
use Prim.Native.String.{◌++◌}
use metadata_manager.Prelude.{
  ℕ, ℤ, String, Option, none, some, List, [], ◌∷◌, str_eq, if◌then◌else◌,
}
use metadata_manager.Key.{Key}
use metadata_manager.Platform.{Platform}
use metadata_manager.Libpq.{Libpq}
use metadata_manager.ErrorCode.{invalid_parameter}
use metadata_manager.Outcome.{Outcome, ok, err, ◌>>=◌}
use metadata_manager.Ptree.{put, get_string?, get_int?}
use mathlib.Core.Option
use metadata_manager.Ptree.Helper.{Keys, value_to_string, int_value_to_string}
use metadata_manager.Postgres.Prepared.{Source}
use metadata_manager.Postgres.Params.{
  nullable, schema, sequence_id, format_version, generation, listed, bool_value_to_string,
  ptree_to_json, json_or_empty, array_json, child_json,
}
use metadata_manager.Postgres.Row.{Column, text, boolean, json, count, items, put_columns}

unfoldable pub get_select_statement : String → String
get_select_statement key =
    "SELECT "
    ++ listed "" (
        "oid" ∷ "rolname" ∷ "rolsuper" ∷ "rolinherit" ∷ "rolcreaterole" ∷ "rolcreatedb"
        ∷ "rolcanlogin" ∷ "rolreplication" ∷ [])
    ++ " , "
    ++ listed "" ("rolbypassrls" ∷ "rolconnlimit" ∷ "rolpassword" ∷ "rolvaliduntil" ∷ [])
    ++ " FROM pg_authid WHERE "
    ++ key
    ++ " = $1"

abbrev pub source : Source
source = record {
  get_source_name = "roles";
  get_insert_statement = "";
  get_select_all_statement = "";
  get_select_statement = get_select_statement;
  get_update_statement = λ (key : String). "";
  get_delete_statement = λ (key : String). "";
}

-- the columns of `OrdinalPosition`
abbrev pub fields : List (Key × Column × ℕ)
fields =
    (Key.id, text, 0)
    ∷ (Key.name, text, 1)
    ∷ (Key.super, boolean, 2)
    ∷ (Key.inherit, boolean, 3)
    ∷ (Key.createrole, boolean, 4)
    ∷ (Key.createdb, boolean, 5)
    ∷ (Key.canlogin, boolean, 6)
    ∷ (Key.replication, boolean, 7)
    ∷ (Key.bypassrls, boolean, 8)
    ∷ (Key.connlimit, text, 9)
    ∷ (Key.password, text, 10)
    ∷ (Key.validuntil, text, 11)
    ∷ []

module _ ⦃P : Platform⦄ where
  open P use {Tree, empty}

  unfoldable pub convert_pgresult_to_ptree : ⦃L : Libpq⦄ → L.Result → ℕ → Outcome Tree
  unfolding put_columns put
  convert_pgresult_to_ptree res row_number =
      put_columns fields res row_number
        (put Key.generation generation (put Key.format_version format_version empty))
