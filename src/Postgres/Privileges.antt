-- ===== src/Postgres/Privileges.antt =====
-- `PrivilegesDaoPg` of src/dao/postgresql/privileges_dao_pg.cpp: its statements and rows.
pub mod Access
use Prim.Native.String.{◌++◌}
use metadata_manager.Prelude.{ℕ, zero, suc, ◌+◌, String, List, [], ◌∷◌}
use metadata_manager.Key.{Key}
use metadata_manager.Platform.{Platform}
use metadata_manager.Libpq.{Libpq}
use metadata_manager.Outcome.{Outcome, ok, ◌>>=◌}
use metadata_manager.Postgres.Results.{get_result_value}
use metadata_manager.Postgres.Params.{schema}
use metadata_manager.Postgres.Row.{Column, boolean, put_columns}

abbrev sub_query_foreign : String
sub_query_foreign =
    "SELECT SUBSTRING(UNNEST(ftoptions) FROM 'table_name=(.+)') AS table_name FROM pg_foreign_table"

abbrev sub_query_tables : String
sub_query_tables = "SELECT name FROM " ++ schema ++ ".tables"

abbrev sub_query : String
sub_query =
    "SELECT 'public.' || fgt.table_name AS table_name FROM (" ++ sub_query_foreign
    ++ ") fgt WHERE fgt.table_name IN (" ++ sub_query_tables ++ ")"

unfoldable pub get_select_statement : String → String
get_select_statement key =
    "WITH foreign_table AS (" ++ sub_query ++ ") SELECT fgt.table_name"
    ++ " , has_table_privilege($1, fgt.table_name, 'SELECT')"
    ++ " , has_table_privilege($1, fgt.table_name, 'INSERT')"
    ++ " , has_table_privilege($1, fgt.table_name, 'UPDATE')"
    ++ " , has_table_privilege($1, fgt.table_name, 'DELETE')"
    ++ " , has_table_privilege($1, fgt.table_name, 'TRUNCATE')"
    ++ " , has_table_privilege($1, fgt.table_name, 'REFERENCES')"
    ++ " , has_table_privilege($1, fgt.table_name, 'TRIGGER')"
    ++ " FROM (SELECT * FROM foreign_table) fgt"

unfoldable pub get_exists_statement : String
get_exists_statement = "SELECT EXISTS (SELECT * FROM pg_authid WHERE oid = $1)"

-- the columns that are read: that of `TRIGGER` is not
abbrev pub fields : List (Key × Column × ℕ)
fields =
    (Key.select_privilege, boolean, 1)
    ∷ (Key.insert_privilege, boolean, 2)
    ∷ (Key.update_privilege, boolean, 3)
    ∷ (Key.delete_privilege, boolean, 4)
    ∷ (Key.truncate_privilege, boolean, 5)
    ∷ (Key.references_privilege, boolean, 6)
    ∷ []

module _ ⦃P : Platform⦄ ⦃L : Libpq⦄ where
  open P use {Tree, empty, add_child_at}
  open L use {Result}

  unfoldable pub convert_pgresult_to_ptree : Result → ℕ → Outcome Tree
  unfolding put_columns
  convert_pgresult_to_ptree res row_number = put_columns fields res row_number empty

  -- The privileges stand under the name of the table, which is a path.
  unfoldable pub tables_loop : Result → ℕ → ℕ → Tree → Outcome Tree
  unfolding get_result_value convert_pgresult_to_ptree
  tables_loop res zero row_number object = ok object
  tables_loop res (suc left) row_number object = do
    table_name ← get_result_value res row_number 0
    privileges ← convert_pgresult_to_ptree res row_number
    tables_loop res left (row_number + 1) (add_child_at table_name privileges object)
