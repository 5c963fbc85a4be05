-- ===== src/Dao/DataTypes.antt =====
-- `DataTypesDaoJson` of src/dao/json/datatypes_dao_json.cpp: the fixed table of data types. The numbers
-- are `DataTypesId` (include/manager/metadata/datatypes.h) and `PgType::TypeOid`
-- (include/manager/metadata/dao/common/pg_type.h), which are equal for each type.
pub mod Lookup
use metadata_manager.Prelude.{ℕ, pos, String, List, [], ◌∷◌}
use metadata_manager.Key.{Key}
use metadata_manager.Platform.{Platform}
use metadata_manager.Outcome.{Outcome, ok}
use metadata_manager.Action.{Action, lift}
use metadata_manager.Ptree.{put, put_int, push_back}
use metadata_manager.Ptree.Helper.{Keys}
use metadata_manager.Session.{World}
use metadata_manager.Dao.{get_child}
use metadata_manager.Dao.Rows.{find_loop}

pub record Entry : Type 0 where
  pub id : ℕ
  pub name : String
  pub pg_data_type_name : String
  pub pg_data_type_qualified_name : String

abbrev entry : ℕ → String → String → String → Entry
entry i n p q = record { id = i; name = n; pg_data_type_name = p; pg_data_type_qualified_name = q }

unfoldable pub entries : List Entry
entries =
    entry 23 "INT32" "integer" "int4"
    ∷ entry 20 "INT64" "bigint" "int8"
    ∷ entry 700 "FLOAT32" "real" "float4"
    ∷ entry 701 "FLOAT64" "double precision" "float8"
    ∷ entry 1042 "CHAR" "char" "bpchar"
    ∷ entry 1043 "VARCHAR" "varchar" "varchar"
    ∷ entry 1700 "NUMERIC" "numeric" "numeric"
    ∷ entry 1082 "DATE" "date" "date"
    ∷ entry 1083 "TIME" "time" "time"
    ∷ entry 1266 "TIMETZ" "timetz" "timetz"
    ∷ entry 1114 "TIMESTAMP" "timestamp" "timestamp"
    ∷ entry 1184 "TIMESTAMPTZ" "timestamptz" "timestamptz"
    ∷ entry 1186 "INTERVAL" "interval" "interval"
    ∷ []

module _ ⦃P : Platform⦄ where
  open P use {Tree, empty, children, add_child}

  -- The variable `datatype` keeps the members of the entry before, which are all put anew.
  unfoldable pub put_entry : Entry → Tree → Tree
  put_entry e datatype = put Key.pg_data_type_qualified_name e.pg_data_type_qualified_name (
      put Key.pg_data_type_name e.pg_data_type_name (
        put_int Key.pg_data_type (pos e.id) (
          put Key.name e.name (
            put_int Key.id (pos e.id)
              (put_int Key.generation (pos 1) (put_int Key.format_version (pos 1) datatype))))))

  unfoldable pub prepare_loop : List Entry → Tree → Tree → Tree
  unfolding put_entry
  prepare_loop [] datatype datatypes = datatypes
  prepare_loop (e ∷ es) datatype datatypes =
      let next = put_entry e datatype in prepare_loop es next (push_back next datatypes)

  -- `datatype_contents_` after `prepare`
  unfoldable pub prepared : Tree
  unfolding prepare_loop entries
  prepared = add_child Key.data_types (prepare_loop entries empty empty) empty

  unfoldable pub find_data_types : Keys → Outcome Tree
  unfolding prepared get_child find_loop
  find_data_types keys = elim (get_child Key.data_types prepared) [
    | ok datatypes ↦ ok (find_loop keys (children datatypes) empty)
    | other ↦ other
  ]

  unfoldable pub select : Keys → Tree → Action World Tree
  unfolding find_data_types
  select keys object = lift (find_data_types keys)
