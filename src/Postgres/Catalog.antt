-- ===== src/Postgres/Catalog.antt =====
-- What the rows of a selection hold, apart from the code that reads them: the columns that the text of a SELECT
-- statement lists, and the types of sql/ddl.sql, of pg_class and of has_table_privilege.
use Prim.Native.Char.{Char, code}
use metadata_manager.Prelude.{
  ℕ, zero, suc, ◌+◌, ◌-◌, String, Bool, true, false, List, [], ◌∷◌, ◌==◌, ◌&&◌, str_eq,
  if◌then◌else◌, ◌≡◌, refl,
}
use metadata_manager.Key.{Key}
use metadata_manager.Postgres.Row.{Column, text, boolean, json, count, items}

starts : String → String → Bool
starts String.[] s = true
starts (String.◌∷◌ p word) String.[] = false
starts (String.◌∷◌ p word) (String.◌∷◌ c s) = code p == code c && starts word s

abbrev skip : ℕ → String → String
skip zero s = s
skip (suc n) String.[] = ""
skip (suc n) (String.◌∷◌ c s) = skip n s

-- the number of open parentheses behind a character
abbrev depth_after : ℕ → ℕ → ℕ
depth_after depth c = if c == b'(' then depth + 1 else if c == b')' then depth - 1 else depth

-- what follows the SELECT that stands in no parentheses
behind_select : ℕ → String → String
unfolding starts
behind_select depth String.[] = ""
behind_select depth (String.◌∷◌ c s) =
    let rest = behind_select (depth_after depth (code c)) s in
    if depth == 0 && starts "SELECT " (String.◌∷◌ c s) then skip 6 s else rest

abbrev before_first : Char → List String → List String
before_first c [] = String.◌∷◌ c "" ∷ []
before_first c (item ∷ more) = String.◌∷◌ c item ∷ more

trim_start : String → String
trim_start String.[] = ""
trim_start (String.◌∷◌ c s) =
    let rest = trim_start s in if code c == 32 then rest else String.◌∷◌ c s

trim_end : String → String
trim_end String.[] = ""
trim_end (String.◌∷◌ c s) =
    let rest = trim_end s in if code c == 32 && str_eq rest "" then "" else String.◌∷◌ c rest

-- the items up to the FROM that stands in no parentheses
items_before_from : ℕ → String → List String
unfolding starts
items_before_from depth String.[] = "" ∷ []
items_before_from depth (String.◌∷◌ c s) =
    let rest = items_before_from (depth_after depth (code c)) s in
    if depth == 0 && starts " FROM " (String.◌∷◌ c s)
    then "" ∷ []
    else if depth == 0 && code c == b','
    then "" ∷ rest
    else before_first c rest

trimmed : List String → List String
unfolding trim_start trim_end
trimmed [] = []
trimmed (item ∷ more) = trim_start (trim_end item) ∷ trimmed more

-- the columns of the result of a SELECT statement, as its text has them
unfoldable pub selected : String → List String
unfolding behind_select items_before_from trimmed
selected statement = trimmed (items_before_from 0 (behind_select 0 statement))

-- the types of columns: numbers, texts, Boolean values, JSON texts and arrays of access control items
pub data SqlType : Type 0 where
  number characters truth document access_items : SqlType

-- What a reader wants of a type: the number of tuples is 0 where the column holds none.
abbrev pub wanted : Key → SqlType → Column
wanted Key.number_of_tuples SqlType.number = count
wanted key SqlType.truth = boolean
wanted key SqlType.document = json
wanted key SqlType.access_items = items
wanted key _ = text

position : String → List String → ℕ
position name [] = 0
position name (first ∷ names) =
    let rest = position name names in if str_eq first name then 0 else rest + 1

-- where the result has each member, by the name of its column
unfoldable pub located : List String → List (Key × String × SqlType) → List (Key × Column × ℕ)
unfolding position
located names [] = []
located names ((key, name, type) ∷ members) =
    (key, wanted key type, position name names) ∷ located names members

abbrev pub in_tables : List (Key × String × SqlType)
in_tables =
    (Key.format_version, "tbl.format_version", SqlType.number)
    ∷ (Key.generation, "tbl.generation", SqlType.number)
    ∷ (Key.id, "tbl.id", SqlType.number)
    ∷ (Key.name, "tbl.name", SqlType.characters)
    ∷ (Key.namespace, "tbl.namespace", SqlType.characters)
    ∷ (Key.number_of_tuples, "tbl.number_of_tuples", SqlType.number)
    ∷ (Key.owner_role_id, "cls.relowner", SqlType.number)
    ∷ (Key.acl, "cls.relacl", SqlType.access_items)
    ∷ []

abbrev pub in_columns : List (Key × String × SqlType)
in_columns =
    (Key.format_version, "format_version", SqlType.number)
    ∷ (Key.generation, "generation", SqlType.number)
    ∷ (Key.id, "id", SqlType.number)
    ∷ (Key.name, "name", SqlType.characters)
    ∷ (Key.table_id, "table_id", SqlType.number)
    ∷ (Key.column_number, "column_number", SqlType.number)
    ∷ (Key.data_type_id, "data_type_id", SqlType.number)
    ∷ (Key.data_length, "data_length", SqlType.document)
    ∷ (Key.varying, "varying", SqlType.truth)
    ∷ (Key.is_not_null, "is_not_null", SqlType.truth)
    ∷ (Key.default_expr, "default_expression", SqlType.characters)
    ∷ (Key.is_funcexpr, "is_funcexpr", SqlType.truth)
    ∷ []

abbrev pub in_indexes : List (Key × String × SqlType)
in_indexes =
    (Key.format_version, "format_version", SqlType.number)
    ∷ (Key.generation, "generation", SqlType.number)
    ∷ (Key.id, "id", SqlType.number)
    ∷ (Key.name, "name", SqlType.characters)
    ∷ (Key.namespace, "namespace", SqlType.characters)
    ∷ (Key.owner_id, "owner_id", SqlType.number)
    ∷ (Key.acl, "acl", SqlType.characters)
    ∷ (Key.table_id, "table_id", SqlType.number)
    ∷ (Key.access_method, "access_method", SqlType.number)
    ∷ (Key.is_unique, "is_unique", SqlType.truth)
    ∷ (Key.is_primary, "is_primary", SqlType.truth)
    ∷ (Key.number_of_key_columns, "number_of_key_column", SqlType.number)
    ∷ (Key.columns, "columns", SqlType.document)
    ∷ (Key.columns_id, "columns_id", SqlType.document)
    ∷ (Key.options, "options", SqlType.document)
    ∷ []

abbrev pub in_privileges : List (Key × String × SqlType)
in_privileges =
    (Key.select_privilege, "has_table_privilege($1, fgt.table_name, 'SELECT')", SqlType.truth)
    ∷ (Key.insert_privilege, "has_table_privilege($1, fgt.table_name, 'INSERT')", SqlType.truth)
    ∷ (Key.update_privilege, "has_table_privilege($1, fgt.table_name, 'UPDATE')", SqlType.truth)
    ∷ (Key.delete_privilege, "has_table_privilege($1, fgt.table_name, 'DELETE')", SqlType.truth)
    ∷ (Key.truncate_privilege, "has_table_privilege($1, fgt.table_name, 'TRUNCATE')", SqlType.truth)
    ∷ (
      Key.references_privilege, "has_table_privilege($1, fgt.table_name, 'REFERENCES')",
      SqlType.truth,
    )
    ∷ []

abbrev pub in_statistics : List (Key × String × SqlType)
in_statistics =
    (Key.format_version, "sts.format_version", SqlType.number)
    ∷ (Key.generation, "sts.generation", SqlType.number)
    ∷ (Key.id, "sts.id", SqlType.number)
    ∷ (Key.name, "sts.name", SqlType.characters)
    ∷ (Key.table_id, "col.table_id", SqlType.number)
    ∷ (Key.column_number, "col.column_number", SqlType.number)
    ∷ (Key.column_id, "sts.column_id", SqlType.number)
    ∷ (Key.column_name, "col.name column_name", SqlType.characters)
    ∷ (Key.column_statistic, "sts.column_statistic", SqlType.document)
    ∷ []

abbrev pub in_types : List (Key × String × SqlType)
in_types =
    (Key.format_version, "format_version", SqlType.number)
    ∷ (Key.generation, "generation", SqlType.number)
    ∷ (Key.id, "id", SqlType.number)
    ∷ (Key.name, "name", SqlType.characters)
    ∷ (Key.pg_data_type, "pg_data_type", SqlType.number)
    ∷ (Key.pg_data_type_name, "pg_data_type_name", SqlType.characters)
    ∷ (Key.pg_data_type_qualified_name, "pg_data_type_qualified_name", SqlType.characters)
    ∷ []

two_items :
    selected "WITH t AS (SELECT a, b FROM u) SELECT x.a , f(b, c) d FROM t"
    ≡ "x.a" ∷ "f(b, c) d" ∷ []
unfolding selected
two_items = refl
