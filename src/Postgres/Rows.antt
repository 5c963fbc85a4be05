-- ===== src/Postgres/Rows.antt =====
-- What the rows of all the DAOs become (src/dao/postgresql/*_dao_pg.cpp, `convert_pgresult_to_ptree`).
use mathlib.Core.Path.{subst}
use metadata_manager.Prelude.{ℕ, String, true, none, List, ◌≡◌, refl, sym}
use metadata_manager.Key.{Key}
use metadata_manager.Platform.{Platform}
use metadata_manager.Libpq.{Libpq}
use metadata_manager.Outcome.{Outcome, ok}
use metadata_manager.Postgres.Row.{Column, put_columns}
use metadata_manager.Postgres.Row.Reading.{
  find_column, column_of, are_distinct, has_values, child_of, row_lem,
}
use metadata_manager.Postgres.Catalog.{
  SqlType, selected, located, in_tables, in_columns, in_indexes, in_privileges, in_statistics,
  in_types,
}
use metadata_manager.Postgres.Tables
use metadata_manager.Postgres.Columns
use metadata_manager.Postgres.Indexes
use metadata_manager.Postgres.Privileges
use metadata_manager.Postgres.Statistics
use metadata_manager.Postgres.DataTypes

-- the classes whose rows are converted from an empty tree, but constraints, whose name is put twice
pub data RowClass : Type 0 where
  tables columns indexes privileges statistics types : RowClass

abbrev pub fields_of : RowClass → List (Key × Column × ℕ)
fields_of RowClass.tables = Tables.fields
fields_of RowClass.columns = Columns.fields
fields_of RowClass.indexes = Indexes.fields
fields_of RowClass.privileges = Privileges.fields
fields_of RowClass.statistics = Statistics.fields
fields_of RowClass.types = DataTypes.fields

-- the statement that selects the rows of a class by a key
abbrev pub statement_of : RowClass → String → String
statement_of RowClass.tables key = Tables.get_select_statement key
statement_of RowClass.columns key = Columns.get_select_statement key
statement_of RowClass.indexes key = Indexes.get_select_statement key
statement_of RowClass.privileges key = Privileges.get_select_statement key
statement_of RowClass.statistics key = Statistics.get_select_statement key
statement_of RowClass.types key = DataTypes.get_select_statement key

abbrev pub members_of : RowClass → List (Key × String × SqlType)
members_of RowClass.tables = in_tables
members_of RowClass.columns = in_columns
members_of RowClass.indexes = in_indexes
members_of RowClass.privileges = in_privileges
members_of RowClass.statistics = in_statistics
members_of RowClass.types = in_types

-- where the text of the statement and the types of the catalog have the members of a class
abbrev pub catalog_of : RowClass → List (Key × Column × ℕ)
catalog_of c = located (selected (statement_of c "id")) (members_of c)

fields_of-catalog_of : (c : RowClass) → catalog_of c ≡ fields_of c
unfolding located selected Tables.get_select_statement Columns.get_select_statement
    Indexes.get_select_statement Privileges.get_select_statement Statistics.get_select_statement
    DataTypes.get_select_statement
fields_of-catalog_of RowClass.tables = refl
fields_of-catalog_of RowClass.columns = refl
fields_of-catalog_of RowClass.indexes = refl
fields_of-catalog_of RowClass.privileges = refl
fields_of-catalog_of RowClass.statistics = refl
fields_of-catalog_of RowClass.types = refl

fields_of-are_distinct : (c : RowClass) → are_distinct (fields_of c) ≡ true
unfolding are_distinct find_column
fields_of-are_distinct RowClass.tables = refl
fields_of-are_distinct RowClass.columns = refl
fields_of-are_distinct RowClass.indexes = refl
fields_of-are_distinct RowClass.privileges = refl
fields_of-are_distinct RowClass.statistics = refl
fields_of-are_distinct RowClass.types = refl

module _ ⦃P : Platform⦄ ⦃L : Libpq⦄ where
  open P use {Tree, empty, get_child?}

  abbrev pub convert : RowClass → L.Result → ℕ → Outcome Tree
  convert RowClass.tables res row = Tables.convert_pgresult_to_ptree res row
  convert RowClass.columns res row = Columns.convert_pgresult_to_ptree res row
  convert RowClass.indexes res row = Indexes.convert_pgresult_to_ptree res row
  convert RowClass.privileges res row = Privileges.convert_pgresult_to_ptree res row
  convert RowClass.statistics res row = Statistics.convert_pgresult_to_ptree res row
  convert RowClass.types res row = DataTypes.convert_pgresult_to_ptree res row

  convert-put_columns :
      (c : RowClass) (res : L.Result) (row : ℕ)
      → convert c res row ≡ put_columns (fields_of c) res row empty
  unfolding Tables.convert_pgresult_to_ptree Columns.convert_pgresult_to_ptree
      Indexes.convert_pgresult_to_ptree Privileges.convert_pgresult_to_ptree
      Statistics.convert_pgresult_to_ptree DataTypes.convert_pgresult_to_ptree
  convert-put_columns RowClass.tables res row = refl
  convert-put_columns RowClass.columns res row = refl
  convert-put_columns RowClass.indexes res row = refl
  convert-put_columns RowClass.privileges res row = refl
  convert-put_columns RowClass.statistics res row = refl
  convert-put_columns RowClass.types res row = refl

  converted_lem :
      (c : RowClass) (res : L.Result) (row : ℕ)
      → has_values res row (fields_of c) ≡ true
      → (t : Tree) × (convert c res row ≡ ok t)
        × ((j : Key) → get_child? j t ≡ child_of res row (column_of j (fields_of c)) none)
  converted_lem c res row values =
      rw (convert-put_columns c res row)
        (row_lem res row (fields_of c) (fields_of-are_distinct c) values)

  -- For each class of rows but constraints and roles: where a row of the class's selection has a value in every
  -- column that the members of the class need, the conversion gives a tree, whose child of a member is made of
  -- the value in the column that the text of the SELECT statement lists for the member, by the SQL type of that
  -- column: the text of a number or a text, with 0 for an empty number of tuples, the converted Boolean, the
  -- parsed JSON text or the array of access control items. The tree has no child for any other key.
  pub convert_lem :
      (c : RowClass) (res : L.Result) (row : ℕ)
      → has_values res row (catalog_of c) ≡ true
      → (t : Tree) × (convert c res row ≡ ok t)
        × ((j : Key) → get_child? j t ≡ child_of res row (column_of j (catalog_of c)) none)
  convert_lem c res row values =
      subst
        (λ columns.
          has_values res row columns ≡ true
          → (t : Tree) × (convert c res row ≡ ok t)
            × ((j : Key) → get_child? j t ≡ child_of res row (column_of j columns) none))
        (sym (fields_of-catalog_of c)) (converted_lem c res row) values
