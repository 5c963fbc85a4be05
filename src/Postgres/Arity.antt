-- ===== src/Postgres/Arity.antt =====
-- The parameters that the DAOs for PostgreSQL give to a statement are as many as its placeholders
-- (src/dao/postgresql, the insertions and updates of the DAOs).
use Prim.Native.Char.{Char, code}
use Prim.Native.Nat.{max}
use metadata_manager.Prelude.{
  ℕ, ◌+◌, ◌*◌, String, Option, none, some, List, [], ◌∷◌, length, ◌≡◌, ◌==◌, refl, if◌then◌else◌,
  str_eq, Bool-cases, inl, inr,
}
use metadata_manager.Prelude.Text.{digit_value}
use metadata_manager.Key.{Key}
use metadata_manager.Platform.{Platform}
use metadata_manager.Libpq.{Libpq}
use metadata_manager.Ptree.{value_or}
use metadata_manager.Keeping.{Ensures, Ensures-ok, Ensures-bind}
use metadata_manager.Ptree.Helper.{value_to_string, int_value_to_string}
use metadata_manager.Postgres.{Statement, Statements, default_key, find_statement}
use metadata_manager.Postgres.Prepared.{create_prepared_statements}
use metadata_manager.Postgres.Params.{format_version, generation}
use metadata_manager.Postgres.Tables
use metadata_manager.Postgres.Columns
use metadata_manager.Postgres.Constraints
use metadata_manager.Postgres.Indexes
use metadata_manager.Postgres.Statistics

-- Where a text is read: the number that has begun at a dollar sign, and the same behind another character.
abbrev within : Option ℕ → Char → Option ℕ
within none c = if code c == b'$' then some 0 else none
within (some n) c = elim (digit_value c) [
  | none ↦ if code c == b'$' then some 0 else none
  | some d ↦ some (10 * n + d)
]

-- the greatest number of a parameter, `$1`, `$2` and so on, in the text of a statement
unfoldable highest : Option ℕ → ℕ → String → ℕ
unfolding digit_value
highest state best String.[] = max best (value_or 0 state)
highest state best (String.◌∷◌ c s) = highest (within state c) (max best (value_or 0 state)) s

unfoldable pub placeholders : String → ℕ
unfolding highest
placeholders statement = highest none 0 statement

-- The key has a statement, whose placeholders have the numbers of the parameters.
abbrev pub IsFitting : Statements → String → List (Option String) → Type 0
IsFitting statements key params =
    (s : Statement) × (find_statement key statements ≡ some s)
    × (length params ≡ placeholders s.statement)

-- the keys by which an object is updated
pub data IsUpdateKey : String → Type 0 where
  by_id : IsUpdateKey "id"
  by_name : IsUpdateKey "name"

module _ ⦃P : Platform⦄ ⦃L : Libpq⦄ where
  open P use {Tree}

  tables_fit :
      (h : Option ℕ) (object : Tree)
      → IsFitting (Tables.Access.make h).insert_statements default_key (Tables.insert_params object)
  unfolding create_prepared_statements find_statement placeholders Tables.insert_params
      Tables.get_insert_statement
  tables_fit h object = (_, refl, refl)

  columns_given :
      (h : Option ℕ) (object : Tree) (p1 p2 p3 p4 p5 p6 p7 p8 p9 : Option String)
      → IsFitting (Columns.Access.make h).insert_statements (Columns.Access.insert_key object) (
          some format_version
          ∷ some generation
          ∷ Columns.given_id object (p1 ∷ p2 ∷ p3 ∷ p4 ∷ p5 ∷ p6 ∷ p7 ∷ p8 ∷ p9 ∷ []))
  unfolding create_prepared_statements find_statement placeholders Columns.Access.make
      Columns.get_insert_statement Columns.get_insert_statement_id
  columns_given h object p1 p2 p3 p4 p5 p6 p7 p8 p9 =
      elim (Bool-cases (str_eq (int_value_to_string Key.id object) "")) [
        | inl e ↦ rw e (_, refl, refl)
        | inr e ↦ rw e (_, refl, refl)
      ]

  columns_fit :
      (h : Option ℕ) (object : Tree)
      → Ensures
          (IsFitting (Columns.Access.make h).insert_statements (Columns.Access.insert_key object))
          (Columns.insert_params object)
  unfolding Columns.insert_params
  columns_fit h object = search (Ensures-bind, Ensures-ok, columns_given) depth 8

  constraints_given :
      (h : Option ℕ) (object : Tree) (p1 p2 p3 p4 p5 p6 p7 p8 p9 p10 p11 p12 p13 : Option String)
      → IsFitting
          (Constraints.Access.make h).insert_statements
          (Constraints.Access.insert_key object)
          (some format_version
            ∷ some generation
            ∷ Columns.given_id object
                (p1 ∷ p2 ∷ p3 ∷ p4 ∷ p5 ∷ p6 ∷ p7 ∷ p8 ∷ p9 ∷ p10 ∷ p11 ∷ p12 ∷ p13 ∷ []))
  unfolding create_prepared_statements find_statement placeholders Constraints.Access.make
      Constraints.get_insert_statement Constraints.get_insert_statement_id
  constraints_given h object p1 p2 p3 p4 p5 p6 p7 p8 p9 p10 p11 p12 p13 =
      elim (Bool-cases (str_eq (int_value_to_string Key.id object) "")) [
        | inl e ↦ rw e (_, refl, refl)
        | inr e ↦ rw e (_, refl, refl)
      ]

  constraints_fit :
      (h : Option ℕ) (object : Tree)
      → Ensures
          (IsFitting
            (Constraints.Access.make h).insert_statements
            (Constraints.Access.insert_key object))
          (Constraints.insert_params object)
  unfolding Constraints.insert_params
  constraints_fit h object = search (Ensures-bind, Ensures-ok, constraints_given) depth 8

  indexes_given :
      (h : Option ℕ) (p1 p2 p3 p4 p5 p6 p7 p8 p9 p10 p11 p12 p13 p14 : Option String)
      → IsFitting
          (Indexes.Access.make h).insert_statements
          default_key
          (p1 ∷ p2 ∷ p3 ∷ p4 ∷ p5 ∷ p6 ∷ p7 ∷ p8 ∷ p9 ∷ p10 ∷ p11 ∷ p12 ∷ p13 ∷ p14 ∷ [])
  unfolding create_prepared_statements find_statement placeholders Indexes.Access.make
      Indexes.get_insert_statement
  indexes_given h p1 p2 p3 p4 p5 p6 p7 p8 p9 p10 p11 p12 p13 p14 = (_, refl, refl)

  indexes_fit :
      (h : Option ℕ) (object : Tree)
      → Ensures
          (IsFitting (Indexes.Access.make h).insert_statements default_key)
          (Indexes.insert_params object)
  unfolding Indexes.insert_params
  indexes_fit h object = search (Ensures-bind, Ensures-ok, indexes_given) depth 8

  statistics_fit :
      (h : Option ℕ) (object : Tree)
      → IsFitting
          (Statistics.Access.make h).insert_statements
          (Statistics.insert_key object)
          (Statistics.insert_params object)
  unfolding create_prepared_statements find_statement placeholders Statistics.Access.make
      Statistics.insert_params Statistics.insert_key Statistics.column_params
      Statistics.get_insert_statement Statistics.get_insert_statement_columns
  statistics_fit h object = elim (Bool-cases (str_eq (value_to_string Key.column_id object) "")) [
    | inl e ↦ elim (Bool-cases (str_eq (int_value_to_string Key.column_number object) "")) [
      | inl f ↦ rw (e, f) (_, refl, refl)
      | inr f ↦ rw (e, f) (_, refl, refl)
    ]
    | inr e ↦ rw e (_, refl, refl)
  ]

  -- Every insertion finds its statement, and gives it as many parameters as the greatest number
  -- of a placeholder in its text.
  pub inserts_fit :
      (h : Option ℕ) (object : Tree)
      → IsFitting (Tables.Access.make h).insert_statements default_key (Tables.insert_params object)
        × Ensures
            (IsFitting (Columns.Access.make h).insert_statements (Columns.Access.insert_key object))
            (Columns.insert_params object)
        × Ensures
            (IsFitting
              (Constraints.Access.make h).insert_statements
              (Constraints.Access.insert_key object))
            (Constraints.insert_params object)
        × Ensures
            (IsFitting (Indexes.Access.make h).insert_statements default_key)
            (Indexes.insert_params object)
        × IsFitting
            (Statistics.Access.make h).insert_statements
            (Statistics.insert_key object)
            (Statistics.insert_params object)
  inserts_fit h object = (
    tables_fit h object,
    columns_fit h object,
    constraints_fit h object,
    indexes_fit h object,
    statistics_fit h object,
  )

  indexes_changed :
      (h : Option ℕ) (key : String) (p1 p2 p3 p4 p5 p6 p7 p8 p9 p10 p11 p12 p13 : Option String)
      → IsUpdateKey key
      → IsFitting
          (Indexes.Access.make h).update_statements
          key
          (p1 ∷ p2 ∷ p3 ∷ p4 ∷ p5 ∷ p6 ∷ p7 ∷ p8 ∷ p9 ∷ p10 ∷ p11 ∷ p12 ∷ p13 ∷ [])
  unfolding create_prepared_statements find_statement placeholders Indexes.Access.make
      Indexes.get_update_statement
  indexes_changed h _ p1 p2 p3 p4 p5 p6 p7 p8 p9 p10 p11 p12 p13 by_id = (_, refl, refl)
  indexes_changed h _ p1 p2 p3 p4 p5 p6 p7 p8 p9 p10 p11 p12 p13 by_name = (_, refl, refl)

  indexes_update_fit :
      (h : Option ℕ) (object : Tree) (key value : String)
      → IsUpdateKey key
      → Ensures
          (IsFitting (Indexes.Access.make h).update_statements key)
          (Indexes.update_params object value)
  unfolding Indexes.update_params
  indexes_update_fit h object key value k =
      search (Ensures-bind, Ensures-ok, indexes_changed) depth 8

  tables_update_fit :
      (h : Option ℕ) (object : Tree) (key value : String)
      → IsUpdateKey key
      → IsFitting (Tables.Access.make h).update_statements key (Tables.update_params object value)
  unfolding create_prepared_statements find_statement placeholders Tables.update_params
      Tables.get_update_statement
  tables_update_fit h object _ value by_id = (_, refl, refl)
  tables_update_fit h object _ value by_name = (_, refl, refl)

  -- Every update by identifier or by name finds its statement, and gives it as many parameters as the greatest
  -- number of a placeholder in its text.
  pub updates_fit :
      (h : Option ℕ) (object : Tree) (key value : String)
      → IsUpdateKey key
      → IsFitting (Tables.Access.make h).update_statements key (Tables.update_params object value)
        × Ensures
            (IsFitting (Indexes.Access.make h).update_statements key)
            (Indexes.update_params object value)
  updates_fit h object key value k =
      (tables_update_fit h object key value k, indexes_update_fit h object key value k)
