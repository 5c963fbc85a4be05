-- ===== src/Postgres/Row/Reading.antt =====
-- What a row of a result becomes (src/dao/postgresql, `convert_pgresult_to_ptree` of the DAOs).
use mathlib.Core.Option
use metadata_manager.Prelude.{
  ℕ, String, Bool, true, false, Option, none, some, List, [], ◌∷◌, ◌≡◌, refl, ◌∙◌, sym, ap,
  Bool-cases, inl, inr, ◌&&◌, str_eq, eq_refl, eq_iff, if◌then◌else◌, arith,
}
use metadata_manager.Key.{Key, ◌=?◌, spelling}
use metadata_manager.Platform.{Platform}
use metadata_manager.Libpq.{Libpq}
use metadata_manager.Outcome.{Outcome, ok, undefined, ◌>>=◌}
use metadata_manager.Ptree.{get_child?-put, put}
use metadata_manager.Utility.{split, convert_boolean_expression}
use metadata_manager.Postgres.Params.{json_to_ptree}
use metadata_manager.Postgres.Results.{get_result_value}
use metadata_manager.Postgres.Row.{
  Column, text, boolean, json, count, items, put_column, put_columns, acl_nodes, without_braces,
}

unfoldable pub find_column : String → List (Key × Column × ℕ) → Option (Column × ℕ)
find_column s [] = none
find_column s ((k, column, position) ∷ columns) =
    if str_eq (spelling k) s then some (column, position) else find_column s columns

-- the column of a key, and what becomes of its value
abbrev pub column_of : Key → List (Key × Column × ℕ) → Option (Column × ℕ)
column_of key columns = find_column (spelling key) columns

abbrev pub is_none : {A : Type 0} → Option A → Bool
is_none none = true
is_none (some a) = false

abbrev pub is_some : {A : Type 0} → Option A → Bool
is_some none = false
is_some (some a) = true

-- No key stands twice.
unfoldable pub are_distinct : List (Key × Column × ℕ) → Bool
unfolding find_column
are_distinct [] = true
are_distinct ((k, column, position) ∷ columns) =
    is_none (column_of k columns) && are_distinct columns

none-some : {A : Type 0} {a : A} → none ≡ some a → ⊥
none-some e = absurd cc

is_none_and :
    {A : Type 0} (o : Option A) (b : Bool) → (is_none o && b) ≡ true → (o ≡ none) × (b ≡ true)
is_none_and none b h = (refl, h)
is_none_and (some a) b h = absurd cc

column_of_same :
    (k j : Key) (columns : List (Key × Column × ℕ))
    → (k =? j) ≡ true
    → column_of k columns ≡ column_of j columns
column_of_same k j columns e =
    ap (λ s. find_column s columns) ((eq_iff (spelling k) (spelling j)).0 e)

module _ ⦃P : Platform⦄ where
  open P use {Tree, empty, set_value, get_child?, get_child?-add_child, get_child?-empty}

  -- the node that a value of a column becomes
  unfoldable pub node_of : Column → String → Tree
  unfolding convert_boolean_expression json_to_ptree acl_nodes split without_braces
  node_of text v = set_value v empty
  node_of boolean v = set_value (convert_boolean_expression v) empty
  node_of count v = set_value (if str_eq v "" then "0" else v) empty
  node_of json v = json_to_ptree v
  node_of items v = acl_nodes (split b',' (without_braces v)) empty

  put_fresh :
      (k j : Key) (v : String) (object : Tree)
      → get_child? k object ≡ none
      → get_child? j (put k v object)
        ≡ (if k =? j then some (set_value v empty) else get_child? j object)
  put_fresh k j v object absent = get_child?-put k j v object ∙ rw absent refl

  put_column_lem :
      (column : Column) (k j : Key) (v : String) (object : Tree)
      → get_child? k object ≡ none
      → get_child? j (put_column column k v object)
        ≡ (if k =? j then some (node_of column v) else get_child? j object)
  unfolding put_column node_of
  put_column_lem text k j v object absent = put_fresh k j v object absent
  put_column_lem boolean k j v object absent = put_fresh k j _ object absent
  put_column_lem count k j v object absent = put_fresh k j _ object absent
  put_column_lem json k j v object absent = get_child?-add_child k j _ object absent
  put_column_lem items k j v object absent = get_child?-add_child k j _ object absent

  -- The tree has none of the keys.
  abbrev IsAbsent : List (Key × Column × ℕ) → Tree → Type 0
  IsAbsent columns object =
      (j : Key) (found : Column × ℕ) → column_of j columns ≡ some found → get_child? j object ≡ none

  IsAbsent-head :
      (k : Key) (column : Column) (position : ℕ) (columns : List (Key × Column × ℕ)) (object : Tree)
      → IsAbsent ((k, column, position) ∷ columns) object
      → get_child? k object ≡ none
  unfolding find_column
  IsAbsent-head k column position columns object absent =
      absent k (column, position) (rw (eq_refl (spelling k)) refl)

  IsAbsent-put_column :
      (k : Key) (column : Column) (position : ℕ) (columns : List (Key × Column × ℕ)) (v : String)
      (object : Tree)
      → column_of k columns ≡ none
      → IsAbsent ((k, column, position) ∷ columns) object
      → IsAbsent columns (put_column column k v object)
  unfolding find_column
  IsAbsent-put_column k column position columns v object distinct absent j found e =
      let kept =
        put_column_lem column k j v object
          (IsAbsent-head k column position columns object absent) in
      elim (Bool-cases (k =? j)) [
        | inl same ↦ absurd (none-some (sym distinct ∙ column_of_same k j columns same ∙ e))
        | inr other ↦ kept ∙ rw other (absent j found (rw other e))
      ]

  known_value :
      (o : Option String) (next : String → Outcome Tree) (t : Tree)
      → ((elim o as (λ _. Outcome String) [ none ↦ undefined | some v ↦ ok v ]) >>= next) ≡ ok t
      → (v : String) × (o ≡ some v) × (next v ≡ ok t)
  known_value none next t h = absurd cc
  known_value (some v) next t h = (v, refl, h)

  module _ ⦃L : Libpq⦄ (res : L.Result) (row : ℕ) where
    put_columns-cons :
        (k : Key) (column : Column) (position : ℕ) (columns : List (Key × Column × ℕ))
        (object t : Tree)
        → put_columns ((k, column, position) ∷ columns) res row object ≡ ok t
        → (v : String) × (L.getvalue res row position ≡ some v)
          × (put_columns columns res row (put_column column k v object) ≡ ok t)
    unfolding put_columns get_result_value
    put_columns-cons k column position columns object t h =
        known_value (L.getvalue res row position)
          (λ v. put_columns columns res row (put_column column k v object)) t h

    -- the node that the row has for a column
    abbrev pub node_at : Column × ℕ → Option Tree
    node_at (column, position) = Option.map (node_of column) (L.getvalue res row position)

    -- what the row and the tree have for a key
    abbrev pub child_of : Option (Column × ℕ) → Option Tree → Option Tree
    child_of none kept = kept
    child_of (some found) kept = node_at found

    put_columns_lem :
        (columns : List (Key × Column × ℕ)) (j : Key) (object t : Tree)
        → are_distinct columns ≡ true
        → IsAbsent columns object
        → put_columns columns res row object ≡ ok t
        → get_child? j t ≡ child_of (column_of j columns) (get_child? j object)
    unfolding put_columns find_column are_distinct
    put_columns_lem [] j object t distinct absent h = cc
    put_columns_lem ((k, column, position) ∷ columns) j object t distinct absent h =
        let (v, e, rest) = put_columns-cons k column position columns object t h in
        let (new, others) = is_none_and (column_of k columns) (are_distinct columns) distinct in
        let kept =
          put_column_lem column k j v object
            (IsAbsent-head k column position columns object absent) in
        let ih =
          put_columns_lem columns j (put_column column k v object) t others
            (IsAbsent-put_column k column position columns v object new absent) rest in
        elim (Bool-cases (k =? j)) [
          | inl same ↦
              let gone = sym (column_of_same k j columns same) ∙ new in
              rw same (
                ih
                ∙ ap (λ o. child_of o (get_child? j (put_column column k v object))) gone
                ∙ kept
                ∙ rw same (sym (ap (Option.map (node_of column)) e)))
          | inr other ↦ rw other (ih ∙ ap (child_of (column_of j columns)) (kept ∙ rw other refl))
        ]

    -- The row has a value in every column.
    unfoldable pub has_values : List (Key × Column × ℕ) → Bool
    has_values [] = true
    has_values ((k, column, position) ∷ columns) =
        is_some (L.getvalue res row position) && has_values columns

    put_columns_known :
        (o : Option String) (rest : Bool) (next : String → Outcome Tree)
        → (is_some o && rest) ≡ true
        → ((v : String) → rest ≡ true → (t : Tree) × (next v ≡ ok t))
        → (t : Tree) × (((elim o as (λ _. Outcome String) [ none ↦ undefined | some v ↦ ok v ])
              >>= next)
            ≡ ok t)
    put_columns_known none rest next h go = absurd (ground arith)
    put_columns_known (some v) rest next h go = go v h

    put_columns-ok :
        (columns : List (Key × Column × ℕ)) (object : Tree)
        → has_values columns ≡ true
        → (t : Tree) × (put_columns columns res row object ≡ ok t)
    unfolding put_columns get_result_value has_values
    put_columns-ok [] object h = (object, refl)
    put_columns-ok ((k, column, position) ∷ columns) object h =
        put_columns_known (L.getvalue res row position) (has_values columns)
          (λ v. put_columns columns res row (put_column column k v object)) h
          (λ v rest. put_columns-ok columns (put_column column k v object) rest)

    pub row_lem :
        (columns : List (Key × Column × ℕ))
        → are_distinct columns ≡ true
        → has_values columns ≡ true
        → (t : Tree) × (put_columns columns res row empty ≡ ok t)
          × ((j : Key) → get_child? j t ≡ child_of (column_of j columns) none)
    row_lem columns distinct values =
        let (t, e) = put_columns-ok columns empty values in
        (
          t,
          e,
          λ j.
              put_columns_lem columns j empty t distinct (λ k found f. get_child?-empty k) e
              ∙ ap (child_of (column_of j columns)) (get_child?-empty j),
        )
