-- ===== src/Dao/Tables/Distinct.antt =====
-- The names of tables stay distinct (`TablesDaoJson::insert` of src/dao/json/tables_dao_json.cpp).
use mathlib.Core.Path.{subst}
use metadata_manager.Prelude.{
  ℤ, String, true, false, Bool-cases, inl, inr, ◌⊎◌, some, List, [], ◌∷◌, ◌++◌, ◌≡◌, refl, sym,
  arith, str_eq, eq_iff,
}
use metadata_manager.Key.{Key}
use metadata_manager.Platform.{Platform}
use metadata_manager.Ptree.{get_string?, put_laws}
use metadata_manager.Ptree.Helper.{is_match, value_to_string}
use metadata_manager.ObjectId
use metadata_manager.Outcome.{ok}
use metadata_manager.Session.{World, load_contents}
use metadata_manager.Session.Cache.{load-load}
use metadata_manager.Dao.Rows.{Rows, matching}
use metadata_manager.Dao.Tables.{tables_database, insert, new_row, managed}
use metadata_manager.Dao.Tables.Insertion.{insert_lem, insert_duplicate, stored_rows, rows_lem}

rows_cases : {A : Type 0} (l : List A) → (l ≡ []) ⊎ ((x : A) × (xs : List A) × (l ≡ x ∷ xs))
rows_cases [] = inl refl
rows_cases (x ∷ xs) = inr (x, xs, refl)

module _ ⦃P : Platform⦄ where
  open P use {Tree, children, get_child?}

  -- No row has the name of a row before it.
  abbrev pub HasDistinctNames : Rows Tree → Type 0
  HasDistinctNames [] = Unit
  HasDistinctNames ((n, row) ∷ rows) =
      (matching ((Key.name, value_to_string Key.name row) ∷ []) rows ≡ []) × HasDistinctNames rows

  is_match_name :
      (row : Tree) (v : String)
      → is_match row ((Key.name, v) ∷ []) ≡ str_eq (value_to_string Key.name row) v
  unfolding is_match
  is_match_name row v = elim (Bool-cases (str_eq (value_to_string Key.name row) v)) [
    | inl e ↦ ground arith
    | inr e ↦ ground arith
  ]

  head_other :
      (v n : String) (row : Tree) (rows : Rows Tree)
      → matching ((Key.name, v) ∷ []) ((n, row) ∷ rows) ≡ []
      → (is_match row ((Key.name, v) ∷ []) ≡ false) × (matching ((Key.name, v) ∷ []) rows ≡ [])
  head_other v n row rows h = elim (Bool-cases (is_match row ((Key.name, v) ∷ []))) [
    | inl e ↦ absurd (ground arith)
    | inr e ↦ (e, ground arith)
  ]

  -- None of the rows has the name `v`, and the row behind them has another one.
  none_appended :
      (v : String) (rows : Rows Tree) (last : Tree)
      → matching ((Key.name, v) ∷ []) rows ≡ []
      → str_eq (value_to_string Key.name last) v ≡ false
      → matching ((Key.name, v) ∷ []) (rows ++ ("", last) ∷ []) ≡ []
  none_appended v [] last none_before other = ground (arith, is_match_name last v)
  none_appended v ((n, row) ∷ rows) last none_before other =
      let (differs, rest) = head_other v n row rows none_before in
      rw differs (none_appended v rows last rest other)

  HasDistinctNames-append :
      (v : String) (rows : Rows Tree) (last : Tree)
      → HasDistinctNames rows
      → matching ((Key.name, v) ∷ []) rows ≡ []
      → value_to_string Key.name last ≡ v
      → HasDistinctNames (rows ++ ("", last) ∷ [])
  HasDistinctNames-append v [] last h none_before named = (refl, tt)
  HasDistinctNames-append v ((n, row) ∷ rows) last h none_before named =
      let (differs, rest) = head_other v n row rows none_before in
      (
        none_appended (value_to_string Key.name row) rows last h.0 (
            ground (
              arith,
              is_match_name row v,
              eq_iff (value_to_string Key.name last) (value_to_string Key.name row),
              eq_iff (value_to_string Key.name row) v,
            )),
        HasDistinctNames-append v rows last h.1 rest named,
      )

  name-new_row :
      (g : ℤ) (object : Tree) (name_value : String)
      → get_string? Key.name object ≡ some name_value
      → value_to_string Key.name (new_row g object) ≡ name_value
  unfolding value_to_string new_row managed
  name-new_row g object name_value named = simp (put_laws, named)

  -- In a transaction in which the tables can be loaded, with their root node, if the names are distinct, then
  -- they are distinct after the insertion of an object with a name, whether that is added or refused.
  pub insert-HasDistinctNames :
      (object : Tree) (object_id : ℤ) (name_value : String) (w w' : World) (contents node : Tree)
      → w.locking ≡ true
      → load_contents tables_database Key.tables w ≡ (ok contents, w')
      → get_child? Key.tables contents ≡ some node
      → get_string? Key.name object ≡ some name_value
      → HasDistinctNames (children node)
      → HasDistinctNames
          (stored_rows (load_contents tables_database Key.tables (insert object object_id w).1).0)
  insert-HasDistinctNames object object_id name_value w w' contents node locked loaded root named
        distinct =
      elim (rows_cases (matching ((Key.name, name_value) ∷ []) (children node))) [
        | inl fresh ↦
            let added =
              insert_lem object object_id name_value w w' contents node locked loaded root named
                fresh in
            subst HasDistinctNames (sym added.1) (
              HasDistinctNames-append name_value (children node) _ distinct fresh
                (name-new_row (ObjectId.generate Key.global w'.oids).0 object name_value named))
        | inr ((n, first), rest, same) ↦
            let refused =
              insert_duplicate object object_id name_value w w' contents node first n rest loaded
                root named same in
            rw refused (
              rw (load-load tables_database Key.tables contents w w' locked loaded)
                (subst HasDistinctNames (sym (rows_lem contents node root)) distinct))
      ]
