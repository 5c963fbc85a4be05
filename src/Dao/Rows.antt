-- ===== src/Dao/Rows.antt =====
-- The loops of `find_metadata_object` and `delete_metadata_object` over the rows of a JSON file
-- (src/dao/json/tables_dao_json.cpp; src/dao/json/index_dao_json.cpp has the same text).
pub mod Deletion
use mathlib.Core.List.{append-nil, append_assoc}
use metadata_manager.Prelude.{
  ℤ, negsuc, String, Bool, true, false, none, some, List, [], ◌∷◌, ◌++◌, ◌≡◌, refl, sym, arith,
  Bool-cases, inl, inr, if◌then◌else◌,
}
use metadata_manager.Key.{Key}
use metadata_manager.Platform.{Platform}
use metadata_manager.Outcome.{Outcome, ok, undefined, ◌>>=◌}
use metadata_manager.Ptree.{value_or, get_int?, push_back, children-push_back}
use metadata_manager.Ptree.Helper.{Keys, is_match}

abbrev pub Rows : Type 0 → Type 0
Rows Tree = List (String × Tree)

module _ ⦃P : Platform⦄ where
  open P use {Tree, children}

  unfoldable pub find_loop : Keys → Rows Tree → Tree → Tree
  find_loop keys [] object = object
  find_loop keys ((_, row) ∷ rows) object =
      find_loop keys rows (if is_match row keys then push_back row object else object)

  unfoldable pub row_id : Tree → ℤ
  row_id row = value_or (negsuc 0) (get_int? Key.id row)

  -- The rows that stay and the identifiers removed. After an erased row the iterator stands at the next
  -- one, and the increment at the end of the body passes that one by; past the end it is undefined.
  unfoldable pub delete_loop : Keys → Rows Tree → Outcome (Rows Tree × List ℤ)
  unfolding row_id
  delete_loop keys [] = ok ([], [])
  delete_loop keys ((n, row) ∷ []) = if is_match row keys then undefined else ok ((n, row) ∷ [], [])
  delete_loop keys ((n, row) ∷ (m, next) ∷ rows) = elim (is_match row keys) [
    | true ↦ elim (delete_loop keys rows) [
      | ok (kept, ids) ↦ ok ((m, next) ∷ kept, row_id row ∷ ids)
      | other ↦ other
    ]
    | false ↦ elim (delete_loop keys ((m, next) ∷ rows)) [
      | ok (kept, ids) ↦ ok ((n, row) ∷ kept, ids)
      | other ↦ other
    ]
  ]

  -- The rows that match, as a selection returns them.
  abbrev pub matching : Keys → Rows Tree → Rows Tree
  matching keys [] = []
  matching keys ((n, row) ∷ rows) =
      if is_match row keys then ("", row) ∷ matching keys rows else matching keys rows

  pub children-find_loop :
      (keys : Keys) (rows : Rows Tree) (object : Tree)
      → children (find_loop keys rows object) ≡ children object ++ matching keys rows
  unfolding find_loop
  children-find_loop keys [] object = sym (append-nil _)
  children-find_loop keys ((n, row) ∷ rows) object = elim (Bool-cases (is_match row keys)) [
    | inl e ↦ rw e (simp (children-find_loop keys rows, children-push_back, append_assoc))
    | inr e ↦ rw e (children-find_loop keys rows object)
  ]
