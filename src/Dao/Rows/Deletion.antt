-- ===== src/Dao/Rows/Deletion.antt =====
-- What the loop of `delete_metadata_object` removes (src/dao/json/tables_dao_json.cpp,
-- src/dao/json/index_dao_json.cpp).
use metadata_manager.Prelude.{
  ℤ, String, true, false, List, [], ◌∷◌, ◌++◌, ◌≡◌, refl, All, arith, Bool-cases, inl, inr,
  if◌then◌else◌,
}
use metadata_manager.Platform.{Platform}
use metadata_manager.Outcome.{ok, undefined}
use metadata_manager.Ptree.Helper.{Keys, is_match}
use metadata_manager.Dao.Rows.{Rows, row_id, delete_loop}

module _ ⦃P : Platform⦄ where
  open P use {Tree}

  -- No matching row is followed by a matching one, and the last row does not match.
  abbrev pub IsSpaced : Keys → Rows Tree → Type 0
  IsSpaced keys [] = Unit
  IsSpaced keys ((n, row) ∷ []) = is_match row keys ≡ false
  IsSpaced keys ((n, row) ∷ (m, next) ∷ rows) =
      (is_match row keys ≡ true → is_match next keys ≡ false) × IsSpaced keys ((m, next) ∷ rows)

  -- The rows that do not match, and the identifiers of those that do.
  abbrev pub remaining : Keys → Rows Tree → Rows Tree
  remaining keys [] = []
  remaining keys ((n, row) ∷ rows) =
      if is_match row keys then remaining keys rows else (n, row) ∷ remaining keys rows

  abbrev pub matching_ids : Keys → Rows Tree → List ℤ
  matching_ids keys [] = []
  matching_ids keys ((n, row) ∷ rows) =
      if is_match row keys then row_id row ∷ matching_ids keys rows else matching_ids keys rows

  IsSpaced-tail :
      (keys : Keys) (m : String) (next : Tree) (rows : Rows Tree)
      → IsSpaced keys ((m, next) ∷ rows)
      → IsSpaced keys rows
  IsSpaced-tail keys m next [] h = tt
  IsSpaced-tail keys m next ((n, row) ∷ rows) h = h.1

  -- Where no matching row is followed by a matching one and the last row does not match, exactly
  -- the matching rows are removed, and the others stay in order.
  pub delete_spaced :
      (keys : Keys) (rows : Rows Tree)
      → IsSpaced keys rows
      → delete_loop keys rows ≡ ok (remaining keys rows, matching_ids keys rows)
  unfolding delete_loop
  delete_spaced keys [] h = refl
  delete_spaced keys ((n, row) ∷ []) h = rw h
  delete_spaced keys ((n, row) ∷ (m, next) ∷ rows) h = elim (Bool-cases (is_match row keys)) [
    | inl e ↦ ground (arith, h.0 e, delete_spaced keys rows (IsSpaced-tail keys m next rows h.1))
    | inr e ↦ ground (arith, delete_spaced keys ((m, next) ∷ rows) h.1)
  ]

  -- To remove the last row, where no row before it matches, is undefined.
  pub delete_last :
      (keys : Keys) (rows : Rows Tree) (n : String) (row : Tree)
      → All (λ (r : String × Tree). is_match r.1 keys ≡ false) rows
      → is_match row keys ≡ true
      → delete_loop keys (rows ++ (n, row) ∷ []) ≡ undefined
  unfolding delete_loop
  delete_last keys [] n row h e = rw e
  delete_last keys ((m, first) ∷ []) n row h e = ground arith
  delete_last keys ((m, first) ∷ (l, second) ∷ rows) n row h e =
      ground (arith, delete_last keys ((l, second) ∷ rows) n row h.1 e)

  delete_none :
      (keys : Keys) (rows : Rows Tree)
      → All (λ (r : String × Tree). is_match r.1 keys ≡ false) rows
      → delete_loop keys rows ≡ ok (rows, [])
  unfolding delete_loop
  delete_none keys [] h = refl
  delete_none keys ((m, first) ∷ []) h = ground arith
  delete_none keys ((m, first) ∷ (l, second) ∷ rows) h =
      ground (arith, delete_none keys ((l, second) ∷ rows) h.1)

  -- Of two adjacent rows that match, where no other row does, only the first is removed.
  pub delete_adjacent :
      (keys : Keys) (before after : Rows Tree) (n m : String) (row next : Tree)
      → All (λ (r : String × Tree). is_match r.1 keys ≡ false) before
      → All (λ (r : String × Tree). is_match r.1 keys ≡ false) after
      → is_match row keys ≡ true
      → delete_loop keys (before ++ (n, row) ∷ (m, next) ∷ after)
        ≡ ok (before ++ (m, next) ∷ after, row_id row ∷ [])
  unfolding delete_loop
  delete_adjacent keys [] after n m row next hb ha e = ground (arith, delete_none keys after ha)
  delete_adjacent keys ((l, first) ∷ []) after n m row next hb ha e =
      ground (arith, delete_none keys after ha)
  delete_adjacent keys ((l, first) ∷ (k, second) ∷ before) after n m row next hb ha e =
      ground (arith, delete_adjacent keys ((k, second) ∷ before) after n m row next hb.1 ha e)
