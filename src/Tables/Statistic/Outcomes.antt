-- ===== src/Tables/Statistic/Outcomes.antt =====
-- What the functions of `Tables` on statistics return (src/tables.cpp).
use metadata_manager.Prelude.{
  ℤ, String, to_string, true, false, some, List, length, [], ◌∷◌, ◌≡◌, refl, ap, is_positive,
  str_eq,
}
use metadata_manager.Key.{Key}
use metadata_manager.Platform.{Platform}
use metadata_manager.Outcome.{Outcome, ok, err, thrown, undefined}
use metadata_manager.Action.{pure, lift, continue, ◌>>=◌}
use metadata_manager.Ptree.{get_int?, put_int, size}
use metadata_manager.Ptree.Helper.{Keys}
use metadata_manager.Provider.Change.{update_table_metadata}
use metadata_manager.Provider.{DbSessionManager}
use metadata_manager.Provider.Get.{get_table_metadata}
use metadata_manager.Provider.Found.{HasRows, found_lem}
use metadata_manager.Tables.Statistic.{
  front_row, get_statistic_by_id, get_statistic_by_name, with_tuples, set_statistic_body,
}

module _ ⦃P : Platform⦄ where
  open P use {Tree, empty, children, children-empty}

  front_row-rows :
      (tables : Tree) (rows : List (String × Tree))
      → children tables ≡ rows
      → HasRows (ok tables)
      → (row : Tree) × (front_row tables ≡ ok row)
  unfolding front_row size
  front_row-rows tables [] e h = absurd (h (ap length e))
  front_row-rows tables ((n, row) ∷ rest) e h = (row, rw (front_row, e) refl)

  -- Over any session manager, `get_statistic` of a positive identifier returns the first table that the
  -- provider finds, in the state that the provider leaves.
  pub get_statistic_lem :
      {S : Type 0} (session : DbSessionManager S) (object_id : ℤ) (tables : Tree) (s s' : S)
      → is_positive object_id ≡ true
      → get_table_metadata session ((Key.id, to_string object_id) ∷ []) empty s ≡ (ok tables, s')
      → (row : Tree) × (front_row tables ≡ ok row)
        × (get_statistic_by_id session object_id s ≡ (ok row, s'))
  unfolding get_statistic_by_id ◌>>=◌
  get_statistic_lem session object_id tables s s' positive found =
      let h = (found_lem session ((Key.id, to_string object_id) ∷ []) empty s).0 in
      let (row, e) = front_row-rows tables (children tables) refl (rw found at h) in
      (row, e, rw (positive, found, e) refl)

  front_row-empty : front_row empty ≡ undefined
  unfolding front_row
  front_row-empty = rw (front_row, children-empty) refl

  -- what becomes of the tables that the provider finds for a name
  abbrev pub not_read : Outcome Tree → Outcome Tree
  not_read (ok tables) = undefined
  not_read (err e) = err e
  not_read thrown = thrown
  not_read undefined = undefined

  continue-not_read :
      {S : Type 0} (r : Outcome Tree) (s : S)
      → continue r (λ tables. lift (front_row empty)) s ≡ (not_read r, s)
  continue-not_read (ok tables) s = rw front_row-empty refl
  continue-not_read (err e) s = refl
  continue-not_read thrown s = refl
  continue-not_read undefined s = refl

  -- Over any session manager, `get_statistic` of a name that is not empty leaves the state that the provider
  -- leaves, returns the provider's error where there is one, and has undefined behaviour where the provider
  -- finds the table, since it reads the front of an empty tree.
  pub get_statistic_by_name_lem :
      {S : Type 0} (session : DbSessionManager S) (table_name : String) (object : Tree) (s s' : S)
      (r : Outcome Tree)
      → str_eq table_name "" ≡ false
      → get_table_metadata session ((Key.name, table_name) ∷ []) object s ≡ (r, s')
      → get_statistic_by_name session table_name object s ≡ (not_read r, s')
  unfolding get_statistic_by_name ◌>>=◌
  get_statistic_by_name_lem session table_name object s s' r named found =
      rw (named, found) (continue-not_read r s')

  -- the outcome of an update, without the number of updated rows
  abbrev pub forget : {A : Type 0} → Outcome A → Outcome (Unit {0})
  forget (ok a) = ok tt
  forget (err e) = err e
  forget thrown = thrown
  forget undefined = undefined

  continue-forget :
      {S A : Type 0} (r : Outcome A) (s : S) → continue r (λ a. pure tt) s ≡ (forget r, s)
  continue-forget (ok a) s = refl
  continue-forget (err e) s = refl
  continue-forget thrown s = refl
  continue-forget undefined s = refl

  module _ {S : Type 0} (session : DbSessionManager S) (keys : Keys) where
    with_tuples-some :
        (object row : Tree) (tuples : ℤ)
        → get_int? Key.number_of_tuples object ≡ some tuples
        → with_tuples session object row ≡ ok (put_int Key.number_of_tuples tuples row)
    unfolding with_tuples
    with_tuples-some object row tuples given = rw (with_tuples, given) refl

    -- Over any session manager, where the provider finds tables by the keys, the body of the transaction of
    -- `set_statistic` updates by the same keys with the first of these tables, which there is, in which only the
    -- number of tuples is set to that of the object, and ends as this update does.
    pub set_statistic_lem :
        (object tables : Tree) (tuples : ℤ) (s s' : S)
        → get_table_metadata session keys empty s ≡ (ok tables, s')
        → get_int? Key.number_of_tuples object ≡ some tuples
        → (row : Tree) × (front_row tables ≡ ok row)
          × (set_statistic_body session keys object s ≡ (
            forget
                (update_table_metadata session keys (put_int Key.number_of_tuples tuples row) s').0,
            (update_table_metadata session keys (put_int Key.number_of_tuples tuples row) s').1,
          ))
    unfolding set_statistic_body ◌>>=◌
    set_statistic_lem object tables tuples s s' found given =
        let h = (found_lem session keys empty s).0 in
        let (row, e) = front_row-rows tables (children tables) refl (rw found at h) in
        let updated =
          update_table_metadata session keys (put_int Key.number_of_tuples tuples row) s' in
        (
          row,
          e,
          rw (found, e, with_tuples-some object row tuples given)
              (continue-forget updated.0 updated.1),
        )
