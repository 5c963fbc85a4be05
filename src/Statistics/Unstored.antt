-- ===== src/Statistics/Unstored.antt =====
-- What `Statistics::add` does over the JSON storage, which keeps no statistics (src/statistics.cpp,
-- include/manager/metadata/dao/json/statistics_dao_json.h).
use metadata_manager.Prelude.{
  Bool, true, false, pos, negsuc, ◌≡◌, refl, ◌||◌, ◌⊎◌, inl, inr, is_positive, arith, if◌then◌else◌,
}
use metadata_manager.Key.{Key}
use metadata_manager.Platform.{Platform}
use metadata_manager.ErrorCode.{insufficient_parameters}
use metadata_manager.Outcome.{ok, err}
use metadata_manager.Action.{◌>>=◌, pure, fail}
use metadata_manager.Ptree.{value_or, get_int?, get_string?}
use metadata_manager.Session.{World, commit, save_contents}
use metadata_manager.Dao.Fixed.{statistics_dao}
use metadata_manager.Provider.{init, transaction}
use metadata_manager.Provider.Json.{json_session}
use metadata_manager.Provider.Add.{add_column_statistic}
use metadata_manager.Provider.Transaction.{transaction_lem, ended}
use metadata_manager.Statistics.{is_named, param_check_statistics_add, add}

-- What `param_check_statistics_add` asks for: an identifier of a column, or that of a table with a number or
-- a name of a column.
abbrev pub IsEnough : Bool → Bool → Bool → Bool → Type 0
IsEnough column table number name =
    (column ≡ true) ⊎ ((table ≡ true) × ((number ≡ true) ⊎ (name ≡ true)))

IsEnough-cases :
    {A : Type 0} (accepted refused : A) (column table number name : Bool)
    → (IsEnough column table number name
        × ((if column
              then accepted
              else if table
              then if number || name then accepted else refused
              else refused)
            ≡ accepted))
      ⊎ ((¬ IsEnough column table number name)
          × ((if column
                then accepted
                else if table
                then if number || name then accepted else refused
                else refused)
              ≡ refused))
IsEnough-cases accepted refused true table number name = inl (inl refl, refl)
IsEnough-cases accepted refused false true true name = inl (inr (refl, inl refl), refl)
IsEnough-cases accepted refused false true false true = inl (inr (refl, inr refl), refl)
IsEnough-cases accepted refused false true false false = inr (λ h. ground arith, refl)
IsEnough-cases accepted refused false false number name = inr (λ h. ground arith, refl)

module _ ⦃P : Platform⦄ where
  open P use {Tree}

  abbrev pub IsIdentified : Tree → Type 0
  IsIdentified object =
      IsEnough (is_positive (value_or (pos 0) (get_int? Key.column_id object)))
        (is_positive (value_or (pos 0) (get_int? Key.table_id object)))
        (is_positive (value_or (pos 0) (get_int? Key.column_number object)))
        (is_named (value_or "" (get_string? Key.column_name object)))

  inserted :
      (object : Tree) (w : World)
      → w.locking ≡ false
      → transaction json_session (add_column_statistic json_session object) w
        ≡ (ok (negsuc 0), ended w)
  unfolding add_column_statistic init json_session statistics_dao ◌>>=◌ commit save_contents
  inserted object w free = transaction_lem (add_column_statistic json_session object) w free refl

  -- Outside of a transaction over the JSON storage, `Statistics::add` of an object that identifies a column
  -- succeeds with `INVALID_OBJECT_ID`, changes no file and no identifier, and drops the loaded contents; of another object it
  -- reports insufficient parameters and changes nothing.
  pub add-IsIdentified :
      (object : Tree) (w : World)
      → w.locking ≡ false
      → (IsIdentified object × (add json_session object w ≡ (ok (negsuc 0), ended w)))
        ⊎ ((¬ IsIdentified object) × (add json_session object w ≡ (err insufficient_parameters, w)))
  unfolding add param_check_statistics_add ◌>>=◌
  add-IsIdentified object w free =
      elim (IsEnough-cases (pure {S = World} tt) (fail insufficient_parameters)
        (is_positive (value_or (pos 0) (get_int? Key.column_id object)))
        (is_positive (value_or (pos 0) (get_int? Key.table_id object)))
        (is_positive (value_or (pos 0) (get_int? Key.column_number object)))
        (is_named (value_or "" (get_string? Key.column_name object)))) [
          | inl (enough, accepted) ↦ inl (enough, rw accepted (inserted object w free))
          | inr (lacking, refused) ↦ inr (lacking, rw refused refl)
        ]
