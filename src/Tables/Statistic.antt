-- ===== src/Tables/Statistic.antt =====
-- The statistics of `Tables` (src/tables.cpp).
pub mod Outcomes
use metadata_manager.Prelude.{
  ℤ, String, to_string, Bool, true, false, ◌||◌, ◌&&◌, Option, none, some, [], ◌∷◌, str_eq,
  is_positive, if◌then◌else◌,
}
use metadata_manager.Key.{Key}
use metadata_manager.Platform.{Platform}
use metadata_manager.ErrorCode.{id_not_found, name_not_found, insufficient_parameters}
use metadata_manager.Outcome.{Outcome, ok, err, thrown, undefined}
use metadata_manager.Action.{Action, pure, fail, lift, ◌>>=◌, ◌>>◌}
use metadata_manager.Ptree.{value_or, get_string?, get_int?, put_int, size}
use metadata_manager.Ptree.Helper.{Keys}
use metadata_manager.Provider.{DbSessionManager, transaction}
use metadata_manager.Provider.Get.{get_table_metadata}
use metadata_manager.Provider.Change.{update_table_metadata}

module _ ⦃P : Platform⦄ where
  open P use {Tree, empty, children}

  -- `tables.front().second`, which does not exist in an empty tree
  unfoldable pub front_row : Tree → Outcome Tree
  front_row tables = elim (children tables) [ [] ↦ undefined | (_, row) ∷ _ ↦ ok row ]

  -- The keys of `set_statistic`. The value is a view of the temporary that `std::to_string` returns, or of the
  -- name in an optional that its block destroys, and is read when the text is gone: C++ says nothing of what is
  -- read, so `read_view` gives it for the text that there was.
  abbrev keyed : Key → Outcome String → Outcome Keys
  keyed key (ok value) = ok ((key, value) ∷ [])
  keyed key (err e) = err e
  keyed key thrown = thrown
  keyed key undefined = undefined

  unfoldable pub statistic_keys : (String → Outcome String) → Tree → Outcome Keys
  statistic_keys read_view object = elim (get_int? Key.id object) [
    | some table_id ↦ keyed Key.id (read_view (to_string table_id))
    | none ↦ keyed Key.name (read_view (value_or "" (get_string? Key.name object)))
  ]

  module _ {S : Type 0} (session : DbSessionManager S) where
    unfoldable pub get_statistic_by_id : ℤ → Action S Tree
    unfolding get_table_metadata front_row ◌>>=◌
    get_statistic_by_id object_id =
        if is_positive object_id
        then (do
          tables ← get_table_metadata session ((Key.id, to_string object_id) ∷ []) empty
          lift (front_row tables))
        else fail id_not_found

    -- The provider fills `object`, and the front is taken of `tables`.
    unfoldable pub get_statistic_by_name : String → Tree → Action S Tree
    unfolding get_table_metadata front_row ◌>>=◌
    get_statistic_by_name table_name object =
        if str_eq table_name "" then fail name_not_found else (do
          get_table_metadata session ((Key.name, table_name) ∷ []) object
          lift (front_row empty))

    abbrev is_some : {A : Type 0} → Option A → Bool
    is_some none = false
    is_some (some a) = true

    unfoldable pub param_check_statistic_update : Tree → Action S (Unit {0})
    param_check_statistic_update object =
        if (is_some (get_string? Key.id object) || is_some (get_string? Key.name object))
          && is_some (get_int? Key.number_of_tuples object)
        then pure tt
        else fail insufficient_parameters

    -- `opt_tuples.get()`, whose presence has been checked
    unfoldable pub with_tuples : Tree → Tree → Outcome Tree
    with_tuples object table = elim (get_int? Key.number_of_tuples object) [
      | none ↦ undefined
      | some tuples ↦ ok (put_int Key.number_of_tuples tuples table)
    ]

    unfoldable pub set_statistic_body : Keys → Tree → Action S (Unit {0})
    unfolding get_table_metadata front_row with_tuples update_table_metadata ◌>>=◌
    set_statistic_body keys object = do
      tables ← get_table_metadata session keys empty
      row ← lift (front_row tables)
      table ← lift (with_tuples object row)
      update_table_metadata session keys table
      pure tt

    unfoldable pub set_statistic : (String → Outcome String) → Tree → Action S (Unit {0})
    unfolding param_check_statistic_update transaction statistic_keys set_statistic_body ◌>>=◌
    set_statistic read_view object = do
      param_check_statistic_update object
      transaction session
          (do keys ← lift (statistic_keys read_view object); set_statistic_body keys object)
