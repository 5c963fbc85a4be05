-- ===== src/Statistics.antt =====
-- The class `Statistics` of src/statistics.cpp. A result that an out parameter holds is returned. Keys
-- stand in the order of their spelling, which is that of `std::map`.
pub mod Atomic
pub mod Unstored
use metadata_manager.Prelude.{
  ℤ, pos, String, Bool, not, ◌&&◌, ◌||◌, to_string, List, [], ◌∷◌, str_eq, is_positive,
  if◌then◌else◌,
}
use metadata_manager.Key.{Key}
use metadata_manager.Platform.{Platform}
use metadata_manager.ErrorCode.{
  ErrorCode, not_found, id_not_found, name_not_found, insufficient_parameters,
}
use metadata_manager.Action.{Action, pure, fail, recover, ◌>>=◌, ◌>>◌}
use metadata_manager.Ptree.{value_or, get_int?, get_string?}
use metadata_manager.Ptree.Helper.{Keys, array_to_vector}
use metadata_manager.Provider.{DbSessionManager, transaction, is_no_rows}
use metadata_manager.Provider.Add.{add_column_statistic}
use metadata_manager.Provider.Get.{get_column_statistic, only_row}
use metadata_manager.Provider.Change.{remove_column_statistics}
use metadata_manager.Indexes.{front}

abbrev pub is_named : String → Bool
is_named name = not (str_eq name "")

-- the keys of each form
abbrev pub by_id : ℤ → Keys
by_id object_id = (Key.id, to_string object_id) ∷ []

abbrev pub by_table_id : ℤ → Keys
by_table_id table_id = (Key.table_id, to_string table_id) ∷ []

abbrev pub by_column_id : ℤ → Keys
by_column_id column_id = (Key.column_id, to_string column_id) ∷ []

abbrev pub by_column_number : ℤ → ℤ → Keys
by_column_number table_id ordinal_position =
    (Key.column_number, to_string ordinal_position) ∷ (Key.table_id, to_string table_id) ∷ []

abbrev pub by_column_name : ℤ → String → Keys
by_column_name table_id column_name =
    (Key.column_name, column_name) ∷ (Key.table_id, to_string table_id) ∷ []

module _ ⦃P : Platform⦄ {S : Type 0} (session : DbSessionManager S) where
  open P use {Tree, empty}

  unfoldable pub param_check_statistics_add : Tree → Action S (Unit {0})
  param_check_statistics_add object =
      let specified_column_id = is_positive (value_or (pos 0) (get_int? Key.column_id object)) in
      let specified_table_id = is_positive (value_or (pos 0) (get_int? Key.table_id object)) in
      let specified_ordinal_position =
        is_positive (value_or (pos 0) (get_int? Key.column_number object)) in
      let specified_column_name = is_named (value_or "" (get_string? Key.column_name object)) in
      if specified_column_id
      then pure tt
      else if specified_table_id
      then if specified_ordinal_position || specified_column_name
        then pure tt
        else fail insufficient_parameters
      else fail insufficient_parameters

  unfoldable pub add : Tree → Action S ℤ
  unfolding param_check_statistics_add transaction add_column_statistic ◌>>=◌
  add object = do
    param_check_statistics_add object
    transaction session (add_column_statistic session object)

  -- The retrieval of one statistic, where the arguments pass the test; `error` where they do not.
  unfoldable get_one : Bool → ErrorCode → Keys → Action S Tree
  unfolding get_column_statistic only_row ◌>>=◌
  get_one passed error keys =
      if passed
      then (do tmp_object ← get_column_statistic session keys empty; only_row session tmp_object)
      else fail error

  unfoldable pub get_by_id : ℤ → Action S Tree
  unfolding get_one
  get_by_id object_id = get_one (is_positive object_id) id_not_found (by_id object_id)

  unfoldable pub get_by_name : String → Action S Tree
  unfolding get_one
  get_by_name object_name =
      get_one (is_named object_name) name_not_found ((Key.name, object_name) ∷ [])

  unfoldable pub get_by_column_id : ℤ → Action S Tree
  unfolding get_one
  get_by_column_id column_id = get_one (is_positive column_id) not_found (by_column_id column_id)

  unfoldable pub get_by_column_number : ℤ → ℤ → Action S Tree
  unfolding get_one
  get_by_column_number table_id ordinal_position =
      get_one (is_positive table_id && is_positive ordinal_position) not_found
        (by_column_number table_id ordinal_position)

  unfoldable pub get_by_column_name : ℤ → String → Action S Tree
  unfolding get_one
  get_by_column_name table_id column_name =
      get_one (is_positive table_id && is_named column_name) not_found
        (by_column_name table_id column_name)

  -- `objects` is what the vector held, which stays where there is no statistic.
  unfoldable pub get_all : List Tree → Action S (List Tree)
  unfolding get_column_statistic array_to_vector ◌>>=◌
  get_all objects =
      recover is_no_rows objects
        (do tmp_object ← get_column_statistic session [] empty; pure (array_to_vector tmp_object))

  unfoldable pub get_all_by_table_id : ℤ → Action S (List Tree)
  unfolding get_column_statistic array_to_vector ◌>>=◌
  get_all_by_table_id table_id =
      if is_positive table_id
      then (do
        tmp_object ← get_column_statistic session (by_table_id table_id) empty
        pure (array_to_vector tmp_object))
      else fail not_found

  -- The removal of statistics in a transaction, where the arguments pass the test.
  unfoldable pub remove_all : Bool → ErrorCode → Keys → Action S (List ℤ)
  unfolding transaction remove_column_statistics
  remove_all passed error keys =
      if passed then transaction session (remove_column_statistics session keys) else fail error

  unfoldable pub remove_by_id : ℤ → Action S (List ℤ)
  unfolding remove_all
  remove_by_id object_id = remove_all (is_positive object_id) id_not_found (by_id object_id)

  unfoldable pub remove_by_name : String → Action S ℤ
  unfolding remove_all front ◌>>=◌
  remove_by_name object_name = do
    removed_ids ← remove_all (is_named object_name) name_not_found ((Key.name, object_name) ∷ [])
    front session removed_ids

  unfoldable pub remove_by_table_id : ℤ → Action S (List ℤ)
  unfolding remove_all
  remove_by_table_id table_id = remove_all (is_positive table_id) not_found (by_table_id table_id)

  unfoldable pub remove_by_column_id : ℤ → Action S (List ℤ)
  unfolding remove_all
  remove_by_column_id column_id =
      remove_all (is_positive column_id) not_found (by_column_id column_id)

  unfoldable pub remove_by_column_number : ℤ → ℤ → Action S (List ℤ)
  unfolding remove_all
  remove_by_column_number table_id ordinal_position =
      remove_all (is_positive table_id && is_positive ordinal_position) not_found
        (by_column_number table_id ordinal_position)

  unfoldable pub remove_by_column_name : ℤ → String → Action S (List ℤ)
  unfolding remove_all
  remove_by_column_name table_id column_name =
      remove_all (is_positive table_id && is_named column_name) not_found
        (by_column_name table_id column_name)
