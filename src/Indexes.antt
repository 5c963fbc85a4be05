-- ===== src/Indexes.antt =====
-- The class `Indexes` of src/indexes.cpp. A result that an out parameter holds is returned.
pub mod Atomic
use metadata_manager.Prelude.{
  ℕ, ℤ, pos, String, to_string, List, [], ◌∷◌, str_eq, is_positive, if◌then◌else◌,
}
use metadata_manager.Key.{Key}
use metadata_manager.Platform.{Platform}
use metadata_manager.ErrorCode.{id_not_found, name_not_found, insufficient_parameters}
use metadata_manager.Outcome.{undefined}
use metadata_manager.Action.{Action, pure, fail, lift, recover, ◌>>=◌, ◌>>◌}
use metadata_manager.Ptree.{value_or, get_int?}
use metadata_manager.Ptree.Helper.{array_to_vector}
use metadata_manager.Provider.{DbSessionManager, transaction, is_no_rows}
use metadata_manager.Provider.Add.{add_index_metadata}
use metadata_manager.Provider.Get.{get_index_metadata, only_row}
use metadata_manager.Provider.Change.{update_index_metadata, remove_index_metadata}

module _ ⦃P : Platform⦄ {S : Type 0} (session : DbSessionManager S) where
  open P use {Tree, empty}

  unfoldable pub param_check_metadata_add : Tree → Action S (Unit {0})
  param_check_metadata_add object =
      if is_positive (value_or (pos 0) (get_int? Key.table_id object))
      then pure tt
      else fail insufficient_parameters

  unfoldable pub add : Tree → Action S ℤ
  unfolding param_check_metadata_add transaction add_index_metadata ◌>>=◌
  add object = do
    param_check_metadata_add object
    transaction session (add_index_metadata session object)

  unfoldable pub get_by_id : ℤ → Action S Tree
  unfolding get_index_metadata only_row ◌>>=◌
  get_by_id object_id =
      if is_positive object_id
      then (do
        tmp_object ← get_index_metadata session ((Key.id, to_string object_id) ∷ []) empty
        only_row session tmp_object)
      else fail id_not_found

  unfoldable pub get_by_name : String → Action S Tree
  unfolding get_index_metadata only_row ◌>>=◌
  get_by_name object_name = if str_eq object_name "" then fail name_not_found else do
    tmp_object ← get_index_metadata session ((Key.name, object_name) ∷ []) empty
    only_row session tmp_object

  -- `objects` is what the vector held, which stays where there is no index.
  unfoldable pub get_all : List Tree → Action S (List Tree)
  unfolding get_index_metadata array_to_vector ◌>>=◌
  get_all objects =
      recover is_no_rows objects
        (do tmp_object ← get_index_metadata session [] empty; pure (array_to_vector tmp_object))

  unfoldable pub update : ℤ → Tree → Action S ℕ
  unfolding transaction update_index_metadata
  update object_id object =
      if is_positive object_id
      then transaction session
          (update_index_metadata session ((Key.id, to_string object_id) ∷ []) object)
      else fail id_not_found

  unfoldable pub remove_by_id : ℤ → Action S (List ℤ)
  unfolding transaction remove_index_metadata
  remove_by_id object_id =
      if is_positive object_id
      then transaction session (remove_index_metadata session ((Key.id, to_string object_id) ∷ []))
      else fail id_not_found

  -- The provider reports an empty vector as an error, so `front` is defined.
  unfoldable pub front : List ℤ → Action S ℤ
  front [] = lift undefined
  front (removed ∷ _) = pure removed

  unfoldable pub remove_by_name : String → Action S ℤ
  unfolding transaction remove_index_metadata front ◌>>=◌
  remove_by_name object_name = if str_eq object_name "" then fail name_not_found else do
    removed_ids ← transaction session (remove_index_metadata session ((Key.name, object_name) ∷ []))
    front removed_ids
