-- ===== src/Constraints.antt =====
-- The class `Constraints` of src/constraints.cpp. A result that an out parameter holds is returned.
pub mod Atomic
use metadata_manager.Prelude.{ℤ, pos, to_string, List, [], ◌∷◌, is_positive, if◌then◌else◌}
use metadata_manager.Key.{Key}
use metadata_manager.Platform.{Platform}
use metadata_manager.ErrorCode.{id_not_found, insufficient_parameters}
use metadata_manager.Action.{Action, pure, fail, recover, ◌>>=◌, ◌>>◌}
use metadata_manager.Ptree.{value_or, get_int?}
use metadata_manager.Ptree.Helper.{array_to_vector}
use metadata_manager.Provider.{DbSessionManager, transaction, is_no_rows}
use metadata_manager.Provider.Add.{add_constraint_metadata}
use metadata_manager.Provider.Get.{get_constraint_metadata, only_row}
use metadata_manager.Provider.Change.{remove_constraint_metadata}

module _ ⦃P : Platform⦄ {S : Type 0} (session : DbSessionManager S) where
  open P use {Tree, empty}

  unfoldable pub param_check_metadata_add : Tree → Action S (Unit {0})
  param_check_metadata_add object =
      if is_positive (value_or (pos 0) (get_int? Key.table_id object))
      then pure tt
      else fail insufficient_parameters

  unfoldable pub add : Tree → Action S ℤ
  unfolding param_check_metadata_add transaction add_constraint_metadata ◌>>=◌
  add object = do
    param_check_metadata_add object
    transaction session (add_constraint_metadata session object)

  unfoldable pub get_by_id : ℤ → Action S Tree
  unfolding get_constraint_metadata only_row ◌>>=◌
  get_by_id object_id =
      if is_positive object_id
      then (do
        tmp_object ← get_constraint_metadata session ((Key.id, to_string object_id) ∷ []) empty
        only_row session tmp_object)
      else fail id_not_found

  -- `objects` is what the vector held, which stays where there is no constraint.
  unfoldable pub get_all : List Tree → Action S (List Tree)
  unfolding get_constraint_metadata array_to_vector ◌>>=◌
  get_all objects =
      recover is_no_rows objects (do
        tmp_object ← get_constraint_metadata session [] empty
        pure (array_to_vector tmp_object))

  unfoldable pub remove : ℤ → Action S (List ℤ)
  unfolding transaction remove_constraint_metadata
  remove object_id =
      if is_positive object_id
      then transaction session
          (remove_constraint_metadata session ((Key.id, to_string object_id) ∷ []))
      else fail id_not_found
