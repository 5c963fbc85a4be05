-- ===== src/Roles.antt =====
-- The class `Roles` of src/roles.cpp.
use metadata_manager.Prelude.{ℤ, String, to_string, [], ◌∷◌, str_eq, is_positive, if◌then◌else◌}
use metadata_manager.Key.{Key}
use metadata_manager.Platform.{Platform}
use metadata_manager.ErrorCode.{id_not_found, name_not_found}
use metadata_manager.Action.{Action, fail, ◌>>=◌}
use metadata_manager.Provider.{DbSessionManager}
use metadata_manager.Provider.Get.{get_role_metadata, only_row}

module _ ⦃P : Platform⦄ {S : Type 0} (session : DbSessionManager S) where
  open P use {Tree, empty}

  unfoldable pub get_by_id : ℤ → Action S Tree
  unfolding get_role_metadata only_row ◌>>=◌
  get_by_id object_id =
      if is_positive object_id
      then (do
        tmp_object ← get_role_metadata session ((Key.id, to_string object_id) ∷ []) empty
        only_row session tmp_object)
      else fail id_not_found

  unfoldable pub get_by_name : String → Action S Tree
  unfolding get_role_metadata only_row ◌>>=◌
  get_by_name object_name = if str_eq object_name "" then fail name_not_found else do
    tmp_object ← get_role_metadata session ((Key.name, object_name) ∷ []) empty
    only_row session tmp_object
