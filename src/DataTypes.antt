-- ===== src/DataTypes.antt =====
-- The class `DataTypes` of src/datatypes.cpp.
pub mod Lookup
use metadata_manager.Prelude.{
  ℤ, String, to_string, Option, none, some, [], ◌∷◌, str_eq, is_positive, if◌then◌else◌,
}
use metadata_manager.Key.{Key, ◌=?◌}
use metadata_manager.Platform.{Platform}
use metadata_manager.ErrorCode.{
  ErrorCode, not_found, id_not_found, name_not_found, invalid_parameter,
}
use metadata_manager.Action.{Action, fail, ◌>>=◌}
use metadata_manager.Provider.{DbSessionManager}
use metadata_manager.Provider.Get.{get_datatype_metadata, only_row}

-- the error of an empty value
abbrev pub empty_value_error : Key → ErrorCode
empty_value_error object_key =
    if object_key =? Key.id
    then id_not_found
    else if object_key =? Key.name
    then name_not_found
    else not_found

module _ ⦃P : Platform⦄ {S : Type 0} (session : DbSessionManager S) where
  open P use {Tree, empty}

  -- `none` is the empty key.
  unfoldable pub get_by_key : Option Key → String → Action S Tree
  unfolding get_datatype_metadata only_row ◌>>=◌
  get_by_key none object_value = fail invalid_parameter
  get_by_key (some object_key) object_value =
      if str_eq object_value "" then fail (empty_value_error object_key) else do
        tmp_object ← get_datatype_metadata session ((object_key, object_value) ∷ []) empty
        only_row session tmp_object

  unfoldable pub get_by_id : ℤ → Action S Tree
  unfolding get_by_key
  get_by_id object_id =
      if is_positive object_id
      then get_by_key (some Key.id) (to_string object_id)
      else fail id_not_found

  unfoldable pub get_by_name : String → Action S Tree
  unfolding get_by_key
  get_by_name object_name =
      if str_eq object_name "" then fail name_not_found else get_by_key (some Key.name) object_name
