-- ===== src/Tables/Check.antt =====
-- `Tables::param_check_metadata_add` of src/tables.cpp.
use metadata_manager.Prelude.{
  ℤ, pos, String, to_string, Bool, true, false, Option, none, some, List, [], ◌∷◌, ◌==◌, str_eq,
  ltb_ℤ, is_positive, not, if◌then◌else◌,
}
use metadata_manager.Key.{Key}
use metadata_manager.Platform.{Platform}
use metadata_manager.ErrorCode.{insufficient_parameters, invalid_parameter}
use metadata_manager.Action.{Action, pure, fail, lift, ◌>>=◌, ◌>>◌}
use metadata_manager.Ptree.{get_string?, get_int?, size}
use metadata_manager.Dao.{get_child}
use metadata_manager.Provider.{DbSessionManager}
use metadata_manager.Provider.Get.{get_datatype_metadata}

abbrev pub is_filled : Option String → Bool
is_filled none = false
is_filled (some s) = not (str_eq s "")

abbrev pub is_positive? : Option ℤ → Bool
is_positive? none = false
is_positive? (some v) = is_positive v

module _ ⦃P : Platform⦄ {S : Type 0} (session : DbSessionManager S) where
  open P use {Tree, empty, children}

  -- `if (!condition) error = INSUFFICIENT_PARAMETERS`
  abbrev pub require : Bool → Action S (Unit {0})
  require true = pure tt
  require false = fail insufficient_parameters

  -- the data type of a column, which must be known
  unfoldable pub check_data_type : Option ℤ → Action S (Unit {0})
  unfolding get_datatype_metadata ◌>>=◌
  check_data_type none = fail insufficient_parameters
  check_data_type (some data_type_id) =
      if ltb_ℤ data_type_id (pos 0) then fail insufficient_parameters else do
        datatype_metadata ←
            get_datatype_metadata session ((Key.id, to_string data_type_id) ∷ []) empty
        if size datatype_metadata == 0 then fail invalid_parameter else pure tt

  unfoldable pub check_column : Tree → Action S (Unit {0})
  unfolding check_data_type ◌>>=◌
  check_column column = do
    require (is_filled (get_string? Key.name column))
    require (is_positive? (get_int? Key.column_number column))
    check_data_type (get_int? Key.data_type_id column)
    require (is_filled (get_string? Key.is_not_null column))

  unfoldable pub check_columns : List (String × Tree) → Action S (Unit {0})
  unfolding check_column ◌>>=◌
  check_columns [] = pure tt
  check_columns ((_, column) ∷ rest) = do check_column column; check_columns rest

  -- `get_child(COLUMNS_NODE)` throws where the object has no such node.
  unfoldable pub param_check_metadata_add : Tree → Action S (Unit {0})
  unfolding get_child check_columns ◌>>=◌
  param_check_metadata_add object = do
    require (is_filled (get_string? Key.name object))
    node ← lift (get_child Key.columns object)
    check_columns (children node)
