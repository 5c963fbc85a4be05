-- ===== src/Object/DataType.antt =====
-- `DataType` of include/manager/metadata/datatypes.h and its conversions (src/datatypes.cpp).
use metadata_manager.Prelude.{ℤ, IsInt64, String, ◌≡◌}
use metadata_manager.Key.{Key}
use metadata_manager.Platform.{Platform}
use metadata_manager.Ptree.{value_or, get_string?, get_int?, put, put_int, put_laws}
use metadata_manager.Object.Base.{
  Object, IsObject, object_to_ptree, object_from_ptree, invalid_value,
}

pub record DataType : Type 0 where
  pub object : Object
  pub open object use *
  pub pg_data_type : ℤ
  pub pg_data_type_name : String
  pub pg_data_type_qualified_name : String

pub record IsDataType (d : DataType) : Type 0 where
  pub object : IsObject d.object
  pub pg_data_type : IsInt64 d.pg_data_type

module _ ⦃P : Platform⦄ where
  open P use {Tree, to_int-to_string}

  unfoldable pub data_type_to_ptree : DataType → Tree
  data_type_to_ptree d = put Key.pg_data_type_qualified_name d.pg_data_type_qualified_name (
      put Key.pg_data_type_name d.pg_data_type_name
        (put_int Key.pg_data_type d.pg_data_type (object_to_ptree d.object)))

  unfoldable pub data_type_from_ptree : Tree → DataType
  data_type_from_ptree pt = record {
    object = object_from_ptree pt;
    pg_data_type = value_or invalid_value (get_int? Key.pg_data_type pt);
    pg_data_type_name = value_or "" (get_string? Key.pg_data_type_name pt);
    pg_data_type_qualified_name = value_or "" (get_string? Key.pg_data_type_qualified_name pt);
  }

  -- Converting a data type, whose numbers are 64-bit integers, to a property tree and back gives
  -- the same data type.
  pub data_type_from_to :
      (d : DataType) → IsDataType d → data_type_from_ptree (data_type_to_ptree d) ≡ d
  unfolding data_type_from_ptree data_type_to_ptree object_from_ptree object_to_ptree
  data_type_from_to d h = simp (
    put_laws,
    to_int-to_string d.object.format_version h.object.format_version,
    to_int-to_string d.object.generation h.object.generation,
    to_int-to_string d.object.id h.object.id,
    to_int-to_string d.pg_data_type h.pg_data_type,
  )
