-- ===== src/Object/Base.antt =====
-- The structures `Object` and `ClassObject` of include/manager/metadata/metadata.h, and their
-- conversions to and from a property tree (src/metadata.cpp).
use metadata_manager.Prelude.{ℤ, pos, negsuc, IsInt64, String, ◌≡◌}
use metadata_manager.Key.{Key}
use metadata_manager.Platform.{Platform}
use metadata_manager.Ptree.{value_or, get_string?, get_int?, put, put_int, put_laws}

-- `INVALID_OBJECT_ID`, `INVALID_VALUE`
abbrev pub invalid_object_id : ℤ
invalid_object_id = negsuc 0

abbrev pub invalid_value : ℤ
invalid_value = negsuc 0

pub record Object : Type 0 where
  pub format_version : ℤ
  pub generation : ℤ
  pub id : ℤ
  pub name : String

-- The constructor: `DEFAULT_FORMAT_VERSION`, `DEFAULT_GENERATION`
abbrev pub default_object : Object
default_object = record { format_version = pos 1; generation = pos 1; id = negsuc 0; name = "" }

pub record ClassObject : Type 0 where
  pub object : Object
  pub open object use *
  pub database_name : String
  pub schema_name : String
  pub namespace_name : String
  pub owner_id : ℤ
  pub acl : String

abbrev pub default_class_object : ClassObject
default_class_object = record {
  object = default_object;
  database_name = "";
  schema_name = "";
  namespace_name = "";
  owner_id = negsuc 0;
  acl = "";
}

module _ ⦃P : Platform⦄ where
  open P use {Tree, empty, to_int, to_int-to_string}

  unfoldable pub object_to_ptree : Object → Tree
  object_to_ptree o = put Key.name o.name (
      put_int Key.id o.id
        (put_int Key.generation o.generation (put_int Key.format_version o.format_version empty)))

  unfoldable pub object_from_ptree : Tree → Object
  object_from_ptree pt = record {
    format_version = value_or invalid_value (get_int? Key.format_version pt);
    generation = value_or invalid_value (get_int? Key.generation pt);
    id = value_or invalid_object_id (get_int? Key.id pt);
    name = value_or "" (get_string? Key.name pt);
  }

  unfoldable pub class_object_to_ptree : ClassObject → Tree
  class_object_to_ptree o = put Key.acl o.acl (
      put_int Key.owner_id o.owner_id (
        put Key.namespace o.namespace_name (
          put Key.schema_name o.schema_name
            (put Key.database_name o.database_name (object_to_ptree o.object)))))

  unfoldable pub class_object_from_ptree : Tree → ClassObject
  class_object_from_ptree pt = record {
    object = object_from_ptree pt;
    database_name = value_or "" (get_string? Key.database_name pt);
    schema_name = value_or "" (get_string? Key.schema_name pt);
    namespace_name = value_or "" (get_string? Key.namespace pt);
    owner_id = value_or invalid_object_id (get_int? Key.owner_id pt);
    acl = value_or "" (get_string? Key.acl pt);
  }

-- The 64-bit fields are in range, as those of the C++ structures are.
pub record IsObject (o : Object) : Type 0 where
  pub format_version : IsInt64 o.format_version
  pub generation : IsInt64 o.generation
  pub id : IsInt64 o.id

pub record IsClassObject (o : ClassObject) : Type 0 where
  pub object : IsObject o.object
  pub owner_id : IsInt64 o.owner_id

module _ ⦃P : Platform⦄ where
  open P use {to_int-to_string}

  -- Converting the members of a `ClassObject`, whose numbers are 64-bit integers, to a property
  -- tree and back gives the same members.
  pub class_object_from_to :
      (o : ClassObject) → IsClassObject o → class_object_from_ptree (class_object_to_ptree o) ≡ o
  unfolding class_object_from_ptree class_object_to_ptree object_from_ptree object_to_ptree
  class_object_from_to o h = simp (
    put_laws,
    to_int-to_string o.format_version h.object.format_version,
    to_int-to_string o.generation h.object.generation,
    to_int-to_string o.id h.object.id,
    to_int-to_string o.owner_id h.owner_id,
  )
