-- ===== src/Object/Column.antt =====
-- `Column` of include/manager/metadata/tables.h and its conversions (src/tables.cpp).
use metadata_manager.Prelude.{ℤ, IsInt64, All, String, Bool, false, List, ◌≡◌, none}
use metadata_manager.Key.{Key}
use metadata_manager.Platform.{Platform}
use metadata_manager.Outcome.{Outcome, ok, ◌>>=◌}
use metadata_manager.Ptree.{
  value_or, get_string?, get_int?, get_bool?, put, put_int, put_bool, put_laws, get_child?-put,
  get_child?-add_child, get_string?-add_child, get_int?-add_child, get_bool?-add_child,
}
use metadata_manager.Ptree.Helper.{
  make_array_ptree, make_vector_int, make_vector_int-make_array_ptree,
}
use metadata_manager.Object.Base.{
  Object, IsObject, object_to_ptree, object_from_ptree, invalid_value, invalid_object_id,
}

pub record Column : Type 0 where
  pub object : Object
  pub open object use *
  pub table_id : ℤ
  pub column_number : ℤ
  pub data_type_id : ℤ
  pub data_length : List ℤ
  pub varying : Bool
  pub is_not_null : Bool
  pub default_expression : String
  pub is_funcexpr : Bool

pub record IsColumn (c : Column) : Type 0 where
  pub object : IsObject c.object
  pub table_id : IsInt64 c.table_id
  pub column_number : IsInt64 c.column_number
  pub data_type_id : IsInt64 c.data_type_id
  pub data_length : All IsInt64 c.data_length

module _ ⦃P : Platform⦄ where
  open P use {Tree, add_child, get_child?, get_child?-empty, to_int-to_string, to_bool-of_bool}

  column_fields : Column → Tree
  column_fields c = put_bool Key.is_funcexpr c.is_funcexpr (
      put Key.default_expr c.default_expression (
        put_bool Key.is_not_null c.is_not_null (
          put_bool Key.varying c.varying (
            put_int Key.data_type_id c.data_type_id (
              put_int Key.column_number c.column_number
                (put_int Key.table_id c.table_id (object_to_ptree c.object)))))))

  unfoldable pub column_to_ptree : Column → Tree
  unfolding column_fields
  column_to_ptree c = add_child Key.data_length (make_array_ptree c.data_length) (column_fields c)

  unfoldable pub column_from_ptree : Tree → Outcome Column
  column_from_ptree pt = do
    lengths ← make_vector_int Key.data_length pt
    ok (record {
      object = object_from_ptree pt;
      table_id = value_or invalid_object_id (get_int? Key.table_id pt);
      column_number = value_or invalid_value (get_int? Key.column_number pt);
      data_type_id = value_or invalid_object_id (get_int? Key.data_type_id pt);
      data_length = lengths;
      varying = value_or false (get_bool? Key.varying pt);
      is_not_null = value_or false (get_bool? Key.is_not_null pt);
      default_expression = value_or "" (get_string? Key.default_expr pt);
      is_funcexpr = value_or false (get_bool? Key.is_funcexpr pt);
    })

  data_length_absent : (c : Column) → get_child? Key.data_length (column_fields c) ≡ none
  unfolding column_fields object_to_ptree
  data_length_absent c = simp (get_child?-put, get_child?-empty)

  lengths_from_to :
      (c : Column)
      → IsColumn c
      → make_vector_int Key.data_length (column_to_ptree c) ≡ ok c.data_length
  unfolding column_to_ptree
  lengths_from_to c h =
      make_vector_int-make_array_ptree Key.data_length (column_to_ptree c) c.data_length
        h.data_length
        (get_child?-add_child Key.data_length _ _ (data_length_absent c) Key.data_length)

  -- Converting a column, whose numbers are 64-bit integers, to a property tree and back gives the
  -- same column.
  pub column_from_to : (c : Column) → IsColumn c → column_from_ptree (column_to_ptree c) ≡ ok c
  unfolding column_from_ptree column_to_ptree object_from_ptree object_to_ptree
  column_from_to c h = rw (lengths_from_to c h) (
      simp (
        get_string?-add_child Key.data_length _ _ (data_length_absent c),
        get_int?-add_child Key.data_length _ _ (data_length_absent c),
        get_bool?-add_child Key.data_length _ _ (data_length_absent c),
        put_laws,
        to_bool-of_bool,
        to_int-to_string c.object.format_version h.object.format_version,
        to_int-to_string c.object.generation h.object.generation,
        to_int-to_string c.object.id h.object.id,
        to_int-to_string c.table_id h.table_id,
        to_int-to_string c.column_number h.column_number,
        to_int-to_string c.data_type_id h.data_type_id,
      ))
