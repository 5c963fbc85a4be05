-- ===== src/Object/Constraint.antt =====
-- `Constraint` of include/manager/metadata/constraints.h and its conversions (src/constraints.cpp).
-- The enumerations have the underlying type `int64_t`, and any value of it may be cast to them.
pub mod RoundTrip
use metadata_manager.Prelude.{ℤ, IsInt64, All, String, List, is_positive, if◌then◌else◌}
use metadata_manager.Key.{Key}
use metadata_manager.Platform.{Platform}
use metadata_manager.Outcome.{Outcome, ok, ◌>>=◌}
use metadata_manager.Ptree.{value_or, get_string?, get_int?, put, put_int}
use metadata_manager.Ptree.Helper.{make_array_ptree, make_vector_int}
use metadata_manager.Object.Base.{
  Object, IsObject, object_to_ptree, object_from_ptree, invalid_value, invalid_object_id,
}

pub record Constraint : Type 0 where
  pub object : Object
  pub open object use *
  pub table_id : ℤ
  pub type : ℤ
  pub columns : List ℤ
  pub columns_id : List ℤ
  pub index_id : ℤ
  pub expression : String
  pub pk_table : String
  pub pk_columns : List ℤ
  pub pk_columns_id : List ℤ
  pub fk_match_type : ℤ
  pub fk_delete_action : ℤ
  pub fk_update_action : ℤ

pub record IsConstraint (c : Constraint) : Type 0 where
  pub object : IsObject c.object
  pub table_id : IsInt64 c.table_id
  pub type : IsInt64 c.type
  pub columns : All IsInt64 c.columns
  pub columns_id : All IsInt64 c.columns_id
  pub index_id : IsInt64 c.index_id
  pub pk_columns : All IsInt64 c.pk_columns
  pub pk_columns_id : All IsInt64 c.pk_columns_id
  pub fk_match_type : IsInt64 c.fk_match_type
  pub fk_delete_action : IsInt64 c.fk_delete_action
  pub fk_update_action : IsInt64 c.fk_update_action

module _ ⦃P : Platform⦄ where
  open P use {Tree, add_child, erase}

  -- the identifiers, which are put only where they are valid
  constraint_head : Constraint → Tree
  constraint_head c =
      let base = object_to_ptree c.object in
      let metadata = if is_positive c.object.id then base else erase Key.id base in
      if is_positive c.table_id then put_int Key.table_id c.table_id metadata else metadata

  with_columns : Constraint → Tree → Tree
  with_columns c t =
      add_child Key.columns_id (make_array_ptree c.columns_id)
        (add_child Key.columns (make_array_ptree c.columns) t)

  with_pk_columns : Constraint → Tree → Tree
  with_pk_columns c t =
      add_child Key.pk_columns_id (make_array_ptree c.pk_columns_id)
        (add_child Key.pk_columns (make_array_ptree c.pk_columns) t)

  unfoldable pub constraint_to_ptree : Constraint → Tree
  unfolding constraint_head with_columns with_pk_columns
  constraint_to_ptree c = put_int Key.fk_update_action c.fk_update_action (
      put_int Key.fk_delete_action c.fk_delete_action (
        put_int Key.fk_match_type c.fk_match_type (
          with_pk_columns c (
            put Key.pk_table c.pk_table (
              put Key.expression c.expression (
                put_int Key.index_id c.index_id
                  (with_columns c (put_int Key.type c.type (constraint_head c)))))))))

  unfoldable pub constraint_from_ptree : Tree → Outcome Constraint
  constraint_from_ptree pt = do
    cs ← make_vector_int Key.columns pt
    ids ← make_vector_int Key.columns_id pt
    pks ← make_vector_int Key.pk_columns pt
    pk_ids ← make_vector_int Key.pk_columns_id pt
    ok (record {
      object = object_from_ptree pt;
      table_id = value_or invalid_object_id (get_int? Key.table_id pt);
      type = value_or invalid_value (get_int? Key.type pt);
      columns = cs;
      columns_id = ids;
      index_id = value_or invalid_value (get_int? Key.index_id pt);
      expression = value_or "" (get_string? Key.expression pt);
      pk_table = value_or "" (get_string? Key.pk_table pt);
      pk_columns = pks;
      pk_columns_id = pk_ids;
      fk_match_type = value_or invalid_value (get_int? Key.fk_match_type pt);
      fk_delete_action = value_or invalid_value (get_int? Key.fk_delete_action pt);
      fk_update_action = value_or invalid_value (get_int? Key.fk_update_action pt);
    })
