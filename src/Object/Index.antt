-- ===== src/Object/Index.antt =====
-- `Index` of include/manager/metadata/index.h and its conversions (src/index.cpp).
use metadata_manager.Prelude.{ℤ, IsInt64, All, Bool, false, List, none, ◌≡◌}
use metadata_manager.Key.{Key}
use metadata_manager.Platform.{Platform}
use metadata_manager.Outcome.{Outcome, ok, ◌>>=◌}
use metadata_manager.Ptree.{
  value_or, get_int?, get_bool?, put_int, put_bool, put_laws, get_child?-put, get_child?-add_child,
  get_string?-add_child, get_int?-add_child, get_bool?-add_child,
}
use metadata_manager.Ptree.Helper.{
  make_array_ptree, make_vector_int, make_vector_int-make_array_ptree,
}
use metadata_manager.Object.Base.{
  ClassObject, IsClassObject, class_object_to_ptree, class_object_from_ptree, object_from_ptree,
  object_to_ptree, invalid_value, invalid_object_id,
}

pub record Index : Type 0 where
  pub class_object : ClassObject
  pub open class_object use *
  pub table_id : ℤ
  pub access_method : ℤ
  pub number_of_columns : ℤ
  pub number_of_key_columns : ℤ
  pub is_unique : Bool
  pub is_primary : Bool
  pub keys : List ℤ
  pub keys_id : List ℤ
  pub options : List ℤ

pub record IsIndex (x : Index) : Type 0 where
  pub class_object : IsClassObject x.class_object
  pub table_id : IsInt64 x.table_id
  pub access_method : IsInt64 x.access_method
  pub number_of_columns : IsInt64 x.number_of_columns
  pub number_of_key_columns : IsInt64 x.number_of_key_columns
  pub keys : All IsInt64 x.keys
  pub keys_id : All IsInt64 x.keys_id
  pub options : All IsInt64 x.options

module _ ⦃P : Platform⦄ where
  open P use {Tree, add_child, get_child?, get_child?-empty, to_int-to_string, to_bool-of_bool}

  index_fields : Index → Tree
  index_fields x = put_int Key.number_of_key_columns x.number_of_key_columns (
      put_int Key.number_of_columns x.number_of_columns (
        put_bool Key.is_unique x.is_unique (
          put_bool Key.is_primary x.is_primary (
            put_int Key.access_method x.access_method (
              put_int Key.table_id x.table_id (
                put_int Key.owner_id x.class_object.owner_id
                  (class_object_to_ptree x.class_object)))))))

  unfoldable pub index_to_ptree : Index → Tree
  unfolding index_fields
  index_to_ptree x = add_child Key.options (make_array_ptree x.options) (
      add_child Key.columns_id (make_array_ptree x.keys_id)
        (add_child Key.columns (make_array_ptree x.keys) (index_fields x)))

  unfoldable pub index_from_ptree : Tree → Outcome Index
  index_from_ptree pt = do
    ks ← make_vector_int Key.columns pt
    ids ← make_vector_int Key.columns_id pt
    os ← make_vector_int Key.options pt
    ok (record {
      class_object = class_object_from_ptree pt;
      table_id = value_or invalid_object_id (get_int? Key.table_id pt);
      access_method = value_or invalid_value (get_int? Key.access_method pt);
      number_of_columns = value_or invalid_value (get_int? Key.number_of_columns pt);
      number_of_key_columns = value_or invalid_value (get_int? Key.number_of_key_columns pt);
      is_unique = value_or false (get_bool? Key.is_unique pt);
      is_primary = value_or false (get_bool? Key.is_primary pt);
      keys = ks;
      keys_id = ids;
      options = os;
    })

  columns_absent : (x : Index) → get_child? Key.columns (index_fields x) ≡ none
  unfolding index_fields class_object_to_ptree object_to_ptree
  columns_absent x = simp (get_child?-put, get_child?-empty)

  columns_id_absent :
      (x : Index) (c : Tree)
      → get_child? Key.columns_id (add_child Key.columns c (index_fields x)) ≡ none
  unfolding index_fields class_object_to_ptree object_to_ptree
  columns_id_absent x c =
      simp
        (get_child?-add_child Key.columns c _ (columns_absent x), get_child?-put, get_child?-empty)

  options_absent :
      (x : Index) (c d : Tree)
      → get_child? Key.options
          (add_child Key.columns_id d (add_child Key.columns c (index_fields x)))
        ≡ none
  unfolding index_fields class_object_to_ptree object_to_ptree
  options_absent x c d = simp (
    get_child?-add_child Key.columns_id d _ (columns_id_absent x c),
    get_child?-add_child Key.columns c _ (columns_absent x),
    get_child?-put,
    get_child?-empty,
  )

  keys_from_to :
      (x : Index) → IsIndex x → make_vector_int Key.columns (index_to_ptree x) ≡ ok x.keys
  unfolding index_to_ptree
  keys_from_to x h = make_vector_int-make_array_ptree Key.columns (index_to_ptree x) x.keys h.keys (
      simp (
        get_child?-add_child Key.options _ _ (options_absent x _ _),
        get_child?-add_child Key.columns_id _ _ (columns_id_absent x _),
        get_child?-add_child Key.columns _ _ (columns_absent x),
      ))

  keys_id_from_to :
      (x : Index) → IsIndex x → make_vector_int Key.columns_id (index_to_ptree x) ≡ ok x.keys_id
  unfolding index_to_ptree
  keys_id_from_to x h =
      make_vector_int-make_array_ptree Key.columns_id (index_to_ptree x) x.keys_id h.keys_id (
        simp (
          get_child?-add_child Key.options _ _ (options_absent x _ _),
          get_child?-add_child Key.columns_id _ _ (columns_id_absent x _),
        ))

  options_from_to :
      (x : Index) → IsIndex x → make_vector_int Key.options (index_to_ptree x) ≡ ok x.options
  unfolding index_to_ptree
  options_from_to x h =
      make_vector_int-make_array_ptree Key.options (index_to_ptree x) x.options h.options
        (get_child?-add_child Key.options _ _ (options_absent x _ _) Key.options)

  -- Converting an index, whose numbers are 64-bit integers, to a property tree and back gives the
  -- same index.
  pub index_from_to : (x : Index) → IsIndex x → index_from_ptree (index_to_ptree x) ≡ ok x
  unfolding index_from_ptree index_to_ptree class_object_from_ptree class_object_to_ptree
      object_from_ptree object_to_ptree
  index_from_to x h = rw (keys_from_to x h) (
      rw (keys_id_from_to x h) (
        rw (options_from_to x h) (
          simp (
            get_string?-add_child Key.options _ _ (options_absent x _ _),
            get_int?-add_child Key.options _ _ (options_absent x _ _),
            get_bool?-add_child Key.options _ _ (options_absent x _ _),
            get_string?-add_child Key.columns_id _ _ (columns_id_absent x _),
            get_int?-add_child Key.columns_id _ _ (columns_id_absent x _),
            get_bool?-add_child Key.columns_id _ _ (columns_id_absent x _),
            get_string?-add_child Key.columns _ _ (columns_absent x),
            get_int?-add_child Key.columns _ _ (columns_absent x),
            get_bool?-add_child Key.columns _ _ (columns_absent x),
            put_laws,
            to_bool-of_bool,
            to_int-to_string x.class_object.object.format_version
                h.class_object.object.format_version,
            to_int-to_string x.class_object.object.generation h.class_object.object.generation,
            to_int-to_string x.class_object.object.id h.class_object.object.id,
            to_int-to_string x.class_object.owner_id h.class_object.owner_id,
            to_int-to_string x.table_id h.table_id,
            to_int-to_string x.access_method h.access_method,
            to_int-to_string x.number_of_columns h.number_of_columns,
            to_int-to_string x.number_of_key_columns h.number_of_key_columns,
          ))))
