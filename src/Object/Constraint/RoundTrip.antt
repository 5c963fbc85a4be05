-- ===== src/Object/Constraint/RoundTrip.antt =====
-- A constraint after a conversion to a property tree and back (src/constraints.cpp).
use metadata_manager.Prelude.{ℤ, some, none, is_positive, ◌≡◌, refl, if◌then◌else◌}
use metadata_manager.Key.{Key, ◌=?◌}
use metadata_manager.Platform.{Platform}
use metadata_manager.Outcome.{ok}
use metadata_manager.Ptree.{
  get_string?, get_int?, put, put_int, get_string?-put, get_int?-put, get_int?-empty,
  get_child?-put,
}
use metadata_manager.Ptree.Helper.{
  make_vector_int, make_array_ptree, make_vector_int-make_array_ptree,
}
use metadata_manager.Ptree.TwoChildren.{get_child?-add_two, get_string?-add_two, get_int?-add_two}
use metadata_manager.Object.Base.{object_to_ptree, object_from_ptree, invalid_object_id}
use metadata_manager.Object.Constraint.{
  Constraint, IsConstraint, constraint_head, with_columns, with_pk_columns, constraint_to_ptree,
  constraint_from_ptree,
}
use metadata_manager.Ptree.Conditional.{
  value_or-if, get_child?-erase_if, get_string?-erase_if, get_int?-erase_if, get_child?-put_if,
  get_string?-put_if, get_int?-put_if,
}

-- An identifier that is not positive comes back as `INVALID_OBJECT_ID`.
abbrev pub or_invalid : ℤ → ℤ
or_invalid v = if is_positive v then v else invalid_object_id

abbrev pub with_valid_ids : Constraint → Constraint
with_valid_ids c = record c {
  object = record c.object { id = or_invalid c.object.id };
  table_id = or_invalid c.table_id;
}

module _ ⦃P : Platform⦄ where
  open P use {
    Tree, empty, set_value, erase, add_child, to_int, get_child?, get_child?-empty,
    get_child?-erase, to_int-to_string,
  }

  module _ (c : Constraint) where
    -- the tree before the first array, and the tree before the second pair of arrays
    abbrev typed : Tree
    typed = put_int Key.type c.type (constraint_head c)

    abbrev named : Tree
    named =
        put Key.pk_table c.pk_table
          (put Key.expression c.expression (put_int Key.index_id c.index_id (with_columns c typed)))

    columns_absent : get_child? Key.columns typed ≡ none
    unfolding constraint_head object_to_ptree
    columns_absent = simp (get_child?-put, get_child?-put_if, get_child?-erase_if, get_child?-empty)

    columns_id_absent : get_child? Key.columns_id typed ≡ none
    unfolding constraint_head object_to_ptree
    columns_id_absent =
        simp (get_child?-put, get_child?-put_if, get_child?-erase_if, get_child?-empty)

    get_child?-with_columns :
        (j : Key)
        → get_child? j (with_columns c typed) ≡ (
            if Key.columns_id =? j
            then some (make_array_ptree c.columns_id)
            else if Key.columns =? j
            then some (make_array_ptree c.columns)
            else get_child? j typed)
    unfolding with_columns
    get_child?-with_columns =
        get_child?-add_two Key.columns Key.columns_id _ _ typed refl columns_absent
          columns_id_absent

    pk_columns_absent : get_child? Key.pk_columns named ≡ none
    unfolding constraint_head object_to_ptree
    pk_columns_absent = simp (
      get_child?-put, get_child?-with_columns, get_child?-put_if, get_child?-erase_if,
      get_child?-empty,
    )

    pk_columns_id_absent : get_child? Key.pk_columns_id named ≡ none
    unfolding constraint_head object_to_ptree
    pk_columns_id_absent = simp (
      get_child?-put, get_child?-with_columns, get_child?-put_if, get_child?-erase_if,
      get_child?-empty,
    )

    get_child?-with_pk_columns :
        (j : Key)
        → get_child? j (with_pk_columns c named) ≡ (
            if Key.pk_columns_id =? j
            then some (make_array_ptree c.pk_columns_id)
            else if Key.pk_columns =? j
            then some (make_array_ptree c.pk_columns)
            else get_child? j named)
    unfolding with_pk_columns
    get_child?-with_pk_columns =
        get_child?-add_two Key.pk_columns Key.pk_columns_id _ _ named refl pk_columns_absent
          pk_columns_id_absent

    get_string?-with_columns :
        (j : Key)
        → get_string? j (with_columns c typed) ≡ (
            if Key.columns_id =? j
            then some (P.value (make_array_ptree c.columns_id))
            else if Key.columns =? j
            then some (P.value (make_array_ptree c.columns))
            else get_string? j typed)
    unfolding with_columns
    get_string?-with_columns =
        get_string?-add_two Key.columns Key.columns_id _ _ typed refl columns_absent
          columns_id_absent

    get_int?-with_columns :
        (j : Key)
        → get_int? j (with_columns c typed) ≡ (
            if Key.columns_id =? j
            then to_int (P.value (make_array_ptree c.columns_id))
            else if Key.columns =? j
            then to_int (P.value (make_array_ptree c.columns))
            else get_int? j typed)
    unfolding with_columns
    get_int?-with_columns =
        get_int?-add_two Key.columns Key.columns_id _ _ typed refl columns_absent columns_id_absent

    get_string?-with_pk_columns :
        (j : Key)
        → get_string? j (with_pk_columns c named) ≡ (
            if Key.pk_columns_id =? j
            then some (P.value (make_array_ptree c.pk_columns_id))
            else if Key.pk_columns =? j
            then some (P.value (make_array_ptree c.pk_columns))
            else get_string? j named)
    unfolding with_pk_columns
    get_string?-with_pk_columns =
        get_string?-add_two Key.pk_columns Key.pk_columns_id _ _ named refl pk_columns_absent
          pk_columns_id_absent

    get_int?-with_pk_columns :
        (j : Key)
        → get_int? j (with_pk_columns c named) ≡ (
            if Key.pk_columns_id =? j
            then to_int (P.value (make_array_ptree c.pk_columns_id))
            else if Key.pk_columns =? j
            then to_int (P.value (make_array_ptree c.pk_columns))
            else get_int? j named)
    unfolding with_pk_columns
    get_int?-with_pk_columns =
        get_int?-add_two Key.pk_columns Key.pk_columns_id _ _ named refl pk_columns_absent
          pk_columns_id_absent

  -- Each array is read back.
  module _ (c : Constraint) (h : IsConstraint c) where
    columns_from_to : make_vector_int Key.columns (constraint_to_ptree c) ≡ ok c.columns
    unfolding constraint_to_ptree
    columns_from_to =
        make_vector_int-make_array_ptree Key.columns (constraint_to_ptree c) c.columns h.columns
          (simp (get_child?-put, get_child?-with_pk_columns, get_child?-with_columns))

    columns_id_from_to : make_vector_int Key.columns_id (constraint_to_ptree c) ≡ ok c.columns_id
    unfolding constraint_to_ptree
    columns_id_from_to =
        make_vector_int-make_array_ptree Key.columns_id (constraint_to_ptree c) c.columns_id
          h.columns_id (simp (get_child?-put, get_child?-with_pk_columns, get_child?-with_columns))

    pk_columns_from_to : make_vector_int Key.pk_columns (constraint_to_ptree c) ≡ ok c.pk_columns
    unfolding constraint_to_ptree
    pk_columns_from_to =
        make_vector_int-make_array_ptree Key.pk_columns (constraint_to_ptree c) c.pk_columns
          h.pk_columns (simp (get_child?-put, get_child?-with_pk_columns))

    pk_columns_id_from_to :
        make_vector_int Key.pk_columns_id (constraint_to_ptree c) ≡ ok c.pk_columns_id
    unfolding constraint_to_ptree
    pk_columns_id_from_to =
        make_vector_int-make_array_ptree Key.pk_columns_id (constraint_to_ptree c) c.pk_columns_id
          h.pk_columns_id (simp (get_child?-put, get_child?-with_pk_columns))

  -- Converting a constraint, whose numbers are 64-bit integers, to a property tree and back gives
  -- the same constraint, but for the identifiers that are not positive, which become
  -- `INVALID_OBJECT_ID`.
  pub constraint_from_to :
      (c : Constraint)
      → IsConstraint c
      → constraint_from_ptree (constraint_to_ptree c) ≡ ok (with_valid_ids c)
  unfolding constraint_from_ptree object_from_ptree
  constraint_from_to c h = rw (columns_from_to c h) (
      rw (columns_id_from_to c h) (
        rw (pk_columns_from_to c h) (
          rw (pk_columns_id_from_to c h) (
            unfold constraint_to_ptree constraint_head object_to_ptree in
            simp (
              get_string?-put,
              get_int?-put,
              get_string?-with_pk_columns,
              get_int?-with_pk_columns,
              get_string?-with_columns,
              get_int?-with_columns,
              get_string?-put_if,
              get_int?-put_if,
              get_string?-erase_if,
              get_int?-erase_if,
              get_int?-empty,
              value_or-if,
              to_int-to_string c.object.format_version h.object.format_version,
              to_int-to_string c.object.generation h.object.generation,
              to_int-to_string c.object.id h.object.id,
              to_int-to_string c.table_id h.table_id,
              to_int-to_string c.type h.type,
              to_int-to_string c.index_id h.index_id,
              to_int-to_string c.fk_match_type h.fk_match_type,
              to_int-to_string c.fk_delete_action h.fk_delete_action,
              to_int-to_string c.fk_update_action h.fk_update_action,
            )))))
