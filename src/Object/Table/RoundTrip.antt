-- ===== src/Object/Table/RoundTrip.antt =====
-- A table after a conversion to a property tree and back (src/tables.cpp).
use mathlib.Core.List.{append-nil, append_assoc}
use metadata_manager.Prelude.{All, List, [], ◌∷◌, ◌++◌, map, none, some, sym, ◌≡◌, refl}
use metadata_manager.Key.{Key}
use metadata_manager.Platform.{Platform}
use metadata_manager.Outcome.{Outcome, ok}
use metadata_manager.Ptree.{children-push_back, put_laws, get_child?-put}
use metadata_manager.Ptree.TwoChildren.{get_child?-add_two, get_string?-add_two, get_int?-add_two}
use metadata_manager.Object.Base.{
  class_object_to_ptree, class_object_from_ptree, object_from_ptree, object_to_ptree,
}
use metadata_manager.Object.Column.{column_to_ptree, column_from_ptree, column_from_to}
use metadata_manager.Object.Constraint.{constraint_to_ptree, constraint_from_ptree}
use metadata_manager.Object.Constraint.RoundTrip.{with_valid_ids, constraint_from_to}
use metadata_manager.Object.Table.{
  Table, IsTable, array_loop, table_fields, table_to_ptree, convert_all, array_from,
  table_from_ptree,
}

module _ ⦃P : Platform⦄ where
  open P use {Tree, empty, children, get_child?, get_child?-empty, to_int-to_string}

  children-array_loop :
      {A : Type 0} (convert : A → Tree) (xs : List A) (array : Tree)
      → children (array_loop convert xs array) ≡ children array ++ map (λ x. ("", convert x)) xs
  unfolding array_loop
  children-array_loop convert [] array = sym (append-nil _)
  children-array_loop convert (x ∷ xs) array =
      simp (children-array_loop convert xs, children-push_back, append_assoc)

  -- Items that are converted one by one come back one by one.
  module _ {A : Type 0} {IsItem : A → Type 0} (to : A → Tree) (from : Tree → Outcome A)
      (norm : A → A) (from_to : (x : A) → IsItem x → from (to x) ≡ ok (norm x)) where
    convert_all-map :
        (xs : List A)
        → All IsItem xs
        → convert_all from (map (λ x. ("", to x)) xs) ≡ ok (map norm xs)
    unfolding convert_all
    convert_all-map [] h = refl
    convert_all-map (x ∷ xs) h = rw (from_to x h.0) (rw (convert_all-map xs h.1))

    array_from-array_loop :
        (xs : List A)
        → All IsItem xs
        → array_from from (some (array_loop to xs empty)) ≡ ok (map norm xs)
    unfolding array_from
    array_from-array_loop xs h =
        rw (children-array_loop to xs empty) (rw P.children-empty (convert_all-map xs h))

  module _ (t : Table) where
    no_columns : get_child? Key.columns (table_fields t) ≡ none
    unfolding table_fields class_object_to_ptree object_to_ptree
    no_columns = simp (get_child?-put, get_child?-empty)

    no_constraints : get_child? Key.constraints (table_fields t) ≡ none
    unfolding table_fields class_object_to_ptree object_to_ptree
    no_constraints = simp (get_child?-put, get_child?-empty)

    columns_node :
        get_child? Key.columns (table_to_ptree t)
        ≡ some (array_loop column_to_ptree t.columns empty)
    unfolding table_to_ptree
    columns_node =
        get_child?-add_two Key.columns Key.constraints _ _ _ refl no_columns no_constraints
          Key.columns

    constraints_node :
        get_child? Key.constraints (table_to_ptree t)
        ≡ some (array_loop constraint_to_ptree t.constraints empty)
    unfolding table_to_ptree
    constraints_node =
        get_child?-add_two Key.columns Key.constraints _ _ _ refl no_columns no_constraints
          Key.constraints

  map_self : {A : Type 0} (xs : List A) → map (λ x. x) xs ≡ xs
  map_self [] = refl
  map_self (x ∷ xs) = rw (map_self xs)

  -- Converting a table, whose numbers are 64-bit integers, to a property tree and back into
  -- `target` gives the table, but for the indexes, which stay those of `target`, and the
  -- identifiers of constraints that are not positive, which become `INVALID_OBJECT_ID`.
  pub table_from_to :
      (t target : Table)
      → IsTable t
      → table_from_ptree (table_to_ptree t) target
        ≡ ok (record t { indexes = target.indexes; constraints = map with_valid_ids t.constraints })
  unfolding table_from_ptree class_object_from_ptree object_from_ptree
  table_from_to t target h = rw (columns_node t) (
      rw
        (array_from-array_loop column_to_ptree column_from_ptree (λ c. c) column_from_to t.columns
          h.columns)
        (rw (constraints_node t) (
          rw
            (array_from-array_loop constraint_to_ptree constraint_from_ptree with_valid_ids
              constraint_from_to t.constraints h.constraints)
            (unfold table_to_ptree table_fields class_object_to_ptree object_to_ptree in
              simp (
                map_self,
                get_string?-add_two Key.columns Key.constraints _ _ _ refl (no_columns t)
                    (no_constraints t),
                get_int?-add_two Key.columns Key.constraints _ _ _ refl (no_columns t)
                    (no_constraints t),
                put_laws,
                to_int-to_string t.class_object.object.format_version
                    h.class_object.object.format_version,
                to_int-to_string t.class_object.object.generation h.class_object.object.generation,
                to_int-to_string t.class_object.object.id h.class_object.object.id,
                to_int-to_string t.class_object.owner_id h.class_object.owner_id,
                to_int-to_string t.number_of_tuples h.number_of_tuples,
              )))))
