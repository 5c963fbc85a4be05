-- ===== src/Object/Table.antt =====
-- `Table` of include/manager/metadata/tables.h and its conversions (src/tables.cpp). The member
-- `indexes` takes no part in the conversions.
pub mod RoundTrip
use metadata_manager.Prelude.{ℤ, IsInt64, All, String, List, [], ◌∷◌, Option, none, some}
use metadata_manager.Key.{Key}
use metadata_manager.Platform.{Platform}
use metadata_manager.Outcome.{Outcome, ok, thrown, ◌>>=◌}
use metadata_manager.Ptree.{value_or, get_int?, put_int, push_back}
use metadata_manager.Object.Base.{
  ClassObject, IsClassObject, class_object_to_ptree, class_object_from_ptree, invalid_value,
}
use metadata_manager.Object.Column.{Column, IsColumn, column_to_ptree, column_from_ptree}
use metadata_manager.Object.Index.{Index}
use metadata_manager.Object.Constraint.{
  Constraint, IsConstraint, constraint_to_ptree, constraint_from_ptree,
}

pub record Table : Type 0 where
  pub class_object : ClassObject
  pub open class_object use *
  pub number_of_tuples : ℤ
  pub columns : List Column
  pub indexes : List Index
  pub constraints : List Constraint

pub record IsTable (t : Table) : Type 0 where
  pub class_object : IsClassObject t.class_object
  pub number_of_tuples : IsInt64 t.number_of_tuples
  pub columns : All IsColumn t.columns
  pub constraints : All IsConstraint t.constraints

module _ ⦃P : Platform⦄ where
  open P use {Tree, empty, children, add_child, get_child?}

  -- `for (…) { ptree child = item.convert_to_ptree(); array.push_back(…); }`
  array_loop : {A : Type 0} → (A → Tree) → List A → Tree → Tree
  array_loop convert [] array = array
  array_loop convert (x ∷ xs) array = array_loop convert xs (push_back (convert x) array)

  table_fields : Table → Tree
  table_fields t =
      put_int Key.number_of_tuples t.number_of_tuples (class_object_to_ptree t.class_object)

  unfoldable pub table_to_ptree : Table → Tree
  unfolding array_loop table_fields
  table_to_ptree t =
      add_child Key.constraints (array_loop constraint_to_ptree t.constraints empty)
        (add_child Key.columns (array_loop column_to_ptree t.columns empty) (table_fields t))

  convert_all : {A : Type 0} → (Tree → Outcome A) → List (String × Tree) → Outcome (List A)
  convert_all convert [] = ok []
  convert_all convert ((_, c) ∷ l) = do x ← convert c; xs ← convert_all convert l; ok (x ∷ xs)

  -- `get_child` throws where the child is absent.
  array_from : {A : Type 0} → (Tree → Outcome A) → Option Tree → Outcome (List A)
  array_from convert none = thrown
  array_from convert (some c) = convert_all convert (children c)

  -- The conversion writes into `target`, and leaves its `indexes` as they are.
  unfoldable pub table_from_ptree : Tree → Table → Outcome Table
  unfolding array_from convert_all
  table_from_ptree pt target = do
    cs ← array_from column_from_ptree (get_child? Key.columns pt)
    ks ← array_from constraint_from_ptree (get_child? Key.constraints pt)
    ok (record {
      class_object = class_object_from_ptree pt;
      number_of_tuples = value_or invalid_value (get_int? Key.number_of_tuples pt);
      columns = cs;
      indexes = target.indexes;
      constraints = ks;
    })
