-- ===== src/Tables/Keeps.antt =====
-- What the member functions of `Tables` do before and inside of a transaction keeps what the DAOs of the
-- session keep (src/tables.cpp).
use metadata_manager.Prelude.{
  ℤ, String, Option, none, some, List, [], ◌∷◌, Bool, true, false, ltb_ℤ, pos, ◌==◌,
}
use metadata_manager.Key.{Key}
use metadata_manager.Platform.{Platform}
use metadata_manager.Outcome.{ok, undefined}
use metadata_manager.Action.{Action}
use metadata_manager.Ptree.{size}
use metadata_manager.Keeping.{Keeps, Keeps-lift, Keeps-bind, Keeps-if, Keeps-option, Keeps-recover}
use metadata_manager.Provider.{DbSessionManager, is_not_found}
use metadata_manager.Provider.Keeps.{
  KeepsSession, Keeps-add_table_metadata, Keeps-add_column_metadata, Keeps-add_constraint_metadata,
  Keeps-get_datatype_metadata, Keeps-update_table_metadata, Keeps-update_column_metadata,
  Keeps-update_constraint_metadata, Keeps-remove_table_metadata, Keeps-remove_column_metadata,
  Keeps-remove_index_metadata, Keeps-remove_constraint_metadata, Keeps-remove_column_statistics,
}
use metadata_manager.Provider.Add.{add_column_metadata, add_constraint_metadata}
use metadata_manager.Tables.{
  add_node, with_table_id, add_body, update_body, remove_body, front, remove_name_body,
}
use metadata_manager.Tables.Check.{
  require, check_data_type, check_column, check_columns, param_check_metadata_add,
}
use metadata_manager.Tables.Related.{
  update_columns, update_constraints, update_related_metadata, remove_related_metadata,
}

module _ ⦃P : Platform⦄ where
  open P use {Tree, get_child?}

  module _ {S : Type 0} {Inv : S → Type 0} (session : DbSessionManager S)
      (kept : KeepsSession Inv session) where
    Keeps-require : (b : Bool) → Keeps Inv (require session b)
    Keeps-require true = Keeps-lift _
    Keeps-require false = Keeps-lift _

    Keeps-check_data_type : (v : Option ℤ) → Keeps Inv (check_data_type session v)
    unfolding check_data_type
    Keeps-check_data_type none = Keeps-lift _
    Keeps-check_data_type (some v) = Keeps-if (ltb_ℤ v (pos 0)) (Keeps-lift _) (
        Keeps-bind (Keeps-get_datatype_metadata session kept _ _)
          (λ found. Keeps-if (size found == 0) (Keeps-lift _) (Keeps-lift _)))

    Keeps-check_column : (column : Tree) → Keeps Inv (check_column session column)
    unfolding check_column
    Keeps-check_column column = search (Keeps-bind, Keeps-require, Keeps-check_data_type) depth 12

    Keeps-check_columns : (rows : List (String × Tree)) → Keeps Inv (check_columns session rows)
    unfolding check_columns
    Keeps-check_columns [] = Keeps-lift _
    Keeps-check_columns ((n, column) ∷ rest) =
        Keeps-bind (Keeps-check_column column) (λ _. Keeps-check_columns rest)

    pub Keeps-param_check_metadata_add :
        (object : Tree) → Keeps Inv (param_check_metadata_add session object)
    unfolding param_check_metadata_add
    Keeps-param_check_metadata_add object =
        search (Keeps-bind, Keeps-require, Keeps-lift, Keeps-check_columns) depth 12

    Keeps-add_node :
        (node : Key) (add_items : Tree → Action S ℤ) (added_oid : ℤ) (object : Tree)
        → ((items : Tree) → Keeps Inv (add_items items))
        → Keeps Inv (add_node session node add_items added_oid object)
    unfolding add_node
    Keeps-add_node node add_items added_oid object h =
        Keeps-option (get_child? node object) (Keeps-lift _)
          (λ found. Keeps-bind (h (with_table_id session added_oid found)) (λ _. Keeps-lift _))

    pub Keeps-add_body : (object : Tree) → Keeps Inv (add_body session object)
    unfolding add_body
    Keeps-add_body object = Keeps-bind (Keeps-add_table_metadata session kept object) (λ added_oid.
        Keeps-bind
          (Keeps-add_node Key.columns (add_column_metadata session) added_oid object
            (Keeps-add_column_metadata session kept))
          (λ _.
            Keeps-bind
              (Keeps-add_node Key.constraints (add_constraint_metadata session) added_oid object
                (Keeps-add_constraint_metadata session kept))
              (λ _. Keeps-lift (ok added_oid))))

    Keeps-update_columns :
        (table_id : String) (object : Tree) → Keeps Inv (update_columns session table_id object)
    unfolding update_columns
    Keeps-update_columns table_id object =
        Keeps-option (get_child? Key.columns object) (Keeps-lift _) (λ node.
          Keeps-bind
            (Keeps-update_column_metadata session kept ((Key.table_id, table_id) ∷ []) node)
            (λ _. Keeps-lift (ok tt)))

    Keeps-update_constraints :
        (table_id : String) (object : Tree) → Keeps Inv (update_constraints session table_id object)
    unfolding update_constraints
    Keeps-update_constraints table_id object =
        Keeps-option (get_child? Key.constraints object) (Keeps-lift _) (λ node.
          Keeps-bind
            (Keeps-update_constraint_metadata session kept ((Key.table_id, table_id) ∷ []) node)
            (λ _. Keeps-lift (ok tt)))

    pub Keeps-update_body :
        (object_id : ℤ) (object : Tree) → Keeps Inv (update_body session object_id object)
    unfolding update_body update_related_metadata
    Keeps-update_body object_id object =
        search
          (Keeps-bind, Keeps-update_table_metadata, Keeps-update_columns, Keeps-update_constraints)
          depth 12

    Keeps-remove_related_metadata :
        (object_id : ℤ) → Keeps Inv (remove_related_metadata session object_id)
    unfolding remove_related_metadata
    Keeps-remove_related_metadata object_id =
        Keeps-bind (Keeps-recover is_not_found [] (Keeps-remove_column_metadata session kept _))
          (λ _.
            Keeps-bind (Keeps-recover is_not_found [] (Keeps-remove_index_metadata session kept _))
              (λ _.
                Keeps-bind
                  (Keeps-recover is_not_found [] (Keeps-remove_constraint_metadata session kept _))
                  (λ _.
                    Keeps-bind
                      (Keeps-recover is_not_found []
                        (Keeps-remove_column_statistics session kept _))
                      (λ _. Keeps-lift _))))

    pub Keeps-remove_body : (object_id : ℤ) → Keeps Inv (remove_body session object_id)
    unfolding remove_body
    Keeps-remove_body object_id =
        Keeps-bind (Keeps-remove_table_metadata session kept _)
          (λ _. Keeps-remove_related_metadata object_id)

    Keeps-front : (ids : List ℤ) → Keeps Inv (front session ids)
    unfolding front
    Keeps-front [] = Keeps-lift undefined
    Keeps-front (removed ∷ ids) = Keeps-lift (ok removed)

    pub Keeps-remove_name_body :
        (object_name : String) → Keeps Inv (remove_name_body session object_name)
    unfolding remove_name_body
    Keeps-remove_name_body object_name =
        Keeps-bind (Keeps-remove_table_metadata session kept _) (λ ids.
          Keeps-bind (Keeps-front ids) (λ removed.
            Keeps-bind (Keeps-remove_related_metadata removed) (λ _. Keeps-lift (ok removed))))
