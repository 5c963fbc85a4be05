-- ===== src/Provider/Keeps.antt =====
-- The operations of `MetadataProvider` keep what the DAOs of its session keep (src/provider/metadata_provider.cpp).
use metadata_manager.Prelude.{ℕ, ℤ, String, List, [], ◌∷◌, Option, none, some, length, ◌==◌}
use metadata_manager.Key.{Key}
use metadata_manager.Platform.{Platform}
use metadata_manager.Outcome.{ok}
use metadata_manager.Action.{Action, ◌>>=◌}
use metadata_manager.Ptree.{put, size}
use metadata_manager.Ptree.Helper.{Keys}
use metadata_manager.Keeping.{Keeps, Gives, Gives-bind, Keeps-lift, Keeps-bind, Keeps-if}
use metadata_manager.Dao.{Dao}
use metadata_manager.Provider.{Daos, DbSessionManager, init, find_key}
use metadata_manager.Provider.Add.{
  items, insert_items, front_or_invalid, add_table_metadata, add_column_metadata,
  add_index_metadata, add_column_statistic, add_constraint_metadata,
}
use metadata_manager.Provider.Get.{
  found_or_error, get_table_metadata, get_column_metadata, get_index_metadata,
  get_constraint_metadata, get_datatype_metadata,
}
use metadata_manager.Provider.Change.{
  rows_or_error, ids_or_error, replace_items, update_table_metadata, update_column_metadata,
  update_index_metadata, update_constraint_metadata, remove_table_metadata, remove_column_metadata,
  remove_index_metadata, remove_constraint_metadata, remove_column_statistics,
}

module _ ⦃P : Platform⦄ where
  open P use {Tree, erase}

  pub record KeepsDao {S : Type 0} (Inv : S → Type 0) (dao : Dao S) : Type 0 where
    pub insert : (object : Tree) (object_id : ℤ) → Keeps Inv (dao.insert object object_id)
    pub select : (keys : Keys) (object : Tree) → Keeps Inv (dao.select keys object)
    pub update : (keys : Keys) (object : Tree) → Keeps Inv (dao.update keys object)
    pub remove : (keys : Keys) → Keeps Inv (dao.remove keys)

  -- the DAOs that the changes use
  pub record KeepsDaos {S : Type 0} (Inv : S → Type 0) (daos : Daos S) : Type 0 where
    pub table_dao : KeepsDao Inv daos.table_dao
    pub column_dao : KeepsDao Inv daos.column_dao
    pub index_dao : KeepsDao Inv daos.index_dao
    pub constraint_dao : KeepsDao Inv daos.constraint_dao
    pub statistic_dao : KeepsDao Inv daos.statistic_dao
    pub datatype_dao : KeepsDao Inv daos.datatype_dao

  -- What a session manager promises of the state between the start and the end of a transaction.
  pub record KeepsSession {S : Type 0} (Inv : S → Type 0) (session : DbSessionManager S)
      : Type 0 where
    pub init_daos : Gives Inv (KeepsDaos Inv) (init session)

  module _ {S : Type 0} {Inv : S → Type 0} (session : DbSessionManager S)
      (kept : KeepsSession Inv session) where
    -- what follows `init` works with DAOs that keep the predicate
    Keeps-init :
        {A : Type 0} (f : Daos S → Action S A)
        → ((daos : Daos S) → KeepsDaos Inv daos → Keeps Inv (f daos))
        → Keeps Inv (init session >>= f)
    Keeps-init f hf = Gives-bind (KeepsDaos Inv) kept.init_daos hf

    Keeps-found_or_error :
        (keys : Keys) (object : Tree) → Keeps Inv (found_or_error session keys object)
    unfolding found_or_error
    Keeps-found_or_error keys object = Keeps-if (size object == 0) (Keeps-lift _) (Keeps-lift _)

    Keeps-rows_or_error : (keys : Keys) (rows : ℕ) → Keeps Inv (rows_or_error session keys rows)
    unfolding rows_or_error
    Keeps-rows_or_error keys rows = Keeps-if (rows == 0) (Keeps-lift _) (Keeps-lift _)

    Keeps-ids_or_error : (keys : Keys) (ids : List ℤ) → Keeps Inv (ids_or_error session keys ids)
    unfolding ids_or_error
    Keeps-ids_or_error keys [] = Keeps-lift _
    Keeps-ids_or_error keys (removed ∷ ids) = Keeps-lift _

    Keeps-insert_items :
        (dao : Dao S) (prepare : Tree → Tree) (rows : List (String × Tree))
        → KeepsDao Inv dao
        → Keeps Inv (insert_items dao prepare rows)
    unfolding insert_items
    Keeps-insert_items dao prepare [] h = Keeps-lift _
    Keeps-insert_items dao prepare ((n, item) ∷ rest) h =
        Keeps-bind (h.insert _ _)
          (λ temp_oid. Keeps-bind (Keeps-insert_items dao prepare rest h) (λ oids. Keeps-lift _))

    Keeps-replace_items :
        (dao : Dao S) (keys : Keys) (table_id : Option String) (object : Tree)
        → KeepsDao Inv dao
        → Keeps Inv (replace_items session dao keys table_id object)
    unfolding replace_items
    Keeps-replace_items dao keys none object h = Keeps-lift _
    Keeps-replace_items dao keys (some table_id) object h =
        Keeps-bind (h.remove keys) (λ removed_ids.
          Keeps-bind (Keeps-insert_items dao (put Key.table_id table_id) (items object) h)
            (λ oids. Keeps-lift (ok (length (items object)))))

    pub Keeps-add_table_metadata : (object : Tree) → Keeps Inv (add_table_metadata session object)
    unfolding add_table_metadata
    Keeps-add_table_metadata object = Keeps-init _ (λ daos d. d.table_dao.insert object _)

    pub Keeps-add_column_metadata : (object : Tree) → Keeps Inv (add_column_metadata session object)
    unfolding add_column_metadata
    Keeps-add_column_metadata object = Keeps-init _ (λ daos d.
        Keeps-bind (Keeps-insert_items daos.column_dao (erase Key.id) (items object) d.column_dao)
          (λ oids. Keeps-lift (ok (front_or_invalid oids))))

    pub Keeps-add_constraint_metadata :
        (object : Tree) → Keeps Inv (add_constraint_metadata session object)
    unfolding add_constraint_metadata
    Keeps-add_constraint_metadata object = Keeps-init _ (λ daos d.
        Keeps-bind
          (Keeps-insert_items daos.constraint_dao (erase Key.id) (items object) d.constraint_dao)
          (λ oids. Keeps-lift (ok (front_or_invalid oids))))

    pub Keeps-add_index_metadata : (object : Tree) → Keeps Inv (add_index_metadata session object)
    unfolding add_index_metadata
    Keeps-add_index_metadata object = Keeps-init _ (λ daos d. d.index_dao.insert object _)

    pub Keeps-add_column_statistic :
        (object : Tree) → Keeps Inv (add_column_statistic session object)
    unfolding add_column_statistic
    Keeps-add_column_statistic object = Keeps-init _ (λ daos d. d.statistic_dao.insert object _)

    pub Keeps-get_table_metadata :
        (keys : Keys) (object : Tree) → Keeps Inv (get_table_metadata session keys object)
    unfolding get_table_metadata
    Keeps-get_table_metadata keys object =
        Keeps-init _
          (λ daos d. Keeps-bind (d.table_dao.select keys object) (Keeps-found_or_error keys))

    pub Keeps-get_column_metadata :
        (keys : Keys) (object : Tree) → Keeps Inv (get_column_metadata session keys object)
    unfolding get_column_metadata
    Keeps-get_column_metadata keys object =
        Keeps-init _
          (λ daos d. Keeps-bind (d.column_dao.select keys object) (Keeps-found_or_error keys))

    pub Keeps-get_index_metadata :
        (keys : Keys) (object : Tree) → Keeps Inv (get_index_metadata session keys object)
    unfolding get_index_metadata
    Keeps-get_index_metadata keys object =
        Keeps-init _
          (λ daos d. Keeps-bind (d.index_dao.select keys object) (Keeps-found_or_error keys))

    pub Keeps-get_constraint_metadata :
        (keys : Keys) (object : Tree) → Keeps Inv (get_constraint_metadata session keys object)
    unfolding get_constraint_metadata
    Keeps-get_constraint_metadata keys object =
        Keeps-init _
          (λ daos d. Keeps-bind (d.constraint_dao.select keys object) (Keeps-found_or_error keys))

    pub Keeps-get_datatype_metadata :
        (keys : Keys) (object : Tree) → Keeps Inv (get_datatype_metadata session keys object)
    unfolding get_datatype_metadata
    Keeps-get_datatype_metadata keys object =
        Keeps-init _
          (λ daos d. Keeps-bind (d.datatype_dao.select keys object) (Keeps-found_or_error keys))

    pub Keeps-update_table_metadata :
        (keys : Keys) (object : Tree) → Keeps Inv (update_table_metadata session keys object)
    unfolding update_table_metadata
    Keeps-update_table_metadata keys object =
        Keeps-init _
          (λ daos d. Keeps-bind (d.table_dao.update keys object) (Keeps-rows_or_error keys))

    pub Keeps-update_index_metadata :
        (keys : Keys) (object : Tree) → Keeps Inv (update_index_metadata session keys object)
    unfolding update_index_metadata
    Keeps-update_index_metadata keys object =
        Keeps-init _
          (λ daos d. Keeps-bind (d.index_dao.update keys object) (Keeps-rows_or_error keys))

    pub Keeps-update_column_metadata :
        (keys : Keys) (object : Tree) → Keeps Inv (update_column_metadata session keys object)
    unfolding update_column_metadata
    Keeps-update_column_metadata keys object = Keeps-init _ (λ daos d.
        Keeps-replace_items daos.column_dao keys (find_key Key.table_id keys) object d.column_dao)

    pub Keeps-update_constraint_metadata :
        (keys : Keys) (object : Tree) → Keeps Inv (update_constraint_metadata session keys object)
    unfolding update_constraint_metadata
    Keeps-update_constraint_metadata keys object = Keeps-init _ (λ daos d.
        Keeps-replace_items daos.constraint_dao keys (find_key Key.table_id keys) object
          d.constraint_dao)

    pub Keeps-remove_table_metadata : (keys : Keys) → Keeps Inv (remove_table_metadata session keys)
    unfolding remove_table_metadata
    Keeps-remove_table_metadata keys =
        Keeps-init _ (λ daos d. Keeps-bind (d.table_dao.remove keys) (Keeps-ids_or_error keys))

    pub Keeps-remove_column_metadata :
        (keys : Keys) → Keeps Inv (remove_column_metadata session keys)
    unfolding remove_column_metadata
    Keeps-remove_column_metadata keys =
        Keeps-init _ (λ daos d. Keeps-bind (d.column_dao.remove keys) (Keeps-ids_or_error keys))

    pub Keeps-remove_index_metadata : (keys : Keys) → Keeps Inv (remove_index_metadata session keys)
    unfolding remove_index_metadata
    Keeps-remove_index_metadata keys =
        Keeps-init _ (λ daos d. Keeps-bind (d.index_dao.remove keys) (Keeps-ids_or_error keys))

    pub Keeps-remove_constraint_metadata :
        (keys : Keys) → Keeps Inv (remove_constraint_metadata session keys)
    unfolding remove_constraint_metadata
    Keeps-remove_constraint_metadata keys =
        Keeps-init _ (λ daos d. Keeps-bind (d.constraint_dao.remove keys) (Keeps-ids_or_error keys))

    pub Keeps-remove_column_statistics :
        (keys : Keys) → Keeps Inv (remove_column_statistics session keys)
    unfolding remove_column_statistics
    Keeps-remove_column_statistics keys =
        Keeps-init _ (λ daos d. Keeps-bind (d.statistic_dao.remove keys) (Keeps-ids_or_error keys))
