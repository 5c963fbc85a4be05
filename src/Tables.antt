-- ===== src/Tables.antt =====
-- The class `Tables` of src/tables.cpp, without its access control lists. A result
-- that an out parameter holds is returned; a null pointer for it drops the result.
pub mod Check
pub mod Related
pub mod Keeps
pub mod Atomic
pub mod Statistic
pub mod Permission
use metadata_manager.Prelude.{
  ℤ, String, to_string, Bool, true, false, none, some, List, [], ◌∷◌, str_eq, is_positive,
  if◌then◌else◌,
}
use metadata_manager.Key.{Key}
use metadata_manager.Platform.{Platform}
use metadata_manager.ErrorCode.{ErrorCode, id_not_found, name_not_found, result_multiple_rows}
use metadata_manager.Outcome.{undefined}
use metadata_manager.Action.{Action, pure, fail, lift, recover, ◌>>=◌, ◌>>◌}
use metadata_manager.Ptree.{put_int}
use metadata_manager.Ptree.Helper.{array_to_vector, Keys}
use metadata_manager.Provider.{DbSessionManager, transaction, is_no_rows}
use metadata_manager.Provider.Add.{add_table_metadata, add_column_metadata, add_constraint_metadata}
use metadata_manager.Provider.Get.{get_table_metadata, only_row}
use metadata_manager.Provider.Change.{update_table_metadata, remove_table_metadata}
use metadata_manager.Tables.Check.{param_check_metadata_add}
use metadata_manager.Tables.Related.{
  get_related_metadata, update_related_metadata, remove_related_metadata,
}

module _ ⦃P : Platform⦄ {S : Type 0} (session : DbSessionManager S) where
  open P use {Tree, empty, children, set_children, get_child?}

  -- `item.second.put(TABLE_ID, added_oid)` for every item of a node
  unfoldable pub put_table_id : ℤ → List (String × Tree) → List (String × Tree)
  put_table_id added_oid [] = []
  put_table_id added_oid ((n, item) ∷ rest) =
      (n, put_int Key.table_id added_oid item) ∷ put_table_id added_oid rest

  unfoldable pub with_table_id : ℤ → Tree → Tree
  unfolding put_table_id
  with_table_id added_oid node = set_children (put_table_id added_oid (children node)) node

  -- the columns or the constraints of a table that was added, if the object has such a node
  unfoldable pub add_node : Key → (Tree → Action S ℤ) → ℤ → Tree → Action S (Unit {0})
  unfolding with_table_id ◌>>=◌
  add_node node add_items added_oid object = elim (get_child? node object) [
    | none ↦ pure tt
    | some found ↦ do add_items (with_table_id added_oid found); pure tt
  ]

  unfoldable pub add_body : Tree → Action S ℤ
  unfolding add_table_metadata add_column_metadata add_constraint_metadata add_node ◌>>=◌
  add_body object = do
    added_oid ← add_table_metadata session object
    add_node Key.columns (add_column_metadata session) added_oid object
    add_node Key.constraints (add_constraint_metadata session) added_oid object
    pure added_oid

  unfoldable pub add : Tree → Action S ℤ
  unfolding param_check_metadata_add add_body transaction ◌>>=◌
  add object = do param_check_metadata_add session object; transaction session (add_body object)

  -- the one row that was retrieved, with its related metadata
  unfoldable pub single_row : Tree → Action S Tree
  unfolding only_row get_related_metadata ◌>>=◌
  single_row tmp_object = do
    object ← only_row session tmp_object
    get_related_metadata session object

  unfoldable pub get_by_id : ℤ → Action S Tree
  unfolding get_table_metadata single_row ◌>>=◌
  get_by_id object_id =
      if is_positive object_id
      then (do
        tmp_object ← get_table_metadata session ((Key.id, to_string object_id) ∷ []) empty
        single_row tmp_object)
      else fail id_not_found

  unfoldable pub get_by_name : String → Action S Tree
  unfolding get_table_metadata single_row ◌>>=◌
  get_by_name object_name = if str_eq object_name "" then fail name_not_found else do
    tmp_object ← get_table_metadata session ((Key.name, object_name) ∷ []) empty
    single_row tmp_object

  -- the loop of `get_all` over the tables, which are changed in place
  unfoldable pub relate_all : List (String × Tree) → Action S (List (String × Tree))
  unfolding get_related_metadata ◌>>=◌
  relate_all [] = pure []
  relate_all ((n, table) ∷ rest) = do
    related ← get_related_metadata session table
    others ← relate_all rest
    pure ((n, related) ∷ others)

  -- `objects` is what the vector held, which stays where there is no table.
  unfoldable pub get_all : List Tree → Action S (List Tree)
  unfolding get_table_metadata relate_all array_to_vector ◌>>=◌
  get_all objects = recover is_no_rows objects (do
    tables ← get_table_metadata session [] empty
    related ← relate_all (children tables)
    pure (array_to_vector (set_children related tables)))

  unfoldable pub update_body : ℤ → Tree → Action S (Unit {0})
  unfolding update_table_metadata update_related_metadata ◌>>=◌
  update_body object_id object = do
    update_table_metadata session ((Key.id, to_string object_id) ∷ []) object
    update_related_metadata session object_id object

  unfoldable pub update : ℤ → Tree → Action S (Unit {0})
  unfolding param_check_metadata_add update_body transaction ◌>>=◌
  update object_id object =
      if is_positive object_id
      then (do
        param_check_metadata_add session object
        transaction session (update_body object_id object))
      else fail id_not_found

  unfoldable pub remove_body : ℤ → Action S (Unit {0})
  unfolding remove_table_metadata remove_related_metadata ◌>>=◌
  remove_body object_id = do
    remove_table_metadata session ((Key.id, to_string object_id) ∷ [])
    remove_related_metadata session object_id

  unfoldable pub remove_by_id : ℤ → Action S (Unit {0})
  unfolding remove_body transaction
  remove_by_id object_id =
      if is_positive object_id
      then transaction session (remove_body object_id)
      else fail id_not_found

  -- The provider reports an empty vector as an error, so `front` is defined.
  unfoldable pub front : List ℤ → Action S ℤ
  front [] = lift undefined
  front (removed ∷ _) = pure removed

  unfoldable pub remove_name_body : String → Action S ℤ
  unfolding remove_table_metadata remove_related_metadata front ◌>>=◌
  remove_name_body object_name = do
    removed_ids ← remove_table_metadata session ((Key.name, object_name) ∷ [])
    removed ← front removed_ids
    remove_related_metadata session removed
    pure removed

  unfoldable pub remove_by_name : String → Action S ℤ
  unfolding remove_name_body transaction
  remove_by_name object_name =
      if str_eq object_name ""
      then fail name_not_found
      else transaction session (remove_name_body object_name)
