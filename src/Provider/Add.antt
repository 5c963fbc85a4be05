-- ===== src/Provider/Add.antt =====
-- The operations of `MetadataProvider` that add objects (src/provider/metadata_provider.cpp).
use metadata_manager.Prelude.{ℤ, negsuc, String, List, [], ◌∷◌, if◌then◌else◌}
use metadata_manager.Key.{Key}
use metadata_manager.Platform.{Platform}
use metadata_manager.Action.{Action, pure, ◌>>=◌}
use metadata_manager.Ptree.Helper.{is_array}
use metadata_manager.Dao.{Dao}
use metadata_manager.Provider.{DbSessionManager, init}

module _ ⦃P : Platform⦄ where
  open P use {Tree, children, erase}

  -- the items of an array, or the one object that is no array
  unfoldable pub items : Tree → List (String × Tree)
  items object = if is_array object then children object else ("", object) ∷ []

  -- the loop over the items, aborted by an error, with the identifiers returned
  unfoldable pub insert_items :
      {S : Type 0} → Dao S → (Tree → Tree) → List (String × Tree) → Action S (List ℤ)
  unfolding ◌>>=◌
  insert_items dao prepare [] = pure []
  insert_items dao prepare ((_, item) ∷ rest) = do
    temp_oid ← dao.insert (prepare item) (negsuc 0)
    oids ← insert_items dao prepare rest
    pure (temp_oid ∷ oids)

  abbrev pub front_or_invalid : List ℤ → ℤ
  front_or_invalid [] = negsuc 0
  front_or_invalid (oid ∷ _) = oid

  module _ {S : Type 0} (session : DbSessionManager S) where
    unfoldable pub add_table_metadata : Tree → Action S ℤ
    unfolding init ◌>>=◌
    add_table_metadata object = do daos ← init session; daos.table_dao.insert object (negsuc 0)

    unfoldable pub add_column_metadata : Tree → Action S ℤ
    unfolding init items insert_items ◌>>=◌
    add_column_metadata object = do
      daos ← init session
      added_oids ← insert_items daos.column_dao (erase Key.id) (items object)
      pure (front_or_invalid added_oids)

    unfoldable pub add_index_metadata : Tree → Action S ℤ
    unfolding init ◌>>=◌
    add_index_metadata object = do daos ← init session; daos.index_dao.insert object (negsuc 0)

    unfoldable pub add_constraint_metadata : Tree → Action S ℤ
    unfolding init items insert_items ◌>>=◌
    add_constraint_metadata object = do
      daos ← init session
      added_oids ← insert_items daos.constraint_dao (erase Key.id) (items object)
      pure (front_or_invalid added_oids)

    unfoldable pub add_column_statistic : Tree → Action S ℤ
    unfolding init ◌>>=◌
    add_column_statistic object = do
      daos ← init session
      daos.statistic_dao.insert object (negsuc 0)
