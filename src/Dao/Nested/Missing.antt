-- ===== src/Dao/Nested/Missing.antt =====
-- Columns and constraints of a table that does not exist (`insert` of
-- src/dao/json/columns_dao_json.cpp and src/dao/json/constraints_dao_json.cpp).
use metadata_manager.Prelude.{ℤ, some, ◌≡◌, refl, All, arith}
use metadata_manager.Key.{Key}
use metadata_manager.Platform.{Platform}
use metadata_manager.Outcome.{ok}
use metadata_manager.Action.{continue, ◌>>=◌}
use metadata_manager.Ptree.Helper.{int_value_to_string}
use metadata_manager.Session.{World, load_contents}
use metadata_manager.Dao.{get_child}
use metadata_manager.Dao.Tables.{tables_database}
use metadata_manager.Dao.Nested.Items.{HasOtherId, change_none}
use metadata_manager.Dao.Columns
use metadata_manager.Dao.Constraints

module _ ⦃P : Platform⦄ where
  open P use {Tree, children, get_child?}

  get_child_lem : (k : Key) (t c : Tree) → get_child? k t ≡ some c → get_child k t ≡ ok c
  unfolding get_child
  get_child_lem k t c e = ground arith

  -- Where the tables can be loaded and none has the table identifier of the object, the insertion
  -- of a column and that of a constraint report success, return the identifier that they were
  -- given and add nothing.
  pub insert_missing :
      (object : Tree) (object_id : ℤ) (w w' : World) (contents node : Tree)
      → load_contents tables_database Key.tables w ≡ (ok contents, w')
      → get_child? Key.tables contents ≡ some node
      → All (HasOtherId (int_value_to_string Key.table_id object)) (children node)
      → (Columns.insert object object_id w ≡ (ok object_id, w'))
        × (Constraints.insert object object_id w ≡ (ok object_id, w'))
  unfolding Columns.insert Constraints.insert ◌>>=◌
  insert_missing object object_id w w' contents node loaded root others =
      let missing =
        change_none (int_value_to_string Key.table_id object) (λ table. table) (children node)
          others in
      (
        rw (loaded, continue)
            (rw (get_child_lem Key.tables contents node root, continue) (rw missing refl)),
        rw (loaded, continue)
            (rw (get_child_lem Key.tables contents node root, continue) (rw missing refl)),
      )
