-- ===== src/Dao/Tables/Insertion.antt =====
-- What `TablesDaoJson::select` returns and `insert` adds (src/dao/json/tables_dao_json.cpp).
use metadata_manager.Prelude.{
  ℤ, String, Bool, true, false, some, none, List, [], ◌∷◌, ◌++◌, length, leb, ◌≡◌, refl, ◌∙◌, arith,
}
use metadata_manager.Key.{Key}
use metadata_manager.Platform.{Platform}
use metadata_manager.ErrorCode.{already_exists}
use metadata_manager.Outcome.{Outcome, ok, err}
use metadata_manager.Action.{continue, ◌>>=◌}
use metadata_manager.Ptree.{get_string?, size, push_back, children-push_back}
use metadata_manager.Ptree.Helper.{Keys}
use metadata_manager.ObjectId
use metadata_manager.Session.{World, load_contents, set_contents}
use metadata_manager.Session.Cache.{load-load, load-set_contents}
use metadata_manager.Dao.{exists, has_rows, get_child, generate_oid}
use metadata_manager.Dao.Rows.{Rows, find_loop, matching, children-find_loop}
use metadata_manager.Dao.Tables.{
  tables_database, find_metadata_object, select, insert, new_row, append_row,
}

module _ ⦃P : Platform⦄ where
  open P use {Tree, empty, children, get_child?, put_child}

  select_ok :
      (keys : Keys) (object : Tree) (w w' : World) (contents node : Tree)
      → load_contents tables_database Key.tables w ≡ (ok contents, w')
      → get_child? Key.tables contents ≡ some node
      → select keys object w ≡ (ok (find_loop keys (children node) empty), w')
  unfolding select find_metadata_object get_child ◌>>=◌
  select_ok keys object w w' contents node loaded root = ground arith

  -- Where the tables can be loaded, a selection returns the rows that match the keys, in their
  -- order.
  pub select_lem :
      (keys : Keys) (object : Tree) (w w' : World) (contents node : Tree)
      → load_contents tables_database Key.tables w ≡ (ok contents, w')
      → get_child? Key.tables contents ≡ some node
      → (found : Tree) × (select keys object w ≡ (ok found, w'))
        × (children found ≡ matching keys (children node))
  select_lem keys object w w' contents node loaded root = (
    find_loop keys (children node) empty,
    select_ok keys object w w' contents node loaded root,
    simp (children-find_loop, P.children-empty),
  )

  has_any : {A : Type 0} → List A → Bool
  has_any [] = false
  has_any (x ∷ xs) = true

  any_lem : {A : Type 0} (l : List A) → leb 1 (length l) ≡ has_any l
  unfolding has_any
  any_lem [] = refl
  any_lem (x ∷ xs) = ground arith

  size-find_loop :
      (keys : Keys) (rows : Rows Tree)
      → leb 1 (size (find_loop keys rows empty)) ≡ has_any (matching keys rows)
  unfolding size
  size-find_loop keys rows =
      simp (children-find_loop, P.children-empty) (any_lem (matching keys rows))

  exists_lem :
      (object : Tree) (name_value : String) (w w' : World) (contents node : Tree)
      → load_contents tables_database Key.tables w ≡ (ok contents, w')
      → get_child? Key.tables contents ≡ some node
      → get_string? Key.name object ≡ some name_value
      → exists (λ keys. select keys empty) object w
        ≡ (ok (has_any (matching ((Key.name, name_value) ∷ []) (children node))), w')
  unfolding exists has_rows
  exists_lem object name_value w w' contents node loaded root named = ground (
    arith,
    select_ok ((Key.name, name_value) ∷ []) empty w w' contents node loaded root,
    size-find_loop ((Key.name, name_value) ∷ []) (children node),
  )

  -- Where the tables can be loaded, an object whose name a row has already is refused, and the
  -- state is that after the load.
  pub insert_duplicate :
      (object : Tree) (object_id : ℤ) (name_value : String) (w w' : World)
      (contents node first : Tree) (n : String) (rest : Rows Tree)
      → load_contents tables_database Key.tables w ≡ (ok contents, w')
      → get_child? Key.tables contents ≡ some node
      → get_string? Key.name object ≡ some name_value
      → matching ((Key.name, name_value) ∷ []) (children node) ≡ (n, first) ∷ rest
      → insert object object_id w ≡ (err already_exists, w')
  unfolding insert has_any ◌>>=◌
  insert_duplicate object object_id name_value w w' contents node first n rest loaded root named
        same =
      rw (exists_lem object name_value w w' contents node loaded root named) (rw same refl)

  -- the rows that the next load of the tables gives
  abbrev pub stored_rows : Outcome Tree → Rows Tree
  stored_rows (ok t) = elim (get_child? Key.tables t) [ some node ↦ children node | none ↦ [] ]
  stored_rows _ = []

  inserted : Tree → World → Tree → Tree → Outcome ℤ × World
  inserted object w' contents node =
      let (added, f) = ObjectId.generate Key.global w'.oids in
      (
        ok added,
        (set_contents tables_database
            (put_child Key.tables (push_back (new_row added object) node) contents)
            (record w' { oids = f })).1,
      )

  append_row_lem :
      (row contents node : Tree)
      → get_child? Key.tables contents ≡ some node
      → append_row row contents ≡ ok (put_child Key.tables (push_back row node) contents)
  unfolding append_row get_child
  append_row_lem row contents node root = ground arith

  pub rows_lem :
      (t node : Tree) → get_child? Key.tables t ≡ some node → stored_rows (ok t) ≡ children node
  rows_lem t node root = ground arith

  insert_ok :
      (object : Tree) (object_id : ℤ) (name_value : String) (w w' : World) (contents node : Tree)
      → w.locking ≡ true
      → load_contents tables_database Key.tables w ≡ (ok contents, w')
      → get_child? Key.tables contents ≡ some node
      → get_string? Key.name object ≡ some name_value
      → matching ((Key.name, name_value) ∷ []) (children node) ≡ []
      → insert object object_id w ≡ inserted object w' contents node
  unfolding insert has_any generate_oid inserted set_contents ◌>>=◌
  insert_ok object object_id name_value w w' contents node locked loaded root named fresh =
      rw (exists_lem object name_value w w' contents node loaded root named) (
        rw fresh (
          rw (load-load tables_database Key.tables contents w w' locked loaded) (
            rw
              (
                append_row_lem (new_row (ObjectId.generate Key.global w'.oids).0 object) contents
                    node root,
                continue,
              )
              refl)))

  stored_lem :
      (object : Tree) (w' : World) (contents node : Tree)
      → stored_rows
          (load_contents tables_database Key.tables (inserted object w' contents node).1).0
        ≡ children node ++ ("", new_row (ObjectId.generate Key.global w'.oids).0 object) ∷ []
  unfolding inserted
  stored_lem object w' contents node = rw (load-set_contents tables_database Key.tables _ _) (
      rows_lem _ (push_back (new_row (ObjectId.generate Key.global w'.oids).0 object) node)
        (simp (P.get_child?-put_child))
      ∙ simp (children-push_back))

  -- In a transaction in which the tables can be loaded, the insertion of an object with a name
  -- that no row has returns the identifier that the generator gives, and the next load gives the
  -- rows with the completed object behind them.
  pub insert_lem :
      (object : Tree) (object_id : ℤ) (name_value : String) (w w' : World) (contents node : Tree)
      → w.locking ≡ true
      → load_contents tables_database Key.tables w ≡ (ok contents, w')
      → get_child? Key.tables contents ≡ some node
      → get_string? Key.name object ≡ some name_value
      → matching ((Key.name, name_value) ∷ []) (children node) ≡ []
      → let added : ℤ = (ObjectId.generate Key.global w'.oids).0 in
        let after : Outcome ℤ × World = insert object object_id w in
        (after.0 ≡ ok added)
        × (stored_rows (load_contents tables_database Key.tables after.1).0
            ≡ children node ++ ("", new_row added object) ∷ [])
  unfolding inserted
  insert_lem object object_id name_value w w' contents node locked loaded root named fresh =
      let same =
        insert_ok object object_id name_value w w' contents node locked loaded root named fresh in
      rw same (refl, stored_lem object w' contents node)
