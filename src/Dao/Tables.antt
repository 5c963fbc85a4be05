-- ===== src/Dao/Tables.antt =====
-- `TablesDaoJson` of src/dao/json/tables_dao_json.cpp.
pub mod Insertion
pub mod Distinct
use metadata_manager.Prelude.{
  ℕ, ℤ, pos, String, true, false, none, some, List, [], ◌∷◌, if◌then◌else◌,
}
use metadata_manager.Key.{Key}
use metadata_manager.Platform.{Platform}
use metadata_manager.ErrorCode.{already_exists, invalid_parameter}
use metadata_manager.Outcome.{Outcome, ok}
use metadata_manager.Outcome
use metadata_manager.Action.{Action, lift, pure, fail, ◌>>=◌, ◌>>◌}
use metadata_manager.Ptree.{value_or, get_int?, put_int, push_back, size}
use metadata_manager.Ptree.Helper.{Keys}
use metadata_manager.Session.{World, load_contents, set_contents}
use metadata_manager.Dao.{Dao, exists, get_child, database, generate_oid}
use metadata_manager.Dao.Rows.{Rows, find_loop, delete_loop}

module _ ⦃P : Platform⦄ where
  open P use {Tree, empty, children, set_children, get_child?, put_child, add_child, erase}

  unfoldable pub tables_database : String
  unfolding database
  tables_database = database "tables"

  unfoldable pub find_metadata_object : Tree → Keys → Outcome Tree
  unfolding get_child find_loop
  find_metadata_object objects keys = elim (get_child Key.tables objects) [
    | ok tables ↦ ok (find_loop keys (children tables) empty)
    | other ↦ other
  ]

  -- `objects` is changed in place: it comes back beside the identifiers removed.
  unfoldable pub delete_metadata_object : Tree → Keys → Outcome (Tree × List ℤ)
  unfolding get_child delete_loop
  delete_metadata_object objects keys = Outcome.◌>>=◌ (get_child Key.tables objects) (λ tables.
      Outcome.◌>>=◌ (delete_loop keys (children tables)) (λ removed.
        let (kept, ids) = removed in
        ok (put_child Key.tables (set_children kept tables) objects, ids)))

  unfoldable pub select : Keys → Tree → Action World Tree
  unfolding find_metadata_object load_contents ◌>>=◌
  select keys object = do
    contents ← load_contents tables_database Key.tables
    lift (find_metadata_object contents keys)

  -- the management members that every stored object carries
  unfoldable pub managed : ℤ → Tree → Tree
  managed object_id object =
      put_int Key.id object_id
        (put_int Key.generation (pos 1) (put_int Key.format_version (pos 1) object))

  -- columns and constraints are not stored by this class
  unfoldable pub new_row : ℤ → Tree → Tree
  unfolding managed
  new_row object_id object = erase Key.constraints (erase Key.columns (managed object_id object))

  unfoldable pub append_row : Tree → Tree → Outcome Tree
  unfolding get_child
  append_row row contents = elim (get_child Key.tables contents) [
    | ok node ↦ ok (put_child Key.tables (push_back row node) contents)
    | other ↦ other
  ]

  unfoldable pub insert : Tree → ℤ → Action World ℤ
  unfolding exists select new_row append_row generate_oid load_contents set_contents ◌>>=◌
  insert object object_id = do
    found ← exists (λ keys. select keys empty) object
    if found then fail already_exists else do
      contents ← load_contents tables_database Key.tables
      added ← generate_oid Key.global
      updated ← lift (append_row (new_row added object) contents)
      set_contents tables_database updated
      pure added

  -- the children that an update leaves to other classes: those of the stored object, if it has them
  abbrev keep_child : Key → Tree → Tree → Tree
  keep_child k stored object = elim (get_child? k stored) [
    | none ↦ erase k object
    | some c ↦ add_child k c (erase k object)
  ]

  unfoldable pub updated_row : Tree → Tree → Tree
  unfolding managed
  updated_row stored object = keep_child Key.constraints stored (
      keep_child Key.columns stored
        (managed (value_or (ℤ.negsuc 0) (get_int? Key.id stored)) object))

  update_loop : Tree → Rows Tree → Tree → Outcome Tree
  unfolding append_row updated_row
  update_loop object [] contents = ok contents
  update_loop object ((_, stored) ∷ rows) contents =
      elim (append_row (updated_row stored object) contents) [
        | ok appended ↦ update_loop object rows appended
        | other ↦ other
      ]

  unfoldable pub update_found : Keys → Tree → Tree → Tree → Action World ℕ
  unfolding delete_metadata_object update_loop set_contents ◌>>=◌
  update_found keys object contents tables = do
    removed ← lift (delete_metadata_object contents keys)
    updated ← lift (update_loop object (children tables) removed.0)
    set_contents tables_database updated
    pure (size tables)

  unfoldable pub update : Keys → Tree → Action World ℕ
  unfolding update_found find_metadata_object load_contents ◌>>=◌
  update [] object = fail invalid_parameter
  update (key ∷ keys) object = do
    contents ← load_contents tables_database Key.tables
    tables ← lift (find_metadata_object contents (key ∷ keys))
    elim (children tables) [
      | [] ↦ pure 0
      | _ ∷ _ ↦ update_found (key ∷ keys) object contents tables
    ]

  unfoldable pub remove : Keys → Action World (List ℤ)
  unfolding delete_metadata_object load_contents set_contents ◌>>=◌
  remove keys = do
    contents ← load_contents tables_database Key.tables
    removed ← lift (delete_metadata_object contents keys)
    set_contents tables_database removed.0
    pure removed.1
