-- ===== src/Dao/Indexes.antt =====
-- `IndexDaoJson` of src/dao/json/index_dao_json.cpp.
use metadata_manager.Prelude.{ℕ, ℤ, pos, String, List, [], ◌∷◌, if◌then◌else◌}
use metadata_manager.Key.{Key}
use metadata_manager.Platform.{Platform}
use metadata_manager.ErrorCode.{already_exists, invalid_parameter}
use metadata_manager.Outcome
use metadata_manager.Outcome.{Outcome, ok}
use metadata_manager.Action.{Action, lift, pure, fail, ◌>>=◌, ◌>>◌}
use metadata_manager.Ptree.{value_or, get_int?, put_int, push_back, size}
use metadata_manager.Ptree.Helper.{Keys}
use metadata_manager.Session.{World, load_contents, set_contents}
use metadata_manager.Dao.{exists, get_child, database, generate_oid}
use metadata_manager.Dao.Rows.{Rows, find_loop, delete_loop}

module _ ⦃P : Platform⦄ where
  open P use {Tree, empty, children, set_children, put_child}

  unfoldable pub indexes_database : String
  unfolding database
  indexes_database = database "indexes"

  unfoldable pub find_metadata_object : Tree → Keys → Outcome Tree
  unfolding get_child find_loop
  find_metadata_object objects keys = elim (get_child Key.indexes objects) [
    | ok indexes ↦ ok (find_loop keys (children indexes) empty)
    | other ↦ other
  ]

  unfoldable pub delete_metadata_object : Tree → Keys → Outcome (Tree × List ℤ)
  unfolding get_child delete_loop
  delete_metadata_object objects keys = Outcome.◌>>=◌ (get_child Key.indexes objects) (λ indexes.
      Outcome.◌>>=◌ (delete_loop keys (children indexes)) (λ removed.
        let (kept, ids) = removed in
        ok (put_child Key.indexes (set_children kept indexes) objects, ids)))

  unfoldable pub select : Keys → Tree → Action World Tree
  unfolding find_metadata_object load_contents ◌>>=◌
  select keys object = do
    contents ← load_contents indexes_database Key.indexes
    lift (find_metadata_object contents keys)

  unfoldable pub managed : ℤ → Tree → Tree
  managed object_id object =
      put_int Key.id object_id
        (put_int Key.generation (pos 1) (put_int Key.format_version (pos 1) object))

  unfoldable pub append_row : Tree → Tree → Outcome Tree
  unfolding get_child
  append_row row contents = elim (get_child Key.indexes contents) [
    | ok root ↦ ok (put_child Key.indexes (push_back row root) contents)
    | other ↦ other
  ]

  unfoldable pub insert : Tree → ℤ → Action World ℤ
  unfolding exists select managed append_row generate_oid load_contents set_contents ◌>>=◌
  insert object object_id = do
    found ← exists (λ keys. select keys empty) object
    if found then fail already_exists else do
      contents ← load_contents indexes_database Key.indexes
      added ← generate_oid Key.global
      updated ← lift (append_row (managed added object) contents)
      set_contents indexes_database updated
      pure added

  update_loop : Tree → Rows Tree → Tree → Outcome Tree
  unfolding append_row managed
  update_loop object [] contents = ok contents
  update_loop object ((_, index) ∷ rows) contents =
      elim (append_row (managed (value_or (ℤ.negsuc 0) (get_int? Key.id index)) object) contents) [
        | ok appended ↦ update_loop object rows appended
        | other ↦ other
      ]

  unfoldable pub update_found : Keys → Tree → Tree → Tree → Action World ℕ
  unfolding delete_metadata_object update_loop set_contents ◌>>=◌
  update_found keys object contents indexes = do
    removed ← lift (delete_metadata_object contents keys)
    updated ← lift (update_loop object (children indexes) removed.0)
    set_contents indexes_database updated
    pure (size indexes)

  unfoldable pub update : Keys → Tree → Action World ℕ
  unfolding update_found find_metadata_object load_contents ◌>>=◌
  update [] object = fail invalid_parameter
  update (key ∷ keys) object = do
    contents ← load_contents indexes_database Key.indexes
    indexes ← lift (find_metadata_object contents (key ∷ keys))
    elim (children indexes) [
      | [] ↦ pure 0
      | _ ∷ _ ↦ update_found (key ∷ keys) object contents indexes
    ]

  unfoldable pub remove : Keys → Action World (List ℤ)
  unfolding delete_metadata_object load_contents set_contents ◌>>=◌
  remove keys = do
    contents ← load_contents indexes_database Key.indexes
    removed ← lift (delete_metadata_object contents keys)
    set_contents indexes_database removed.0
    pure removed.1
