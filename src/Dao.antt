-- ===== src/Dao.antt =====
-- `Dao` of include/manager/metadata/dao/dao.h: the operations on one kind of metadata, as the provider
-- takes them, and what the JSON implementations share (src/dao/json/dao_json.cpp).
pub mod Rows
pub mod Tables
pub mod Nested
pub mod Columns
pub mod Constraints
pub mod Indexes
pub mod DataTypes
pub mod Fixed
pub mod Stored
pub mod Keeps
use Prim.Native.String.{◌++◌}
use metadata_manager.Prelude.{
  ℕ, ℤ, String, to_string, Bool, true, false, none, some, List, [], ◌∷◌, leb, if◌then◌else◌,
}
use metadata_manager.Key.{Key}
use metadata_manager.Platform.{Platform}
use metadata_manager.Outcome.{Outcome, ok, err, thrown, undefined}
use metadata_manager.Action.{Action, lift, ◌>>=◌, pure}
use metadata_manager.Ptree.{get_string?, size}
use metadata_manager.Ptree.Helper.{Keys}
use metadata_manager.ObjectId
use metadata_manager.Session.{World}

module _ ⦃P : Platform⦄ where
  open P use {Tree, empty, get_child?, storage_dir_path}

  -- `insert` is given the value that the out parameter `object_id` has before the call, and `select`
  -- the tree that `object` holds.
  pub record Dao (S : Type 0) : Type 0 where
    pub insert : Tree → ℤ → Action S ℤ
    pub select : Keys → Tree → Action S Tree
    pub update : Keys → Tree → Action S ℕ
    pub remove : Keys → Action S (List ℤ)

  -- `((error == OK) && (object.size() >= 1))`
  unfoldable pub has_rows : {S : Type 0} → Action S Tree → Action S Bool
  has_rows select s =
      let (r, s') = select s in
      elim r [
        | ok object ↦ (ok (leb 1 (size object)), s')
        | err _ ↦ (ok false, s')
        | thrown ↦ (thrown, s')
        | undefined ↦ (undefined, s')
      ]

  -- `exists(object)` of the base class: by the name, if there is one
  unfoldable pub exists : {S : Type 0} → (Keys → Action S Tree) → Tree → Action S Bool
  unfolding has_rows
  exists select object = elim (get_string? Key.name object) [
    | none ↦ pure false
    | some name_value ↦ has_rows (select ((Key.name, name_value) ∷ []))
  ]

  -- `get_child`, which throws where the child is absent
  unfoldable pub get_child : Key → Tree → Outcome Tree
  get_child k t = elim (get_child? k t) [ none ↦ thrown | some c ↦ ok c ]

  -- `DaoJson::prepare`: the file of a source
  unfoldable pub database : String → String
  database source_name = storage_dir_path ++ "/" ++ source_name ++ ".json"

  unfoldable pub generate_oid : Key → Action World ℤ
  generate_oid k w = let (g, f) = ObjectId.generate k w.oids in (ok g, record w { oids = f })

  unfoldable pub update_oid : Key → ℤ → Action World ℤ
  update_oid k v w = let (g, f) = ObjectId.update k v w.oids in (ok g, record w { oids = f })
