-- ===== src/Session.antt =====
-- `DbSessionManagerJson` of src/dao/json/db_session_manager_json.cpp and its private classes `Content`
-- and `MutexWrapper` (include/manager/metadata/dao/json/db_session_manager_json.h): the transaction
-- lock, the contents loaded in the transaction, and the files. One thread of control is modelled.
pub mod Contents
pub mod Durability
pub mod Cache
pub mod Keeps
use metadata_manager.Prelude.{
  ℕ, String, Bool, true, false, not, Option, none, some, List, [], ◌∷◌, ◌==◌, str_eq, if◌then◌else◌,
}
use metadata_manager.Key.{Key}
use metadata_manager.Platform.{Platform}
use metadata_manager.ErrorCode.{internal_error}
use metadata_manager.Outcome.{Outcome, ok, err, undefined}
use metadata_manager.Action.{Action}
use metadata_manager.Ptree.{put}
use metadata_manager.Session.Contents.{Content, assign, is_modified, find_content, set_content}

module _ ⦃P : Platform⦄ where
  open P use {Tree, empty, Disk, OidFile, exists, read_json, write_json, interrupted}

  pub record World : Type 0 where
    pub disk : Disk
    pub oids : OidFile
    pub contents_map : List (String × Content)
    pub locking : Bool

  -- To lock a mutex that the thread holds is undefined.
  unfoldable pub start_transaction : Action World (Unit {0})
  start_transaction w =
      if w.locking then (undefined, w) else (ok tt, record w { contents_map = []; locking = true })

  -- The loop of `save_contents` stops at the first file that cannot be written.
  unfoldable pub save_loop : List (String × Content) → Disk → Outcome (Unit {0}) × Disk
  save_loop [] d = (ok tt, d)
  save_loop ((database, content) ∷ l) d = elim (is_modified content) [
    | true ↦ elim (write_json database content.data_ d) [
      | none ↦ (err internal_error, interrupted database content.data_ d)
      | some e ↦ save_loop l e
    ]
    | false ↦ save_loop l d
  ]

  unfoldable pub save_contents : Action World (Unit {0})
  unfolding save_loop
  save_contents w = let (r, d) = save_loop w.contents_map w.disk in (r, record w { disk = d })

  -- The error code of `save_contents` is dropped.
  unfoldable pub commit : Action World (Unit {0})
  unfolding save_contents
  commit w =
      let (_, saved) = save_contents w in
      if w.locking
      then (ok tt, record saved { contents_map = []; locking = false })
      else (err internal_error, w)

  unfoldable pub rollback : Action World (Unit {0})
  rollback w =
      if w.locking
      then (ok tt, record w { contents_map = []; locking = false })
      else (err internal_error, w)

  -- what `load_contents` reads for a database that is not in the map
  unfoldable pub read_contents : String → Key → Disk → Outcome Tree
  read_contents database root_node d =
      if exists database d
      then elim (read_json database d) [ none ↦ err internal_error | some t ↦ ok t ]
      else ok (put root_node "" empty)

  unfoldable pub loaded : String → Outcome Tree → Action World Tree
  loaded database (ok contents) w = (
    ok contents,
    (if w.locking
        then record w { contents_map = set_content database contents w.contents_map }
        else w),
  )
  loaded database r w = (r, w)

  unfoldable pub load_contents : String → Key → Action World Tree
  unfolding read_contents loaded
  load_contents database root_node w = elim (find_content database w.contents_map) [
    | none ↦ loaded database (read_contents database root_node w.disk) w
    | some content ↦ (ok content.data_, w)
  ]

  unfoldable pub set_contents : String → Tree → Action World (Unit {0})
  set_contents database object w =
      (ok tt, record w { contents_map = set_content database object w.contents_map })
