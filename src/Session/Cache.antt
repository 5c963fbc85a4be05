-- ===== src/Session/Cache.antt =====
-- What is loaded in a transaction (`load_contents`, `set_contents` of
-- src/dao/json/db_session_manager_json.cpp).
use mathlib.Core.Path.{subst}
use metadata_manager.Prelude.{
  String, true, Option, none, some, Option-cases, inl, inr, [], ◌≡◌, ◌≢◌, refl, sym, ap, ◌∙◌, arith,
  eq_refl,
}
use metadata_manager.Key.{Key}
use metadata_manager.Platform.{Platform}
use metadata_manager.Outcome.{Outcome, ok}
use metadata_manager.Session.{
  World, start_transaction, load_contents, set_contents, loaded, read_contents, save_contents,
  commit,
}
use metadata_manager.Session.Contents.{
  Content, assign, or_new, is_modified, find_content, set_content, find_content-set_content,
}
use metadata_manager.Session.Durability.{HasNoRepeat, persisted, commit_persists}

module _ ⦃P : Platform⦄ where
  open P use {Tree, hash, read_json}

  data_-assign : (c : Content) (t : Tree) → (assign c t).data_ ≡ t
  unfolding assign
  data_-assign c t = ground arith

  -- What was set is what the next load of that database returns, and the load changes nothing.
  pub load-set_contents :
      (p : String) (root_node : Key) (t : Tree) (w : World)
      → let w' : World = (set_contents p t w).1 in load_contents p root_node w' ≡ (ok t, w')
  unfolding load_contents set_contents
  load-set_contents p root_node t w = ground (
    arith,
    find_content-set_content p p t w.contents_map,
    eq_refl p,
    data_-assign (or_new (find_content p w.contents_map)) t,
  )

  loaded_lem :
      (p : String) (t : Tree) (r : Outcome Tree) (w w' : World)
      → w.locking ≡ true
      → loaded p r w ≡ (ok t, w')
      → w' ≡ record w { contents_map = set_content p t w.contents_map }
  unfolding loaded
  loaded_lem p t (ok u) w w' locked h = ground arith
  loaded_lem p t _ w w' locked h = absurd (ground arith)

  -- The first load of a database in a transaction puts what it returns into the map.
  load_fresh :
      (p : String) (root_node : Key) (t : Tree) (w w' : World)
      → w.locking ≡ true
      → find_content p w.contents_map ≡ none
      → load_contents p root_node w ≡ (ok t, w')
      → w' ≡ record w { contents_map = set_content p t w.contents_map }
  unfolding load_contents
  load_fresh p root_node t w w' locked fresh h =
      loaded_lem p t (read_contents p root_node w.disk) w w' locked
        (sym (rw (fresh, load_contents)) ∙ h)

  -- In a transaction a second load of a database returns what the first returned, and changes nothing.
  pub load-load :
      (p : String) (root_node : Key) (t : Tree) (w w' : World)
      → w.locking ≡ true
      → load_contents p root_node w ≡ (ok t, w')
      → load_contents p root_node w' ≡ (ok t, w')
  unfolding load_contents
  load-load p root_node t w w' locked h = elim (Option-cases (find_content p w.contents_map)) [
    | inl e ↦ rw (load_fresh p root_node t w w' locked e h) (
        ground (
          arith,
          find_content-set_content p p t w.contents_map,
          eq_refl p,
          data_-assign (or_new (find_content p w.contents_map)) t,
        ))
    | inr (c, e) ↦ ground arith
  ]

  reassigned_lem :
      (p : String) (old new : Tree) (before : Option Tree)
      → hash old ≢ 0
      → hash new ≢ hash old
      → persisted (find_content p (set_content p new (set_content p old []))) before ≡ some new
  unfolding find_content set_content is_modified
  reassigned_lem p old new before known changed = rw (eq_refl p) (ground (arith, eq_refl p))

  twice_HasNoRepeat :
      (p : String) (old new : Tree) → HasNoRepeat (set_content p new (set_content p old []))
  unfolding set_content find_content
  twice_HasNoRepeat p old new = rw (eq_refl p) (refl, tt)

  -- A transaction that loads a database, sets a tree of another hash and commits leaves that tree
  -- in the file, where the tree that was loaded has a hash other than zero and the write
  -- succeeds.
  pub update_persists :
      (p : String) (root_node : Key) (old new : Tree) (w w₁ w₂ : World)
      → start_transaction w ≡ (ok tt, w₁)
      → load_contents p root_node w₁ ≡ (ok old, w₂)
      → hash old ≢ 0
      → hash new ≢ hash old
      → (save_contents (set_contents p new w₂).1).0 ≡ ok tt
      → read_json p (commit (set_contents p new w₂).1).1.disk ≡ some new
  unfolding start_transaction
  update_persists p root_node old new w w₁ w₂ started loaded_old known changed saved =
      let fresh : (w₁.locking ≡ true) × (w₁.contents_map ≡ []) = ground arith in
      let loaded_once =
        load_fresh p root_node old w₁ w₂ fresh.0 (unfold find_content in rw fresh.1) loaded_old in
      let twice : (set_contents p new w₂).1.contents_map
          ≡ set_content p new (set_content p old []) =
        unfold set_contents in rw loaded_once (rw fresh.1) in
      let locked : (set_contents p new w₂).1.locking ≡ true =
        unfold set_contents in rw loaded_once fresh.0 in
      let kept =
        commit_persists (set_contents p new w₂).1 p locked
          (subst HasNoRepeat (sym twice) (twice_HasNoRepeat p old new)) saved in
      kept.1
      ∙ ap (λ m. persisted (find_content p m) (read_json p (set_contents p new w₂).1.disk)) twice
      ∙ reassigned_lem p old new _ known changed
