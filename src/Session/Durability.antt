-- ===== src/Session/Durability.antt =====
-- What a commit leaves in the files (`save_contents`, `commit` of
-- src/dao/json/db_session_manager_json.cpp).
use metadata_manager.Prelude.{
  String, true, false, Option, none, some, Option-cases, Bool-cases, inl, inr, List, [], ◌∷◌, ◌≡◌,
  refl, arith, str_eq, eq_iff, if◌then◌else◌,
}
use metadata_manager.Platform.{Platform}
use metadata_manager.Outcome.{ok}
use metadata_manager.Session.{World, save_loop, save_contents, commit}
use metadata_manager.Session.Contents.{
  Content, is_modified, find_content, set_content, find_content-set_content,
}

module _ ⦃P : Platform⦄ where
  open P use {Tree, Disk, read_json, write_json, read_json-write_json}

  -- Every database stands once in the map.
  abbrev pub HasNoRepeat : List (String × Content) → Type 0
  HasNoRepeat [] = Unit
  HasNoRepeat ((k, c) ∷ m) = (find_content k m ≡ none) × HasNoRepeat m

  -- What a file holds after a save: the content of its database if that was modified.
  abbrev pub persisted : Option Content → Option Tree → Option Tree
  persisted none before = before
  persisted (some c) before = if is_modified c then some c.data_ else before

  save_loop_lem :
      (p : String) (m : List (String × Content)) (d : Disk)
      → HasNoRepeat m
      → (save_loop m d).0 ≡ ok tt
      → read_json p (save_loop m d).1 ≡ persisted (find_content p m) (read_json p d)
  unfolding save_loop find_content
  save_loop_lem p [] d distinct saved = refl
  save_loop_lem p ((k, c) ∷ m) d distinct saved = elim (Bool-cases (is_modified c)) [
    | inl e ↦ elim (Option-cases (write_json k c.data_ d)) [
      | inl n ↦ absurd (ground arith)
      | inr (d', w) ↦ ground (
        arith,
        save_loop_lem p m d' distinct.1 (ground arith),
        read_json-write_json k p c.data_ d d' w,
        eq_iff k p,
      )
    ]
    | inr e ↦ ground (arith, save_loop_lem p m d distinct.1 (ground arith), eq_iff k p)
  ]

  -- A commit in a transaction, where every database stands once in the map and every write
  -- succeeds, gives each file the content of its database if that was modified, leaves the other
  -- files, and ends the transaction.
  pub commit_persists :
      (w : World) (p : String)
      → w.locking ≡ true
      → HasNoRepeat w.contents_map
      → (save_contents w).0 ≡ ok tt
      → ((commit w).0 ≡ ok tt)
        × (read_json p (commit w).1.disk
            ≡ persisted (find_content p w.contents_map) (read_json p w.disk))
        × ((commit w).1.contents_map ≡ [])
        × ((commit w).1.locking ≡ false)
  unfolding commit
  commit_persists w p locked distinct saved =
      let kept = save_loop_lem p w.contents_map w.disk distinct saved in
      rw locked (refl, kept, refl, refl)

  HasNoRepeat-set_content :
      (k : String) (t : Tree) (m : List (String × Content))
      → HasNoRepeat m
      → HasNoRepeat (set_content k t m)
  unfolding set_content find_content
  HasNoRepeat-set_content k t [] h = (refl, tt)
  HasNoRepeat-set_content k t ((j, c) ∷ m) h = elim (Bool-cases (str_eq j k)) [
    | inl e ↦ rw e h
    | inr e ↦ rw e (
      ground (arith, find_content-set_content k j t m, eq_iff j k, eq_iff k j, h.0),
      HasNoRepeat-set_content k t m h.1,
    )
  ]
