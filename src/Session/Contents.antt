-- ===== src/Session/Contents.antt =====
-- `Content` of include/manager/metadata/dao/json/db_session_manager_json.h, with the hash of the tree
-- as it was loaded and as it is now, and the map from databases to contents.
use metadata_manager.Prelude.{
  ℕ, String, Bool, not, Option, none, some, List, [], ◌∷◌, ◌≡◌, refl, arith, ◌==◌, str_eq, eq_iff,
  if◌then◌else◌,
}
use metadata_manager.Platform.{Platform}

module _ ⦃P : Platform⦄ where
  open P use {Tree, empty, hash}

  pub record Content : Type 0 where
    pub pre_hash : ℕ
    pub cur_hash : ℕ
    pub data_ : Tree

  abbrev pub new_content : Content
  new_content = record { pre_hash = 0; cur_hash = 0; data_ = empty }

  -- `operator=`
  unfoldable pub assign : Content → Tree → Content
  assign c content =
      if c.pre_hash == 0
      then record { pre_hash = hash content; cur_hash = c.cur_hash; data_ = content }
      else record { pre_hash = c.pre_hash; cur_hash = hash content; data_ = content }

  unfoldable pub is_modified : Content → Bool
  is_modified c = not (c.pre_hash == c.cur_hash)

  unfoldable pub find_content : String → List (String × Content) → Option Content
  find_content k [] = none
  find_content k ((j, c) ∷ m) = if str_eq j k then some c else find_content k m

  -- `contents_map_[k] = t`, where a missing entry is made first
  unfoldable pub set_content : String → Tree → List (String × Content) → List (String × Content)
  unfolding assign
  set_content k t [] = (k, assign new_content t) ∷ []
  set_content k t ((j, c) ∷ m) =
      if str_eq j k then (j, assign c t) ∷ m else (j, c) ∷ set_content k t m

  -- the content that an assignment to `k` starts from
  abbrev pub or_new : Option Content → Content
  or_new none = new_content
  or_new (some c) = c

  pub find_content-set_content :
      (k j : String) (t : Tree) (m : List (String × Content))
      → find_content j (set_content k t m)
        ≡ (if str_eq k j then some (assign (or_new (find_content k m)) t) else find_content j m)
  unfolding find_content set_content
  find_content-set_content k j t [] = refl
  find_content-set_content k j t ((i, c) ∷ m) =
      ground (arith, eq_iff k j, eq_iff i k, eq_iff i j, find_content-set_content k j t m)
