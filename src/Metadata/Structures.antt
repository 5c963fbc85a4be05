-- ===== src/Metadata/Structures.antt =====
-- The operations of `Metadata` on structures (src/metadata.cpp), over those of the derived class on property
-- trees.
use metadata_manager.Prelude.{ℕ, ℤ, String, Bool, true, false, List, length, ltb}
use metadata_manager.Platform.{Platform}
use metadata_manager.Outcome.{Outcome, ok, err, thrown, undefined}
use metadata_manager.Action.{Action, ◌>>=◌, pure, lift}
use metadata_manager.Metadata.{Reader, next}

module _ ⦃P : Platform⦄ where
  open P use {Tree}

  -- the virtual functions that a derived class has, `void` out parameters as results
  pub record Derived (S : Type 0) : Type 0 where
    pub add : Tree → Action S ℤ
    pub get_by_id : ℤ → Action S Tree
    pub get_by_name : String → Action S Tree
    pub update : ℤ → Tree → Action S (Unit {0})

  -- the virtual functions of a structure; the reading changes the structure that it is called on
  pub record Converts (A : Type 0) : Type 0 where
    pub convert_to_ptree : A → Tree
    pub convert_from_ptree : Tree → A → Outcome A

  -- `return (error == OK) ? true : false`
  abbrev succeeds : {S A : Type 0} → Action S A → Action S Bool
  succeeds m s =
      let (result, s') = m s in
      elim result [
        | ok a ↦ (ok true, s')
        | err e ↦ (ok false, s')
        | thrown ↦ (thrown, s')
        | undefined ↦ (undefined, s')
      ]

  module _ {S A : Type 0} (derived : Derived S) (structure : Converts A) where
    unfoldable pub exists_by_id : ℤ → Action S Bool
    exists_by_id object_id = succeeds (derived.get_by_id object_id)

    unfoldable pub exists_by_name : String → Action S Bool
    exists_by_name object_name = succeeds (derived.get_by_name object_name)

    unfoldable pub add_object : A → Action S ℤ
    add_object object = derived.add (structure.convert_to_ptree object)

    -- `add(object)`: the identifier is dropped
    unfoldable pub add_object_only : A → Action S (Unit {0})
    unfolding add_object ◌>>=◌
    add_object_only object = do object_id ← add_object object; pure tt

    unfoldable pub get_object_by_id : ℤ → A → Action S A
    unfolding ◌>>=◌
    get_object_by_id object_id object = do
      pt ← derived.get_by_id object_id
      lift (structure.convert_from_ptree pt object)

    unfoldable pub get_object_by_name : String → A → Action S A
    unfolding ◌>>=◌
    get_object_by_name object_name object = do
      pt ← derived.get_by_name object_name
      lift (structure.convert_from_ptree pt object)

    unfoldable pub update_object : ℤ → A → Action S (Unit {0})
    update_object object_id object = derived.update object_id (structure.convert_to_ptree object)

  -- `Metadata::next(Object&)`, with the conversion into a structure of the state that the caller's has
  unfoldable pub next_object :
      {S A : Type 0} → (List Tree → Action S (List Tree)) → (Tree → Outcome A) → Action (Reader S) A
  unfolding next ◌>>=◌
  next_object get_all convert_from_ptree = do pt ← next get_all; lift (convert_from_ptree pt)

  -- `MetadataIterator::has_next`: `metadata_->size() > cursor_`
  unfoldable pub has_next : List Tree → ℕ → Bool
  has_next objects cursor = ltb cursor (length objects)
