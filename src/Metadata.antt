-- ===== src/Metadata.antt =====
-- The class `Metadata` of src/metadata.cpp, from which the classes of the interface derive, and its
-- `MetadataIterator`: the reading of all objects one by one. `get_all` is the derived class's.
pub mod Reading
pub mod Structures
pub mod Iterator
use metadata_manager.Prelude.{ℕ, zero, suc, ◌+◌, Option, none, some, List, [], ◌∷◌, get_elem?}
use metadata_manager.Platform.{Platform}
use metadata_manager.ErrorCode.{end_of_row}
use metadata_manager.Outcome.{Outcome, ok, err, thrown, undefined}
use metadata_manager.Action.{Action, ◌>>=◌, pure}

module _ ⦃P : Platform⦄ where
  open P use {Tree}

  -- the members `objects_` and `cursor_`, with the state that `get_all` works on
  pub record Reader (S : Type 0) : Type 0 where
    pub objects : List Tree
    pub cursor : ℕ
    pub store : S

  module _ {S : Type 0} (get_all : List Tree → Action S (List Tree)) where
    -- `Metadata::get_all()`: what was read before is dropped, and the cursor is at the start whether an
    -- error is returned or not.
    unfoldable pub read_objects : Action (Reader S) (Unit {0})
    read_objects r =
        let (result, s) = get_all [] r.store in
        elim result [
          | ok found ↦ (ok tt, record { objects = found; cursor = 0; store = s })
          | err e ↦ (err e, record { objects = []; cursor = 0; store = s })
          | thrown ↦ (thrown, record { objects = []; cursor = r.cursor; store = s })
          | undefined ↦ (undefined, record { objects = []; cursor = r.cursor; store = s })
        ]

    -- `if (objects_.size() > cursor_) …`
    unfoldable pub advance : Action (Reader S) Tree
    advance r = elim (get_elem? r.objects r.cursor) [
      | some object ↦ (ok object, record r { cursor = r.cursor + 1 })
      | none ↦ (err end_of_row, record r { cursor = 0 })
    ]

    -- `next` reads the objects where it has none.
    unfoldable pub next : Action (Reader S) Tree
    unfolding advance
    next r = elim r.objects [
      | [] ↦
          let (result, s) = get_all [] r.store in
          elim result [
            | ok found ↦ advance (record { objects = found; cursor = 0; store = s })
            | err e ↦ (err e, record r { store = s })
            | thrown ↦ (thrown, record r { store = s })
            | undefined ↦ (undefined, record r { store = s })
          ]
      | _ ∷ _ ↦ advance r
    ]

  -- `MetadataIterator::next`: an exception of the conversion leaves the cursor where it is.
  unfoldable pub iterator_next : {A : Type 0} → (Tree → Outcome A) → List Tree → Action ℕ A
  iterator_next convert objects cursor = elim (get_elem? objects cursor) [
    | some pt ↦ elim (convert pt) [
      | ok a ↦ (ok a, cursor + 1)
      | err e ↦ (err e, cursor)
      | thrown ↦ (thrown, cursor)
      | undefined ↦ (undefined, cursor)
    ]
    | none ↦ (err end_of_row, cursor)
  ]
