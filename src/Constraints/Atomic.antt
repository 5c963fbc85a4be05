-- ===== src/Constraints/Atomic.antt =====
-- The changes of `Constraints` are all or nothing in the files (src/constraints.cpp).
use metadata_manager.Prelude.{ℤ, false, pos, ◌≡◌, refl, to_string, [], ◌∷◌, is_positive}
use metadata_manager.Key.{Key}
use metadata_manager.Platform.{Platform}
use metadata_manager.Ptree.{value_or, get_int?}
use metadata_manager.Session.{World}
use metadata_manager.Session.Keeps.{Keeps, Keeps-lift, Keeps-if}
use metadata_manager.Provider.Json.{json_session}
use metadata_manager.Provider.Add.{add_constraint_metadata}
use metadata_manager.Provider.Change.{remove_constraint_metadata}
use metadata_manager.Provider.Kept.{Keeps-json_session}
use metadata_manager.Provider.Keeps.{
  Keeps-add_constraint_metadata, Keeps-remove_constraint_metadata,
}
use metadata_manager.Provider.Transaction.{
  IsAtomic, IsAtomic-transaction, IsAtomic-checked, IsAtomic-if,
}
use metadata_manager.Constraints.{param_check_metadata_add, add, remove}

module _ ⦃P : Platform⦄ where
  open P use {Tree}

  Keeps-param_check_metadata_add :
      (object : Tree) → Keeps (param_check_metadata_add json_session object)
  unfolding param_check_metadata_add
  Keeps-param_check_metadata_add object =
      Keeps-if (is_positive (value_or (pos 0) (get_int? Key.table_id object))) (Keeps-lift _)
        (Keeps-lift _)

  -- Outside of a transaction over the JSON storage, `Constraints::add` and `remove` leave every
  -- JSON file as it was unless they succeed, and release the lock with a success and with every
  -- error code.
  pub add-remove-IsAtomic :
      (object_id : ℤ) (object : Tree) (w : World)
      → w.locking ≡ false
      → IsAtomic w (add json_session object w) × IsAtomic w (remove json_session object_id w)
  unfolding add remove
  add-remove-IsAtomic object_id object w free = (
    IsAtomic-checked (param_check_metadata_add json_session object)
        (add_constraint_metadata json_session object) w free (Keeps-param_check_metadata_add object)
        (Keeps-json_session (λ _ kept. Keeps-add_constraint_metadata json_session kept object)),
    IsAtomic-if (is_positive object_id) _ _ w
        (IsAtomic-transaction
          (remove_constraint_metadata json_session ((Key.id, to_string object_id) ∷ [])) w free
          (Keeps-json_session (λ _ kept.
            Keeps-remove_constraint_metadata json_session kept
              ((Key.id, to_string object_id) ∷ []))))
        (refl, free),
  )
