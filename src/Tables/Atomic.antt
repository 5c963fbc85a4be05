-- ===== src/Tables/Atomic.antt =====
-- The changes of `Tables` are all or nothing in the files (src/tables.cpp).
use metadata_manager.Prelude.{ℤ, String, false, ◌≡◌, refl, is_positive, str_eq}
use metadata_manager.Platform.{Platform}
use metadata_manager.Session.{World}
use metadata_manager.Provider.Json.{json_session}
use metadata_manager.Provider.Transaction.{
  IsAtomic, IsAtomic-transaction, IsAtomic-checked, IsAtomic-if,
}
use metadata_manager.Tables.{
  add, update, remove_by_id, remove_by_name, add_body, update_body, remove_body, remove_name_body,
}
use metadata_manager.Tables.Check.{param_check_metadata_add}
use metadata_manager.Provider.Kept.{Keeps-json_session}
use metadata_manager.Tables.Keeps.{
  Keeps-param_check_metadata_add, Keeps-add_body, Keeps-update_body, Keeps-remove_body,
  Keeps-remove_name_body,
}

module _ ⦃P : Platform⦄ where
  open P use {Tree}

  -- Outside of a transaction over the JSON storage, `Tables::add` leaves every JSON file as it
  -- was unless it succeeds, and releases the lock with a success and with every error code.
  pub add-IsAtomic :
      (object : Tree) (w : World) → w.locking ≡ false → IsAtomic w (add json_session object w)
  unfolding add
  add-IsAtomic object w free =
      IsAtomic-checked (param_check_metadata_add json_session object) (add_body json_session object)
        w free
        (Keeps-json_session (λ _ kept. Keeps-param_check_metadata_add json_session kept object))
        (Keeps-json_session (λ _ kept. Keeps-add_body json_session kept object))

  -- Outside of a transaction over the JSON storage, `Tables::update` leaves every JSON file as it
  -- was unless it succeeds, and releases the lock with a success and with every error code.
  pub update-IsAtomic :
      (object_id : ℤ) (object : Tree) (w : World)
      → w.locking ≡ false
      → IsAtomic w (update json_session object_id object w)
  unfolding update
  update-IsAtomic object_id object w free =
      IsAtomic-if (is_positive object_id) _ _ w
        (IsAtomic-checked (param_check_metadata_add json_session object)
          (update_body json_session object_id object) w free
          (Keeps-json_session (λ _ kept. Keeps-param_check_metadata_add json_session kept object))
          (Keeps-json_session (λ _ kept. Keeps-update_body json_session kept object_id object)))
        (refl, free)

  -- Outside of a transaction over the JSON storage, both forms of `Tables::remove`, by identifier
  -- and by name, leave every JSON file as it was unless they succeed, and release the lock with a
  -- success and with every error code.
  pub remove-IsAtomic :
      (object_id : ℤ) (object_name : String) (w : World)
      → w.locking ≡ false
      → IsAtomic w (remove_by_id json_session object_id w)
        × IsAtomic w (remove_by_name json_session object_name w)
  unfolding remove_by_id remove_by_name
  remove-IsAtomic object_id object_name w free = (
    IsAtomic-if (is_positive object_id) _ _ w
        (IsAtomic-transaction (remove_body json_session object_id) w free
          (Keeps-json_session (λ _ kept. Keeps-remove_body json_session kept object_id)))
        (refl, free),
    IsAtomic-if (str_eq object_name "") _ _ w (refl, free)
        (IsAtomic-transaction (remove_name_body json_session object_name) w free
          (Keeps-json_session (λ _ kept. Keeps-remove_name_body json_session kept object_name))),
  )
