-- ===== src/Statistics/Atomic.antt =====
-- The changes of `Statistics` over the JSON storage (src/statistics.cpp).
use metadata_manager.Prelude.{ℤ, Bool, false, pos, String, ◌≡◌, refl, ◌||◌, is_positive}
use metadata_manager.Key.{Key}
use metadata_manager.Platform.{Platform}
use metadata_manager.ErrorCode.{ErrorCode}
use metadata_manager.Ptree.{value_or, get_int?, get_string?}
use metadata_manager.Ptree.Helper.{Keys}
use metadata_manager.Session.{World}
use metadata_manager.Session.Keeps.{Keeps, Keeps-lift, Keeps-if}
use metadata_manager.Provider.Json.{json_session}
use metadata_manager.Provider.Add.{add_column_statistic}
use metadata_manager.Provider.Change.{remove_column_statistics}
use metadata_manager.Provider.Kept.{Keeps-json_session}
use metadata_manager.Provider.Keeps.{Keeps-add_column_statistic, Keeps-remove_column_statistics}
use metadata_manager.Provider.Transaction.{
  IsAtomic, IsAtomic-transaction, IsAtomic-checked, IsAtomic-if,
}
use metadata_manager.Statistics.{
  is_named, param_check_statistics_add, add, remove_all, remove_by_id, remove_by_table_id,
  remove_by_column_id, remove_by_column_number, remove_by_column_name,
}

module _ ⦃P : Platform⦄ where
  open P use {Tree}

  Keeps-param_check_statistics_add :
      (object : Tree) → Keeps (param_check_statistics_add json_session object)
  unfolding param_check_statistics_add
  Keeps-param_check_statistics_add object =
      Keeps-if (is_positive (value_or (pos 0) (get_int? Key.column_id object))) (Keeps-lift _) (
        Keeps-if (is_positive (value_or (pos 0) (get_int? Key.table_id object)))
          (Keeps-if
            (is_positive (value_or (pos 0) (get_int? Key.column_number object))
              || is_named (value_or "" (get_string? Key.column_name object)))
            (Keeps-lift _) (Keeps-lift _))
          (Keeps-lift _))

  IsAtomic-remove_all :
      (passed : Bool) (error : ErrorCode) (keys : Keys) (w : World)
      → w.locking ≡ false
      → IsAtomic w (remove_all json_session passed error keys w)
  unfolding remove_all
  IsAtomic-remove_all passed error keys w free =
      IsAtomic-if passed _ _ w
        (IsAtomic-transaction (remove_column_statistics json_session keys) w free
          (Keeps-json_session (λ _ kept. Keeps-remove_column_statistics json_session kept keys)))
        (refl, free)

  -- Outside of a transaction over the JSON storage, `Statistics::add` and the removals by identifier, by
  -- table, by column, by number and by name of a column leave every JSON file as it was unless they succeed,
  -- and release the lock with a success and with every error code.
  pub statistics-IsAtomic :
      (object : Tree) (object_id ordinal_position : ℤ) (column_name : String) (w : World)
      → w.locking ≡ false
      → IsAtomic w (add json_session object w)
        × IsAtomic w (remove_by_id json_session object_id w)
        × IsAtomic w (remove_by_table_id json_session object_id w)
        × IsAtomic w (remove_by_column_id json_session object_id w)
        × IsAtomic w (remove_by_column_number json_session object_id ordinal_position w)
        × IsAtomic w (remove_by_column_name json_session object_id column_name w)
  unfolding add remove_by_id remove_by_table_id remove_by_column_id remove_by_column_number
      remove_by_column_name
  statistics-IsAtomic object object_id ordinal_position column_name w free = (
    IsAtomic-checked (param_check_statistics_add json_session object)
        (add_column_statistic json_session object) w free (Keeps-param_check_statistics_add object)
        (Keeps-json_session (λ _ kept. Keeps-add_column_statistic json_session kept object)),
    IsAtomic-remove_all _ _ _ w free,
    IsAtomic-remove_all _ _ _ w free,
    IsAtomic-remove_all _ _ _ w free,
    IsAtomic-remove_all _ _ _ w free,
    IsAtomic-remove_all _ _ _ w free,
  )
