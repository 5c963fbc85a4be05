-- ===== src/Provider/Found.antt =====
-- What the operations of `MetadataProvider` that retrieve objects return
-- (src/provider/metadata_provider.cpp).
use metadata_manager.Prelude.{◌≢◌, Bool-cases, inl, inr, ◌==◌, ==_iff, arith}
use metadata_manager.Platform.{Platform}
use metadata_manager.Outcome.{Outcome, ok, err, thrown, undefined}
use metadata_manager.Action.{Action, continue, ◌>>=◌}
use metadata_manager.Ptree.{size}
use metadata_manager.Ptree.Helper.{Keys}
use metadata_manager.Provider.{DbSessionManager, Daos, init}
use metadata_manager.Provider.Get.{
  found_or_error, get_table_metadata, get_column_metadata, get_index_metadata,
  get_constraint_metadata, get_column_statistic, get_datatype_metadata, get_role_metadata,
}

module _ ⦃P : Platform⦄ where
  open P use {Tree}

  -- a success is a tree with rows
  abbrev pub HasRows : Outcome Tree → Type 0
  HasRows (ok t) = size t ≢ 0
  HasRows _ = Unit

  HasRows-continue :
      {S A : Type 0} (r : Outcome A) (f : A → Action S Tree) (s : S)
      → ((a : A) (t : S) → HasRows (f a t).0)
      → HasRows (continue r f s).0
  HasRows-continue (ok a) f s h = h a s
  HasRows-continue (err _) f s h = tt
  HasRows-continue thrown f s h = tt
  HasRows-continue undefined f s h = tt

  HasRows-bind :
      {S A : Type 0} (m : Action S A) (f : A → Action S Tree) (s : S)
      → ((a : A) (t : S) → HasRows (f a t).0)
      → HasRows ((m >>= f) s).0
  unfolding ◌>>=◌
  HasRows-bind m f s h = HasRows-continue (m s).0 f (m s).1 h

  module _ {S : Type 0} (session : DbSessionManager S) (keys : Keys) (object : Tree) where
    HasRows-found_or_error :
        (found : Tree) (s : S) → HasRows (found_or_error session keys found s).0
    unfolding found_or_error
    HasRows-found_or_error found s = elim (Bool-cases (size found == 0)) [
      | inl e ↦ rw e tt
      | inr e ↦ rw e (λ empty. absurd (ground (arith, ==_iff (size found) 0)))
    ]

    -- what the seven functions do: obtain the DAOs, select, and report an empty selection
    checked_lem :
        (select : Daos S → Action S Tree) (s : S)
        → HasRows ((init session >>= λ daos. select daos >>= found_or_error session keys) s).0
    checked_lem select s = HasRows-bind (init session) _ s (λ daos t.
        HasRows-bind (select daos) (found_or_error session keys) t HasRows-found_or_error)

    -- Over any session manager, whatever the seven functions that retrieve metadata return with success
    -- has at least one row: an empty selection is always reported as an error.
    pub found_lem :
        (s : S)
        → HasRows (get_table_metadata session keys object s).0
          × HasRows (get_column_metadata session keys object s).0
          × HasRows (get_index_metadata session keys object s).0
          × HasRows (get_constraint_metadata session keys object s).0
          × HasRows (get_column_statistic session keys object s).0
          × HasRows (get_datatype_metadata session keys object s).0
          × HasRows (get_role_metadata session keys object s).0
    unfolding get_table_metadata get_column_metadata get_index_metadata get_constraint_metadata
        get_column_statistic get_datatype_metadata get_role_metadata
    found_lem s = (
      checked_lem (λ daos. daos.table_dao.select keys object) s,
      checked_lem (λ daos. daos.column_dao.select keys object) s,
      checked_lem (λ daos. daos.index_dao.select keys object) s,
      checked_lem (λ daos. daos.constraint_dao.select keys object) s,
      checked_lem (λ daos. daos.statistic_dao.select keys object) s,
      checked_lem (λ daos. daos.datatype_dao.select keys object) s,
      checked_lem (λ daos. daos.role_dao.select keys object) s,
    )
