-- ===== src/Provider/Transaction.antt =====
-- `MetadataProvider::transaction` over the JSON storage (src/provider/metadata_provider.cpp,
-- src/dao/json/db_session_manager_json.cpp).
use metadata_manager.Prelude.{Bool, if◌then◌else◌, true, false, [], ◌≡◌, refl, ◌∙◌}
use metadata_manager.Platform.{Platform}
use metadata_manager.Outcome.{Outcome, ok, err, thrown, undefined}
use metadata_manager.Action.{Action, continue, ◌>>=◌}
use metadata_manager.Session.{World, start_transaction, commit, rollback}
use metadata_manager.Session.Keeps.{Keeps, IsKept}
use metadata_manager.Provider.{init, transaction, end_transaction}
use metadata_manager.Provider.Json.{json_session}

module _ ⦃P : Platform⦄ where
  -- the state in which the body of a transaction starts
  abbrev pub started : World → World
  started w = record w { contents_map = []; locking = true }

  abbrev pub ended : World → World
  ended w = record w { contents_map = []; locking = false }

  -- What a transaction is to do with the end of its body.
  abbrev pub closed : {A : Type 0} → Outcome A → World → Outcome A × World
  closed (ok a) w = (ok a, (commit w).1)
  closed (err e) w = (err e, ended w)
  closed thrown w = (thrown, w)
  closed undefined w = (undefined, w)

  closed_lem :
      {A : Type 0} (r : Outcome A) (w : World)
      → w.locking ≡ true
      → end_transaction json_session r w ≡ closed r w
  unfolding end_transaction json_session commit rollback ◌>>=◌
  closed_lem (ok a) w locked = rw locked refl
  closed_lem (err e) w locked = rw locked refl
  closed_lem thrown w locked = refl
  closed_lem undefined w locked = refl

  begun_lem :
      {A : Type 0} (body : Action World A) (w : World)
      → w.locking ≡ false
      → transaction json_session body w
        ≡ end_transaction json_session (body (started w)).0 (body (started w)).1
  unfolding transaction init json_session start_transaction ◌>>=◌
  begun_lem body w free = rw free refl

  -- Outside of a transaction, and where the body does not release the lock, the body runs with an
  -- empty map of contents. Its success is committed, its error is returned and rolled back, and
  -- an exception passes with the lock held.
  pub transaction_lem :
      {A : Type 0} (body : Action World A) (w : World)
      → w.locking ≡ false
      → (body (started w)).1.locking ≡ true
      → transaction json_session body w ≡ closed (body (started w)).0 (body (started w)).1
  transaction_lem body w free locked =
      begun_lem body w free ∙ closed_lem (body (started w)).0 (body (started w)).1 locked

  -- All or nothing: only a success may change the files, and every return of an error code releases the
  -- lock.
  abbrev pub IsAtomic : {A : Type 0} → World → Outcome A × World → Type 0
  IsAtomic w (ok _, w') = w'.locking ≡ false
  IsAtomic w (err _, w') = (w'.disk ≡ w.disk) × (w'.locking ≡ false)
  IsAtomic w (thrown, w') = w'.disk ≡ w.disk
  IsAtomic w (undefined, w') = w'.disk ≡ w.disk

  IsAtomic-closed :
      {A : Type 0} (w : World) (r : Outcome A) (w' : World)
      → IsKept (started w) w'
      → IsAtomic w (closed r w')
  unfolding commit
  IsAtomic-closed w (ok _) w' k = rw k.1 refl
  IsAtomic-closed w (err _) w' k = (k.0, refl)
  IsAtomic-closed w thrown w' k = k.0
  IsAtomic-closed w undefined w' k = k.0

  pub IsAtomic-transaction :
      {A : Type 0} (body : Action World A) (w : World)
      → w.locking ≡ false
      → Keeps body
      → IsAtomic w (transaction json_session body w)
  IsAtomic-transaction body w free h =
      let kept = h.keeps (started w) in
      rw (transaction_lem body w free kept.1)
        (IsAtomic-closed w (body (started w)).0 (body (started w)).1 kept)

  IsAtomic-after :
      {A : Type 0} (w w' : World) (r : Outcome A) (w'' : World)
      → w'.disk ≡ w.disk
      → IsAtomic w' (r, w'')
      → IsAtomic w (r, w'')
  IsAtomic-after w w' (ok _) w'' e h = h
  IsAtomic-after w w' (err _) w'' e h = (h.0 ∙ e, h.1)
  IsAtomic-after w w' thrown w'' e h = h ∙ e
  IsAtomic-after w w' undefined w'' e h = h ∙ e

  IsAtomic-continue :
      {A B : Type 0} (w : World) (r : Outcome A) (w' : World) (f : A → Action World B)
      → w.locking ≡ false
      → IsKept w w'
      → ((a : A) → IsAtomic w' (f a w'))
      → IsAtomic w (continue r f w')
  IsAtomic-continue w (ok a) w' f free k h = IsAtomic-after w w' (f a w').0 (f a w').1 k.0 (h a)
  IsAtomic-continue w (err _) w' f free k h = (k.0, k.1 ∙ free)
  IsAtomic-continue w thrown w' f free k h = k.0
  IsAtomic-continue w undefined w' f free k h = k.0

  -- a check before a transaction
  pub IsAtomic-checked :
      {A B : Type 0} (check : Action World A) (body : Action World B) (w : World)
      → w.locking ≡ false
      → Keeps check
      → Keeps body
      → IsAtomic w ((check >>= λ _. transaction json_session body) w)
  unfolding ◌>>=◌
  IsAtomic-checked check body w free hc hb =
      let k = hc.keeps w in
      IsAtomic-continue w (check w).0 (check w).1 (λ _. transaction json_session body) free k
        (λ _. IsAtomic-transaction body (check w).1 (k.1 ∙ free) hb)

  pub IsAtomic-if :
      {A : Type 0} (b : Bool) (m n : Action World A) (w : World)
      → IsAtomic w (m w)
      → IsAtomic w (n w)
      → IsAtomic w ((if b then m else n) w)
  IsAtomic-if true m n w hm hn = hm
  IsAtomic-if false m n w hm hn = hn
