-- ===== src/Postgres/Manager/Atomic.antt =====
-- `MetadataProvider::transaction` over PostgreSQL (src/provider/metadata_provider.cpp,
-- src/dao/postgresql/db_session_manager_pg.cpp), and the changes of `Tables` in it (src/tables.cpp).
use metadata_manager.Prelude.{ℕ, String, some, true, ◌≡◌, ◌≢◌, ◌⊎◌, inl, inr, refl, ◌∙◌}
use metadata_manager.Platform.{Platform}
use metadata_manager.Libpq.{Libpq, command_ok, is_quiet}
use metadata_manager.ErrorCode.{ErrorCode}
use metadata_manager.Outcome.{Outcome, ok, err, thrown, undefined}
use metadata_manager.Action.{Action, continue, ◌>>=◌}
use metadata_manager.Keeping.{Keeps}
use metadata_manager.Provider.{end_transaction}
use metadata_manager.Postgres.{PgWorld}
use metadata_manager.Postgres.Session.{commit, rollback}
use metadata_manager.Postgres.Session.Sent.{
  Sent, unsent, accepted, refused, status_of, sent, Sent-command,
}
use metadata_manager.Postgres.Guarded.{Guarded, HoldsAll}
use metadata_manager.Postgres.Manager.{pg_session}

module _ ⦃P : Platform⦄ ⦃L : Libpq⦄ where
  -- The connection of the session and of all DAOs is the handle, and no prepared statement ends a transaction.
  pub record Ready (h : ℕ) (w : PgWorld) : Type 0 where
    pub pg_conn : w.pg_conn ≡ some h
    pub daos : HoldsAll h w.daos
    pub ends_none : L.ends_none h w.server ≡ true

  -- A server at which the COMMIT whose state is `after` was sent, with nothing committed since `c`.
  pub record Before (c : L.Committed) (after : L.Server) : Type 0 where
    pub handle : ℕ
    pub server : L.Server
    pub committed : L.committed server ≡ c
    pub commit : after ≡ (L.exec handle "COMMIT" server).1

  -- A success has committed by one COMMIT, which PostgreSQL accepted. An error has committed nothing, or
  -- comes from a COMMIT that was not accepted; nothing else commits.
  abbrev pub IsSettled : {A : Type 0} → L.Committed → Outcome A × PgWorld → Type 0
  IsSettled c (ok _, w) =
      (b : Before c w.server) × (L.result_status (L.exec b.handle "COMMIT" b.server).0 ≡ command_ok)
  IsSettled c (err _, w) =
      (L.committed w.server ≡ c)
      ⊎ ((b : Before c w.server) × (L.result_status (L.exec b.handle "COMMIT" b.server).0
            ≢ command_ok))
  IsSettled c (thrown, w) = L.committed w.server ≡ c
  IsSettled c (undefined, w) = L.committed w.server ≡ c

  IsSettled-commit :
      {A : Type 0} (a : A) (c : L.Committed) (w : PgWorld) (r : Outcome (Unit {0}) × PgWorld)
      → L.committed w.server ≡ c
      → Sent "COMMIT" w r
      → IsSettled c (continue r.0 (λ _ v. (ok a, v)) r.1)
  IsSettled-commit a c w _ kept unsent = inl kept
  IsSettled-commit a c w _ kept (accepted g _ e) =
      (record { handle = g; server = w.server; committed = kept; commit = refl }, e)
  IsSettled-commit a c w _ kept (refused g _ e) =
      inr (record { handle = g; server = w.server; committed = kept; commit = refl }, e)

  committed-quiet :
      (c : L.Committed) (text : String) (w : PgWorld) (r : Outcome (Unit {0}) × PgWorld)
      → is_quiet text ≡ true
      → L.committed w.server ≡ c
      → Sent text w r
      → L.committed r.1.server ≡ c
  committed-quiet c text w _ quiet kept unsent = kept
  committed-quiet c text w _ quiet kept (accepted g _ _) =
      L.exec-committed g text w.server quiet ∙ kept
  committed-quiet c text w _ quiet kept (refused g _ _) =
      L.exec-committed g text w.server quiet ∙ kept

  IsSettled-rolled :
      (A : Type 0) (c : L.Committed) (w : PgWorld)
      → L.committed w.server ≡ c
      → (e : ErrorCode) (rolled : Outcome (Unit {0}))
      → IsSettled c (elim rolled as (λ _. Outcome A × PgWorld) [
        | ok _ ↦ (err e, w)
        | err f ↦ (err f, w)
        | thrown ↦ (thrown, w)
        | undefined ↦ (undefined, w)
      ])
  IsSettled-rolled A c w kept e (ok _) = inl kept
  IsSettled-rolled A c w kept e (err _) = inl kept
  IsSettled-rolled A c w kept e thrown = kept
  IsSettled-rolled A c w kept e undefined = kept

  IsSettled-end_transaction :
      {A : Type 0} (c : L.Committed) (r : Outcome A) (w : PgWorld)
      → L.committed w.server ≡ c
      → IsSettled c (end_transaction pg_session r w)
  unfolding end_transaction pg_session commit rollback ◌>>=◌
  IsSettled-end_transaction c (ok a) w kept =
      IsSettled-commit a c w (commit w) kept (Sent-command "COMMIT" w)
  IsSettled-end_transaction c (err e) w kept =
      IsSettled-rolled _ c (rollback w).1
        (committed-quiet c "ROLLBACK" w (rollback w) refl kept (Sent-command "ROLLBACK" w)) e
        (rollback w).0
  IsSettled-end_transaction c thrown w kept = kept
  IsSettled-end_transaction c undefined w kept = kept

  -- What holds before BEGIN.
  pub record Opening (h : ℕ) (c : L.Committed) (w : PgWorld) : Type 0 where
    pub daos : HoldsAll h w.daos
    pub committed : L.committed w.server ≡ c
    pub is_opening :
        (L.is_guarded h w.server ≡ true) ⊎ ((w.pg_conn ≡ some h) × (L.ends_none h w.server ≡ true))

  is_guarded-begin :
      (h g : ℕ) (w : PgWorld)
      → g ≡ h
      → L.ends_none h w.server ≡ true
      → status_of g "BEGIN" w ≡ command_ok
      → L.is_guarded h (sent g "BEGIN" w).server ≡ true
  is_guarded-begin h g w same ends_none = rw same (L.exec-begin h w.server ends_none)

  Guarded-begun :
      (h : ℕ) (c : L.Committed) (w : PgWorld) (g : ℕ)
      → Opening h c w
      → w.pg_conn ≡ some g
      → status_of g "BEGIN" w ≡ command_ok
      → Guarded h c (sent g "BEGIN" w)
  Guarded-begun h c w g o conn e = record {
    daos = o.daos;
    committed = L.exec-committed g "BEGIN" w.server refl ∙ o.committed;
    is_guarded = elim o.is_opening [
      | inl guarded ↦ L.exec-is_guarded h g "BEGIN" w.server refl guarded
      | inr (same, ends_none) ↦ is_guarded-begin h g w (cc) ends_none e
    ];
  }

  pub IsSettled-begun :
      {A : Type 0} (h : ℕ) (c : L.Committed) (body : Action PgWorld A)
      → Keeps (Guarded h c) body
      → (w : PgWorld) (r : Outcome (Unit {0}) × PgWorld) → Opening h c w
      → Sent "BEGIN" w r
      → IsSettled c (continue r.0 (λ _ s. end_transaction pg_session (body s).0 (body s).1) r.1)
  IsSettled-begun h c body hb w _ o unsent = inl o.committed
  IsSettled-begun h c body hb w _ o (accepted g conn e) =
      let begun = Guarded-begun h c w g o conn e in
      IsSettled-end_transaction c (body (sent g "BEGIN" w)).0 (body (sent g "BEGIN" w)).1
        (hb.keeps (sent g "BEGIN" w) begun).committed
  IsSettled-begun h c body hb w _ o (refused g _ _) =
      inl (L.exec-committed g "BEGIN" w.server refl ∙ o.committed)
