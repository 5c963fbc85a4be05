-- ===== src/Postgres/Manager/Settled.antt =====
-- `MetadataProvider::transaction` over PostgreSQL, from its first connection to its end
-- (src/provider/metadata_provider.cpp, src/dao/postgresql/db_session_manager_pg.cpp), and the transactions of
-- `Tables` (src/tables.cpp).
use metadata_manager.Prelude.{
  ℕ, ℤ, String, Bool, true, false, some, ◌≡◌, inl, inr, refl, Bool-cases, is_positive, str_eq,
  if◌then◌else◌,
}
use metadata_manager.Platform.{Platform}
use metadata_manager.Libpq.{Libpq}
use metadata_manager.Outcome.{Outcome, ok, err, thrown, undefined}
use metadata_manager.Action.{Action, continue, ◌>>=◌}
use metadata_manager.Keeping.{Keeps}
use metadata_manager.Provider.{Daos, init, transaction, end_transaction}
use metadata_manager.Postgres.{PgWorld, is_open}
use metadata_manager.Postgres.Session.{start_transaction}
use metadata_manager.Postgres.Session.Sent.{Sent-command}
use metadata_manager.Postgres.Guarded.{Guarded}
use metadata_manager.Postgres.Manager.{pg_session}
use metadata_manager.Postgres.Manager.Guarded.{KeepsSession-pg_session}
use metadata_manager.Postgres.Manager.Held.{init_lem, connect_open}
use metadata_manager.Postgres.Manager.Atomic.{Ready, IsSettled, Opening, IsSettled-begun}
use metadata_manager.Tables.{remove_by_id, remove_by_name, add_body, update_body}
use metadata_manager.Tables.Keeps.{
  Keeps-add_body, Keeps-update_body, Keeps-remove_body, Keeps-remove_name_body,
}

module _ ⦃P : Platform⦄ ⦃L : Libpq⦄ where
  open P use {Tree}

  is_open-some :
      (h : ℕ) (w : PgWorld)
      → w.pg_conn ≡ some h
      → L.is_ok h w.server ≡ true
      → is_open w.pg_conn w.server ≡ true
  unfolding is_open
  is_open-some h w e opened = rw e opened

  -- The connection is open and does nothing before BEGIN, or it is broken and can do nothing at all.
  Opening-init :
      (h : ℕ) (w : PgWorld) → Ready h w → Opening h (L.committed w.server) (init pg_session w).1
  Opening-init h w ready = elim (Bool-cases (L.is_ok h w.server)) [
    | inl opened ↦
        rw (init_lem h w w ready.daos (connect_open w (is_open-some h w ready.pg_conn opened)))
          (record {
            daos = ready.daos;
            committed = refl;
            is_opening = inr (ready.pg_conn, ready.ends_none);
          })
    | inr closed ↦
        let k =
          ((KeepsSession-pg_session h (L.committed w.server)).init_daos.gives w (record {
            daos = ready.daos;
            committed = refl;
            is_guarded = L.broken-is_guarded h w.server closed;
          })).0 in
        record { daos = k.daos; committed = k.committed; is_opening = inl k.is_guarded }
  ]

  IsSettled-opened :
      {A : Type 0} (h : ℕ) (c : L.Committed) (body : Action PgWorld A)
      → Keeps (Guarded h c) body
      → (r : Outcome (Daos PgWorld)) (w : PgWorld) → Opening h c w
      → IsSettled c (
          continue r
            (λ _ s.
              continue
                (start_transaction s).0
                (λ _ s'. end_transaction pg_session (body s').0 (body s').1)
                (start_transaction s).1)
            w)
  unfolding start_transaction
  IsSettled-opened h c body hb (ok _) w o =
      IsSettled-begun h c body hb w (start_transaction w) o (Sent-command "BEGIN" w)
  IsSettled-opened h c body hb (err _) w o = inl o.committed
  IsSettled-opened h c body hb thrown w o = o.committed
  IsSettled-opened h c body hb undefined w o = o.committed

  IsSettled-transaction :
      {A : Type 0} (h : ℕ) (body : Action PgWorld A) (w : PgWorld)
      → Ready h w
      → Keeps (Guarded h (L.committed w.server)) body
      → IsSettled (L.committed w.server) (transaction pg_session body w)
  unfolding transaction pg_session ◌>>=◌
  IsSettled-transaction h body w ready hb =
      IsSettled-opened h (L.committed w.server) body hb (init pg_session w).0 (init pg_session w).1
        (Opening-init h w ready)

  IsSettled-guard :
      {A : Type 0} (c : L.Committed) (passed : Bool) (m n : Action PgWorld A) (w : PgWorld)
      → IsSettled c (m w)
      → IsSettled c (n w)
      → IsSettled c ((if passed then m else n) w)
  IsSettled-guard c true m n w hm hn = hm
  IsSettled-guard c false m n w hm hn = hn

  -- Over PostgreSQL, where the session and its DAOs share a connection, open or broken, the transactions of
  -- `Tables::add` and `Tables::update` and both forms of `Tables::remove` change what has been committed only
  -- by one COMMIT at their end: a success means that PostgreSQL accepted it, an error code that nothing has
  -- been committed or that the COMMIT itself failed, and an exception that nothing has been committed. The
  -- provider may reconnect in between.
  pub changes-IsSettled :
      (h : ℕ) (object_id : ℤ) (object : Tree) (object_name : String) (w : PgWorld)
      → Ready h w
      → IsSettled (L.committed w.server) (transaction pg_session (add_body pg_session object) w)
        × IsSettled
            (L.committed w.server)
            (transaction pg_session (update_body pg_session object_id object) w)
        × IsSettled (L.committed w.server) (remove_by_id pg_session object_id w)
        × IsSettled (L.committed w.server) (remove_by_name pg_session object_name w)
  unfolding remove_by_id remove_by_name
  changes-IsSettled h object_id object object_name w ready =
      let kept = KeepsSession-pg_session h (L.committed w.server) in
      (
        IsSettled-transaction h _ w ready (Keeps-add_body pg_session kept object),
        IsSettled-transaction h _ w ready (Keeps-update_body pg_session kept object_id object),
        IsSettled-guard _ (is_positive object_id) _ _ w
            (IsSettled-transaction h _ w ready (Keeps-remove_body pg_session kept object_id))
            (inl refl),
        IsSettled-guard _ (str_eq object_name "") _ _ w (inl refl) (
            IsSettled-transaction h _ w ready (Keeps-remove_name_body pg_session kept object_name)),
      )
