-- ===== src/Postgres/Constraints/Guarded.antt =====
-- Inside of a transaction the operations of the DAO commit nothing (src/dao/postgresql/constraints_dao_pg.cpp).
use metadata_manager.Prelude.{ℕ, some, [], ◌∷◌, ◌≡◌}
use metadata_manager.Platform.{Platform}
use metadata_manager.Libpq.{Libpq}
use metadata_manager.Ptree.Helper.{Keys}
use metadata_manager.Keeping.{Keeps, Keeps-lift, Keeps-bind, Gives, Gives-then, Gives-pure}
use metadata_manager.Provider.Keeps.{KeepsDao}
use metadata_manager.Postgres.{DaoPg}
use metadata_manager.Postgres.Prepared.{prepare_all}
use metadata_manager.Postgres.Guarded.{Guarded, Keeps-execute_by_key, Gives-create_dao_instance}
use metadata_manager.Postgres.Constraints.Access.{
  make, insert, select, remove, constraints_dao_pg, get_constraints_dao,
}

module _ ⦃P : Platform⦄ ⦃L : Libpq⦄ (h : ℕ) (c : L.Committed) where
  open P use {Tree}

  module _ (dao : DaoPg) (e : dao.pg_conn ≡ some h) where
    Keeps-insert : (object : Tree) → Keeps (Guarded h c) (insert dao object)
    unfolding insert
    Keeps-insert object = search (Keeps-bind, Keeps-lift, Keeps-execute_by_key) depth 8

    Keeps-select : (keys : Keys) → Keeps (Guarded h c) (select dao keys)
    unfolding select
    Keeps-select keys = search (Keeps-bind, Keeps-lift, Keeps-execute_by_key) depth 8

    Keeps-remove : (keys : Keys) → Keeps (Guarded h c) (remove dao keys)
    unfolding remove
    Keeps-remove [] = Keeps-lift _
    Keeps-remove (key ∷ keys) = search (Keeps-bind, Keeps-lift, Keeps-execute_by_key) depth 8

    KeepsDao-constraints_dao_pg : KeepsDao (Guarded h c) (constraints_dao_pg dao)
    unfolding constraints_dao_pg
    KeepsDao-constraints_dao_pg = record {
      insert = λ object object_id. Keeps-insert object;
      select = λ keys object. Keeps-select keys;
      update = λ keys object. Keeps-lift _;
      remove = Keeps-remove;
    }

  pub Gives-get_constraints_dao : Gives (Guarded h c) (KeepsDao (Guarded h c)) get_constraints_dao
  unfolding get_constraints_dao
  Gives-get_constraints_dao =
      Gives-then (Gives-create_dao_instance h c _ make prepare_all (λ _ g. g.daos.3))
        (λ dao e. Gives-pure (KeepsDao-constraints_dao_pg dao e))
