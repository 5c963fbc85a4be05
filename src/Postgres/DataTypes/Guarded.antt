-- ===== src/Postgres/DataTypes/Guarded.antt =====
-- Inside of a transaction the operations of the DAO commit nothing (src/dao/postgresql/datatypes_dao_pg.cpp).
use metadata_manager.Prelude.{ℕ, some, [], ◌∷◌, ◌≡◌}
use metadata_manager.Platform.{Platform}
use metadata_manager.Libpq.{Libpq}
use metadata_manager.Ptree.Helper.{Keys}
use metadata_manager.Keeping.{Keeps, Keeps-lift, Keeps-bind, Gives, Gives-then, Gives-pure}
use metadata_manager.Provider.Keeps.{KeepsDao}
use metadata_manager.Postgres.{DaoPg}
use metadata_manager.Postgres.Prepared.{prepare_all}
use metadata_manager.Postgres.Guarded.{Guarded, Keeps-execute_by_key, Gives-create_dao_instance}
use metadata_manager.Postgres.DataTypes.Access.{make, select, datatypes_dao_pg, get_datatypes_dao}

module _ ⦃P : Platform⦄ ⦃L : Libpq⦄ (h : ℕ) (c : L.Committed) where
  open P use {Tree}

  module _ (dao : DaoPg) (e : dao.pg_conn ≡ some h) where
    Keeps-select : (keys : Keys) → Keeps (Guarded h c) (select dao keys)
    unfolding select
    Keeps-select [] = Keeps-lift _
    Keeps-select (key ∷ keys) = search (Keeps-bind, Keeps-lift, Keeps-execute_by_key) depth 8

    KeepsDao-datatypes_dao_pg : KeepsDao (Guarded h c) (datatypes_dao_pg dao)
    unfolding datatypes_dao_pg
    KeepsDao-datatypes_dao_pg = record {
      insert = λ object object_id. Keeps-lift _;
      select = λ keys object. Keeps-select keys;
      update = λ keys object. Keeps-lift _;
      remove = λ keys. Keeps-lift _;
    }

  pub Gives-get_datatypes_dao : Gives (Guarded h c) (KeepsDao (Guarded h c)) get_datatypes_dao
  unfolding get_datatypes_dao
  Gives-get_datatypes_dao =
      Gives-then (Gives-create_dao_instance h c _ make prepare_all (λ _ g. g.daos.6))
        (λ dao e. Gives-pure (KeepsDao-datatypes_dao_pg dao e))
