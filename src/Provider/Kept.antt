-- ===== src/Provider/Kept.antt =====
-- The operations of `MetadataProvider` over the JSON storage leave the files and the transaction lock as they
-- are (src/provider/metadata_provider.cpp, src/dao/json).
use metadata_manager.Prelude.{refl, ◌∙◌}
use metadata_manager.Platform.{Platform}
use metadata_manager.Action.{Action, ◌>>=◌}
use metadata_manager.Keeping
use metadata_manager.Session.{World}
use metadata_manager.Session.Keeps.{IsKept, Keeps}
use metadata_manager.Dao.{Dao}
use metadata_manager.Dao.Keeps.{
  KeepsFiles, KeepsFiles-tables_dao, KeepsFiles-columns_dao, KeepsFiles-indexes_dao,
  KeepsFiles-constraints_dao, KeepsFiles-statistics_dao, KeepsFiles-data_types_dao,
}
use metadata_manager.Provider.{init}
use metadata_manager.Provider.Json.{json_session}
use metadata_manager.Provider.Keeps.{KeepsDao, KeepsSession}

module _ ⦃P : Platform⦄ where
  at_each : {A : Type 0} {m : Action World A} (c : World) → Keeps m → Keeping.Keeps (IsKept c) m
  at_each c h = record { keeps = λ w k. let after = h.keeps w in (after.0 ∙ k.0, after.1 ∙ k.1) }

  KeepsDao-at_each : {dao : Dao World} (c : World) → KeepsFiles dao → KeepsDao (IsKept c) dao
  KeepsDao-at_each c h = record {
    insert = λ object object_id. at_each c (h.insert object object_id);
    select = λ keys object. at_each c (h.select keys object);
    update = λ keys object. at_each c (h.update keys object);
    remove = λ keys. at_each c (h.remove keys);
  }

  KeepsSession-json_session : (c : World) → KeepsSession (IsKept c) json_session
  unfolding init json_session ◌>>=◌
  KeepsSession-json_session c = record {
    init_daos = record {
      gives = λ w k. (
        k,
        record {
          table_dao = KeepsDao-at_each c KeepsFiles-tables_dao;
          column_dao = KeepsDao-at_each c KeepsFiles-columns_dao;
          index_dao = KeepsDao-at_each c KeepsFiles-indexes_dao;
          constraint_dao = KeepsDao-at_each c KeepsFiles-constraints_dao;
          statistic_dao = KeepsDao-at_each c KeepsFiles-statistics_dao;
          datatype_dao = KeepsDao-at_each c KeepsFiles-data_types_dao;
        },
      );
    };
  }

  -- what is kept as any session keeps its predicate
  pub Keeps-json_session :
      {A : Type 0} {m : Action World A}
      → ((c : World) → KeepsSession (IsKept c) json_session → Keeping.Keeps (IsKept c) m)
      → Keeps m
  Keeps-json_session h = record {
    keeps = λ w. (h w (KeepsSession-json_session w)).keeps w (refl, refl);
  }
