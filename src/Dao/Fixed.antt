-- ===== src/Dao/Fixed.antt =====
-- The DAOs of the JSON storage that keep no rows: `StatisticsDaoJson`, `PrivilegesDaoJson` and
-- `RolesDaoJson` (include/manager/metadata/dao/json).
use metadata_manager.Prelude.{[]}
use metadata_manager.Platform.{Platform}
use metadata_manager.ErrorCode.{not_supported}
use metadata_manager.Action.{pure, fail}
use metadata_manager.Session.{World}
use metadata_manager.Dao.{Dao}

module _ ⦃P : Platform⦄ where
  -- A selection leaves `object` as it was.
  unfoldable pub statistics_dao : Dao World
  statistics_dao = record {
    insert = λ object object_id. pure object_id;
    select = λ keys object. pure object;
    update = λ keys object. fail not_supported;
    remove = λ keys. pure [];
  }

  unfoldable pub privileges_dao : Dao World
  privileges_dao = record {
    insert = λ object object_id. fail not_supported;
    select = λ keys object. pure object;
    update = λ keys object. fail not_supported;
    remove = λ keys. fail not_supported;
  }

  unfoldable pub roles_dao : Dao World
  roles_dao = record {
    insert = λ object object_id. fail not_supported;
    select = λ keys object. pure object;
    update = λ keys object. fail not_supported;
    remove = λ keys. fail not_supported;
  }
