-- ===== src/Dao/Stored.antt =====
-- The DAOs of the JSON storage as values of the interface (include/manager/metadata/dao/json, the files
-- of the classes).
use metadata_manager.Platform.{Platform}
use metadata_manager.ErrorCode.{not_supported}
use metadata_manager.Action.{fail}
use metadata_manager.Session.{World}
use metadata_manager.Dao.{Dao}
use metadata_manager.Dao.Tables
use metadata_manager.Dao.Columns
use metadata_manager.Dao.Constraints
use metadata_manager.Dao.Indexes
use metadata_manager.Dao.DataTypes

module _ ⦃P : Platform⦄ where
  unfoldable pub tables_dao : Dao World
  unfolding Tables.insert Tables.select Tables.update Tables.remove
  tables_dao = record {
    insert = Tables.insert;
    select = Tables.select;
    update = Tables.update;
    remove = Tables.remove;
  }

  unfoldable pub columns_dao : Dao World
  unfolding Columns.insert Columns.select Columns.remove
  columns_dao = record {
    insert = Columns.insert;
    select = Columns.select;
    update = λ keys object. fail not_supported;
    remove = Columns.remove;
  }

  unfoldable pub constraints_dao : Dao World
  unfolding Constraints.insert Constraints.select Constraints.remove
  constraints_dao = record {
    insert = Constraints.insert;
    select = Constraints.select;
    update = λ keys object. fail not_supported;
    remove = Constraints.remove;
  }

  unfoldable pub indexes_dao : Dao World
  unfolding Indexes.insert Indexes.select Indexes.update Indexes.remove
  indexes_dao = record {
    insert = Indexes.insert;
    select = Indexes.select;
    update = Indexes.update;
    remove = Indexes.remove;
  }

  unfoldable pub data_types_dao : Dao World
  unfolding DataTypes.select
  data_types_dao = record {
    insert = λ object object_id. fail not_supported;
    select = DataTypes.select;
    update = λ keys object. fail not_supported;
    remove = λ keys. fail not_supported;
  }
