-- ===== src/Dao/Keeps.antt =====
-- The operations of the JSON DAOs leave the files and the transaction lock as they are: a change of the
-- files waits for the commit (src/dao/json, the files of the DAOs).
use metadata_manager.Prelude.{ℤ, [], ◌∷◌, refl, ap, ◌≡◌, ◌∙◌}
use metadata_manager.Key.{Key}
use metadata_manager.Outcome.{Outcome, ok, err, thrown, undefined}
use metadata_manager.Platform.{Platform}
use metadata_manager.Action.{Action}
use metadata_manager.Ptree.{get_string?}
use metadata_manager.Ptree.Helper.{Keys}
use metadata_manager.Session.{World}
use metadata_manager.Session.Keeps.{
  Keeps, Keeps-lift, Keeps-bind, Keeps-if, Keeps-option, Keeps-list, Keeps-load_contents,
  Keeps-set_contents,
}
use metadata_manager.Dao.{Dao, has_rows, exists, generate_oid, update_oid}
use metadata_manager.Dao.Tables
use metadata_manager.Dao.Nested.{change_table}
use metadata_manager.Dao.Columns
use metadata_manager.Dao.Constraints
use metadata_manager.Dao.Indexes
use metadata_manager.Dao.DataTypes
use metadata_manager.Dao.Fixed.{statistics_dao}
use metadata_manager.Dao.Stored.{
  tables_dao, columns_dao, constraints_dao, indexes_dao, data_types_dao,
}

module _ ⦃P : Platform⦄ where
  open P use {Tree, empty, children, get_child?}

  Keeps-generate_oid : (k : Key) → Keeps (generate_oid k)
  unfolding generate_oid
  Keeps-generate_oid k = record { keeps = λ w. (refl, refl) }

  Keeps-update_oid : (k : Key) (v : ℤ) → Keeps (update_oid k v)
  unfolding update_oid
  Keeps-update_oid k v = record { keeps = λ w. (refl, refl) }

  IsKept-has_rows : (r : Outcome Tree) (w : World) → (has_rows (λ _. (r, w)) w).1 ≡ w
  unfolding has_rows
  IsKept-has_rows (ok _) w = refl
  IsKept-has_rows (err _) w = refl
  IsKept-has_rows thrown w = refl
  IsKept-has_rows undefined w = refl

  Keeps-has_rows : {m : Action World Tree} → Keeps m → Keeps (has_rows m)
  unfolding has_rows
  Keeps-has_rows {m = m} h = record {
    keeps = λ w.
        let same = IsKept-has_rows (m w).0 (m w).1 in
        (ap (λ v. v.disk) same ∙ (h.keeps w).0, ap (λ v. v.locking) same ∙ (h.keeps w).1);
  }

  Keeps-exists :
      (select : Keys → Action World Tree) (object : Tree)
      → ((keys : Keys) → Keeps (select keys))
      → Keeps (exists select object)
  unfolding exists
  Keeps-exists select object h =
      Keeps-option (get_string? Key.name object) (Keeps-lift _) (λ name_value. Keeps-has_rows (h _))

  ruleset keeps_rules = (
    Keeps-lift, Keeps-bind, Keeps-if, Keeps-option, Keeps-list, Keeps-load_contents,
    Keeps-set_contents, Keeps-generate_oid, Keeps-update_oid,
  )

  Keeps-Tables-select : (keys : Keys) (object : Tree) → Keeps (Tables.select keys object)
  unfolding Tables.select
  Keeps-Tables-select keys object = search keeps_rules depth 12

  Keeps-Tables-insert : (object : Tree) (object_id : ℤ) → Keeps (Tables.insert object object_id)
  unfolding Tables.insert
  Keeps-Tables-insert object object_id =
      Keeps-bind (Keeps-exists _ object (λ keys. Keeps-Tables-select keys empty))
        (λ found. search keeps_rules depth 12)

  Keeps-Tables-update : (keys : Keys) (object : Tree) → Keeps (Tables.update keys object)
  unfolding Tables.update Tables.update_found
  Keeps-Tables-update [] object = Keeps-lift _
  Keeps-Tables-update (key ∷ keys) object = Keeps-bind (Keeps-load_contents _ _) (λ contents.
      Keeps-bind (Keeps-lift _)
        (λ found. Keeps-list (children found) (Keeps-lift _) (λ _ _. search keeps_rules depth 12)))

  Keeps-Tables-remove : (keys : Keys) → Keeps (Tables.remove keys)
  unfolding Tables.remove
  Keeps-Tables-remove keys = search keeps_rules depth 12

  Keeps-Indexes-select : (keys : Keys) (object : Tree) → Keeps (Indexes.select keys object)
  unfolding Indexes.select
  Keeps-Indexes-select keys object = search keeps_rules depth 12

  Keeps-Indexes-insert : (object : Tree) (object_id : ℤ) → Keeps (Indexes.insert object object_id)
  unfolding Indexes.insert
  Keeps-Indexes-insert object object_id =
      Keeps-bind (Keeps-exists _ object (λ keys. Keeps-Indexes-select keys empty))
        (λ found. search keeps_rules depth 12)

  Keeps-Indexes-update : (keys : Keys) (object : Tree) → Keeps (Indexes.update keys object)
  unfolding Indexes.update Indexes.update_found
  Keeps-Indexes-update [] object = Keeps-lift _
  Keeps-Indexes-update (key ∷ keys) object = Keeps-bind (Keeps-load_contents _ _) (λ contents.
      Keeps-bind (Keeps-lift _)
        (λ found. Keeps-list (children found) (Keeps-lift _) (λ _ _. search keeps_rules depth 12)))

  Keeps-Indexes-remove : (keys : Keys) → Keeps (Indexes.remove keys)
  unfolding Indexes.remove
  Keeps-Indexes-remove keys = search keeps_rules depth 12

  Keeps-identify : (object : Tree) → Keeps (Columns.identify object)
  unfolding Columns.identify
  Keeps-identify object = search keeps_rules depth 12

  Keeps-Columns-select : (keys : Keys) (object : Tree) → Keeps (Columns.select keys object)
  unfolding Columns.select
  Keeps-Columns-select keys object = search keeps_rules depth 12

  Keeps-Columns-insert : (object : Tree) (object_id : ℤ) → Keeps (Columns.insert object object_id)
  unfolding Columns.insert
  Keeps-Columns-insert object object_id = Keeps-bind (Keeps-load_contents _ _) (λ contents.
      Keeps-bind (Keeps-lift _) (λ root_node.
        Keeps-option (change_table _ (λ table. table) (children root_node)) (Keeps-lift _)
          (λ _. search (keeps_rules, Keeps-identify) depth 12)))

  Keeps-Columns-remove : (keys : Keys) → Keeps (Columns.remove keys)
  unfolding Columns.remove
  Keeps-Columns-remove keys = search keeps_rules depth 12

  Keeps-Constraints-select : (keys : Keys) (object : Tree) → Keeps (Constraints.select keys object)
  unfolding Constraints.select
  Keeps-Constraints-select keys object = search keeps_rules depth 12

  Keeps-Constraints-insert :
      (object : Tree) (object_id : ℤ) → Keeps (Constraints.insert object object_id)
  unfolding Constraints.insert
  Keeps-Constraints-insert object object_id = Keeps-bind (Keeps-load_contents _ _) (λ contents.
      Keeps-bind (Keeps-lift _) (λ root_node.
        Keeps-option (change_table _ (λ table. table) (children root_node)) (Keeps-lift _)
          (λ _. search (keeps_rules, Keeps-identify) depth 12)))

  Keeps-Constraints-remove : (keys : Keys) → Keeps (Constraints.remove keys)
  unfolding Constraints.remove
  Keeps-Constraints-remove keys = search keeps_rules depth 12

  pub record KeepsFiles (dao : Dao World) : Type 0 where
    pub insert : (object : Tree) (object_id : ℤ) → Keeps (dao.insert object object_id)
    pub select : (keys : Keys) (object : Tree) → Keeps (dao.select keys object)
    pub update : (keys : Keys) (object : Tree) → Keeps (dao.update keys object)
    pub remove : (keys : Keys) → Keeps (dao.remove keys)

  pub KeepsFiles-tables_dao : KeepsFiles tables_dao
  unfolding tables_dao
  KeepsFiles-tables_dao = record {
    insert = Keeps-Tables-insert;
    select = Keeps-Tables-select;
    update = Keeps-Tables-update;
    remove = Keeps-Tables-remove;
  }

  pub KeepsFiles-indexes_dao : KeepsFiles indexes_dao
  unfolding indexes_dao
  KeepsFiles-indexes_dao = record {
    insert = Keeps-Indexes-insert;
    select = Keeps-Indexes-select;
    update = Keeps-Indexes-update;
    remove = Keeps-Indexes-remove;
  }

  pub KeepsFiles-columns_dao : KeepsFiles columns_dao
  unfolding columns_dao
  KeepsFiles-columns_dao = record {
    insert = Keeps-Columns-insert;
    select = Keeps-Columns-select;
    update = λ keys object. Keeps-lift _;
    remove = Keeps-Columns-remove;
  }

  pub KeepsFiles-constraints_dao : KeepsFiles constraints_dao
  unfolding constraints_dao
  KeepsFiles-constraints_dao = record {
    insert = Keeps-Constraints-insert;
    select = Keeps-Constraints-select;
    update = λ keys object. Keeps-lift _;
    remove = Keeps-Constraints-remove;
  }

  pub KeepsFiles-data_types_dao : KeepsFiles data_types_dao
  unfolding data_types_dao DataTypes.select
  KeepsFiles-data_types_dao = record {
    insert = λ object object_id. Keeps-lift _;
    select = λ keys object. Keeps-lift _;
    update = λ keys object. Keeps-lift _;
    remove = λ keys. Keeps-lift _;
  }

  pub KeepsFiles-statistics_dao : KeepsFiles statistics_dao
  unfolding statistics_dao
  KeepsFiles-statistics_dao = record {
    insert = λ object object_id. Keeps-lift _;
    select = λ keys object. Keeps-lift _;
    update = λ keys object. Keeps-lift _;
    remove = λ keys. Keeps-lift _;
  }
