-- ===== src/Provider.antt =====
-- `MetadataProvider` of src/provider/metadata_provider.cpp: every operation obtains the DAOs from the
-- session manager, whose interface is `DbSessionManager`
-- (include/manager/metadata/dao/db_session_manager.h), and calls one or several of them. Out parameters
-- that may be null pointers are always returned here.
pub mod Add
pub mod Get
pub mod Change
pub mod Json
pub mod Keeps
pub mod Kept
pub mod Transaction
pub mod Found
use metadata_manager.Prelude.{
  String, Bool, true, false, Option, none, some, List, [], ◌∷◌, ◌||◌, if◌then◌else◌,
}
use metadata_manager.Key.{Key, ◌=?◌}
use metadata_manager.Platform.{Platform}
use metadata_manager.ErrorCode.{ErrorCode, not_found, id_not_found, name_not_found}
use metadata_manager.Outcome.{Outcome, ok, err, thrown, undefined}
use metadata_manager.Action.{Action, pure, ◌>>=◌, ◌>>◌}
use metadata_manager.Ptree.Helper.{Keys}
use metadata_manager.Dao.{Dao}

-- the value that stands for a key, `keys.find(key)`
unfoldable pub find_key : Key → Keys → Option String
find_key key [] = none
find_key key ((first, second) ∷ keys) = if first =? key then some second else find_key key keys

unfoldable pub get_not_found_error_code : Keys → ErrorCode
unfolding find_key
get_not_found_error_code keys = elim (find_key Key.id keys) [
  | some _ ↦ id_not_found
  | none ↦ elim (find_key Key.name keys) [ some _ ↦ name_not_found | none ↦ not_found ]
]

abbrev pub is_not_found : ErrorCode → Bool
is_not_found ErrorCode.id_not_found = true
is_not_found ErrorCode.name_not_found = true
is_not_found ErrorCode.not_found = true
is_not_found _ = false

-- the test of `get_all`, which takes no rows for no error
abbrev pub is_no_rows : ErrorCode → Bool
is_no_rows ErrorCode.not_found = true
is_no_rows _ = false

module _ ⦃P : Platform⦄ where
  pub record DbSessionManager (S : Type 0) : Type 0 where
    pub connect : Action S (Unit {0})
    pub get_tables_dao : Action S (Dao S)
    pub get_columns_dao : Action S (Dao S)
    pub get_indexes_dao : Action S (Dao S)
    pub get_constraints_dao : Action S (Dao S)
    pub get_privileges_dao : Action S (Dao S)
    pub get_statistics_dao : Action S (Dao S)
    pub get_datatypes_dao : Action S (Dao S)
    pub get_roles_dao : Action S (Dao S)
    pub start_transaction : Action S (Unit {0})
    pub commit : Action S (Unit {0})
    pub rollback : Action S (Unit {0})

  -- the members of `MetadataProvider` after `init`
  pub record Daos (S : Type 0) : Type 0 where
    pub table_dao : Dao S
    pub column_dao : Dao S
    pub index_dao : Dao S
    pub constraint_dao : Dao S
    pub privilege_dao : Dao S
    pub statistic_dao : Dao S
    pub datatype_dao : Dao S
    pub role_dao : Dao S

  module _ {S : Type 0} (session : DbSessionManager S) where
    unfoldable pub init : Action S (Daos S)
    unfolding ◌>>=◌
    init = do
      session.connect
      tables ← session.get_tables_dao
      columns ← session.get_columns_dao
      indexes ← session.get_indexes_dao
      constraints ← session.get_constraints_dao
      privileges ← session.get_privileges_dao
      statistics ← session.get_statistics_dao
      datatypes ← session.get_datatypes_dao
      roles ← session.get_roles_dao
      pure (record {
        table_dao = tables;
        column_dao = columns;
        index_dao = indexes;
        constraint_dao = constraints;
        privilege_dao = privileges;
        statistic_dao = statistics;
        datatype_dao = datatypes;
        role_dao = roles;
      })

    -- the end of a transaction: an error of the body gives way to one of the rollback, and an exception
    -- leaves the transaction open
    unfoldable pub end_transaction : {A : Type 0} → Outcome A → Action S A
    unfolding ◌>>=◌
    end_transaction (ok a) s = (do session.commit; pure a) s
    end_transaction (err e) s =
        let (rolled, s') = session.rollback s in
        elim rolled [
          | ok _ ↦ (err e, s')
          | err f ↦ (err f, s')
          | thrown ↦ (thrown, s')
          | undefined ↦ (undefined, s')
        ]
    end_transaction thrown s = (thrown, s)
    end_transaction undefined s = (undefined, s)

    unfoldable pub transaction : {A : Type 0} → Action S A → Action S A
    unfolding init end_transaction ◌>>=◌
    transaction trans_function = do
      init
      session.start_transaction
      λ s. let (error, s') = trans_function s in end_transaction error s'
