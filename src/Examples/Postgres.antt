-- ===== src/Examples/Postgres.antt =====
-- The theorems on PostgreSQL at the sample server.
use metadata_manager.Prelude.{
  ℕ, Bool, pos, String, false, none, some, List, [], ◌∷◌, ◌≡◌, refl, ◌==◌,
}
use metadata_manager.Key.{Key}
use metadata_manager.ErrorCode.{not_initialized}
use metadata_manager.Outcome.{ok, err}
use metadata_manager.Sample.{sample}
use metadata_manager.Sample.Postgres.{sample_libpq, SampleServer}
use metadata_manager.Examples.{user_table}
use metadata_manager.Provider.{transaction, init}
use metadata_manager.Provider.Add.{add_table_metadata}
use metadata_manager.Provider.Get.{get_table_metadata}
use metadata_manager.Tables.{add_body, update_body, remove_by_id, remove_by_name}
use metadata_manager.Postgres.{DaoPg, PgWorld, default_key}
use metadata_manager.Postgres.Prepared.{find_dao, create_prepared_statements}
use metadata_manager.Postgres.Guarded.{HoldsAll}
use metadata_manager.Libpq.{tuples_ok}
use metadata_manager.Platform.{Platform}
use metadata_manager.Postgres.Row.Reading.{has_values, child_of, column_of}
use metadata_manager.Postgres.Catalog.{located, selected}
use metadata_manager.Postgres.Rows.{RowClass, convert, catalog_of, convert_lem}
use metadata_manager.Postgres.Arity.{IsFitting, inserts_fit, updates_fit, by_id}
use metadata_manager.Keeping.{Ensures}
use metadata_manager.Postgres.Tables
use metadata_manager.Postgres.Columns
use metadata_manager.Postgres.Indexes
use metadata_manager.Postgres.Constraints
use metadata_manager.Postgres.Privileges
use metadata_manager.Postgres.Statistics
use metadata_manager.Postgres.DataTypes
use metadata_manager.Postgres.Roles
use metadata_manager.Postgres.Manager.{pg_session}
use metadata_manager.Postgres.Manager.Atomic.{IsSettled}
use metadata_manager.Postgres.Manager.Held.{held}
use metadata_manager.Postgres.Manager.Settled.{changes-IsSettled}
use metadata_manager.Postgres.Manager.Stale.{stale_lem, reconnected}

abbrev connected_daos : List (String × DaoPg)
connected_daos =
    ("tables", Tables.Access.make (some 0))
    ∷ ("columns", Columns.Access.make (some 0))
    ∷ ("indexes", Indexes.Access.make (some 0))
    ∷ ("constraints", Constraints.Access.make (some 0))
    ∷ ("privileges", Privileges.Access.make (some 0))
    ∷ ("statistics", Statistics.Access.make (some 0))
    ∷ ("types", DataTypes.Access.make (some 0))
    ∷ ("roles", Roles.Access.make (some 0))
    ∷ []

abbrev server_of : (ℕ → Bool) → SampleServer
server_of is_broken = record {
  is_broken = is_broken;
  in_block = λ g. false;
  pending = [];
  done = [];
  next = 1;
}

abbrev connected_world : (ℕ → Bool) → PgWorld
connected_world is_broken = record {
  pg_conn = some 0;
  daos = connected_daos;
  server = server_of is_broken;
}

connected_all : HoldsAll 0 connected_daos
unfolding find_dao create_prepared_statements Columns.Access.make Indexes.Access.make
    Constraints.Access.make Privileges.Access.make Statistics.Access.make DataTypes.Access.make
    Roles.Access.make
connected_all = (
  (Tables.Access.make (some 0), refl, refl),
  (Columns.Access.make (some 0), refl, refl),
  (Indexes.Access.make (some 0), refl, refl),
  (Constraints.Access.make (some 0), refl, refl),
  (Privileges.Access.make (some 0), refl, refl),
  (Statistics.Access.make (some 0), refl, refl),
  (DataTypes.Access.make (some 0), refl, refl),
  (Roles.Access.make (some 0), refl, refl),
)

changes-IsSettled_example :
    IsSettled []
      (transaction pg_session (add_body pg_session user_table) (connected_world (λ g. false)))
    × IsSettled [] (
        transaction pg_session
          (update_body pg_session (pos 1) user_table)
          (connected_world (λ g. false)))
    × IsSettled [] (remove_by_id pg_session (pos 1) (connected_world (λ g. false)))
    × IsSettled [] (remove_by_name pg_session "users" (connected_world (λ g. false)))
changes-IsSettled_example =
    changes-IsSettled 0 (pos 1) user_table "users" (connected_world (λ g. false))
      (record { pg_conn = refl; daos = connected_all; ends_none = refl })

abbrev lost_world : PgWorld
lost_world = connected_world (λ g. g == 0)

stale_lem_example :
    (init pg_session lost_world
      ≡ (ok (held 0 connected_daos connected_all), reconnected lost_world))
    × ((add_table_metadata pg_session user_table lost_world).0 ≡ err not_initialized)
    × ((get_table_metadata pg_session ((Key.id, "1") ∷ []) user_table lost_world).0
        ≡ err not_initialized)
unfolding connected_all
stale_lem_example = stale_lem 0 lost_world connected_all user_table "1" refl refl refl refl

inserts_fit_example :
    IsFitting
      (Tables.Access.make (some 0)).insert_statements
      default_key
      (Tables.insert_params user_table)
    × Ensures
        (IsFitting
          (Columns.Access.make (some 0)).insert_statements
          (Columns.Access.insert_key user_table))
        (Columns.insert_params user_table)
    × Ensures
        (IsFitting
          (Constraints.Access.make (some 0)).insert_statements
          (Constraints.Access.insert_key user_table))
        (Constraints.insert_params user_table)
    × Ensures
        (IsFitting (Indexes.Access.make (some 0)).insert_statements default_key)
        (Indexes.insert_params user_table)
    × IsFitting
        (Statistics.Access.make (some 0)).insert_statements
        (Statistics.insert_key user_table)
        (Statistics.insert_params user_table)
inserts_fit_example = inserts_fit (some 0) user_table

updates_fit_example :
    IsFitting
      (Tables.Access.make (some 0)).update_statements
      "id"
      (Tables.update_params user_table "5")
    × Ensures
        (IsFitting (Indexes.Access.make (some 0)).update_statements "id")
        (Indexes.update_params user_table "5")
updates_fit_example = updates_fit (some 0) user_table "id" "5" by_id

convert_lem_example :
    (t : Platform.Tree sample) × (convert RowClass.columns (tuples_ok, some "t") 0 ≡ ok t)
    × ((j : Key)
        → Platform.get_child? sample j t
          ≡ child_of (tuples_ok, some "t") 0 (column_of j (catalog_of RowClass.columns)) none)
unfolding has_values located selected Columns.get_select_statement
convert_lem_example = convert_lem RowClass.columns (tuples_ok, some "t") 0 refl
