-- ===== src/Examples/Statistics.antt =====
-- The theorems on the statistics of `Tables` at concrete inputs.
use metadata_manager.Prelude.{pos, some, [], ◌∷◌, refl, ◌≡◌, to_string}
use metadata_manager.Key.{Key}
use metadata_manager.Outcome.{ok}
use metadata_manager.Sample.{sample, Tree}
use metadata_manager.Sample.Forest.{empty}
use metadata_manager.Examples.{user_table}
use metadata_manager.ErrorCode.{not_supported}
use metadata_manager.Action.{fail, pure, ◌>>=◌}
use metadata_manager.Dao.{Dao}
use metadata_manager.Sample.Forest
use metadata_manager.Sample.Forest.{node, nil, cons}
use metadata_manager.Ptree.{size, get_int?, put_int}
use metadata_manager.Sample.Decimal
use metadata_manager.Provider.Change.{update_table_metadata}
use metadata_manager.Provider.{DbSessionManager, init}
use metadata_manager.Provider.Get.{get_table_metadata, found_or_error}
use metadata_manager.Tables.Statistic.{
  front_row, get_statistic_by_id, get_statistic_by_name, set_statistic_body,
}
use metadata_manager.Tables.Statistic.Outcomes.{
  get_statistic_lem, get_statistic_by_name_lem, set_statistic_lem, not_read, forget,
}

-- A session manager without a state, whose DAOs find the one table.
abbrev one_row : Tree
one_row = node "" (cons "" user_table nil)

abbrev one_dao : Dao (Unit {0})
one_dao = record {
  insert = λ object object_id. fail not_supported;
  select = λ keys object. pure one_row;
  update = λ keys object. fail not_supported;
  remove = λ keys. fail not_supported;
}

abbrev one_session : DbSessionManager (Unit {0})
one_session = record {
  connect = pure tt;
  get_tables_dao = pure one_dao;
  get_columns_dao = pure one_dao;
  get_indexes_dao = pure one_dao;
  get_constraints_dao = pure one_dao;
  get_privileges_dao = pure one_dao;
  get_statistics_dao = pure one_dao;
  get_datatypes_dao = pure one_dao;
  get_roles_dao = pure one_dao;
  start_transaction = pure tt;
  commit = pure tt;
  rollback = pure tt;
}

one_found :
    get_table_metadata one_session ((Key.id, to_string (pos 5)) ∷ []) empty tt ≡ (ok one_row, tt)
unfolding get_table_metadata init found_or_error ◌>>=◌ size Forest.children
one_found = refl

get_statistic_lem_example :
    (row : Tree) × (front_row one_row ≡ ok row)
    × (get_statistic_by_id one_session (pos 5) tt ≡ (ok row, tt))
get_statistic_lem_example = get_statistic_lem one_session (pos 5) one_row tt tt refl one_found

named_found :
    get_table_metadata one_session ((Key.name, "users") ∷ []) user_table tt ≡ (ok one_row, tt)
unfolding get_table_metadata init found_or_error ◌>>=◌ size Forest.children
named_found = refl

get_statistic_by_name_lem_example :
    get_statistic_by_name one_session "users" user_table tt ≡ (not_read (ok one_row), tt)
get_statistic_by_name_lem_example =
    get_statistic_by_name_lem one_session "users" user_table tt tt (ok one_row) refl named_found

abbrev seven_tuples : Tree
seven_tuples = node "" (cons "numberOfTuples" (node "7" nil) nil)

given_tuples : get_int? Key.number_of_tuples seven_tuples ≡ some (pos 7)
unfolding get_int? Decimal.to_int Forest.get_child? Forest.value
given_tuples = refl

set_statistic_lem_example :
    (row : Tree) × (front_row one_row ≡ ok row)
    × (set_statistic_body one_session ((Key.id, to_string (pos 5)) ∷ []) seven_tuples tt ≡ (
      forget
          (update_table_metadata one_session
            ((Key.id, to_string (pos 5)) ∷ [])
            (put_int Key.number_of_tuples (pos 7) row)
            tt).0,
      (update_table_metadata one_session
          ((Key.id, to_string (pos 5)) ∷ [])
          (put_int Key.number_of_tuples (pos 7) row)
          tt).1,
    ))
set_statistic_lem_example =
    set_statistic_lem one_session ((Key.id, to_string (pos 5)) ∷ []) seven_tuples one_row (pos 7) tt
      tt one_found given_tuples
