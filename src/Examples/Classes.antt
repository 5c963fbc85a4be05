-- ===== src/Examples/Classes.antt =====
-- The theorems on the class `Tables` and on the provider at concrete inputs.
use metadata_manager.Prelude.{pos, negsuc, [], refl, ◌≡◌, ℤ}
use metadata_manager.ErrorCode.{id_not_found}
use metadata_manager.Outcome.{err}
use metadata_manager.Sample.{sample}
use metadata_manager.Provider.Json.{json_session}
use metadata_manager.Provider.Transaction.{IsAtomic, closed, transaction_lem}
use metadata_manager.Provider.{transaction}
use metadata_manager.Action.{fail}
use metadata_manager.Session.{World}
use metadata_manager.Prelude.{ℕ, List, ◌++◌, ◌+◌}
use metadata_manager.Action.{Action}
use metadata_manager.ErrorCode.{end_of_row}
use metadata_manager.Sample.Forest.{empty}
use metadata_manager.Statistics
use metadata_manager.Prelude.{◌⊎◌}
use metadata_manager.ErrorCode.{insufficient_parameters}
use metadata_manager.Provider.Transaction.{ended}
use metadata_manager.Statistics.Unstored.{IsIdentified, add-IsIdentified}
use metadata_manager.Metadata.{next, iterator_next}
use metadata_manager.Metadata.Reading.{times, unread, reader_at, next_lem}
use metadata_manager.Provider.Found.{HasRows, found_lem}
use metadata_manager.Provider.Get.{
  get_table_metadata, get_column_metadata, get_index_metadata, get_constraint_metadata,
  get_column_statistic, get_datatype_metadata, get_role_metadata,
}
use metadata_manager.Tables.{add, update, remove_by_id, remove_by_name}
use metadata_manager.Tables.Atomic.{add-IsAtomic, update-IsAtomic, remove-IsAtomic}
use metadata_manager.Prelude.{some, ◌∷◌, to_string, str_eq}
use metadata_manager.Outcome.{ok}
use metadata_manager.Key.{Key}
use metadata_manager.Ptree.Helper.{value_to_string}
use metadata_manager.Sample.{Tree}
use metadata_manager.Dao.DataTypes.{entries}
use metadata_manager.Dao.DataTypes.Lookup.{names_where}
use metadata_manager.Indexes
use metadata_manager.Indexes.Atomic.{changes-IsAtomic}
use metadata_manager.Constraints
use metadata_manager.Constraints.Atomic.{add-remove-IsAtomic}
use metadata_manager.DataTypes
use metadata_manager.DataTypes.Lookup.{get_by_key_lem}
use metadata_manager.Object.Index.{index_from_ptree}
use metadata_manager.Metadata.Structures.{next_object}
use metadata_manager.Metadata.Iterator.{reader, next_object-iterator_next}
use metadata_manager.Examples.{new_world, open_world, user_table, no_tables}

add-IsAtomic_example : IsAtomic new_world (add json_session user_table new_world)
add-IsAtomic_example = add-IsAtomic user_table new_world refl

update-IsAtomic_example : IsAtomic new_world (update json_session (pos 5) user_table new_world)
update-IsAtomic_example = update-IsAtomic (pos 5) user_table new_world refl

remove-IsAtomic_example :
    IsAtomic new_world (remove_by_id json_session (pos 5) new_world)
    × IsAtomic new_world (remove_by_name json_session "users" new_world)
remove-IsAtomic_example = remove-IsAtomic (pos 5) "users" new_world refl

found_lem_example :
    HasRows (get_table_metadata json_session [] no_tables new_world).0
    × HasRows (get_column_metadata json_session [] no_tables new_world).0
    × HasRows (get_index_metadata json_session [] no_tables new_world).0
    × HasRows (get_constraint_metadata json_session [] no_tables new_world).0
    × HasRows (get_column_statistic json_session [] no_tables new_world).0
    × HasRows (get_datatype_metadata json_session [] no_tables new_world).0
    × HasRows (get_role_metadata json_session [] no_tables new_world).0
found_lem_example = found_lem json_session [] no_tables new_world

transaction_lem_example :
    transaction json_session (fail {S = World} {A = ℤ} id_not_found) new_world
    ≡ closed {A = ℤ} (err id_not_found) open_world
transaction_lem_example = transaction_lem (fail id_not_found) new_world refl refl

changes-IsAtomic_example :
    IsAtomic new_world (Indexes.add json_session user_table new_world)
    × IsAtomic new_world (Indexes.update json_session (pos 5) user_table new_world)
    × IsAtomic new_world (Indexes.remove_by_id json_session (pos 5) new_world)
changes-IsAtomic_example = changes-IsAtomic (pos 5) user_table new_world refl

add-remove-IsAtomic_example :
    IsAtomic new_world (Constraints.add json_session user_table new_world)
    × IsAtomic new_world (Constraints.remove json_session (pos 5) new_world)
add-remove-IsAtomic_example = add-remove-IsAtomic (pos 5) user_table new_world refl

int32_name : names_where (λ e. str_eq (to_string (pos e.id)) "23") entries ≡ "INT32" ∷ []
unfolding entries to_string
int32_name = refl

get_by_key_lem_example :
    (row : Tree) × (DataTypes.get_by_key json_session (some Key.id) "23" new_world
      ≡ (ok row, new_world))
    × (value_to_string Key.name row ≡ "INT32")
get_by_key_lem_example = get_by_key_lem "23" "INT32" new_world refl int32_name

no_entry : names_where (λ e. str_eq (to_string (pos e.id)) "24") entries ≡ []
unfolding entries to_string
no_entry = refl

abbrev read_two : List Tree → Action ℕ (List Tree)
read_two l n = (ok (l ++ empty ∷ no_tables ∷ []), n + 1)

next_lem_example :
    (times 2 (next read_two) (unread 7 0)
      ≡ (ok (empty ∷ no_tables ∷ []), reader_at (empty ∷ no_tables ∷ []) [] 1))
    × (next read_two (reader_at (empty ∷ no_tables ∷ []) [] 1)
        ≡ (err end_of_row, reader_at [] (empty ∷ no_tables ∷ []) 1))
next_lem_example = next_lem read_two empty (no_tables ∷ []) 7 0 1 refl

next_object-iterator_next_example :
    (times 3
      (next_object read_two index_from_ptree)
      (reader read_two index_from_ptree user_table (empty ∷ []) 0 7)).0
    ≡ (times 3 (iterator_next index_from_ptree (user_table ∷ empty ∷ [])) 0).0
next_object-iterator_next_example =
    next_object-iterator_next read_two index_from_ptree user_table (empty ∷ []) 3 0 7

add-IsIdentified_example :
    (IsIdentified user_table
      × (Statistics.add json_session user_table new_world ≡ (ok (negsuc 0), ended new_world)))
    ⊎ ((¬ IsIdentified user_table)
        × (Statistics.add json_session user_table new_world
            ≡ (err insufficient_parameters, new_world)))
add-IsIdentified_example = add-IsIdentified user_table new_world refl
