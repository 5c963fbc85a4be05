-- ===== src/Examples/Nested.antt =====
-- The theorems on columns, constraints and data types at concrete inputs.
use metadata_manager.Prelude.{
  negsuc, String, true, false, some, [], ◌∷◌, ◌++◌, ◌≡◌, refl, to_string, str_eq,
}
use metadata_manager.Key.{Key}
use metadata_manager.Outcome.{ok}
use metadata_manager.Ptree.{get_int?}
use metadata_manager.Ptree.Helper.{int_value_to_string}
use metadata_manager.Platform.{Platform}
use metadata_manager.Sample.{sample, Tree}
use metadata_manager.Sample.Decimal
use metadata_manager.Sample.Forest
use metadata_manager.Sample.Forest.{node, nil, cons, children}
use metadata_manager.Session.{World, load_contents, set_contents}
use metadata_manager.Session.Cache.{load-set_contents}
use metadata_manager.Dao.Rows.{Rows}
use metadata_manager.Dao.Rows.Deletion.{remaining, matching_ids}
use metadata_manager.Dao.Tables.{tables_database}
use metadata_manager.Dao.Nested.{delete_items}
use metadata_manager.Dao.Nested.Items.{items_of, delete_items_lem, append_item_lem}
use metadata_manager.Dao.Nested.Missing.{insert_missing}
use metadata_manager.Dao.Columns
use metadata_manager.Dao.Constraints
use metadata_manager.Examples.{user_table, user_column, open_world}

abbrev two_columns : Rows Tree
two_columns = ("", user_column) ∷ ("", user_column) ∷ []

delete_items_lem_example : delete_items ((Key.name, "id") ∷ []) two_columns ≡ (
  remaining ((Key.name, "id") ∷ []) two_columns,
  matching_ids ((Key.name, "id") ∷ []) two_columns,
)
delete_items_lem_example = delete_items_lem ((Key.name, "id") ∷ []) two_columns

abbrev numbered : String → Tree
numbered i = node "" (cons "id" (node i nil) nil)

other_id : str_eq (int_value_to_string Key.id (numbered "4")) "5" ≡ false
unfolding int_value_to_string get_int? Forest.get_child? Forest.value Decimal.to_int to_string
other_id = refl

same_id : str_eq (int_value_to_string Key.id (numbered "5")) "5" ≡ true
unfolding int_value_to_string get_int? Forest.get_child? Forest.value Decimal.to_int to_string
same_id = refl

append_item_lem_example :
    (items_of Key.columns (Columns.append_item Key.columns user_column user_table)
      ≡ items_of Key.columns user_table ++ ("", user_column) ∷ [])
    × (Platform.get_child? sample Key.name (Columns.append_item Key.columns user_column user_table)
        ≡ Platform.get_child? sample Key.name user_table)
append_item_lem_example = append_item_lem Key.columns Key.name user_column user_table refl

abbrev one_table : Tree
one_table = node "" (cons "tables" (node "" (cons "" (numbered "4") nil)) nil)

abbrev filled_world : World
filled_world = (set_contents tables_database one_table open_world).1

filled_loads : load_contents tables_database Key.tables filled_world ≡ (ok one_table, filled_world)
filled_loads = load-set_contents tables_database Key.tables one_table open_world

one_root : Forest.get_child? "tables" one_table ≡ some (node "" (cons "" (numbered "4") nil))
unfolding Forest.get_child?
one_root = refl

-- a column of the table 5
abbrev lost_column : Tree
lost_column = node "" (cons "tableId" (node "5" nil) nil)

no_table :
    (str_eq
        (int_value_to_string Key.id (numbered "4"))
        (int_value_to_string Key.table_id lost_column)
      ≡ false)
    × Unit {0}
unfolding int_value_to_string get_int? Forest.get_child? Forest.value Decimal.to_int to_string
no_table = (refl, tt)

insert_missing_example :
    (Columns.insert lost_column (negsuc 0) filled_world ≡ (ok (negsuc 0), filled_world))
    × (Constraints.insert lost_column (negsuc 0) filled_world ≡ (ok (negsuc 0), filled_world))
insert_missing_example =
    insert_missing lost_column (negsuc 0) filled_world filled_world one_table
      (node "" (cons "" (numbered "4") nil)) filled_loads one_root
      (unfold Forest.children in no_table)
