-- ===== src/Examples/Stored.antt =====
-- The theorems on the DAOs of the JSON storage at concrete inputs.
use metadata_manager.Prelude.{ℤ, negsuc, String, true, false, some, [], ◌∷◌, ◌++◌, ◌≡◌, refl, sym}
use metadata_manager.Key.{Key}
use metadata_manager.ErrorCode.{already_exists}
use metadata_manager.Outcome.{Outcome, ok, err, undefined}
use metadata_manager.ObjectId
use metadata_manager.Ptree.{put, get_string?}
use metadata_manager.Ptree.Helper.{is_match, value_to_string}
use metadata_manager.Sample
use metadata_manager.Sample.{sample, Tree}
use metadata_manager.Sample.Forest
use metadata_manager.Sample.Forest.{node, nil, cons, empty, children}
use metadata_manager.Session.{World, load_contents, set_contents, loaded, read_contents}
use metadata_manager.Session.Contents.{find_content, set_content, assign}
use metadata_manager.Session.Cache.{load-set_contents}
use metadata_manager.Dao.Rows.{Rows, delete_loop, row_id, matching}
use metadata_manager.Dao.Rows.Deletion.{
  IsSpaced, remaining, matching_ids, delete_spaced, delete_adjacent, delete_last,
}
use metadata_manager.Dao.Tables
use metadata_manager.Dao.Tables.{tables_database}
use metadata_manager.Dao.Tables.Insertion.{select_lem, insert_lem, insert_duplicate, stored_rows}
use metadata_manager.Dao.Tables.Distinct.{HasDistinctNames, insert-HasDistinctNames}
use metadata_manager.Examples.{user_table, open_world, no_tables}

abbrev named : String → Tree
named n = node "" (cons "name" (node n nil) nil)

abbrev three_rows : Rows Tree
three_rows = ("", named "a") ∷ ("", named "b") ∷ ("", named "c") ∷ []

spaced : IsSpaced ((Key.name, "b") ∷ []) three_rows
unfolding is_match value_to_string get_string? Forest.get_child? Forest.children Forest.value
spaced = (λ e. sym e, ((λ e. refl), refl))

delete_spaced_example :
    delete_loop ((Key.name, "b") ∷ []) three_rows
    ≡ ok (
      remaining ((Key.name, "b") ∷ []) three_rows,
      matching_ids ((Key.name, "b") ∷ []) three_rows,
    )
delete_spaced_example = delete_spaced ((Key.name, "b") ∷ []) three_rows spaced

is_match-a : is_match (named "a") ((Key.name, "a") ∷ []) ≡ true
unfolding is_match value_to_string get_string? Forest.get_child? Forest.children Forest.value
is_match-a = refl

is_match-b : is_match (named "b") ((Key.name, "a") ∷ []) ≡ false
unfolding is_match value_to_string get_string? Forest.get_child? Forest.children Forest.value
is_match-b = refl

delete_adjacent_example :
    delete_loop
      ((Key.name, "a") ∷ [])
      (("", named "b") ∷ ("", named "a") ∷ ("", named "a") ∷ ("", named "b") ∷ [])
    ≡ ok (("", named "b") ∷ ("", named "a") ∷ ("", named "b") ∷ [], row_id (named "a") ∷ [])
delete_adjacent_example =
    delete_adjacent ((Key.name, "a") ∷ []) (("", named "b") ∷ []) (("", named "b") ∷ []) "" ""
      (named "a") (named "a") (is_match-b, tt) (is_match-b, tt) is_match-a

delete_last_example :
    delete_loop ((Key.name, "a") ∷ []) (("", named "b") ∷ ("", named "a") ∷ []) ≡ undefined
delete_last_example =
    delete_last ((Key.name, "a") ∷ []) (("", named "b") ∷ []) "" (named "a") (is_match-b, tt)
      is_match-a

-- the state after the first load of the tables
abbrev loaded_world : World
loaded_world = (load_contents tables_database Key.tables open_world).1

loads : load_contents tables_database Key.tables open_world ≡ (ok no_tables, loaded_world)
unfolding load_contents loaded read_contents find_content set_content assign put tables_database
    Sample.has_file Forest.put_child Forest.get_child? Forest.children Forest.set_children
    Forest.set_value
loads = refl

tables_root : Forest.get_child? "tables" no_tables ≡ some (node "" nil)
unfolding Forest.get_child?
tables_root = refl

table_name : get_string? Key.name user_table ≡ some "users"
unfolding get_string? Forest.get_child? Forest.value
table_name = refl

no_rows : matching ((Key.name, "users") ∷ []) (children (node "" nil)) ≡ []
unfolding Forest.children
no_rows = refl

insert_lem_example :
    let added : ℤ = (ObjectId.generate Key.global loaded_world.oids).0 in
    let after : Outcome ℤ × World = Tables.insert user_table (negsuc 0) open_world in
    (after.0 ≡ ok added)
    × (stored_rows (load_contents tables_database Key.tables after.1).0
        ≡ children (node "" nil) ++ ("", Tables.new_row added user_table) ∷ [])
insert_lem_example =
    insert_lem user_table (negsuc 0) "users" open_world loaded_world no_tables (node "" nil) refl
      loads tables_root table_name no_rows

select_lem_example :
    (found : Tree) × (Tables.select [] empty open_world ≡ (ok found, loaded_world))
    × (children found ≡ matching [] (children (node "" nil)))
select_lem_example =
    select_lem [] empty open_world loaded_world no_tables (node "" nil) loads tables_root

-- a storage whose tables were loaded with one table
abbrev one_table : Tree
one_table = node "" (cons "tables" (node "" (cons "" (named "users") nil)) nil)

abbrev filled_world : World
filled_world = (set_contents tables_database one_table open_world).1

filled_loads : load_contents tables_database Key.tables filled_world ≡ (ok one_table, filled_world)
unfolding load_contents set_contents find_content set_content assign
filled_loads = load-set_contents tables_database Key.tables one_table open_world

one_root : Forest.get_child? "tables" one_table ≡ some (node "" (cons "" (named "users") nil))
unfolding Forest.get_child?
one_root = refl

same_name :
    matching ((Key.name, "users") ∷ []) (children (node "" (cons "" (named "users") nil)))
    ≡ ("", named "users") ∷ []
unfolding is_match value_to_string get_string? Forest.get_child? Forest.children Forest.value
same_name = refl

insert_duplicate_example :
    Tables.insert user_table (negsuc 0) filled_world ≡ (err already_exists, filled_world)
insert_duplicate_example =
    insert_duplicate user_table (negsuc 0) "users" filled_world filled_world one_table
      (node "" (cons "" (named "users") nil)) (named "users") "" [] filled_loads one_root table_name
      same_name

one_distinct : HasDistinctNames (children (node "" (cons "" (named "users") nil)))
unfolding Forest.children
one_distinct = (refl, tt)

filled_locking : filled_world.locking ≡ true
unfolding set_contents
filled_locking = refl

insert-HasDistinctNames_example : HasDistinctNames (
    stored_rows
      (load_contents tables_database Key.tables
        (Tables.insert user_table (negsuc 0) filled_world).1).0)
insert-HasDistinctNames_example =
    insert-HasDistinctNames user_table (negsuc 0) "users" filled_world filled_world one_table
      (node "" (cons "" (named "users") nil)) filled_locking filled_loads one_root table_name
      one_distinct
