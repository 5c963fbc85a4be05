-- ===== src/Examples/Sessions.antt =====
-- The theorems on identifiers and on the session manager at concrete inputs.
use metadata_manager.Prelude.{
  ℕ, ◌≤◌, ◌<ℤ◌, pos, true, false, some, none, Option, [], ◌∷◌, ◌≡◌, ◌≢◌, refl, arith, to_string,
}
use metadata_manager.Key.{Key}
use metadata_manager.Outcome.{ok}
use metadata_manager.ObjectId.{generate, update, current, invalid_oid}
use metadata_manager.ObjectId
use metadata_manager.ObjectId.Increasing.{generate-generate}
use metadata_manager.Ptree.{get_int?, put}
use metadata_manager.Sample.{sample, Tree}
use metadata_manager.Sample
use metadata_manager.Sample.Decimal
use metadata_manager.Sample.Forest
use metadata_manager.Sample.Forest.{node, nil, cons}
use metadata_manager.Session.{
  World, start_transaction, load_contents, loaded, read_contents, set_contents, save_contents,
  save_loop, commit,
}
use metadata_manager.Session.Contents.{Content, find_content, set_content, assign, is_modified}
use metadata_manager.Session.Durability.{persisted, commit_persists}
use metadata_manager.Session.Cache.{load-set_contents, load-load, update_persists}
use metadata_manager.Examples.{new_world, open_world, no_tables, user_table}

abbrev oids_after : ℕ → Option Tree
oids_after n = some (node "" (cons "global" (node (to_string (pos n)) nil) nil))

first_oid : generate Key.global none ≡ (pos 100002, oids_after 100002)
unfolding generate ObjectId.open_data ObjectId.init ObjectId.read ObjectId.write
    ObjectId.generate_of ObjectId.store ObjectId.stored get_int? put Sample.is_written
    Forest.get_child? Forest.put_child Forest.set_children Forest.children Forest.value
    Forest.set_value Decimal.to_int to_string
first_oid = refl

second_oid : generate Key.global (oids_after 100002) ≡ (pos 100003, oids_after 100003)
unfolding generate ObjectId.open_data ObjectId.init ObjectId.read ObjectId.write
    ObjectId.generate_of ObjectId.store ObjectId.stored get_int? put Sample.is_written
    Forest.get_child? Forest.put_child Forest.set_children Forest.children Forest.value
    Forest.set_value Decimal.to_int to_string
second_oid = refl

greater_oid : update Key.global (pos 100009) (oids_after 100002) ≡ (pos 100009, oids_after 100009)
unfolding update ObjectId.open_data ObjectId.init ObjectId.read ObjectId.write ObjectId.update_of
    ObjectId.store ObjectId.stored get_int? put Sample.is_written Forest.get_child? Forest.put_child
    Forest.set_children Forest.children Forest.value Forest.set_value Decimal.to_int to_string
greater_oid = refl

valid_oid : (n : ℕ) → 1 ≤ n → pos n ≢ invalid_oid
valid_oid n h e = ground arith

generate-generate_example : pos 100002 <ℤ pos 100003
generate-generate_example =
    generate-generate Key.global none (oids_after 100002) (oids_after 100003) (pos 100002)
      (pos 100003) first_oid second_oid (valid_oid 100002 (omega arith))
      (valid_oid 100003 (omega arith)) (ground arith)

abbrev modified : Content
modified = record { pre_hash = 1; cur_hash = 2; data_ = user_table }

abbrev saving_world : World
saving_world = record {
  disk = [];
  oids = none;
  contents_map = ("a", modified) ∷ [];
  locking = true;
}

saved : (save_contents saving_world).0 ≡ ok tt
unfolding save_contents save_loop is_modified
saved = refl

commit_persists_example :
    ((commit saving_world).0 ≡ ok tt)
    × (Sample.find_file "a" (commit saving_world).1.disk
        ≡ persisted
            (find_content "a" saving_world.contents_map)
            (Sample.find_file "a" saving_world.disk))
    × ((commit saving_world).1.contents_map ≡ [])
    × ((commit saving_world).1.locking ≡ false)
commit_persists_example =
    commit_persists saving_world "a" refl (unfold find_content in (refl, tt)) saved

load-set_contents_example :
    let w : World = (set_contents "a" user_table open_world).1 in
    load_contents "a" Key.tables w ≡ (ok user_table, w)
load-set_contents_example = load-set_contents "a" Key.tables user_table open_world

abbrev loaded_world : World
loaded_world = (load_contents "a" Key.tables open_world).1

loads : load_contents "a" Key.tables open_world ≡ (ok no_tables, loaded_world)
unfolding load_contents loaded read_contents find_content set_content assign put Sample.has_file
    Forest.put_child Forest.get_child? Forest.children Forest.set_children Forest.set_value
loads = refl

load-load_example : load_contents "a" Key.tables loaded_world ≡ (ok no_tables, loaded_world)
load-load_example = load-load "a" Key.tables no_tables open_world loaded_world refl loads

starts : start_transaction new_world ≡ (ok tt, open_world)
unfolding start_transaction
starts = refl

known : Forest.hash no_tables ≢ 0
unfolding Forest.hash
known e = ground arith

changed : Forest.hash user_table ≢ Forest.hash no_tables
unfolding Forest.hash
changed e = ground arith

saves : (save_contents (set_contents "a" user_table loaded_world).1).0 ≡ ok tt
unfolding save_contents save_loop is_modified set_contents load_contents loaded read_contents
    find_content set_content assign put Sample.has_file Forest.put_child Forest.get_child?
    Forest.children Forest.set_children Forest.set_value Forest.hash
saves = refl

update_persists_example :
    Sample.find_file "a" (commit (set_contents "a" user_table loaded_world).1).1.disk
    ≡ some user_table
update_persists_example =
    update_persists "a" Key.tables no_tables user_table new_world open_world loaded_world starts
      loads known changed saves
