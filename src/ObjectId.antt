-- ===== src/ObjectId.antt =====
-- `ObjectIdGenerator` of src/dao/json/object_id_json.cpp: the last identifier given out, kept in the
-- OID management file. A member function changes that file and returns an identifier, 0 on an error.
pub mod Increasing
use metadata_manager.Prelude.{
  ℤ, pos, incr_ℤ, ltb_ℤ, Bool, true, false, Option, none, some, if◌then◌else◌,
}
use metadata_manager.Key.{Key}
use metadata_manager.Platform.{Platform}
use metadata_manager.Outcome.{Outcome, ok, err, thrown, undefined}
use metadata_manager.ErrorCode.{internal_error}
use metadata_manager.Ptree.{value_or, get_int?, put_int}

abbrev pub invalid_oid : ℤ
invalid_oid = pos 0

abbrev pub oid_initial_value : ℤ
oid_initial_value = pos 100001

module _ ⦃P : Platform⦄ where
  open P use {Tree, empty, OidFile, oid_exists, read_ini, write_ini}

  unfoldable pub write : Tree → OidFile → Outcome (Unit {0}) × OidFile
  write oid_data f = elim (write_ini oid_data f) [
    | none ↦ (err internal_error, f)
    | some g ↦ (ok tt, g)
  ]

  unfoldable pub read : OidFile → Outcome Tree
  read f = elim (read_ini f) [ none ↦ err internal_error | some t ↦ ok t ]

  unfoldable pub init : OidFile → Outcome (Unit {0}) × OidFile
  unfolding write
  init f = if oid_exists f then (ok tt, f) else write empty f

  -- the prologue of every member function: `init`, then `read`
  unfoldable pub open_data : OidFile → Outcome Tree × OidFile
  unfolding init read
  open_data f =
      let (r, g) = init f in
      elim r [
        | ok _ ↦ (read g, g)
        | err e ↦ (err e, g)
        | thrown ↦ (thrown, g)
        | undefined ↦ (undefined, g)
      ]

  unfoldable pub stored : Key → Tree → ℤ
  stored metadata_name oid_data = value_or oid_initial_value (get_int? metadata_name oid_data)

  current_of : Key → Outcome Tree → ℤ
  unfolding stored
  current_of metadata_name (ok oid_data) = stored metadata_name oid_data
  current_of metadata_name _ = invalid_oid

  unfoldable pub current : Key → OidFile → ℤ × OidFile
  unfolding open_data current_of
  current metadata_name f = let (r, g) = open_data f in (current_of metadata_name r, g)

  -- the tail of `generate` and `update`: the new value is returned once it is written
  unfoldable pub store : Key → ℤ → Tree → OidFile → ℤ × OidFile
  unfolding write
  store metadata_name v oid_data f =
      let (r, g) = write (put_int metadata_name v oid_data) f in
      elim r [ ok _ ↦ (v, g) | _ ↦ (invalid_oid, g) ]

  unfoldable pub generate_of : Key → Outcome Tree → OidFile → ℤ × OidFile
  unfolding store stored
  generate_of metadata_name (ok oid_data) f =
      store metadata_name (incr_ℤ (stored metadata_name oid_data)) oid_data f
  generate_of metadata_name _ f = (invalid_oid, f)

  unfoldable pub generate : Key → OidFile → ℤ × OidFile
  unfolding open_data generate_of
  generate metadata_name f = let (r, g) = open_data f in generate_of metadata_name r g

  unfoldable pub update_of : Key → ℤ → Outcome Tree → OidFile → ℤ × OidFile
  unfolding store stored
  update_of metadata_name new_oid (ok oid_data) f =
      if ltb_ℤ (stored metadata_name oid_data) new_oid
      then store metadata_name new_oid oid_data f
      else (stored metadata_name oid_data, f)
  update_of metadata_name new_oid _ f = (invalid_oid, f)

  unfoldable pub update : Key → ℤ → OidFile → ℤ × OidFile
  unfolding open_data update_of
  update metadata_name new_oid f = let (r, g) = open_data f in update_of metadata_name new_oid r g
