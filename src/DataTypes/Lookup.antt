-- ===== src/DataTypes/Lookup.antt =====
-- What `DataTypes::get` finds in the JSON storage (src/datatypes.cpp,
-- src/dao/json/datatypes_dao_json.cpp).
use metadata_manager.Prelude.{
  pos, String, to_string, false, some, [], ◌∷◌, ◌≡◌, refl, ◌∙◌, arith, str_eq,
}
use metadata_manager.Key.{Key}
use metadata_manager.Platform.{Platform}
use metadata_manager.ErrorCode.{id_not_found}
use metadata_manager.Outcome.{ok, err}
use metadata_manager.Action.{◌>>=◌}
use metadata_manager.Ptree.{size}
use metadata_manager.Ptree.Helper.{Keys, value_to_string}
use metadata_manager.Session.{World}
use metadata_manager.Dao.Rows.{Rows}
use metadata_manager.Dao.DataTypes
use metadata_manager.Dao.DataTypes.{entries, find_data_types}
use metadata_manager.Dao.DataTypes.Lookup.{names_where, names_of, find_data_types_lem}
use metadata_manager.Dao.Stored.{data_types_dao}
use metadata_manager.Provider.{init, find_key, get_not_found_error_code}
use metadata_manager.Provider.Json.{json_session}
use metadata_manager.Provider.Get.{get_datatype_metadata, found_or_error, only_row}
use metadata_manager.DataTypes.{get_by_key}

module _ ⦃P : Platform⦄ where
  open P use {Tree, empty, children}

  -- the rows behind one name
  single_name :
      (rows : Rows Tree) (n : String)
      → names_of rows ≡ n ∷ []
      → (m : String) × (row : Tree) × (rows ≡ (m, row) ∷ []) × (value_to_string Key.name row ≡ n)
  single_name [] n h = absurd (ground arith)
  single_name ((m, row) ∷ []) n h = (m, row, refl, ground arith)
  single_name ((m, row) ∷ second ∷ rows) n h = absurd (ground arith)

  no_name : (rows : Rows Tree) → names_of rows ≡ [] → rows ≡ []
  no_name [] h = refl
  no_name ((m, row) ∷ rows) h = absurd (ground arith)

  selected_lem :
      (keys : Keys) (found : Tree) (w : World)
      → find_data_types keys ≡ ok found
      → get_datatype_metadata json_session keys empty w ≡ found_or_error json_session keys found w
  unfolding get_datatype_metadata init json_session data_types_dao DataTypes.select ◌>>=◌
  selected_lem keys found w e = rw e refl

  found_some :
      (keys : Keys) (found row : Tree) (m : String) (w : World)
      → children found ≡ (m, row) ∷ []
      → found_or_error json_session keys found w ≡ (ok found, w)
  unfolding found_or_error size
  found_some keys found row m w e = rw e refl

  found_none :
      (keys : Keys) (found : Tree) (w : World)
      → children found ≡ []
      → found_or_error json_session keys found w ≡ (err (get_not_found_error_code keys), w)
  unfolding found_or_error size
  found_none keys found w e = rw e refl

  only_lem :
      (found row : Tree) (m : String) (w : World)
      → children found ≡ (m, row) ∷ []
      → only_row json_session found w ≡ (ok row, w)
  unfolding only_row
  only_lem found row m w e = ground arith

  -- An identifier that exactly one entry of the fixed table has is found, with the name of that entry;
  -- nothing is changed.
  pub get_by_key_lem :
      (v n : String) (w : World)
      → str_eq v "" ≡ false
      → names_where (λ e. str_eq (to_string (pos e.id)) v) entries ≡ n ∷ []
      → (row : Tree) × (get_by_key json_session (some Key.id) v w ≡ (ok row, w))
        × (value_to_string Key.name row ≡ n)
  unfolding get_by_key ◌>>=◌
  get_by_key_lem v n w filled single =
      let (found, e, names) = (find_data_types_lem v).0 in
      let (m, row, rows, name_of) = single_name (children found) n (names ∙ single) in
      (
        row,
        rw filled (
            rw
              (selected_lem ((Key.id, v) ∷ []) found w e
                ∙ found_some ((Key.id, v) ∷ []) found row m w rows)
              (only_lem found row m w rows)),
        name_of,
      )

  -- An identifier that no entry has is reported as not found; nothing is changed.
  pub get_by_key_none :
      (v : String) (w : World)
      → str_eq v "" ≡ false
      → names_where (λ e. str_eq (to_string (pos e.id)) v) entries ≡ []
      → get_by_key json_session (some Key.id) v w ≡ (err id_not_found, w)
  unfolding get_by_key get_not_found_error_code find_key ◌>>=◌
  get_by_key_none v w filled absent =
      let (found, e, names) = (find_data_types_lem v).0 in
      let empty_rows = no_name (children found) (names ∙ absent) in
      rw filled (
        rw
          (selected_lem ((Key.id, v) ∷ []) found w e
            ∙ found_none ((Key.id, v) ∷ []) found w empty_rows)
          refl)
