-- ===== src/Dao/DataTypes/Lookup.antt =====
-- The data types that a selection by identifier or by name finds
-- (src/dao/json/datatypes_dao_json.cpp).
use metadata_manager.Prelude.{
  pos, String, to_string, Bool, Bool-cases, inl, inr, List, [], ◌∷◌, ◌++◌, ◌≡◌, refl, sym, ap, ◌∙◌,
  arith, str_eq, eq_refl, if◌then◌else◌,
}
use mathlib.Core.List.{append-nil, append_assoc}
use metadata_manager.Key.{Key, spelling}
use metadata_manager.Platform.{Platform}
use metadata_manager.Outcome.{ok}
use metadata_manager.Ptree.{children-push_back, put_laws}
use metadata_manager.Ptree.Helper.{Keys, is_match, value_to_string}
use metadata_manager.Dao.{get_child}
use metadata_manager.Dao.Rows.{Rows, find_loop, matching, children-find_loop}
use metadata_manager.Dao.DataTypes.{
  Entry, entries, put_entry, prepare_loop, prepared, find_data_types,
}

-- the names of the entries with a property
abbrev pub names_where : (Entry → Bool) → List Entry → List String
names_where test [] = []
names_where test (e ∷ es) = if test e then e.name ∷ names_where test es else names_where test es

module _ ⦃P : Platform⦄ where
  open P use {Tree, empty, children}

  -- the names that rows carry
  abbrev pub names_of : Rows Tree → List String
  names_of [] = []
  names_of ((_, row) ∷ rows) = value_to_string Key.name row ∷ names_of rows

  -- the rows that `prepare` makes, where the variable held `datatype` before
  rows_from : List Entry → Tree → Rows Tree
  rows_from [] datatype = []
  rows_from (e ∷ es) datatype = ("", put_entry e datatype) ∷ rows_from es (put_entry e datatype)

  children-prepare_loop :
      (es : List Entry) (datatype datatypes : Tree)
      → children (prepare_loop es datatype datatypes) ≡ children datatypes ++ rows_from es datatype
  unfolding prepare_loop rows_from
  children-prepare_loop [] datatype datatypes = sym (append-nil _)
  children-prepare_loop (e ∷ es) datatype datatypes =
      simp (children-prepare_loop es (put_entry e datatype), children-push_back, append_assoc)

  value-id : (e : Entry) (t : Tree) → value_to_string Key.id (put_entry e t) ≡ to_string (pos e.id)
  unfolding put_entry value_to_string
  value-id e t = simp (put_laws)

  value-name : (e : Entry) (t : Tree) → value_to_string Key.name (put_entry e t) ≡ e.name
  unfolding put_entry value_to_string
  value-name e t = simp (put_laws)

  match_one :
      (k : Key) (v : String) (row : Tree)
      → is_match row ((k, v) ∷ []) ≡ str_eq (value_to_string k row) v
  unfolding is_match
  match_one k v row = elim (Bool-cases (str_eq (value_to_string k row) v)) [
    | inl e ↦ ground arith
    | inr e ↦ ground arith
  ]

  names-matching :
      (k : Key) (f : Entry → String) (v : String) (es : List Entry) (t : Tree)
      → ((e : Entry) (u : Tree) → value_to_string k (put_entry e u) ≡ f e)
      → names_of (matching ((k, v) ∷ []) (rows_from es t)) ≡ names_where (λ e. str_eq (f e) v) es
  unfolding rows_from
  names-matching k f v [] t h = refl
  names-matching k f v (e ∷ es) t h =
      let same : is_match (put_entry e t) ((k, v) ∷ []) ≡ str_eq (f e) v =
        match_one k v (put_entry e t) ∙ ap (λ s. str_eq s v) (h e t) in
      elim (Bool-cases (str_eq (f e) v)) [
        | inl y ↦ ground (arith, value-name e t, names-matching k f v es (put_entry e t) h)
        | inr y ↦ ground (arith, names-matching k f v es (put_entry e t) h)
      ]

  get_child-prepared : get_child Key.data_types prepared ≡ ok (prepare_loop entries empty empty)
  unfolding get_child prepared
  get_child-prepared = ground (
    arith,
    P.get_child?-add_child Key.data_types Key.data_types (prepare_loop entries empty empty) empty
        (P.get_child?-empty Key.data_types),
    eq_refl (spelling Key.data_types),
  )

  found_ok :
      (keys : Keys)
      → find_data_types keys
        ≡ ok (find_loop keys (children (prepare_loop entries empty empty)) empty)
  unfolding find_data_types
  found_ok keys = ground (arith, get_child-prepared)

  children-found :
      (keys : Keys)
      → children (find_loop keys (children (prepare_loop entries empty empty)) empty)
        ≡ matching keys (rows_from entries empty)
  children-found keys = simp (children-find_loop, children-prepare_loop, P.children-empty)

  selection_lem :
      (k : Key) (f : Entry → String) (v : String)
      → ((e : Entry) (u : Tree) → value_to_string k (put_entry e u) ≡ f e)
      → (found : Tree) × (find_data_types ((k, v) ∷ []) ≡ ok found)
        × (names_of (children found) ≡ names_where (λ e. str_eq (f e) v) entries)
  selection_lem k f v h = (
    find_loop ((k, v) ∷ []) (children (prepare_loop entries empty empty)) empty,
    found_ok ((k, v) ∷ []),
    ap names_of (children-found ((k, v) ∷ [])) ∙ names-matching k f v entries empty h,
  )

  -- A selection by identifier finds the data types of the table with that identifier, and one by name
  -- those with that name, in the order of the table and with the names of the table.
  pub find_data_types_lem :
      (v : String)
      → ((found : Tree) × (find_data_types ((Key.id, v) ∷ []) ≡ ok found)
          × (names_of (children found)
              ≡ names_where (λ e. str_eq (to_string (pos e.id)) v) entries))
        × ((found : Tree) × (find_data_types ((Key.name, v) ∷ []) ≡ ok found)
            × (names_of (children found) ≡ names_where (λ e. str_eq e.name v) entries))
  find_data_types_lem v = (
    selection_lem Key.id (λ e. to_string (pos e.id)) v value-id,
    selection_lem Key.name (λ e. e.name) v value-name,
  )
