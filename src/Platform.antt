-- ===== src/Platform.antt =====
-- What the program takes from outside the repository: Boost.PropertyTree with its JSON and INI
-- parsers, the files that these read and write, and `std::hash`. The laws are documented behaviour.
-- The keys of the program hold no dot, so a key is a path of one step.
use metadata_manager.Prelude.{
  ℕ, ℤ, IsInt64, String, to_string, ◌≡◌, Bool, Option, none, some, List, [], true, str_eq,
  if◌then◌else◌,
}
use metadata_manager.Key.{Key, ◌=?◌}

pub record Platform : Type 1 where
  -- `ptree`: a text, and children with their names in order
  pub Tree : Type 0
  pub empty : Tree
  pub value : Tree → String
  pub set_value : String → Tree → Tree
  pub children : Tree → List (String × Tree)
  pub set_children : List (String × Tree) → Tree → Tree
  pub get_child? : Key → Tree → Option Tree
  pub put_child : Key → Tree → Tree → Tree
  pub add_child : Key → Tree → Tree → Tree
  pub erase : Key → Tree → Tree
  -- `add_child` at a path of several steps
  pub add_child_at : String → Tree → Tree → Tree
  -- `read_json` and `write_json` on a text, where `none` is an exception
  pub parse_json : String → Option Tree
  pub print_json : Tree → Option String
  -- the translators of `get_optional<int64_t>`, `get_optional<bool>` and `put<bool>`
  pub to_int : String → Option ℤ
  pub to_bool : String → Option Bool
  pub of_bool : Bool → String
  -- the JSON files, and `read_json`, `write_json`, where `none` is a `json_parser_error`
  pub Disk : Type 0
  pub exists : String → Disk → Bool
  pub read_json : String → Disk → Option Tree
  pub write_json : String → Tree → Disk → Option Disk
  -- the files behind a `write_json` that throws, which may have truncated its own
  pub interrupted : String → Tree → Disk → Disk
  -- the OID management file, and `read_ini`, `write_ini`, where `none` is an `ini_parser_error`
  pub OidFile : Type 0
  pub oid_exists : OidFile → Bool
  pub read_ini : OidFile → Option Tree
  pub write_ini : Tree → OidFile → Option OidFile
  -- `Config::get_storage_dir_path()`, from the environment
  pub storage_dir_path : String
  -- `std::hash` of the JSON text of a tree
  pub hash : Tree → ℕ
  pub value-set_value : (v : String) (t : Tree) → value (set_value v t) ≡ v
  pub children-set_value : (v : String) (t : Tree) → children (set_value v t) ≡ children t
  pub children-empty : children empty ≡ []
  pub children-set_children :
      (l : List (String × Tree)) (t : Tree) → children (set_children l t) ≡ l
  pub get_child?-empty : (k : Key) → get_child? k empty ≡ none
  pub get_child?-put_child :
      (k j : Key) (c t : Tree)
      → get_child? j (put_child k c t) ≡ (if k =? j then some c else get_child? j t)
  pub get_child?-add_child :
      (k j : Key) (c t : Tree)
      → get_child? k t ≡ none
      → get_child? j (add_child k c t) ≡ (if k =? j then some c else get_child? j t)
  pub get_child?-erase :
      (k j : Key) (t : Tree) → get_child? j (erase k t) ≡ (if k =? j then none else get_child? j t)
  pub to_int-to_string : (v : ℤ) → IsInt64 v → to_int (to_string v) ≡ some v
  pub to_int-IsInt64 : (s : String) (v : ℤ) → to_int s ≡ some v → IsInt64 v
  pub to_bool-of_bool : (b : Bool) → to_bool (of_bool b) ≡ some b
  pub read_json-write_json :
      (p q : String) (t : Tree) (d d' : Disk)
      → write_json p t d ≡ some d'
      → read_json q d' ≡ (if str_eq p q then some t else read_json q d)
  pub exists-write_json :
      (p q : String) (t : Tree) (d d' : Disk)
      → write_json p t d ≡ some d'
      → exists q d' ≡ (if str_eq p q then true else exists q d)
  pub read_ini-write_ini :
      (t : Tree) (f f' : OidFile) → write_ini t f ≡ some f' → read_ini f' ≡ some t
  pub oid_exists-write_ini :
      (t : Tree) (f f' : OidFile) → write_ini t f ≡ some f' → oid_exists f' ≡ true
