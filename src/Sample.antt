-- ===== src/Sample.antt =====
-- A concrete platform, at which the theorems are applied: trees as lists of named children, files in
-- a list, writes that succeed.
pub mod Decimal
pub mod Forest
pub mod Postgres
use metadata_manager.Prelude.{
  String, ◌≡◌, refl, Bool, true, false, Option, none, some, List, [], ◌∷◌, arith, str_eq, eq_iff,
  to_string, if◌then◌else◌,
}
use metadata_manager.Key.{spelling}
use metadata_manager.Platform.{Platform}

-- The last write of a path stands first.
unfoldable pub find_file : {A : Type 0} → String → List (String × A) → Option A
find_file p [] = none
find_file p ((q, t) ∷ d) = if str_eq q p then some t else find_file p d

unfoldable pub has_file : {A : Type 0} → String → List (String × A) → Bool
has_file p [] = false
has_file p ((q, t) ∷ d) = if str_eq q p then true else has_file p d

unfoldable pub read_bool : String → Option Bool
read_bool s = if str_eq s "true" then some true else if str_eq s "false" then some false else none

unfoldable pub print_bool : Bool → String
print_bool true = "true"
print_bool false = "false"

pub read_bool-print_bool : (b : Bool) → read_bool (print_bool b) ≡ some b
unfolding read_bool print_bool
read_bool-print_bool true = refl
read_bool-print_bool false = refl

unfoldable pub is_written : {A : Type 0} → Option A → Bool
is_written none = false
is_written (some a) = true

pub read_after_write :
    {A : Type 0} (p q : String) (t : A) (d d' : List (String × A))
    → some ((p, t) ∷ d) ≡ some d'
    → find_file q d' ≡ (if str_eq p q then some t else find_file q d)
unfolding find_file
read_after_write p q t d d' h = ground arith

pub exists_after_write :
    {A : Type 0} (p q : String) (t : A) (d d' : List (String × A))
    → some ((p, t) ∷ d) ≡ some d'
    → has_file q d' ≡ (if str_eq p q then true else has_file q d)
unfolding has_file
exists_after_write p q t d d' h = ground arith

pub is_written-of_write :
    {A : Type 0} (t : A) (f f' : Option A) → some (some t) ≡ some f' → is_written f' ≡ true
unfolding is_written
is_written-of_write t f f' h = ground arith

pub read_ini_after_write :
    {A : Type 0} (t : A) (f f' : Option A) → some (some t) ≡ some f' → f' ≡ some t
read_ini_after_write t f f' h = ground arith

abbrev pub Tree : Type 0
Tree = Forest.Tree

instance abbrev pub sample : Platform
sample = record {
  Tree = Forest.Tree;
  empty = Forest.empty;
  value = Forest.value;
  set_value = Forest.set_value;
  children = Forest.children;
  set_children = Forest.set_children;
  get_child? = λ k. Forest.get_child? (spelling k);
  put_child = λ k. Forest.put_child (spelling k);
  add_child = λ k. Forest.add_child (spelling k);
  erase = λ k. Forest.erase (spelling k);
  add_child_at = Forest.add_child;
  parse_json = λ s. some (Forest.set_value s Forest.empty);
  print_json = λ t. some (Forest.value t);
  to_int = Decimal.to_int;
  to_bool = read_bool;
  of_bool = print_bool;
  Disk = List (String × Forest.Tree);
  exists = has_file;
  read_json = find_file;
  write_json = λ p t d. some ((p, t) ∷ d);
  interrupted = λ p t d. d;
  OidFile = Option Forest.Tree;
  oid_exists = is_written;
  read_ini = λ f. f;
  write_ini = λ t f. some (some t);
  storage_dir_path = "/var/tsurugi";
  hash = Forest.hash;
  value-set_value = Forest.value-set_value;
  children-set_value = Forest.children-set_value;
  children-empty = Forest.children-empty;
  children-set_children = Forest.children-set_children;
  get_child?-empty = λ k. Forest.get_child?-empty (spelling k);
  get_child?-put_child = λ k j. Forest.get_child?-put_child (spelling k) (spelling j);
  get_child?-add_child = λ k j. Forest.get_child?-add_child (spelling k) (spelling j);
  get_child?-erase = λ k j. Forest.get_child?-erase (spelling k) (spelling j);
  to_int-to_string = Decimal.to_int-to_string;
  to_int-IsInt64 = Decimal.to_int-IsInt64;
  to_bool-of_bool = read_bool-print_bool;
  read_json-write_json = read_after_write;
  exists-write_json = exists_after_write;
  read_ini-write_ini = read_ini_after_write;
  oid_exists-write_ini = is_written-of_write;
}
