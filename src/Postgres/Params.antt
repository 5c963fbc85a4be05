-- ===== src/Postgres/Params.antt =====
-- The parameters of the statements, as the DAOs for PostgreSQL take them from a property tree, and the texts
-- of JSON of src/helper/ptree_helper.cpp.
use mathlib.Core.Option
use Prim.Native.String.{◌++◌}
use metadata_manager.Prelude.{
  String, to_string, Option, none, some, List, [], ◌∷◌, pos, str_eq, if◌then◌else◌,
}
use metadata_manager.Key.{Key}
use metadata_manager.Platform.{Platform}
use metadata_manager.ErrorCode.{invalid_parameter}
use metadata_manager.Outcome.{Outcome, ok, err, ◌>>=◌}
use metadata_manager.Ptree.{value_or, get_int?, get_bool?}
use metadata_manager.Ptree.Helper.{make_array_ptree}

-- `(!value.empty() ? value.c_str() : nullptr)`
abbrev pub nullable : String → Option String
nullable value = if str_eq value "" then none else some value

-- `kSchemaTsurugiCatalog`, `kSequenceId`, `kEmptyStringJson`
abbrev pub schema : String
schema = "tg_catalog"

abbrev pub sequence_id : String
sequence_id = "tg_catalog.id_sequence"

abbrev pub empty_json : String
empty_json = "{}"

-- `Tables::format_version()`, `Tables::generation()` and those of the other classes
abbrev pub format_version : String
format_version = to_string (pos 1)

abbrev pub generation : String
generation = to_string (pos 1)

-- Names with a comma between two of them, each behind a prefix, as the templates of the statements list them.
abbrev pub listed : String → List String → String
listed prefix [] = ""
listed prefix (column ∷ []) = prefix ++ column
listed prefix (column ∷ columns) = prefix ++ column ++ ", " ++ listed prefix columns

module _ ⦃P : Platform⦄ where
  open P use {Tree, empty, children, get_child?, parse_json, print_json}

  -- `ptree_value_to_string<bool>`: the number that `std::to_string` makes of a Boolean value
  unfoldable pub bool_value_to_string : Key → Tree → String
  bool_value_to_string key pt =
      value_or "" (Option.map (λ b. if b then "1" else "0") (get_bool? key pt))

  -- A tree without children leaves the text empty.
  unfoldable pub ptree_to_json : Tree → Outcome String
  ptree_to_json pt = elim (children pt) [
    | [] ↦ ok ""
    | _ ∷ _ ↦ elim (print_json pt) [ none ↦ err invalid_parameter | some json ↦ ok json ]
  ]

  -- The error code of `json_to_ptree` is not looked at, and leaves the tree empty.
  unfoldable pub json_to_ptree : String → Tree
  json_to_ptree json = if str_eq json "" then empty else value_or empty (parse_json json)

  abbrev pub json_or_empty : String → String
  json_or_empty json = if str_eq json "" then empty_json else json

  -- A number is taken for an array of one number.
  unfoldable pub as_array : Key → Tree → Tree → Tree
  unfolding make_array_ptree
  as_array key object child = elim (children child) [
    | [] ↦ elim (get_int? key object) [
      | none ↦ empty
      | some number ↦ make_array_ptree (number ∷ [])
    ]
    | _ ∷ _ ↦ child
  ]

  unfoldable pub array_json : Key → Tree → Outcome String
  unfolding ptree_to_json as_array
  array_json key object = elim (get_child? key object) [
    | none ↦ ok empty_json
    | some child ↦ (do json ← ptree_to_json (as_array key object child); ok (json_or_empty json))
  ]

  unfoldable pub child_json : Key → Tree → Outcome String
  unfolding ptree_to_json
  child_json key object = elim (get_child? key object) [
    | none ↦ ok empty_json
    | some child ↦ (do json ← ptree_to_json child; ok (json_or_empty json))
  ]
