-- ===== src/Postgres/Row.antt =====
-- The conversion of a row of a result to a property tree, `convert_pgresult_to_ptree` of the DAOs for
-- PostgreSQL (src/dao/postgresql/*_dao_pg.cpp): each class lists its keys with the column of each.
pub mod Reading
use Prim.Native.Char.{code}
use metadata_manager.Prelude.{ℕ, String, List, [], ◌∷◌, ◌==◌, ◌||◌, str_eq, if◌then◌else◌}
use metadata_manager.Key.{Key}
use metadata_manager.Platform.{Platform}
use metadata_manager.Libpq.{Libpq}
use metadata_manager.Outcome.{Outcome, ok, ◌>>=◌}
use metadata_manager.Ptree.{put, push_back}
use metadata_manager.Utility.{split, convert_boolean_expression}
use metadata_manager.Postgres.Results.{get_result_value}
use metadata_manager.Postgres.Params.{json_to_ptree}

-- What becomes of a value: the text itself, the text of a Boolean value, the tree of a JSON text, the text of a
-- number with 0 for none, and an array of the access control items.
pub data Column : Type 0 where
  text boolean json count items : Column

-- `regex_replace(acl, "[{}]", "")`
unfoldable pub without_braces : String → String
without_braces String.[] = ""
without_braces (String.◌∷◌ c s) =
    let rest = without_braces s in
    if code c == b'{' || code c == b'}' then rest else String.◌∷◌ c rest

module _ ⦃P : Platform⦄ where
  open P use {Tree, empty, set_value, add_child}

  -- `put("", acl)` sets the text of the node itself.
  unfoldable pub acl_nodes : List String → Tree → Tree
  unfolding push_back
  acl_nodes [] ptree_acls = ptree_acls
  acl_nodes (acl ∷ acls) ptree_acls = acl_nodes acls (push_back (set_value acl empty) ptree_acls)

  unfoldable pub put_column : Column → Key → String → Tree → Tree
  unfolding put convert_boolean_expression json_to_ptree acl_nodes split without_braces
  put_column text key value object = put key value object
  put_column boolean key value object = put key (convert_boolean_expression value) object
  put_column json key value object = add_child key (json_to_ptree value) object
  put_column count key value object = put key (if str_eq value "" then "0" else value) object
  put_column items key value object =
      add_child key (acl_nodes (split b',' (without_braces value)) empty) object

  unfoldable pub put_columns :
      ⦃L : Libpq⦄ → List (Key × Column × ℕ) → L.Result → ℕ → Tree → Outcome Tree
  unfolding put_column get_result_value
  put_columns [] res row_number object = ok object
  put_columns ((key, column, position) ∷ columns) res row_number object = do
    value ← get_result_value res row_number position
    put_columns columns res row_number (put_column column key value object)
