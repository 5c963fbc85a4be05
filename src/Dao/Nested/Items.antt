-- ===== src/Dao/Nested/Items.antt =====
-- What the operations on the columns and constraints of a table do to the rows of tables
-- (src/dao/json/columns_dao_json.cpp, src/dao/json/constraints_dao_json.cpp).
use metadata_manager.Prelude.{
  String, true, false, Bool-cases, inl, inr, Option-cases, none, some, [], ◌∷◌, ◌++◌, ◌≡◌, refl,
  ◌∙◌, All, arith, str_eq, eq_refl,
}
use metadata_manager.Key.{Key, spelling, ◌=?◌}
use metadata_manager.Platform.{Platform}
use metadata_manager.Ptree.{value_or, children-push_back}
use metadata_manager.Ptree.Helper.{Keys, is_match, int_value_to_string}
use metadata_manager.Dao.Rows.{Rows}
use metadata_manager.Dao.Rows.Deletion.{remaining, matching_ids}
use metadata_manager.Dao.Nested.{delete_items, change_table, with_node}
use metadata_manager.Dao.Columns.{append_item}

module _ ⦃P : Platform⦄ where
  open P use {Tree, empty, children, get_child?}

  -- The loop that removes items by their keys skips none: it keeps exactly the items that do not match,
  -- in their order, and returns the identifiers of all that do.
  pub delete_items_lem :
      (keys : Keys) (items : Rows Tree)
      → delete_items keys items ≡ (remaining keys items, matching_ids keys items)
  unfolding delete_items
  delete_items_lem keys [] = refl
  delete_items_lem keys ((n, item) ∷ items) = elim (Bool-cases (is_match item keys)) [
    | inl e ↦ ground (arith, delete_items_lem keys items)
    | inr e ↦ ground (arith, delete_items_lem keys items)
  ]

  abbrev pub HasOtherId : String → String × Tree → Type 0
  HasOtherId table_id r = str_eq (int_value_to_string Key.id r.1) table_id ≡ false

  -- The change of a table is made to its row, where no row before it has its identifier, and to
  -- no other row.
  pub change_first :
      (table_id : String) (change : Tree → Tree) (before after : Rows Tree) (n : String)
      (table : Tree)
      → All (HasOtherId table_id) before
      → str_eq (int_value_to_string Key.id table) table_id ≡ true
      → change_table table_id change (before ++ (n, table) ∷ after)
        ≡ some (before ++ (n, change table) ∷ after)
  unfolding change_table
  change_first table_id change [] after n table others same = rw same
  change_first table_id change ((m, first) ∷ before) after n table others same =
      ground (arith, change_first table_id change before after n table others.1 same)

  -- No row is changed where none has the identifier.
  pub change_none :
      (table_id : String) (change : Tree → Tree) (rows : Rows Tree)
      → All (HasOtherId table_id) rows
      → change_table table_id change rows ≡ none
  unfolding change_table
  change_none table_id change [] others = refl
  change_none table_id change ((m, first) ∷ rows) others =
      ground (arith, change_none table_id change rows others.1)

  abbrev pub items_of : Key → Tree → Rows Tree
  items_of node table = elim (get_child? node table) [ none ↦ [] | some c ↦ children c ]

  with_node-same :
      (node : Key) (table : Tree)
      → get_child? node (with_node node table) ≡ some (value_or empty (get_child? node table))
  unfolding with_node
  with_node-same node table = elim (Option-cases (get_child? node table)) [
    | inl e ↦
        ground (arith, P.get_child?-add_child node node empty table e, eq_refl (spelling node))
    | inr (c, e) ↦ ground arith
  ]

  with_node-other :
      (node other : Key) (table : Tree)
      → (node =? other) ≡ false
      → get_child? other (with_node node table) ≡ get_child? other table
  unfolding with_node
  with_node-other node other table differ = elim (Option-cases (get_child? node table)) [
    | inl e ↦ ground (arith, P.get_child?-add_child node other empty table e)
    | inr (c, e) ↦ ground arith
  ]

  items_of-some :
      (node : Key) (t c : Tree) → get_child? node t ≡ some c → items_of node t ≡ children c
  items_of-some node t c e = ground arith

  items_of_or_empty :
      (node : Key) (t : Tree) → children (value_or empty (get_child? node t)) ≡ items_of node t
  items_of_or_empty node t = elim (Option-cases (get_child? node t)) [
    | inl e ↦ ground (arith, P.children-empty)
    | inr (c, e) ↦ ground arith
  ]

  put-same : (node : Key) (c t : Tree) → get_child? node (P.put_child node c t) ≡ some c
  put-same node c t = ground (arith, P.get_child?-put_child node node c t, eq_refl (spelling node))

  append_item-same :
      (node : Key) (item table : Tree)
      → items_of node (append_item node item table) ≡ items_of node table ++ ("", item) ∷ []
  unfolding append_item
  append_item-same node item table =
      items_of-some node _ _ (put-same node _ _)
      ∙ children-push_back item _
      ∙ rw (with_node-same node table, value_or) (rw (items_of_or_empty node table) refl)

  append_item-other :
      (node other : Key) (item table : Tree)
      → (node =? other) ≡ false
      → get_child? other (append_item node item table) ≡ get_child? other table
  unfolding append_item
  append_item-other node other item table differ =
      rw P.get_child?-put_child (rw differ (with_node-other node other table differ))

  -- An appended item stands behind the items that the table has in the node, which is made where it is absent,
  -- and a node of another key is left as it is.
  pub append_item_lem :
      (node other : Key) (item table : Tree)
      → (node =? other) ≡ false
      → (items_of node (append_item node item table) ≡ items_of node table ++ ("", item) ∷ [])
        × (get_child? other (append_item node item table) ≡ get_child? other table)
  append_item_lem node other item table differ =
      (append_item-same node item table, append_item-other node other item table differ)
