-- ===== src/Ptree/TwoChildren.antt =====
-- The accessors after `add_child` under two keys that are absent.
use metadata_manager.Prelude.{false, none, some, ◌≡◌, ◌∙◌, if◌then◌else◌}
use metadata_manager.Key.{Key, ◌=?◌}
use metadata_manager.Platform.{Platform}
use metadata_manager.Ptree.{
  get_string?, get_int?, get_bool?, get_child?-add_child, get_string?-add_child, get_int?-add_child,
  get_bool?-add_child,
}

module _ ⦃P : Platform⦄ where
  open P use {Tree, value, add_child, get_child?, to_int, to_bool}

  module _ (k l : Key) (c d t : Tree) (ne : (k =? l) ≡ false) (no_k : get_child? k t ≡ none)
      (no_l : get_child? l t ≡ none) where
    second_absent : get_child? l (add_child k c t) ≡ none
    second_absent = get_child?-add_child k c t no_k l ∙ rw ne no_l

    pub get_child?-add_two :
        (j : Key)
        → get_child? j (add_child l d (add_child k c t))
          ≡ (if l =? j then some d else if k =? j then some c else get_child? j t)
    get_child?-add_two j =
        rw (get_child?-add_child l d (add_child k c t) second_absent j)
          (rw (get_child?-add_child k c t no_k j))

    pub get_string?-add_two :
        (j : Key)
        → get_string? j (add_child l d (add_child k c t))
          ≡ (if l =? j then some (value d) else if k =? j then some (value c) else get_string? j t)
    get_string?-add_two j =
        rw (get_string?-add_child l d (add_child k c t) second_absent j)
          (rw (get_string?-add_child k c t no_k j))

    pub get_int?-add_two :
        (j : Key)
        → get_int? j (add_child l d (add_child k c t))
          ≡ (if l =? j then to_int (value d) else if k =? j then to_int (value c) else get_int? j t)
    get_int?-add_two j =
        rw (get_int?-add_child l d (add_child k c t) second_absent j)
          (rw (get_int?-add_child k c t no_k j))

    pub get_bool?-add_two :
        (j : Key)
        → get_bool? j (add_child l d (add_child k c t)) ≡ (
            if l =? j
            then to_bool (value d)
            else if k =? j
            then to_bool (value c)
            else get_bool? j t)
    get_bool?-add_two j =
        rw (get_bool?-add_child l d (add_child k c t) second_absent j)
          (rw (get_bool?-add_child k c t no_k j))
