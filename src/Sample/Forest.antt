-- ===== src/Sample/Forest.antt =====
-- Trees as a text and a list of named children: an instance of `ptree` and its keyed members.
use Prim.Native.Char.{code}
use metadata_manager.Prelude.{
  ℕ, ◌+◌, ◌*◌, String, ◌≡◌, refl, Option, none, some, List, [], ◌∷◌, arith, str_eq, eq_iff,
  if◌then◌else◌,
}

mutual
  pub data Tree : Type 0 where
    node : String → Forest → Tree

  pub data Forest : Type 0 where
    nil : Forest
    cons : String → Tree → Forest → Forest

abbrev pub empty : Tree
empty = node "" nil

unfoldable pub value : Tree → String
value (node v f) = v

unfoldable pub set_value : String → Tree → Tree
set_value v (node _ f) = node v f

to_list : Forest → List (String × Tree)
to_list nil = []
to_list (cons n t f) = (n, t) ∷ to_list f

of_list : List (String × Tree) → Forest
of_list [] = nil
of_list ((n, t) ∷ l) = cons n t (of_list l)

to_list-of_list : (l : List (String × Tree)) → to_list (of_list l) ≡ l
unfolding to_list of_list
to_list-of_list [] = refl
to_list-of_list ((n, t) ∷ l) = rw (to_list-of_list l)

unfoldable pub children : Tree → List (String × Tree)
unfolding to_list
children (node v f) = to_list f

unfoldable pub set_children : List (String × Tree) → Tree → Tree
unfolding of_list
set_children l (node v _) = node v (of_list l)

find : String → Forest → Option Tree
find k nil = none
find k (cons n t f) = if str_eq n k then some t else find k f

replace : String → Tree → Forest → Forest
replace k c nil = cons k c nil
replace k c (cons n t f) =
    let rest = replace k c f in if str_eq n k then cons n c f else cons n t rest

append : String → Tree → Forest → Forest
append k c nil = cons k c nil
append k c (cons n t f) = cons n t (append k c f)

without : String → Forest → Forest
without k nil = nil
without k (cons n t f) = let rest = without k f in if str_eq n k then rest else cons n t rest

unfoldable pub get_child? : String → Tree → Option Tree
unfolding find
get_child? k (node v f) = find k f

unfoldable pub put_child : String → Tree → Tree → Tree
unfolding replace
put_child k c (node v f) = node v (replace k c f)

unfoldable pub add_child : String → Tree → Tree → Tree
unfolding append
add_child k c (node v f) = node v (append k c f)

unfoldable pub erase : String → Tree → Tree
unfolding without
erase k (node v f) = node v (without k f)

pub value-set_value : (v : String) (t : Tree) → value (set_value v t) ≡ v
unfolding value set_value
value-set_value v (node w f) = refl

pub children-set_value : (v : String) (t : Tree) → children (set_value v t) ≡ children t
unfolding children set_value
children-set_value v (node w f) = refl

pub children-set_children : (l : List (String × Tree)) (t : Tree) → children (set_children l t) ≡ l
unfolding children set_children
children-set_children l (node w f) = to_list-of_list l

pub children-empty : children empty ≡ []
unfolding children
children-empty = refl

pub get_child?-empty : (k : String) → get_child? k empty ≡ none
unfolding get_child?
get_child?-empty k = refl

find-replace :
    (k j : String) (c : Tree) (f : Forest)
    → find j (replace k c f) ≡ (if str_eq k j then some c else find j f)
unfolding find replace
find-replace k j c nil = refl
find-replace k j c (cons n t f) =
    ground (arith, eq_iff n k, eq_iff n j, eq_iff k j, find-replace k j c f)

find-append :
    (k j : String) (c : Tree) (f : Forest)
    → find k f ≡ none
    → find j (append k c f) ≡ (if str_eq k j then some c else find j f)
unfolding find append
find-append k j c nil h = refl
find-append k j c (cons n t f) h =
    ground (arith, eq_iff n k, eq_iff n j, eq_iff k j, find-append k j c f)

find-without :
    (k j : String) (f : Forest) → find j (without k f) ≡ (if str_eq k j then none else find j f)
unfolding find without
find-without k j nil = ground arith
find-without k j (cons n t f) =
    ground (arith, eq_iff n k, eq_iff n j, eq_iff k j, find-without k j f)

pub get_child?-put_child :
    (k j : String) (c t : Tree)
    → get_child? j (put_child k c t) ≡ (if str_eq k j then some c else get_child? j t)
unfolding get_child? put_child
get_child?-put_child k j c (node v f) = find-replace k j c f

pub get_child?-add_child :
    (k j : String) (c t : Tree)
    → get_child? k t ≡ none
    → get_child? j (add_child k c t) ≡ (if str_eq k j then some c else get_child? j t)
unfolding get_child? add_child
get_child?-add_child k j c (node v f) h = find-append k j c f h

pub get_child?-erase :
    (k j : String) (t : Tree)
    → get_child? j (erase k t) ≡ (if str_eq k j then none else get_child? j t)
unfolding get_child? erase
get_child?-erase k j (node v f) = find-without k j f

-- A hash of texts and trees.
text_hash : String → ℕ
text_hash String.[] = 7
text_hash (String.◌∷◌ c s) = code c + 31 * text_hash s

mutual
  unfolding text_hash

  hash_tree : Tree → ℕ
  hash_tree (node v f) = text_hash v + 41 * hash_forest f

  hash_forest : Forest → ℕ
  hash_forest nil = 1
  hash_forest (cons n t f) = text_hash n + 43 * hash_tree t + 47 * hash_forest f

unfoldable pub hash : Tree → ℕ
unfolding hash_tree hash_forest text_hash
hash t = hash_tree t
