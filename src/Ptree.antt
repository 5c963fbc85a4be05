-- ===== src/Ptree.antt =====
-- The members of `boost::property_tree::ptree` that the program calls, over the operations of
-- `Platform`, with the law of each accessor after each `put`.
pub mod Helper
pub mod Conditional
pub mod TwoChildren
use mathlib.Core.Option
use metadata_manager.Prelude.{
  ℕ, ℤ, IsInt64, String, to_string, ◌≡◌, refl, Bool, true, false, Option, none, some, List, [], ◌∷◌,
  ◌++◌, length, length-append, ◌+◌, arith, Bool-cases, inl, inr, if◌then◌else◌,
}
use metadata_manager.Key.{Key, ◌=?◌}
use metadata_manager.Platform.{Platform}

-- `value_or`
abbrev pub value_or {ℓ} : {A : Type ℓ} → A → Option A → A
value_or d none = d
value_or d (some a) = a

module _ ⦃P : Platform⦄ where
  open P use {
    Tree, empty, value, set_value, children, set_children, get_child?, put_child, to_int, to_bool,
    of_bool,
  }

  -- `get_optional<std::string>`, `get_optional<int64_t>`, `get_optional<bool>`
  unfoldable pub get_string? : Key → Tree → Option String
  get_string? k t = Option.map value (get_child? k t)

  unfoldable pub get_int? : Key → Tree → Option ℤ
  unfolding get_string? Option.bind
  get_int? k t = Option.bind (get_string? k t) to_int

  unfoldable pub get_bool? : Key → Tree → Option Bool
  unfolding get_string? Option.bind
  get_bool? k t = Option.bind (get_string? k t) to_bool

  -- `put`: the text of the child changes, and a child is made where there is none
  unfoldable pub put : Key → String → Tree → Tree
  put k v t = put_child k (set_value v (value_or empty (get_child? k t))) t

  abbrev pub put_int : Key → ℤ → Tree → Tree
  put_int k v t = put k (to_string v) t

  abbrev pub put_bool : Key → Bool → Tree → Tree
  put_bool k b t = put k (of_bool b) t

  -- `push_back(std::make_pair("", child))`
  unfoldable pub push_back : Tree → Tree → Tree
  push_back c t = set_children (children t ++ ("", c) ∷ []) t

  -- `size`: the number of children
  unfoldable pub size : Tree → ℕ
  size t = length (children t)

  pub get_child?-put :
      (k j : Key) (v : String) (t : Tree)
      → get_child? j (put k v t)
        ≡ (if k =? j then some (set_value v (value_or empty (get_child? k t))) else get_child? j t)
  unfolding put
  get_child?-put k j v t = P.get_child?-put_child k j _ t

  pub get_string?-put :
      (k j : Key) (v : String) (t : Tree)
      → get_string? j (put k v t) ≡ (if k =? j then some v else get_string? j t)
  unfolding get_string?
  get_string?-put k j v t = elim (Bool-cases (k =? j)) [
    | inl e ↦ simp (get_child?-put, e, P.value-set_value)
    | inr e ↦ simp (get_child?-put, e)
  ]

  pub get_int?-put :
      (k j : Key) (v : String) (t : Tree)
      → get_int? j (put k v t) ≡ (if k =? j then to_int v else get_int? j t)
  unfolding get_int?
  get_int?-put k j v t = elim (Bool-cases (k =? j)) [
    | inl e ↦ simp (get_child?-put, e, P.value-set_value)
    | inr e ↦ simp (get_child?-put, e)
  ]

  pub get_bool?-put :
      (k j : Key) (v : String) (t : Tree)
      → get_bool? j (put k v t) ≡ (if k =? j then to_bool v else get_bool? j t)
  unfolding get_bool?
  get_bool?-put k j v t = elim (Bool-cases (k =? j)) [
    | inl e ↦ simp (get_child?-put, e, P.value-set_value)
    | inr e ↦ simp (get_child?-put, e)
  ]

  -- The same after `put_child` and `erase`, which give another key's accessor no new value.
  pub get_string?-put_child :
      (k j : Key) (c t : Tree)
      → get_string? j (put_child k c t) ≡ (if k =? j then some (value c) else get_string? j t)
  unfolding get_string?
  get_string?-put_child k j c t = elim (Bool-cases (k =? j)) [
    | inl e ↦ simp (P.get_child?-put_child, e)
    | inr e ↦ simp (P.get_child?-put_child, e)
  ]

  pub get_int?-put_child :
      (k j : Key) (c t : Tree)
      → get_int? j (put_child k c t) ≡ (if k =? j then to_int (value c) else get_int? j t)
  unfolding get_int?
  get_int?-put_child k j c t = elim (Bool-cases (k =? j)) [
    | inl e ↦ simp (P.get_child?-put_child, e)
    | inr e ↦ simp (P.get_child?-put_child, e)
  ]

  pub get_bool?-put_child :
      (k j : Key) (c t : Tree)
      → get_bool? j (put_child k c t) ≡ (if k =? j then to_bool (value c) else get_bool? j t)
  unfolding get_bool?
  get_bool?-put_child k j c t = elim (Bool-cases (k =? j)) [
    | inl e ↦ simp (P.get_child?-put_child, e)
    | inr e ↦ simp (P.get_child?-put_child, e)
  ]

  -- `add_child` under a key that is absent.
  module _ (k : Key) (c t : Tree) (absent : get_child? k t ≡ none) where
    pub get_child?-add_child :
        (j : Key) → get_child? j (P.add_child k c t) ≡ (if k =? j then some c else get_child? j t)
    get_child?-add_child j = P.get_child?-add_child k j c t absent

    pub get_string?-add_child :
        (j : Key)
        → get_string? j (P.add_child k c t) ≡ (if k =? j then some (value c) else get_string? j t)
    unfolding get_string?
    get_string?-add_child j = elim (Bool-cases (k =? j)) [
      | inl e ↦ simp (P.get_child?-add_child k j c t absent, e)
      | inr e ↦ simp (P.get_child?-add_child k j c t absent, e)
    ]

    pub get_int?-add_child :
        (j : Key)
        → get_int? j (P.add_child k c t) ≡ (if k =? j then to_int (value c) else get_int? j t)
    unfolding get_int?
    get_int?-add_child j = elim (Bool-cases (k =? j)) [
      | inl e ↦ simp (P.get_child?-add_child k j c t absent, e)
      | inr e ↦ simp (P.get_child?-add_child k j c t absent, e)
    ]

    pub get_bool?-add_child :
        (j : Key)
        → get_bool? j (P.add_child k c t) ≡ (if k =? j then to_bool (value c) else get_bool? j t)
    unfolding get_bool?
    get_bool?-add_child j = elim (Bool-cases (k =? j)) [
      | inl e ↦ simp (P.get_child?-add_child k j c t absent, e)
      | inr e ↦ simp (P.get_child?-add_child k j c t absent, e)
    ]

  pub get_string?-erase :
      (k j : Key) (t : Tree)
      → get_string? j (P.erase k t) ≡ (if k =? j then none else get_string? j t)
  unfolding get_string?
  get_string?-erase k j t = elim (Bool-cases (k =? j)) [
    | inl e ↦ simp (P.get_child?-erase, e)
    | inr e ↦ simp (P.get_child?-erase, e)
  ]

  pub get_int?-erase :
      (k j : Key) (t : Tree) → get_int? j (P.erase k t) ≡ (if k =? j then none else get_int? j t)
  unfolding get_int?
  get_int?-erase k j t = elim (Bool-cases (k =? j)) [
    | inl e ↦ simp (P.get_child?-erase, e)
    | inr e ↦ simp (P.get_child?-erase, e)
  ]

  -- A key is absent from the empty tree.
  pub get_string?-empty : (k : Key) → get_string? k empty ≡ none
  unfolding get_string?
  get_string?-empty k = simp P.get_child?-empty

  pub get_int?-empty : (k : Key) → get_int? k empty ≡ none
  unfolding get_int?
  get_int?-empty k = simp P.get_child?-empty

  pub get_bool?-empty : (k : Key) → get_bool? k empty ≡ none
  unfolding get_bool?
  get_bool?-empty k = simp P.get_child?-empty

  read_int-IsInt64 : (o : Option String) (v : ℤ) → Option.bind o to_int ≡ some v → IsInt64 v
  unfolding Option.bind
  read_int-IsInt64 none v h = absurd (ground arith)
  read_int-IsInt64 (some s) v h = P.to_int-IsInt64 s v h

  -- What `get_optional<int64_t>` returns is in range.
  pub get_int?-IsInt64 : (k : Key) (t : Tree) (v : ℤ) → get_int? k t ≡ some v → IsInt64 v
  unfolding get_int?
  get_int?-IsInt64 k t v h = read_int-IsInt64 (get_string? k t) v h

  pub children-push_back : (c t : Tree) → children (push_back c t) ≡ children t ++ ("", c) ∷ []
  unfolding push_back
  children-push_back c t = P.children-set_children _ t

  pub size-push_back : (c t : Tree) → size (push_back c t) ≡ size t + 1
  unfolding size
  size-push_back c t = simp (children-push_back, length-append) (omega arith)

pub ruleset put_laws = (
  get_child?-put, get_string?-put, get_int?-put, get_bool?-put, get_string?-put_child,
  get_int?-put_child, get_bool?-put_child, get_string?-erase, get_int?-erase, get_string?-empty,
  get_int?-empty, get_bool?-empty,
)
