-- ===== src/Ptree/Helper.antt =====
-- `ptree_helper` of src/helper/ptree_helper.cpp and include/manager/metadata/helper/ptree_helper.h.
use mathlib.Core.List.{append-nil, append_assoc}
use mathlib.Core.Option
use metadata_manager.Prelude.{
  ℤ, IsInt64, String, to_string, ◌≡◌, refl, sym, Bool, true, false, none, some, List, [], ◌∷◌, ◌++◌,
  map, All, arith, str_eq, if◌then◌else◌,
}
use metadata_manager.Key.{Key}
use metadata_manager.Platform.{Platform}
use metadata_manager.Outcome.{Outcome, ok, thrown, ◌>>=◌}
use metadata_manager.Ptree.{value_or, get_string?, get_int?, push_back, children-push_back}

-- `std::map<std::string_view, std::string_view>`, in the order of the map
abbrev pub Keys : Type 0
Keys = List (Key × String)

module _ ⦃P : Platform⦄ where
  open P use {Tree, empty, value, set_value, children, get_child?, to_int}

  make_array_loop : List ℤ → Tree → Tree
  make_array_loop [] child = child
  make_array_loop (v ∷ vc) child =
      make_array_loop vc (push_back (set_value (to_string v) empty) child)

  unfoldable pub make_array_ptree : List ℤ → Tree
  unfolding make_array_loop
  make_array_ptree vc = make_array_loop vc empty

  -- `get<int64_t>("")` throws where the text is no number.
  own_int : Tree → Outcome ℤ
  own_int t = elim (to_int (value t)) [ some v ↦ ok v | none ↦ thrown ]

  transform_int : List (String × Tree) → Outcome (List ℤ)
  unfolding own_int
  transform_int [] = ok []
  transform_int ((_, t) ∷ l) = do v ← own_int t; vs ← transform_int l; ok (v ∷ vs)

  unfoldable pub make_vector_int : Key → Tree → Outcome (List ℤ)
  unfolding transform_int
  make_vector_int key pt = elim (get_child? key pt) [
    | none ↦ ok []
    | some child ↦ transform_int (children child)
  ]

  unfoldable pub array_to_vector : Tree → List Tree
  array_to_vector pt = map (λ (vt : String × Tree). vt.1) (children pt)

  all_unnamed : List (String × Tree) → Bool
  all_unnamed [] = true
  all_unnamed ((first, _) ∷ l) = if str_eq first "" then all_unnamed l else false

  unfoldable pub is_array : Tree → Bool
  unfolding all_unnamed
  is_array pt = all_unnamed (children pt)

  -- `ptree_value_to_string<std::string>` and `ptree_value_to_string<ObjectId>`
  unfoldable pub value_to_string : Key → Tree → String
  value_to_string key pt = value_or "" (get_string? key pt)

  unfoldable pub int_value_to_string : Key → Tree → String
  int_value_to_string key pt = value_or "" (Option.map to_string (get_int? key pt))

  unfoldable pub is_match : Tree → Keys → Bool
  unfolding value_to_string
  is_match pt [] = true
  is_match pt ((first, second) ∷ keys) =
      if str_eq (value_to_string first pt) second then is_match pt keys else false

  children-make_array_loop :
      (vc : List ℤ) (child : Tree)
      → children (make_array_loop vc child)
        ≡ children child ++ map (λ v. ("", set_value (to_string v) empty)) vc
  unfolding make_array_loop
  children-make_array_loop [] child = sym (append-nil _)
  children-make_array_loop (v ∷ vc) child =
      simp (children-make_array_loop vc, children-push_back, append_assoc)

  children-make_array_ptree :
      (vc : List ℤ)
      → children (make_array_ptree vc) ≡ map (λ v. ("", set_value (to_string v) empty)) vc
  unfolding make_array_ptree
  children-make_array_ptree vc = simp (children-make_array_loop, P.children-empty)

  own_int-set_value : (v : ℤ) → IsInt64 v → own_int (set_value (to_string v) empty) ≡ ok v
  unfolding own_int
  own_int-set_value v h =
      ground (arith, P.value-set_value (to_string v) empty, P.to_int-to_string v h)

  transform_int-map :
      (vc : List ℤ)
      → All IsInt64 vc
      → transform_int (map (λ v. ("", set_value (to_string v) empty)) vc) ≡ ok vc
  unfolding transform_int
  transform_int-map [] h = refl
  transform_int-map (v ∷ vc) h = rw (own_int-set_value v h.0) (rw (transform_int-map vc h.1))

  -- A vector that stands under a key as an array is read back.
  pub make_vector_int-make_array_ptree :
      (key : Key) (pt : Tree) (vc : List ℤ)
      → All IsInt64 vc
      → get_child? key pt ≡ some (make_array_ptree vc)
      → make_vector_int key pt ≡ ok vc
  unfolding make_vector_int
  make_vector_int-make_array_ptree key pt vc h e =
      rw (e, make_vector_int) (rw children-make_array_ptree (transform_int-map vc h))
