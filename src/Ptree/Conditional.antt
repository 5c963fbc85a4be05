-- ===== src/Ptree/Conditional.antt =====
-- What a key holds after a conditional `put` or `erase`, as the conversions of structures make them.
use metadata_manager.Prelude.{
  ℤ, Bool, arith, String, true, false, some, none, ◌≡◌, refl, if◌then◌else◌,
}
use metadata_manager.Key.{Key, ◌=?◌}
use metadata_manager.Platform.{Platform}
use metadata_manager.Ptree.{
  value_or, get_string?, get_int?, put, get_string?-put, get_int?-put, get_string?-erase,
  get_int?-erase, get_child?-put,
}

pub value_or-if :
    (b : Bool) (d v : ℤ) → value_or d (if b then some v else none) ≡ (if b then v else d)
value_or-if true d v = refl
value_or-if false d v = refl

module _ ⦃P : Platform⦄ where
  open P use {
    Tree, empty, set_value, erase, add_child, to_int, get_child?, get_child?-empty,
    get_child?-erase, to_int-to_string,
  }

  -- A conditional `erase` or `put` is seen at its own key only.
  pub get_child?-erase_if :
      (b : Bool) (k j : Key) (t : Tree)
      → get_child? j (if b then t else erase k t)
        ≡ (if k =? j then if b then get_child? j t else none else get_child? j t)
  get_child?-erase_if true k j t = ground arith
  get_child?-erase_if false k j t = get_child?-erase k j t

  pub get_string?-erase_if :
      (b : Bool) (k j : Key) (t : Tree)
      → get_string? j (if b then t else erase k t)
        ≡ (if k =? j then if b then get_string? j t else none else get_string? j t)
  get_string?-erase_if true k j t = ground arith
  get_string?-erase_if false k j t = get_string?-erase k j t

  pub get_int?-erase_if :
      (b : Bool) (k j : Key) (t : Tree)
      → get_int? j (if b then t else erase k t)
        ≡ (if k =? j then if b then get_int? j t else none else get_int? j t)
  get_int?-erase_if true k j t = ground arith
  get_int?-erase_if false k j t = get_int?-erase k j t

  pub get_child?-put_if :
      (b : Bool) (k j : Key) (v : String) (t : Tree)
      → get_child? j (if b then put k v t else t) ≡ (
          if k =? j
          then if b then some (set_value v (value_or empty (get_child? k t))) else get_child? j t
          else get_child? j t)
  get_child?-put_if true k j v t = get_child?-put k j v t
  get_child?-put_if false k j v t = ground arith

  pub get_string?-put_if :
      (b : Bool) (k j : Key) (v : String) (t : Tree)
      → get_string? j (if b then put k v t else t)
        ≡ (if k =? j then if b then some v else get_string? j t else get_string? j t)
  get_string?-put_if true k j v t = get_string?-put k j v t
  get_string?-put_if false k j v t = ground arith

  pub get_int?-put_if :
      (b : Bool) (k j : Key) (v : String) (t : Tree)
      → get_int? j (if b then put k v t else t)
        ≡ (if k =? j then if b then to_int v else get_int? j t else get_int? j t)
  get_int?-put_if true k j v t = get_int?-put k j v t
  get_int?-put_if false k j v t = ground arith
