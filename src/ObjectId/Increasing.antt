-- ===== src/ObjectId/Increasing.antt =====
-- The identifiers that the generator gives out increase (src/dao/json/object_id_json.cpp).
use metadata_manager.Prelude.{
  ℤ, pos, negsuc, zero, suc, IsInt64, incr_ℤ, ltb_ℤ, int64_max, ◌<ℤ◌, ◌≢◌, ◌≡◌, refl, ap, ◌∙◌, some,
  Option-cases, Bool-cases, inl, inr, arith, eq_refl, if◌then◌else◌,
}
use metadata_manager.Key.{Key, spelling}
use metadata_manager.Platform.{Platform}
use metadata_manager.Outcome.{Outcome, ok}
use metadata_manager.Ptree.{get_int?, put_int, get_int?-put, get_int?-IsInt64}
use metadata_manager.ObjectId.{
  invalid_oid, open_data, stored, current, current_of, store, generate, generate_of, update,
  update_of,
}

incr-IsInt64 : (v : ℤ) → IsInt64 v → IsInt64 (incr_ℤ v)
incr-IsInt64 (pos n) h = ground arith
incr-IsInt64 (negsuc zero) h = omega arith
incr-IsInt64 (negsuc (suc n)) h = omega arith

-- Below the maximum `++` gives a greater value.
pub lt-incr : (v : ℤ) → v <ℤ pos int64_max → v <ℤ incr_ℤ v
lt-incr (pos n) h = ground arith
lt-incr (negsuc zero) h = omega arith
lt-incr (negsuc (suc n)) h = omega arith

module _ ⦃P : Platform⦄ where
  open P use {
    Tree, OidFile, write_ini, read_ini, oid_exists, read_ini-write_ini, oid_exists-write_ini,
    to_int-to_string, to_int-IsInt64, to_int,
  }

  stored-IsInt64 : (k : Key) (t : Tree) → IsInt64 (stored k t)
  unfolding stored
  stored-IsInt64 k t = elim (Option-cases (get_int? k t)) [
    | inl e ↦ rw e (omega arith)
    | inr (v, e) ↦ rw e (get_int?-IsInt64 k t v e)
  ]

  stored-put_int : (k : Key) (v : ℤ) (t : Tree) → IsInt64 v → stored k (put_int k v t) ≡ v
  unfolding stored
  stored-put_int k v t h = rw get_int?-put (rw (eq_refl (spelling k)) (rw (to_int-to_string v h)))

  -- What was written is what the next call of a member function reads.
  open_data-write :
      (t : Tree) (f f' : OidFile) → write_ini t f ≡ some f' → open_data f' ≡ (ok t, f')
  unfolding open_data
  open_data-write t f f' e =
      ground (arith, read_ini-write_ini t f f' e, oid_exists-write_ini t f f' e)

  -- A value that the tail of `generate` or `update` returns is the one given, and stands in the file.
  store_lem :
      (k : Key) (v : ℤ) (t : Tree) (f f' : OidFile) (g : ℤ)
      → IsInt64 v
      → store k v t f ≡ (g, f')
      → g ≢ invalid_oid
      → (g ≡ v) × (open_data f' ≡ (ok (put_int k v t), f'))
  unfolding store
  store_lem k v t f f' g range h valid = elim (Option-cases (write_ini (put_int k v t) f)) [
    | inl e ↦ absurd (valid (ground arith))
    | inr (f₂, e) ↦
        (ground arith, ground (arith, open_data-write (put_int k v t) f f' (ground arith)))
  ]

  current_lem :
      (k : Key) (t : Tree) (f : OidFile) → open_data f ≡ (ok t, f) → current k f ≡ (stored k t, f)
  unfolding current
  current_lem k t f e = ground arith

  after_store :
      (k : Key) (v : ℤ) (t : Tree) (f f' : OidFile) (g : ℤ)
      → IsInt64 v
      → store k v t f ≡ (g, f')
      → g ≢ invalid_oid
      → (g ≡ v) × (current k f' ≡ (g, f'))
  after_store k v t f f' g range h valid =
      let (same, opened) = store_lem k v t f f' g range h valid in
      (same, current_lem k (put_int k v t) f' opened ∙ rw (stored-put_int k v t range) (rw same))

  generate_of_lem :
      (k : Key) (r : Outcome Tree) (f f' : OidFile) (g : ℤ)
      → generate_of k r f ≡ (g, f')
      → g ≢ invalid_oid
      → (g ≡ incr_ℤ (current_of k r)) × (current k f' ≡ (g, f'))
  unfolding generate_of current_of
  generate_of_lem k (ok t) f f' g h valid =
      after_store k (incr_ℤ (stored k t)) t f f' g (incr-IsInt64 _ (stored-IsInt64 k t)) h valid
  generate_of_lem k _ f f' g h valid = absurd (valid (ground arith))

  -- A successful `generate` returns the successor of the current identifier, which is then current.
  pub generate_lem :
      (k : Key) (f f' : OidFile) (g : ℤ)
      → generate k f ≡ (g, f')
      → g ≢ invalid_oid
      → (g ≡ incr_ℤ (current k f).0) × (current k f' ≡ (g, f'))
  unfolding generate current
  generate_lem k f f' g h valid = generate_of_lem k (open_data f).0 (open_data f).1 f' g h valid

  -- Of two identifiers that two successive and successful calls of `generate` give out, the later
  -- is greater, where the earlier is below the maximum.
  pub generate-generate :
      (k : Key) (f f' f'' : OidFile) (g g' : ℤ)
      → generate k f ≡ (g, f')
      → generate k f' ≡ (g', f'')
      → g ≢ invalid_oid
      → g' ≢ invalid_oid
      → g <ℤ pos int64_max
      → g <ℤ g'
  generate-generate k f f' f'' g g' h h' valid valid' room =
      let (_, now) = generate_lem k f f' g h valid in
      let (next, _) = generate_lem k f' f'' g' h' valid' in
      rw (next ∙ ap (λ (x : ℤ × OidFile). incr_ℤ x.0) now) (lt-incr g room)

  -- Reading again what was read changes nothing more.
  open_data_again :
      (f f' : OidFile) (t : Tree) → open_data f ≡ (ok t, f') → open_data f' ≡ (ok t, f')
  unfolding open_data
  open_data_again f f' t h = elim (Bool-cases (oid_exists f)) [
    | inl e ↦ ground arith
    | inr e ↦ elim (Option-cases (write_ini P.empty f)) [
      | inl n ↦ absurd (ground arith)
      | inr (f₂, w) ↦
          ground (arith, read_ini-write_ini P.empty f f₂ w, oid_exists-write_ini P.empty f f₂ w)
    ]
  ]

  update_of_lem :
      (k : Key) (v : ℤ) (r : Outcome Tree) (f f' : OidFile) (g : ℤ)
      → IsInt64 v
      → update_of k v r f ≡ (g, f')
      → g ≢ invalid_oid
      → ((t : Tree) → r ≡ ok t → open_data f ≡ (ok t, f))
      → (g ≡ (if ltb_ℤ (current_of k r) v then v else current_of k r)) × (current k f' ≡ (g, f'))
  unfolding update_of current_of
  update_of_lem k v (ok t) f f' g range h valid opened = elim (Bool-cases (ltb_ℤ (stored k t) v)) [
    | inl e ↦ rw e (after_store k v t f f' g range (rw e at h) valid)
    | inr e ↦ rw e (ground arith, ground (arith, current_lem k t f (opened t refl)))
  ]
  update_of_lem k v _ f f' g range h valid opened = absurd (valid (ground arith))

  -- A successful `update` with a 64-bit identifier returns the greater of the current identifier
  -- and the given one, and that is then current: the current identifier never falls.
  pub update_lem :
      (k : Key) (v : ℤ) (f f' : OidFile) (g : ℤ)
      → IsInt64 v
      → update k v f ≡ (g, f')
      → g ≢ invalid_oid
      → (g ≡ (if ltb_ℤ (current k f).0 v then v else (current k f).0)) × (current k f' ≡ (g, f'))
  unfolding update current
  update_lem k v f f' g range h valid =
      let (r, f₁) = open_data f in
      update_of_lem k v r f₁ f' g range h valid (λ t e. open_data_again f f₁ t (λ i. (e i, f₁)))
