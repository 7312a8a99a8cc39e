-- ===== src/Sets/Same.antt =====
-- The lists that are sets, and `Equal` on them.
use otelcol_config_lint.Base.{
  sym, ◌∙◌, ◌↔◌, ap, beq_self, Bool-cases, Equality, List, [], arith, false, inl, inr, length,
  nat_eq, refl, string_eq, true, ◌++◌, ◌<◌, ◌==◌, ◌∷◌, ◌≡◌, ◌≤◌,
}
use otelcol_config_lint.Sets.Laws.{has-append, has-both_in, has-delete_one, has-difference}
use otelcol_config_lint.Sets.{
  is_superset, equal, both_in, delete, delete_one, difference, has, insert, insert_one,
}

module _ {ℓ} {A : Type ℓ} ⦃e : Equality A⦄ where
  -- No element stands twice, as the keys of a map do not.
  abbrev pub IsDistinct : List A → Type 0
  IsDistinct [] = Unit
  IsDistinct (x ∷ s) = (has s x ≡ false) × IsDistinct s

  IsDistinct-concat :
      (s : List A) (x : A) → IsDistinct s → has s x ≡ false → IsDistinct (s ++ x ∷ [])
  IsDistinct-concat [] x d h = (refl, tt)
  IsDistinct-concat (y ∷ s) x d h = (
    ground (arith, has-append s (x ∷ []) y, e.equals_iff x y, e.equals_iff y x),
    IsDistinct-concat s x d.1 (ground arith),
  )

  insert_one-IsDistinct : (s : List A) (x : A) → IsDistinct s → IsDistinct (insert_one s x)
  unfolding insert_one
  insert_one-IsDistinct s x d = elim (Bool-cases (has s x)) [
    | inl h ↦ rw h d
    | inr h ↦ rw h (IsDistinct-concat s x d h)
  ]

  pub insert-IsDistinct : (s items : List A) → IsDistinct s → IsDistinct (insert s items)
  unfolding insert
  insert-IsDistinct s [] d = d
  insert-IsDistinct s (x ∷ items) d =
      insert-IsDistinct (insert_one s x) items (insert_one-IsDistinct s x d)

  delete_one-IsDistinct : (s : List A) (x : A) → IsDistinct s → IsDistinct (delete_one s x)
  unfolding delete_one
  delete_one-IsDistinct [] x d = tt
  delete_one-IsDistinct (y ∷ s) x d = elim (Bool-cases (y == x)) [
    | inl h ↦ rw h (delete_one-IsDistinct s x d.1)
    | inr h ↦ rw h (ground (arith, has-delete_one s x y), delete_one-IsDistinct s x d.1)
  ]

  pub delete-IsDistinct : (s items : List A) → IsDistinct s → IsDistinct (delete s items)
  unfolding delete
  delete-IsDistinct s [] d = d
  delete-IsDistinct s (x ∷ items) d =
      delete-IsDistinct (delete_one s x) items (delete_one-IsDistinct s x d)

  both_in-IsDistinct : (s t : List A) → IsDistinct s → IsDistinct (both_in s t)
  unfolding both_in
  both_in-IsDistinct [] t d = tt
  both_in-IsDistinct (x ∷ s) t d = elim (Bool-cases (has t x)) [
    | inl h ↦ rw h (ground (arith, has-both_in s t x), both_in-IsDistinct s t d.1)
    | inr h ↦ rw h (both_in-IsDistinct s t d.1)
  ]

  difference-IsDistinct : (s t : List A) → IsDistinct s → IsDistinct (difference s t)
  unfolding difference
  difference-IsDistinct [] t d = tt
  difference-IsDistinct (x ∷ s) t d = elim (Bool-cases (has t x)) [
    | inl h ↦ rw h (difference-IsDistinct s t d.1)
    | inr h ↦ rw h (ground (arith, has-difference s t x), difference-IsDistinct s t d.1)
  ]

  length-delete_one-le : (s : List A) (x : A) → length (delete_one s x) ≤ length s
  unfolding delete_one
  length-delete_one-le [] x = omega arith
  length-delete_one-le (y ∷ s) x = ground (arith, length-delete_one-le s x)

  length-delete_one : (s : List A) (x : A) → has s x ≡ true → length (delete_one s x) < length s
  unfolding delete_one
  length-delete_one [] x h = absurd (cc)
  length-delete_one (y ∷ s) x h = ground (arith, length-delete_one s x, length-delete_one-le s x)

  -- A set whose elements all lie in another one is no longer.
  length-le_of_subset :
      (t s : List A)
      → IsDistinct t
      → ((x : A) → has t x ≡ true → has s x ≡ true)
      → length t ≤ length s
  length-le_of_subset [] s d sub = omega arith
  length-le_of_subset (y ∷ t) s d sub =
      let inside : has s y ≡ true = sub y (ground (arith, beq_self y)) in
      let rest : length t ≤ length (delete_one s y) =
        length-le_of_subset t (delete_one s y) d.1 (λ x h. ground (
          arith,
          has-delete_one s y x,
          sub x,
          e.equals_iff y x,
          λ (p : y ≡ x). ap (has t) p,
          d.0,
        )) in
      omega (arith, length-delete_one s y inside)

  is_superset_sound :
      (s t : List A) → is_superset s t ≡ true → (x : A) → has t x ≡ true → has s x ≡ true
  unfolding is_superset
  is_superset_sound s [] h x k = absurd (cc)
  is_superset_sound s (y ∷ t) h x k = ground (
    arith,
    is_superset_sound s t,
    e.equals_iff y x,
    λ (p : y ≡ x). ap (has s) p,
    λ (p : is_superset s t ≡ true). is_superset_sound s t p x,
  )

  is_superset_complete :
      (s t : List A) → ((x : A) → has t x ≡ true → has s x ≡ true) → is_superset s t ≡ true
  unfolding is_superset
  is_superset_complete s [] sub = refl
  is_superset_complete s (y ∷ t) sub =
      let inside : has s y ≡ true = sub y (ground (arith, beq_self y)) in
      rw inside (is_superset_complete s t (λ x h. sub x (ground arith)))

  -- Two sets of one length, the second within the first, have the same elements.
  within_both :
      (s t : List A)
      → IsDistinct t
      → length s ≡ length t
      → ((x : A) → has t x ≡ true → has s x ≡ true)
      → (x : A) → has s x ≡ true
      → has t x ≡ true
  within_both s t d same sub x h = elim (Bool-cases (has t x)) [
    | inl k ↦ k
    | inr k ↦ absurd (
        omega (
          arith,
          length-le_of_subset (x ∷ t) s (k, d)
              (λ y m. ground (arith, sub y, e.equals_iff x y, λ (p : x ≡ y). ap (has s) p)),
        ))
  ]

  same_has_of_equal : (s t : List A) → IsDistinct t → equal s t ≡ true → (x : A) → has s x ≡ has t x
  unfolding equal
  same_has_of_equal s t d h x =
      let within = is_superset_sound s t (ground arith) in
      ground (arith, within x, within_both s t d (ground arith) within x)

  equal_of_same_has :
      (s t : List A)
      → IsDistinct s
      → IsDistinct t
      → ((x : A) → has s x ≡ has t x)
      → equal s t ≡ true
  unfolding equal
  equal_of_same_has s t ds dt same = ground (
    arith,
    is_superset_complete s t (λ x h. same x ∙ h),
    length-le_of_subset t s dt (λ x h. same x ∙ h),
    length-le_of_subset s t ds (λ x h. sym (same x) ∙ h),
  )

  -- On sets, `Equal` holds exactly when `Has` answers the same for every element.
  pub equal_iff :
      (s t : List A)
      → IsDistinct s
      → IsDistinct t
      → (equal s t ≡ true) ↔ ((x : A) → has s x ≡ has t x)
  equal_iff s t ds dt = (same_has_of_equal s t dt, equal_of_same_has s t ds dt)
