-- ===== src/Sets/Laws.antt =====
-- What `Has` answers after each operation.
use otelcol_config_lint.Base.{
  ap, Equality, List, [], arith, nat_eq, not, refl, string_eq, ◌&&◌, ◌++◌, ◌==◌, ◌||◌, ◌∷◌, ◌≡◌,
}
use otelcol_config_lint.Sets.{
  both_in, delete, delete_one, difference, has, insert, insert_one, intersection, union,
}

module _ {ℓ} {A : Type ℓ} ⦃e : Equality A⦄ where
  pub has-append : (s t : List A) (x : A) → has (s ++ t) x ≡ (has s x || has t x)
  has-append [] t x = refl
  has-append (y ∷ s) t x = ground (arith, has-append s t x)

  pub has-insert_one : (s : List A) (x y : A) → has (insert_one s x) y ≡ (has s y || x == y)
  unfolding insert_one
  has-insert_one s x y = ground (arith, has-append s (x ∷ []) y, e.equals_iff x y)

  pub has-insert : (s items : List A) (x : A) → has (insert s items) x ≡ (has s x || has items x)
  unfolding insert
  has-insert s [] x = ground arith
  has-insert s (y ∷ items) x =
      ground (arith, has-insert (insert_one s y) items x, has-insert_one s y x)

  pub has-delete_one : (s : List A) (x y : A) → has (delete_one s x) y ≡ (has s y && not (x == y))
  unfolding delete_one
  has-delete_one [] x y = refl
  has-delete_one (z ∷ s) x y =
      ground (arith, has-delete_one s x y, e.equals_iff z x, e.equals_iff x y, e.equals_iff z y)

  pub has-delete :
      (s items : List A) (x : A) → has (delete s items) x ≡ (has s x && not (has items x))
  unfolding delete
  has-delete s [] x = ground arith
  has-delete s (y ∷ items) x =
      ground (arith, has-delete (delete_one s y) items x, has-delete_one s y x)

  pub has-union : (s t : List A) (x : A) → has (union s t) x ≡ (has s x || has t x)
  unfolding union
  has-union s t x = ground (arith, has-insert (insert [] s) t x, has-insert [] s x)

  pub has-both_in : (s t : List A) (x : A) → has (both_in s t) x ≡ (has s x && has t x)
  unfolding both_in
  has-both_in [] t x = refl
  has-both_in (y ∷ s) t x =
      ground (arith, has-both_in s t x, e.equals_iff y x, λ (p : y ≡ x). ap (has t) p)

  pub has-intersection : (s t : List A) (x : A) → has (intersection s t) x ≡ (has s x && has t x)
  unfolding intersection
  has-intersection s t x = ground (arith, has-both_in s t x, has-both_in t s x)

  pub has-difference : (s t : List A) (x : A) → has (difference s t) x ≡ (has s x && not (has t x))
  unfolding difference
  has-difference [] t x = refl
  has-difference (y ∷ s) t x =
      ground (arith, has-difference s t x, e.equals_iff y x, λ (p : y ≡ x). ap (has t) p)

  -- What is in the result of an operation is said by what is in its arguments: Union holds the elements
  -- of either set, Intersection those of both, Difference those of the first that the second lacks, and
  -- Delete those that are not among the items.
  pub has_operations :
      (s t : List A) (x : A)
      → (has (union s t) x ≡ (has s x || has t x))
        × (has (intersection s t) x ≡ (has s x && has t x))
        × (has (difference s t) x ≡ (has s x && not (has t x)))
        × (has (delete s t) x ≡ (has s x && not (has t x)))
  has_operations s t x =
      (has-union s t x, has-intersection s t x, has-difference s t x, has-delete s t x)
