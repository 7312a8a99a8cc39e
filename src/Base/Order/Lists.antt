-- ===== src/Base/Order/Lists.antt =====
-- Orders on sums and lists, and the preorder that an order on keys gives.
use Prim.Native.Nat.{Ordering}
use Prim.Native.String.{then}
use mathlib.Core.Bool.{Bool, true, false, not}
use mathlib.Core.List.{List, [], ◌∷◌}
use mathlib.Core.Option.{Option, none, some}
use mathlib.Core.Path.{◌≡◌, refl, ap, ap₂, ◌∙◌}
use native.Mathlib.Omega.{arith}
use otelcol_config_lint.Base.Order.{
  IsOrder, is_lt, not_lt_trans, opposite, then-eq, then-opposite, then_trans,
}

module _ {ℓ} {A : Type ℓ} (cmp : A → A → Ordering) where
  -- Element by element; a list that ends first is less.
  abbrev pub compare_lists : List A → List A → Ordering
  compare_lists [] [] = Ordering.eq
  compare_lists [] (_ ∷ _) = Ordering.lt
  compare_lists (_ ∷ _) [] = Ordering.gt
  compare_lists (x ∷ xs) (y ∷ ys) = then (cmp x y) (compare_lists xs ys)

  -- No value is greater than every value.
  abbrev pub compare_or_last : Option A → Option A → Ordering
  compare_or_last none none = Ordering.eq
  compare_or_last none (some _) = Ordering.gt
  compare_or_last (some _) none = Ordering.lt
  compare_or_last (some x) (some y) = cmp x y

module _ {ℓ} {A : Type ℓ} {cmp : A → A → Ordering} (o : IsOrder cmp) where
  lists-flip : (xs ys : List A) → compare_lists cmp ys xs ≡ opposite (compare_lists cmp xs ys)
  lists-flip [] [] = refl
  lists-flip [] (y ∷ ys) = refl
  lists-flip (x ∷ xs) [] = refl
  lists-flip (x ∷ xs) (y ∷ ys) = ap₂ then (o.flip x y) (lists-flip xs ys) ∙ then-opposite _ _

  lists-same : (xs ys : List A) → compare_lists cmp xs ys ≡ Ordering.eq → xs ≡ ys
  lists-same [] [] e = refl
  lists-same [] (y ∷ ys) e = cc
  lists-same (x ∷ xs) [] e = cc
  lists-same (x ∷ xs) (y ∷ ys) e =
      let (l, r) = then-eq (cmp x y) (compare_lists cmp xs ys) e in
      ap₂ ◌∷◌ (o.same x y l) (lists-same xs ys r)

  lists_trans :
      (xs ys zs : List A)
      → compare_lists cmp xs ys ≡ Ordering.lt
      → compare_lists cmp ys zs ≡ Ordering.lt
      → compare_lists cmp xs zs ≡ Ordering.lt
  lists_trans [] [] zs h k = cc
  lists_trans [] (y ∷ ys) [] h k = cc
  lists_trans [] (y ∷ ys) (z ∷ zs) h k = refl
  lists_trans (x ∷ xs) [] zs h k = cc
  lists_trans (x ∷ xs) (y ∷ ys) [] h k = cc
  lists_trans (x ∷ xs) (y ∷ ys) (z ∷ zs) h k = then_trans o x y z _ _ _ (lists_trans xs ys zs) h k

  pub compare_lists-IsOrder : IsOrder (compare_lists cmp)
  compare_lists-IsOrder = record { flip = lists-flip; same = lists-same; trans = lists_trans }

  or_last-flip : (x y : Option A) → compare_or_last cmp y x ≡ opposite (compare_or_last cmp x y)
  or_last-flip none none = refl
  or_last-flip none (some y) = refl
  or_last-flip (some x) none = refl
  or_last-flip (some x) (some y) = o.flip x y

  or_last-same : (x y : Option A) → compare_or_last cmp x y ≡ Ordering.eq → x ≡ y
  or_last-same none none e = refl
  or_last-same none (some y) e = cc
  or_last-same (some x) none e = cc
  or_last-same (some x) (some y) e = ap some (o.same x y e)

  or_last_trans :
      (x y z : Option A)
      → compare_or_last cmp x y ≡ Ordering.lt
      → compare_or_last cmp y z ≡ Ordering.lt
      → compare_or_last cmp x z ≡ Ordering.lt
  or_last_trans none none z h k = cc
  or_last_trans none (some y) z h k = cc
  or_last_trans (some x) none none h k = cc
  or_last_trans (some x) none (some z) h k = cc
  or_last_trans (some x) (some y) none h k = refl
  or_last_trans (some x) (some y) (some z) h k = o.trans x y z h k

  pub compare_or_last-IsOrder : IsOrder (compare_or_last cmp)
  compare_or_last-IsOrder = record {
    flip = or_last-flip;
    same = or_last-same;
    trans = or_last_trans;
  }

-- `<= 0`
abbrev pub at_most : Ordering → Bool
at_most Ordering.gt = false
at_most _ = true

at_most_flip : (o : Ordering) → is_lt (opposite o) ≡ not (at_most o)
at_most_flip Ordering.lt = refl
at_most_flip Ordering.eq = refl
at_most_flip Ordering.gt = refl

module _ {ℓ} {A : Type ℓ} {cmp : A → A → Ordering} (o : IsOrder cmp) where
  not_lt-at_most : (a b : A) → is_lt (cmp b a) ≡ not (at_most (cmp a b))
  not_lt-at_most a b = ap is_lt (o.flip a b) ∙ at_most_flip (cmp a b)

  pub at_most_trans :
      (a b c : A) → at_most (cmp a b) ≡ true → at_most (cmp b c) ≡ true → at_most (cmp a c) ≡ true
  at_most_trans a b c h k =
      let below =
        not_lt_trans o a b c (not_lt-at_most a b ∙ ap not h) (not_lt-at_most b c ∙ ap not k) in
      ground (arith, below, not_lt-at_most a c)
