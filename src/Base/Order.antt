-- ===== src/Base/Order.antt =====
-- Total orders given by a comparison, and the order by one comparison and then another.
pub mod Lists
use Prim.Native.Char.{code}
use Prim.Native.Nat.{Ordering, compare as compare_ℕ}
use Prim.Native.String.compare
use Prim.Native.String.{String, [], then, compare as compare_text}
use mathlib.Core.Bool.{Bool, true, false}
use mathlib.Core.Path.{◌≡◌, refl, sym, ap, ap₂, ◌∙◌}
use native.Mathlib.Omega.{arith}
use text.Mathlib.Text.{is_eq}
use text.Mathlib.TextEquality.{path_by_compare}

abbrev pub opposite : Ordering → Ordering
opposite Ordering.lt = Ordering.gt
opposite Ordering.eq = Ordering.eq
opposite Ordering.gt = Ordering.lt

pub record IsOrder {ℓ} {A : Type ℓ} (cmp : A → A → Ordering) : Type ℓ where
  pub flip : (a b : A) → cmp b a ≡ opposite (cmp a b)
  pub same : (a b : A) → cmp a b ≡ Ordering.eq → a ≡ b
  pub trans : (a b c : A) → cmp a b ≡ Ordering.lt → cmp b c ≡ Ordering.lt → cmp a c ≡ Ordering.lt

pub compare_ℕ-IsOrder : IsOrder compare_ℕ
compare_ℕ-IsOrder = record {
  flip = λ a b. ground arith;
  same = λ a b e. ground arith;
  trans = λ a b c h k. ground arith;
}

pub then-opposite : (a b : Ordering) → then (opposite a) (opposite b) ≡ opposite (then a b)
then-opposite Ordering.lt b = refl
then-opposite Ordering.eq b = refl
then-opposite Ordering.gt b = refl

pub then-eq : (x y : Ordering) → then x y ≡ Ordering.eq → (x ≡ Ordering.eq) × (y ≡ Ordering.eq)
then-eq Ordering.lt y e = cc
then-eq Ordering.eq y e = (refl, e)
then-eq Ordering.gt y e = cc

-- By one order and then another: the two steps that both products need.
module _ {ℓ} {A : Type ℓ} {cmp : A → A → Ordering} (o : IsOrder cmp) (a b c : A) where
  trans_cases :
      (p q r x y : Ordering)
      → (p ≡ Ordering.lt → q ≡ Ordering.lt → r ≡ Ordering.lt)
      → cmp a b ≡ x
      → cmp b c ≡ y
      → then x p ≡ Ordering.lt
      → then y q ≡ Ordering.lt
      → then (cmp a c) r ≡ Ordering.lt
  trans_cases p q r Ordering.lt Ordering.lt later e f h k = rw (o.trans a b c e f)
  trans_cases p q r Ordering.lt Ordering.eq later e f h k = rw (ap (cmp a) (sym (o.same b c f)) ∙ e)
  trans_cases p q r Ordering.lt Ordering.gt later e f h k = cc
  trans_cases p q r Ordering.eq Ordering.lt later e f h k =
      rw (ap (λ x. cmp x c) (o.same a b e) ∙ f)
  trans_cases p q r Ordering.eq Ordering.eq later e f h k =
      rw (ap (λ x. cmp x c) (o.same a b e) ∙ f) (later h k)
  trans_cases p q r Ordering.eq Ordering.gt later e f h k = cc
  trans_cases p q r Ordering.gt y later e f h k = cc

  pub then_trans :
      (p q r : Ordering)
      → (p ≡ Ordering.lt → q ≡ Ordering.lt → r ≡ Ordering.lt)
      → then (cmp a b) p ≡ Ordering.lt
      → then (cmp b c) q ≡ Ordering.lt
      → then (cmp a c) r ≡ Ordering.lt
  then_trans p q r later = trans_cases p q r (cmp a b) (cmp b c) later refl refl

abbrev pub is_lt : Ordering → Bool
is_lt Ordering.lt = true
is_lt _ = false

module _ {ℓ} {A : Type ℓ} {cmp : A → A → Ordering} (o : IsOrder cmp) (a b c : A) where
  not_lt_cases :
      (x y : Ordering)
      → cmp c a ≡ x
      → cmp b a ≡ y
      → is_lt y ≡ false
      → is_lt (cmp c b) ≡ false
      → is_lt x ≡ false
  not_lt_cases Ordering.lt Ordering.lt e f h k = h
  not_lt_cases Ordering.lt Ordering.eq e f h k =
      absurd (cc (k, ap is_lt e, ap is_lt (ap (cmp c) (o.same b a f))))
  not_lt_cases Ordering.lt Ordering.gt e f h k =
      absurd (cc (ap is_lt (o.trans c a b e (o.flip b a ∙ ap opposite f)), k))
  not_lt_cases Ordering.eq y e f h k = refl
  not_lt_cases Ordering.gt y e f h k = refl

  -- What is not less than `b`, itself not less than `a`, is not less than `a`.
  pub not_lt_trans : is_lt (cmp b a) ≡ false → is_lt (cmp c b) ≡ false → is_lt (cmp c a) ≡ false
  not_lt_trans = not_lt_cases (cmp c a) (cmp b a) refl refl

module _ {ℓ} {A : Type ℓ} {cmp : A → A → Ordering} (o : IsOrder cmp) (a : A) where
  self_cases : (x : Ordering) → x ≡ opposite x → is_lt x ≡ false
  self_cases Ordering.lt e = cc
  self_cases Ordering.eq e = refl
  self_cases Ordering.gt e = refl

  pub is_lt_self : is_lt (cmp a a) ≡ false
  is_lt_self = self_cases (cmp a a) (o.flip a a)

  asymm_cases : (x y : Ordering) → y ≡ opposite x → is_lt x ≡ true → is_lt y ≡ false
  asymm_cases Ordering.lt y e h = ap is_lt e
  asymm_cases Ordering.eq y e h = ap is_lt e
  asymm_cases Ordering.gt y e h = cc

  pub is_lt_asymm : (b : A) → is_lt (cmp a b) ≡ true → is_lt (cmp b a) ≡ false
  is_lt_asymm b = asymm_cases (cmp a b) (cmp b a) (o.flip a b)

compare_text-flip : (s t : String) → compare_text t s ≡ opposite (compare_text s t)
compare_text-flip [] [] = refl
compare_text-flip [] (String.◌∷◌ d t) = rw (compare.nil-cons, compare.cons-nil)
compare_text-flip (String.◌∷◌ c s) [] = rw (compare.nil-cons, compare.cons-nil)
compare_text-flip (String.◌∷◌ c s) (String.◌∷◌ d t) =
    compare.cons-cons d c t s
    ∙ ap₂ then (compare_ℕ-IsOrder.flip (code c) (code d)) (compare_text-flip s t)
    ∙ then-opposite _ _
    ∙ sym (ap opposite (compare.cons-cons c d s t))

compare_text_trans :
    (s t u : String)
    → compare_text s t ≡ Ordering.lt
    → compare_text t u ≡ Ordering.lt
    → compare_text s u ≡ Ordering.lt
compare_text_trans [] [] u h k = k
compare_text_trans [] (String.◌∷◌ d t) [] h k = cc (compare.cons-nil d t)
compare_text_trans [] (String.◌∷◌ d t) (String.◌∷◌ e u) h k = compare.nil-cons e u
compare_text_trans (String.◌∷◌ c s) [] u h k = cc (compare.cons-nil c s)
compare_text_trans (String.◌∷◌ c s) (String.◌∷◌ d t) [] h k = cc (compare.cons-nil d t)
compare_text_trans (String.◌∷◌ c s) (String.◌∷◌ d t) (String.◌∷◌ e u) h k =
    compare.cons-cons c e s u
    ∙ then_trans compare_ℕ-IsOrder (code c) (code d) (code e) _ _ _ (compare_text_trans s t u)
        (sym (compare.cons-cons c d s t) ∙ h) (sym (compare.cons-cons d e t u) ∙ k)

pub compare_text-IsOrder : IsOrder compare_text
compare_text-IsOrder = record {
  flip = compare_text-flip;
  same = path_by_compare;
  trans = compare_text_trans;
}

-- First by the left parts, and by the right ones where those are equal.
abbrev pub lexicographic {ℓ κ} :
    {A : Type ℓ} {B : Type κ} → (A → A → Ordering) → (B → B → Ordering) → A × B → A × B → Ordering
lexicographic f g x y = then (f x.0 y.0) (g x.1 y.1)

pub lexicographic-IsOrder {ℓ κ} :
    {A : Type ℓ} {B : Type κ} {f : A → A → Ordering} {g : B → B → Ordering}
    → IsOrder f
    → IsOrder g
    → IsOrder (lexicographic f g)
lexicographic-IsOrder {f} {g} o p = record {
  flip = λ x y. ap₂ then (o.flip x.0 y.0) (p.flip x.1 y.1) ∙ then-opposite _ _;
  same = λ x y e.
      let (l, r) = then-eq (f x.0 y.0) (g x.1 y.1) e in
      λ i. (o.same x.0 y.0 l i, p.same x.1 y.1 r i);
  trans = λ x y z. then_trans o x.0 y.0 z.0 _ _ _ (p.trans x.1 y.1 z.1);
}

pub is_eq→eq : (o : Ordering) → is_eq o ≡ true → o ≡ Ordering.eq
is_eq→eq Ordering.lt h = cc
is_eq→eq Ordering.eq h = refl
is_eq→eq Ordering.gt h = cc
