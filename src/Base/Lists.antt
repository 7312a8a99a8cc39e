-- ===== src/Base/Lists.antt =====
-- Lists measured by native numbers, tests on lists, and membership as a predicate by recursion.
use Prim.Native.Nat.{ℕ, zero, suc, ◌+◌}
use mathlib.Core.Path.{◌≡◌, refl, subst}
use mathlib.Core.Logic.{◌⊎◌, ◌↔◌, inl, inr}
use mathlib.Core.Bool.{Bool, true, false, ◌||◌}
use mathlib.Core.Option.{Option, none, some}
use mathlib.Core.List.{List, [], ◌∷◌, ◌++◌}
use native.Mathlib.Omega.{arith}

module _ {ℓ} {A : Type ℓ} where
  abbrev pub length : List A → ℕ
  length [] = 0
  length (x ∷ xs) = suc (length xs)

  abbrev pub get_elem? : List A → ℕ → Option A
  get_elem? [] i = none
  get_elem? (x ∷ xs) zero = some x
  get_elem? (x ∷ xs) (suc i) = get_elem? xs i

  -- A write out of bounds changes nothing.
  abbrev pub set : List A → ℕ → A → List A
  set [] i v = []
  set (x ∷ xs) zero v = v ∷ xs
  set (x ∷ xs) (suc i) v = x ∷ set xs i v

  abbrev pub replicate : ℕ → A → List A
  replicate zero a = []
  replicate (suc n) a = a ∷ replicate n a

  abbrev pub take : ℕ → List A → List A
  take zero xs = []
  take (suc n) [] = []
  take (suc n) (x ∷ xs) = x ∷ take n xs

  pub length-append : (xs ys : List A) → length (xs ++ ys) ≡ length xs + length ys
  length-append [] ys = omega arith
  length-append (x ∷ xs) ys = omega (arith, length-append xs ys)

  pub List-cases : (xs : List A) → (xs ≡ []) ⊎ ((x : A) × (rest : List A) × (xs ≡ x ∷ rest))
  List-cases [] = inl refl
  List-cases (x ∷ xs) = inr (x, xs, refl)

  -- `len(xs) == 0`
  abbrev pub is_empty : List A → Bool
  is_empty [] = true
  is_empty (x ∷ xs) = false

  -- `slices.ContainsFunc`
  abbrev pub contains_func : List A → (A → Bool) → Bool
  contains_func [] p = false
  contains_func (x ∷ xs) p = p x || contains_func xs p

  abbrev pub All {κ} : (A → Type κ) → List A → Type κ
  All P [] = Unit
  All P (x ∷ xs) = P x × All P xs

  pub All-append {κ} : (P : A → Type κ) (xs ys : List A) → All P xs → All P ys → All P (xs ++ ys)
  All-append P [] ys left right = right
  All-append P (x ∷ xs) ys left right = (left.0, All-append P xs ys left.1 right)

-- Membership, with the place it is found at.
module _ {A : Type 0} where
  abbrev pub In : A → List A → Type 0
  In a [] = ⊥
  In a (x ∷ xs) = (a ≡ x) ⊎ In a xs

  pub In-append_left : (a : A) (xs ys : List A) → In a xs → In a (xs ++ ys)
  In-append_left a [] ys m = elim m [ ]
  In-append_left a (x ∷ xs) ys (inl e) = inl e
  In-append_left a (x ∷ xs) ys (inr m) = inr (In-append_left a xs ys m)

  pub In-append_right : (a : A) (xs ys : List A) → In a ys → In a (xs ++ ys)
  In-append_right a [] ys m = m
  In-append_right a (x ∷ xs) ys m = inr (In-append_right a xs ys m)

  pub In-append_cases : (a : A) (xs ys : List A) → In a (xs ++ ys) → In a xs ⊎ In a ys
  In-append_cases a [] ys m = inr m
  In-append_cases a (x ∷ xs) ys (inl e) = inl (inl e)
  In-append_cases a (x ∷ xs) ys (inr m) = elim (In-append_cases a xs ys m) [
    | inl l ↦ inl (inr l)
    | inr r ↦ inr r
  ]

-- What a loop appends to its result: the lists that its rounds append, in order.
module _ {A B : Type 0} where
  abbrev pub for_each : List A → (A → List B) → List B
  for_each [] f = []
  for_each (x ∷ xs) f = f x ++ for_each xs f

  pub In-for_each :
      (b : B) (xs : List A) (f : A → List B)
      → In b (for_each xs f) ↔ ((a : A) × In a xs × In b (f a))
  In-for_each b [] f = ((λ m. absurd m), (λ m. absurd m.1))
  In-for_each b (x ∷ xs) f = (
    (λ m. elim (In-append_cases b (f x) (for_each xs f) m) [
      | inl here ↦ (x, inl refl, here)
      | inr there ↦ (let (a, i, j) = (In-for_each b xs f).0 there in (a, inr i, j))
    ]),
    (λ m.
        let (a, i, j) = m in
        elim i [
          | inl e ↦ In-append_left b (f x) (for_each xs f) (subst (λ t. In b (f t)) e j)
          | inr k ↦ In-append_right b (f x) (for_each xs f) ((In-for_each b xs f).1 (a, k, j))
        ]),
  )

-- A statement that appends one value when its guard holds.
module _ {A : Type 0} where
  abbrev pub append_if : Bool → A → List A
  append_if true x = x ∷ []
  append_if false x = []

  pub In-append_if : (y : A) (b : Bool) (x : A) → In y (append_if b x) ↔ ((b ≡ true) × (y ≡ x))
  In-append_if y true x = ((λ m. elim m [ inl e ↦ (refl, e) | inr n ↦ absurd n ]), (λ m. inl m.1))
  In-append_if y false x = ((λ m. absurd m), (λ m. absurd (cc (m.0))))

-- A loop with one guarded report.
module _ {A B : Type 0} where
  pub In-for_each_if :
      (b : B) (xs : List A) (guard : A → Bool) (g : A → B)
      → In b (for_each xs (λ x. append_if (guard x) (g x)))
        ↔ ((a : A) × In a xs × (guard a ≡ true) × (b ≡ g a))
  In-for_each_if b xs guard g =
      let loop = In-for_each b xs (λ x. append_if (guard x) (g x)) in
      (
        (λ m.
            let (a, i, j) = loop.0 m in
            let there = (In-append_if b (guard a) (g a)).0 j in (a, i, there.0, there.1)),
        (λ m. let (a, i, h, e) = m in loop.1 (a, i, (In-append_if b (guard a) (g a)).1 (h, e))),
      )

-- When an append or a loop gives nothing.
pub append-nil {ℓ} : {A : Type ℓ} (xs ys : List A) → (xs ++ ys ≡ []) ↔ ((xs ≡ []) × (ys ≡ []))
append-nil [] ys = ground arith
append-nil (x ∷ xs) ys = ground arith

pub for_each-nil :
    {A : Type 0} {B : Type 0} (xs : List A) (f : A → List B)
    → (for_each xs f ≡ []) ↔ All (λ x. f x ≡ []) xs
for_each-nil [] f = ((λ _. tt), (λ _. refl))
for_each-nil (x ∷ xs) f =
    let outer = append-nil (f x) (for_each xs f) in
    let rest = for_each-nil xs f in
    ((λ h. ((outer.0 h).0, rest.0 (outer.0 h).1)), (λ q. outer.1 (q.0, rest.1 q.1)))

pub All-iff :
    {A : Type 0} (P Q : A → Type 0) (xs : List A) → ((x : A) → P x ↔ Q x) → All P xs ↔ All Q xs
All-iff P Q [] h = ((λ _. tt), (λ _. tt))
All-iff P Q (x ∷ xs) h =
    let rest = All-iff P Q xs h in
    ((λ a. ((h x).0 a.0, rest.0 a.1)), (λ a. ((h x).1 a.0, rest.1 a.1)))

pub All-map :
    {A : Type 0} (P Q : A → Type 0) (xs : List A) → ((x : A) → P x → Q x) → All P xs → All Q xs
All-map P Q [] h a = tt
All-map P Q (x ∷ xs) h a = (h x a.0, All-map P Q xs h a.1)

pub All-In : {A : Type 0} (P : A → Type 0) (xs : List A) → ((x : A) → In x xs → P x) → All P xs
All-In P [] h = tt
All-In P (x ∷ xs) h = (h x (inl refl), All-In P xs (λ y i. h y (inr i)))
