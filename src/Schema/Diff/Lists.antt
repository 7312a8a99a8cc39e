-- ===== src/Schema/Diff/Lists.antt =====
-- When the lists of a diff are empty, and which signals it looks at.
use mathlib.Core.Path.{subst}
use otelcol_config_lint.Base.{
  ◌⊎◌, All, Bool, Bool-cases, In, List, Option, String, [], append_if, arith, false, inl, inr,
  is_empty, map, none, not, refl, some, string_eq, sym, true, ◌&&◌, ◌++◌, ◌==◌, ◌||◌, ◌∷◌, ◌≡◌, ◌↔◌,
  ◌∙◌, ap, beq→eq,
}
use otelcol_config_lint.Diag.{text_lt}
use otelcol_config_lint.Schema.{Inventory}
use otelcol_config_lint.Schema.Diff.{
  crosses_beta, insert_by, level_of, sort_by, stability_signals, with_old,
}
use otelcol_config_lint.Sets.{has, new}
use otelcol_config_lint.Sets.Laws.{has-append, has-insert}

pub append_if-nil : {A : Type 0} (b : Bool) (x : A) → (append_if b x ≡ []) ↔ (b ≡ false)
append_if-nil true x = ((λ h. absurd (cc (h))), (λ h. absurd (cc (h))))
append_if-nil false x = ((λ _. refl), (λ _. refl))

pub is_empty-nil : {A : Type 0} (xs : List A) → (is_empty xs ≡ true) ↔ (xs ≡ [])
is_empty-nil [] = ((λ _. refl), (λ _. refl))
is_empty-nil (x ∷ xs) = ((λ h. absurd (cc (h))), (λ h. absurd (cc (h))))

module _ {A : Type 0} (lt : A → A → Bool) where
  insert_by-In : (a b : A) (bs : List A) → (a ≡ b) ⊎ In a bs → In a (insert_by lt b bs)
  insert_by-In a b [] i = i
  insert_by-In a b (c ∷ cs) i = elim (Bool-cases (lt c b)) [
    | inl e ↦ rw e (elim i [
      | inl p ↦ inr (insert_by-In a b cs (inl p))
      | inr q ↦ elim q [ inl p ↦ inl p | inr r ↦ inr (insert_by-In a b cs (inr r)) ]
    ])
    | inr e ↦ rw e i
  ]

  sort_by-In : (a : A) (xs : List A) → In a xs → In a (sort_by lt xs)
  unfolding sort_by
  sort_by-In a (x ∷ xs) (inl p) = insert_by-In a x (sort_by lt xs) (inl p)
  sort_by-In a (x ∷ xs) (inr i) = insert_by-In a x (sort_by lt xs) (inr (sort_by-In a xs i))
  sort_by-In a [] i = absurd i

  insert_by-cons : (b : A) (bs : List A) → is_empty (insert_by lt b bs) ≡ false
  insert_by-cons b [] = refl
  insert_by-cons b (c ∷ cs) = elim (Bool-cases (lt c b)) [ inl e ↦ rw e refl | inr e ↦ rw e refl ]

  pub sort_by-nil : (xs : List A) → (sort_by lt xs ≡ []) ↔ (xs ≡ [])
  unfolding sort_by
  sort_by-nil [] = ((λ _. refl), (λ _. refl))
  sort_by-nil (x ∷ xs) =
      ((λ h. absurd (cc (insert_by-cons x (sort_by lt xs), h))), (λ h. absurd (cc (h))))

pub with_old-nil :
    {B : Type 0} (o : Option Inventory) (f : Inventory → List B)
    → (with_old o f ≡ []) ↔ ((was : Inventory) → o ≡ some was → f was ≡ [])
with_old-nil none f = ((λ _ was h. absurd (cc (h))), (λ _. refl))
with_old-nil (some c) f =
    ((λ h was e. let same : c ≡ was = cc (e) in subst (λ t. f t ≡ []) same h), (λ h. h c refl))

pub not_both : (a b : Bool) → ((not a && b) ≡ false) × ((a && not b) ≡ false) ↔ (a ≡ b)
not_both a b = ground arith

pub All_at : {A : Type 0} (P : A → Type 0) (xs : List A) (x : A) → All P xs → In x xs → P x
All_at P (y ∷ ys) x a (inl e) = subst P (sym e) a.0
All_at P (y ∷ ys) x a (inr i) = All_at P ys x a.1 i
All_at P [] x a i = absurd i

pub All-times :
    {A : Type 0} (P Q : A → Type 0) (xs : List A) → All P xs → All Q xs → All (λ x. P x × Q x) xs
All-times P Q [] p q = tt
All-times P Q (x ∷ xs) p q = ((p.0, q.0), All-times P Q xs p.1 q.1)

has-In : (xs : List String) (x : String) → has xs x ≡ true → In x xs
has-In [] x h = absurd (cc (h))
has-In (y ∷ ys) x h = elim (Bool-cases (y == x)) [
  | inl e ↦ inl (sym (beq→eq y x e))
  | inr e ↦ inr (has-In ys x (ground (arith, e, h)))
]

abbrev keys_of : List (String × String) → List String
keys_of es = map (λ (e : String × String). e.0) es

level_of-has :
    (es : List (String × String)) (signal : String)
    → (level_of es signal == "") ≡ false
    → has (keys_of es) signal ≡ true
level_of-has [] signal h = absurd (cc (h))
level_of-has (e ∷ es) signal h = elim (Bool-cases (e.0 == signal)) [
  | inl p ↦ rw p refl
  | inr p ↦ rw p (level_of-has es signal (rw p at h))
]

keys_of-append : (xs ys : List (String × String)) → keys_of (xs ++ ys) ≡ keys_of xs ++ keys_of ys
keys_of-append [] ys = refl
keys_of-append (x ∷ xs) ys = ap (λ l. x.0 ∷ l) (keys_of-append xs ys)

-- A signal that crossed the beta line is one that the report looks at.
pub crossing_is_listed :
    (was c : Inventory) (signal : String)
    → crosses_beta was c signal ≡ true
    → In signal (stability_signals was c)
unfolding crosses_beta stability_signals new
crossing_is_listed was c signal h =
    let recorded : (level_of was.stability signal == "") ≡ false = ground (arith, h) in
    let first = level_of-has was.stability signal recorded in
    let listed : has (new (keys_of (was.stability ++ c.stability))) signal ≡ true =
      has-insert [] (keys_of (was.stability ++ c.stability)) signal
      ∙ ap (λ l. has l signal) (keys_of-append was.stability c.stability)
      ∙ has-append (keys_of was.stability) (keys_of c.stability) signal
      ∙ ap (λ b. b || has (keys_of c.stability) signal) first in
    sort_by-In text_lt signal (new (keys_of (was.stability ++ c.stability)))
      (has-In (new (keys_of (was.stability ++ c.stability))) signal listed)
