-- ===== src/Schema/Spans/Exact.antt =====
-- Which releases the spans cover that the loop of `SpansOf` collects.
use otelcol_config_lint.Base.{
  sym, All, All-map, Bool, Bool-cases, List, Option, String, [], arith, false, inl, inr, none, not,
  refl, some, string_eq, true, ◌++◌, ◌==◌, ◌||◌, ◌∷◌, ◌≡◌, ◌∙◌, ap, nat_eq,
}
use mathlib.Core.Path.{subst}
use otelcol_config_lint.Schema.Spans.{Span, span_covers, covers, extended, ended, runs}
use otelcol_config_lint.Schema.Spans.Ascending.{
  before, upto, upto-not_before, before_upto, upto_trans, upto_self, IsAscending,
}

abbrev pub is_named : String → Bool
is_named v = not (v == "")

inside :
    (s : Span) (w : String) → upto s.from w ≡ true → upto w s.to ≡ true → span_covers s w ≡ true
unfolding span_covers
inside s w h k = ground (arith, upto-not_before w s.from, h, k)

past :
    (s : Span) (w : String) → is_named s.to ≡ true → before s.to w ≡ true → span_covers s w ≡ false
unfolding span_covers
past s w n h = ground (arith, upto-not_before s.to w, n, h)

ahead : (s : Span) (w : String) → before w s.from ≡ true → span_covers s w ≡ false
unfolding span_covers
ahead s w h = ground (arith, h)

or_both : (a b : Bool) → a ≡ false → b ≡ false → (a || b) ≡ false
or_both a b h k = ground arith

or_left : (a b : Bool) → a ≡ true → (a || b) ≡ true
or_left a b h = ground arith

or_right : (a b : Bool) → a ≡ false → (a || b) ≡ b
or_right a b h = ground arith

covers-append :
    (xs ys : List Span) (w : String) → covers (xs ++ ys) w ≡ (covers xs w || covers ys w)
unfolding covers
covers-append [] ys w = refl
covers-append (x ∷ xs) ys w =
    ap (λ b. span_covers x w || b) (covers-append xs ys w) ∙ or_assoc (span_covers x w) _ _
  where
    or_assoc : (a b c : Bool) → (a || (b || c)) ≡ ((a || b) || c)
    or_assoc true b c = refl
    or_assoc false b c = refl

-- What is known of the span that the loop carries, ahead of the releases that are left.
abbrev Fits : Option Span → List String → Type 0
Fits none vs = Unit
Fits (some s) vs =
    (is_named s.to ≡ true) × All (λ v. (upto s.from v ≡ true) × (before s.to v ≡ true)) vs

abbrev AheadOf : String → Option Span → Type 0
AheadOf w none = Unit
AheadOf w (some s) = before w s.from ≡ true

extended-Fits :
    (cur : Option Span) (v : String) (vs : List String)
    → Fits cur (v ∷ vs)
    → is_named v ≡ true
    → All (λ w. before v w ≡ true) vs
    → Fits (some (extended cur v)) vs
extended-Fits none v vs f n a = (n, All-map _ _ vs (λ w h. (before_upto v w h, h)) a)
extended-Fits (some s) v vs f n a = (n, All-both vs f.1.1 a)
  where
    All-both :
        (ws : List String)
        → All (λ w. (upto s.from w ≡ true) × (before s.to w ≡ true)) ws
        → All (λ w. before v w ≡ true) ws
        → All (λ w. (upto s.from w ≡ true) × (before v w ≡ true)) ws
    All-both [] p q = tt
    All-both (w ∷ ws) p q = ((p.0.0, q.0), All-both ws p.1 q.1)

extended-from :
    (cur : Option Span) (v : String) (vs : List String)
    → Fits cur (v ∷ vs)
    → upto (extended cur v).from v ≡ true
extended-from none v vs f = upto_self v
extended-from (some s) v vs f = f.1.0.0

ended_past :
    (cur : Option Span) (vs : List String)
    → Fits cur vs
    → All (λ w. covers (ended cur) w ≡ false) vs
unfolding covers
ended_past none vs f = All-map _ _ vs (λ w h. refl) (anything vs)
  where
    anything : (ws : List String) → All (λ _. Unit {0}) ws
    anything [] = tt
    anything (w ∷ ws) = (tt, anything ws)
ended_past (some s) vs f =
    All-map _ _ vs (λ w h. or_both (span_covers s w) false (past s w f.0 h.1) refl) f.1

module _ (present : String → Bool) where
  runs_ahead :
      (cur : Option Span) (vs : List String) (w : String)
      → AheadOf w cur
      → All (λ v. before w v ≡ true) vs
      → covers (runs present cur vs) w ≡ false
  unfolding runs covers
  runs_ahead none [] w c a = refl
  runs_ahead (some s) [] w c a = or_both (span_covers s w) false (ahead s w c) refl
  runs_ahead none (v ∷ vs) w c a = elim (Bool-cases (present v)) [
    | inl e ↦ rw e (runs_ahead (some (extended none v)) vs w a.0 a.1)
    | inr e ↦ rw e (runs_ahead none vs w tt a.1)
  ]
  runs_ahead (some s) (v ∷ vs) w c a = elim (Bool-cases (present v)) [
    | inl e ↦ rw e (runs_ahead (some (extended (some s) v)) vs w c a.1)
    | inr e ↦ rw e (or_both (span_covers s w) _ (ahead s w c) (runs_ahead none vs w tt a.1))
  ]

  runs_inside :
      (s : Span) (vs : List String) (w : String)
      → upto s.from w ≡ true
      → upto w s.to ≡ true
      → All (λ v. before s.to v ≡ true) vs
      → IsAscending vs
      → covers (runs present (some s) vs) w ≡ true
  unfolding runs covers
  runs_inside s [] w h k a o = or_left (span_covers s w) false (inside s w h k)
  runs_inside s (v ∷ vs) w h k a o = elim (Bool-cases (present v)) [
    | inl e ↦ rw e (
        runs_inside (extended (some s) v) vs w h (upto_trans w s.to v k (before_upto s.to v a.0))
          o.0 o.1)
    | inr e ↦ rw e (or_left (span_covers s w) _ (inside s w h k))
  ]

  run_goes_on :
      (cur : Option Span) (v : String) (vs : List String)
      → present v ≡ true
      → runs present cur (v ∷ vs) ≡ runs present (some (extended cur v)) vs
  unfolding runs
  run_goes_on cur v vs e = rw e refl

  run_ends :
      (cur : Option Span) (v : String) (vs : List String)
      → present v ≡ false
      → runs present cur (v ∷ vs) ≡ ended cur ++ runs present none vs
  unfolding runs
  run_ends cur v vs e = rw e refl

  -- The spans of an ascending list cover exactly its releases that are present.
  pub runs_exact :
      (cur : Option Span) (vs : List String)
      → Fits cur vs
      → All (λ v. is_named v ≡ true) vs
      → IsAscending vs
      → All (λ w. covers (runs present cur vs) w ≡ present w) vs
  runs_exact cur [] f n o = tt
  runs_exact cur (v ∷ vs) f n o = elim (Bool-cases (present v)) [
    | inl e ↦
        let next = extended cur v in
        subst (λ spans. All (λ w. covers spans w ≡ present w) (v ∷ vs))
          (sym (run_goes_on cur v vs e))
          (
            runs_inside next vs v (extended-from cur v vs f) (upto_self v) o.0 o.1 ∙ sym e,
            runs_exact (some next) vs (extended-Fits cur v vs f n.0 o.0) n.1 o.1,
          )
    | inr e ↦
        let behind = ended_past cur (v ∷ vs) f in
        let rest = runs_exact none vs tt n.1 o.1 in
        subst (λ spans. All (λ w. covers spans w ≡ present w) (v ∷ vs)) (sym (run_ends cur v vs e))
          (
            covers-append (ended cur) (runs present none vs) v
                ∙ or_right (covers (ended cur) v) _ behind.0
                ∙ runs_ahead none vs v tt o.0
                ∙ sym e,
            past_both vs behind.1 rest,
          )
  ]
    where
      past_both :
          (ws : List String)
          → All (λ w. covers (ended cur) w ≡ false) ws
          → All (λ w. covers (runs present none vs) w ≡ present w) ws
          → All (λ w. covers (ended cur ++ runs present none vs) w ≡ present w) ws
      past_both [] p q = tt
      past_both (w ∷ ws) p q = (
        covers-append (ended cur) (runs present none vs) w
            ∙ or_right (covers (ended cur) w) _ p.0
            ∙ q.0,
        past_both ws p.1 q.1,
      )
