-- ===== src/Rule/ConnectorWiring/Quiet.antt =====
-- When connector-wiring has nothing to report.
use otelcol_config_lint.Rule.Context.{Context}
use mathlib.Core.Path.{subst}
use otelcol_config_lint.Base.{
  All-iff, is_nil, some, refl, Bool-cases, append-nil, All, All-In, Bool, In, List, [], append_if,
  arith, false, for_each, for_each-nil, inl, inr, length, nat_eq, string_eq, sym, true, ◌&&◌, ◌==◌,
  ◌↔◌, ◌∷◌, ◌≡◌,
}
use otelcol_config_lint.Config.Id.{Kind, id_eq, kind_eq}
use otelcol_config_lint.Config.File.{Section, Component, Pipeline}
use otelcol_config_lint.Rule.Index.{Index, has_dynamic}
use otelcol_config_lint.Rule.ConnectorWiring.{
  wiring_in, wiring_of, connector_wiring, check_loop, check_sides, loop_finding,
}

abbrev is_unwired : List Pipeline → Bool
is_unwired ps = length ps == 0

-- A connector that some pipeline uses is fed and is consumed, but for what an expansion supplies,
-- and no pipeline stands on both of its sides.
pub record IsWired (idx : Index) (c : Component) : Type 0 where
  pub fed :
      (length (idx.as_exporter c.id) == 0) ≡ true
      → (length (idx.as_receiver c.id) == 0) ≡ false
      → has_dynamic idx Kind.exporter ≡ true
  pub consumed :
      (length (idx.as_receiver c.id) == 0) ≡ true
      → (length (idx.as_exporter c.id) == 0) ≡ false
      → has_dynamic idx Kind.receiver ≡ true
  pub apart :
      (p q : Pipeline)
      → In p (idx.as_exporter c.id)
      → In q (idx.as_receiver c.id)
      → (p.key == q.key) ≡ false

check_sides-nil :
    (idx : Index) (c : Component) (rs es : List Pipeline)
    → (is_unwired rs && is_unwired es) ≡ false
    → (check_sides idx c rs es ≡ []) ↔ (
        (is_unwired es ≡ true → is_unwired rs ≡ false → has_dynamic idx Kind.exporter ≡ true)
        × (is_unwired rs ≡ true → is_unwired es ≡ false → has_dynamic idx Kind.receiver ≡ true))
unfolding check_sides
check_sides-nil idx c rs es some_use = ground (arith, some_use)

append_if-empty : {A : Type 0} (b : Bool) (x : A) → (append_if b x ≡ []) ↔ (b ≡ false)
append_if-empty b x = ground arith

In-All : {A : Type 0} (P : A → Type 0) (xs : List A) → All P xs ↔ ((x : A) → In x xs → P x)
In-All P xs = (go P xs, All-In P xs)
  where
    go : {A : Type 0} (P : A → Type 0) (xs : List A) → All P xs → (x : A) → In x xs → P x
    go P [] a x i = absurd i
    go P (y ∷ ys) a x (inl e) = subst P (sym e) a.0
    go P (y ∷ ys) a x (inr i) = go P ys a.1 x i

check_loop-nil :
    (c : Component) (rs es : List Pipeline)
    → (check_loop c rs es ≡ []) ↔ ((p q : Pipeline) → In p es → In q rs → (p.key == q.key) ≡ false)
unfolding check_loop
check_loop-nil c rs es =
    let inner = λ (p : Pipeline) (q : Pipeline). append_if (p.key == q.key) (loop_finding c p) in
    let outer = λ (p : Pipeline). for_each rs (inner p) in
    let both = for_each-nil es outer in
    let over = In-All (λ (p : Pipeline). outer p ≡ []) es in
    let each = λ (p : Pipeline). for_each-nil rs (inner p) in
    let under = λ (p : Pipeline). In-All (λ (q : Pipeline). inner p q ≡ []) rs in
    (
      (λ h p q i j.
          (append_if-empty (p.key == q.key) (loop_finding c p)).0
            ((under p).0 ((each p).0 (over.0 (both.0 h) p i)) q j)),
      (λ k. both.1 (
          over.1 (λ p i. (each p).1 (
            (under p).1
              (λ q j. (append_if-empty (p.key == q.key) (loop_finding c p)).1 (k p q i j)))))),
    )

no_member : (ps : List Pipeline) (p : Pipeline) → is_unwired ps ≡ true → ¬ In p ps
no_member [] p e i = i
no_member (q ∷ ps) p e i = absurd (ground (arith, e))

wiring_of-nil : (idx : Index) (c : Component) → (wiring_of idx c ≡ []) ↔ IsWired idx c
unfolding wiring_of
wiring_of-nil idx c =
    let rs = idx.as_receiver c.id in
    let es = idx.as_exporter c.id in
    let sides = check_sides-nil idx c rs es in
    let loop = check_loop-nil c rs es in
    let both = append-nil (check_sides idx c rs es) (check_loop c rs es) in
    elim (Bool-cases (is_unwired rs && is_unwired es)) [
      | inl e ↦ rw e (
        (λ _. record {
          fed = λ a b. ground (arith, e, a, b);
          consumed = λ a b. ground (arith, e, a, b);
          apart = λ p q i j. absurd (no_member es p (ground (arith, e)) i);
        }),
        (λ _. refl),
      )
      | inr e ↦ rw e (
        (λ h.
            let parts = both.0 h in
            record {
              fed = ((sides e).0 parts.0).0;
              consumed = ((sides e).0 parts.0).1;
              apart = loop.0 parts.1;
            }),
        (λ w. both.1 ((sides e).1 (w.fed, w.consumed), loop.1 w.apart)),
      )
    ]

-- In a config with a service block and a connectors section, connector-wiring reports nothing
-- exactly when every declared connector that a pipeline uses is fed and consumed, but for what an
-- expansion supplies, and no two pipelines on its two sides share a key.
pub connector_wiring-nil :
    (ctx : Context) (sec : Section)
    → ctx.file.sections Kind.connector ≡ some sec
    → is_nil ctx.file.service.node ≡ false
    → (connector_wiring ctx ≡ []) ↔ All (IsWired ctx.index) sec.components
unfolding connector_wiring wiring_in
connector_wiring-nil ctx sec found present =
    let rounds = for_each-nil sec.components (wiring_of ctx.index) in
    let each =
      All-iff (λ (c : Component). wiring_of ctx.index c ≡ []) (IsWired ctx.index) sec.components
        (wiring_of-nil ctx.index) in
    rw (found, present) ((λ h. each.0 (rounds.0 h)), (λ a. rounds.1 (each.1 a)))
