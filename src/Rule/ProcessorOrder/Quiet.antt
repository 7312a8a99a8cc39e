-- ===== src/Rule/ProcessorOrder/Quiet.antt =====
-- When processor-order has nothing to report.
use otelcol_config_lint.Base.{
  All, All-iff, Bool, List, Option-cases, [], append-nil, arith, eq_iff, for_each-nil, get_elem?,
  inl, inr, is_nil, length, nat_eq, none, not, refl, some, string_eq, suc, take, true, zero, ℕ,
  ◌++◌, ◌+◌, ◌<◌, ◌==◌, ◌↔◌, ◌∷◌, ◌≡◌,
}
use otelcol_config_lint.Config.File.{Pipeline, Ref}
use otelcol_config_lint.Rule.Context.{Context}
use otelcol_config_lint.Rule.Docs.{memory_limiter_type, batch_type}
use otelcol_config_lint.Rule.ProcessorOrder.{
  order_from, processor_order, sampler_before, sampling, batch_last, enriches, first_sampler,
  limiter_first, sampler_docs,
}

abbrev pub is_limiter : Ref → Bool
is_limiter r = r.id.type == memory_limiter_type

abbrev pub decides : Ref → Bool
decides r = not (is_nil (sampler_docs r.id.type))

-- The processor at a position stands where it works: a memory_limiter first; nothing behind a batch
-- but a memory_limiter; no sampler ahead of a processor that enriches.
pub record IsPlaced (refs : List Ref) (i : ℕ) (r : Ref) : Type 0 where
  pub limiter : r.id.type ≡ memory_limiter_type → i ≡ 0
  pub batch :
      (next : Ref)
      → r.id.type ≡ batch_type
      → get_elem? refs (i + 1) ≡ some next
      → next.id.type ≡ memory_limiter_type
  pub enriched :
      (j : ℕ) (before : Ref)
      → enriches r.id.type ≡ true
      → j < i
      → get_elem? refs j ≡ some before
      → sampler_docs before.id.type ≡ none

limiter_first-nil :
    (p : Pipeline) (i : ℕ) (r : Ref)
    → (limiter_first p i r ≡ []) ↔ (r.id.type ≡ memory_limiter_type → i ≡ 0)
unfolding limiter_first
limiter_first-nil p i r = ground (arith, eq_iff r.id.type memory_limiter_type)

get_elem?-length {ℓ} :
    {A : Type ℓ} (xs : List A) (i : ℕ) (a : A) → get_elem? xs i ≡ some a → i < length xs
get_elem?-length [] i a h = absurd (cc (h))
get_elem?-length (x ∷ xs) zero a h = omega arith
get_elem?-length (x ∷ xs) (suc i) a h = omega (arith, get_elem?-length xs i a h)

batch_last-nil :
    (p : Pipeline) (i : ℕ) (r : Ref)
    → (batch_last p i r ≡ []) ↔ (
        (next : Ref)
        → r.id.type ≡ batch_type
        → get_elem? p.processors (i + 1) ≡ some next
        → next.id.type ≡ memory_limiter_type)
unfolding batch_last
batch_last-nil p i r = (
  (λ h next b g. ground (
    arith,
    get_elem?-length p.processors (i + 1) next g,
    eq_iff r.id.type batch_type,
    eq_iff next.id.type memory_limiter_type,
  )),
  (λ k. elim (Option-cases (get_elem? p.processors (i + 1))) [
    | inl e ↦ ground (arith)
    | inr found ↦ ground (
      arith,
      found.1,
      k found.0,
      eq_iff r.id.type batch_type,
      eq_iff found.0.id.type memory_limiter_type,
    )
  ]),
)

first_sampler-cons :
    (r : Ref) (rs : List Ref)
    → (first_sampler (r ∷ rs) ≡ none)
      ↔ ((sampler_docs r.id.type ≡ none) × (first_sampler rs ≡ none))
unfolding first_sampler
first_sampler-cons r rs = ground arith

no_sampler_before :
    (r : Ref) (rs : List Ref) (i j : ℕ) (before : Ref)
    → sampler_docs r.id.type ≡ none
    → ((k : ℕ) → k < i → get_elem? rs k ≡ some before → sampler_docs before.id.type ≡ none)
    → j < suc i
    → get_elem? (r ∷ rs) j ≡ some before
    → sampler_docs before.id.type ≡ none
no_sampler_before r rs i zero before e rest l g = cc (e, g)
no_sampler_before r rs i (suc j) before e rest l g = rest j (omega (arith, l)) g

first_sampler-none :
    (refs : List Ref) (i : ℕ)
    → (first_sampler (take i refs) ≡ none) ↔ (
        (j : ℕ) (before : Ref)
        → j < i
        → get_elem? refs j ≡ some before
        → sampler_docs before.id.type ≡ none)
unfolding first_sampler
first_sampler-none refs zero = ((λ h j before l. absurd (omega (arith, l))), (λ k. refl))
first_sampler-none [] (suc i) = ((λ h j before l g. absurd (cc (g))), (λ k. refl))
first_sampler-none (r ∷ rs) (suc i) =
    let here = first_sampler-cons r (take i rs) in
    let rest = first_sampler-none rs i in
    (
      (λ h j before.
          no_sampler_before r rs i j before (here.0 h).0 (λ k. rest.0 (here.0 h).1 k before)),
      (λ k. here.1 (
        k zero r (omega arith) refl,
        rest.1 (λ j before l g. k (suc j) before (omega (arith, l)) g),
      )),
    )

sampling-first :
    (p : Pipeline) (i : ℕ) (r : Ref)
    → (sampling p i r ≡ [])
      ↔ (enriches r.id.type ≡ true → first_sampler (take i p.processors) ≡ none)
unfolding sampling sampler_before
sampling-first p i r = ground arith

sampling-nil :
    (p : Pipeline) (i : ℕ) (r : Ref)
    → (sampling p i r ≡ []) ↔ (
        (j : ℕ) (before : Ref)
        → enriches r.id.type ≡ true
        → j < i
        → get_elem? p.processors j ≡ some before
        → sampler_docs before.id.type ≡ none)
sampling-nil p i r =
    let quiet = sampling-first p i r in
    let first = first_sampler-none p.processors i in
    (
      (λ h j before en. first.0 (quiet.0 h en) j before),
      (λ k. quiet.1 (λ en. first.1 (λ j before. k j before en))),
    )

-- The processor is placed exactly when its round reports nothing.
round-nil :
    (p : Pipeline) (i : ℕ) (r : Ref)
    → (limiter_first p i r ++ batch_last p i r ++ sampling p i r ≡ []) ↔ IsPlaced p.processors i r
round-nil p i r =
    let first = limiter_first-nil p i r in
    let last = batch_last-nil p i r in
    let middle = sampling-nil p i r in
    let outer = append-nil (limiter_first p i r ++ batch_last p i r) (sampling p i r) in
    let inner = append-nil (limiter_first p i r) (batch_last p i r) in
    (
      (λ h. record {
        limiter = first.0 (inner.0 (outer.0 h).0).0;
        batch = last.0 (inner.0 (outer.0 h).0).1;
        enriched = middle.0 (outer.0 h).1;
      }),
      (λ q. outer.1 (inner.1 (first.1 q.limiter, last.1 q.batch), middle.1 q.enriched)),
    )

-- The positions of the list, from `i` on.
abbrev pub PlacedFrom : List Ref → ℕ → List Ref → Type 0
PlacedFrom all i [] = Unit
PlacedFrom all i (r ∷ rs) = IsPlaced all i r × PlacedFrom all (i + 1) rs

order_from-nil :
    (p : Pipeline) (i : ℕ) (refs : List Ref)
    → (order_from p i refs ≡ []) ↔ PlacedFrom p.processors i refs
unfolding order_from
order_from-nil p i [] = ((λ _. tt), (λ _. refl))
order_from-nil p i (r ∷ rs) =
    let outer =
      append-nil (limiter_first p i r ++ batch_last p i r ++ sampling p i r)
        (order_from p (i + 1) rs) in
    let here = round-nil p i r in
    let rest = order_from-nil p (i + 1) rs in
    ((λ h. (here.0 (outer.0 h).0, rest.0 (outer.0 h).1)), (λ q. outer.1 (here.1 q.0, rest.1 q.1)))

abbrev pub IsOrdered : Pipeline → Type 0
IsOrdered p = PlacedFrom p.processors 0 p.processors

-- processor-order reports nothing exactly when every processor of every pipeline stands where it
-- works: each memory_limiter at the front, nothing but a memory_limiter right behind a batch, and
-- no sampler anywhere ahead of a processor that enriches.
pub processor_order-nil :
    (ctx : Context) → (processor_order ctx ≡ []) ↔ All IsOrdered ctx.file.service.pipelines
unfolding processor_order
processor_order-nil ctx =
    let ps = ctx.file.service.pipelines in
    let loop = for_each-nil ps (λ (p : Pipeline). order_from p 0 p.processors) in
    let each =
      All-iff (λ (p : Pipeline). order_from p 0 p.processors ≡ []) IsOrdered ps
        (λ (p : Pipeline). order_from-nil p 0 p.processors) in
    ((λ h. each.0 (loop.0 h)), (λ q. loop.1 (each.1 q)))
