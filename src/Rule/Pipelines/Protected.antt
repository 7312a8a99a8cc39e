-- ===== src/Rule/Pipelines/Protected.antt =====
-- What it means that missing-memory-limiter has nothing to report.
use mathlib.Core.Path.{subst}
use otelcol_config_lint.Base.{
  All, Bool-cases, In, List, Option, String, [], append_if, arith, false, for_each-nil, inl, inr,
  length, nat_eq, some, string_eq, sym, true, ◌==◌, ◌∷◌, ◌≡◌, ◌⊎◌,
}
use otelcol_config_lint.Config.File.{File, Pipeline}
use otelcol_config_lint.Rule.Context.{context_of}
use otelcol_config_lint.Rule.Docs.{memory_limiter_type}
use otelcol_config_lint.Rule.Index.{new_index, has_dynamic_refs}
use otelcol_config_lint.Rule.Node.{is_expansion}
use otelcol_config_lint.Rule.Pipelines.{
  has_processor_type, lacks_limiter, limiter_finding, missing_memory_limiter, passing_connectors,
}
use otelcol_config_lint.Rule.Upstream.{upstream_covered}
use otelcol_config_lint.Rule.Upstream.Covered.{IsCovered}
use otelcol_config_lint.Rule.Upstream.Wired.{upstream_covered_sound}
use otelcol_config_lint.Schema.{Schema}

abbrev limiter : List String
limiter = memory_limiter_type ∷ []

In-nil_loop : {A : Type 0} (xs : List A) (P : A → Type 0) (x : A) → All P xs → In x xs → P x
In-nil_loop [] P x a i = absurd i
In-nil_loop (y ∷ xs) P x a (inl e) = subst P (sym e) a.0
In-nil_loop (y ∷ xs) P x a (inr i) = In-nil_loop xs P x a.1 i

covered_of_silence :
    (f : File) (sch : Option Schema) (p : Pipeline)
    → lacks_limiter (new_index f sch) p ≡ false
    → is_expansion p.processors_node ≡ false
    → has_dynamic_refs p.processors ≡ false
    → (length p.receivers == 0) ≡ false
    → (has_processor_type p memory_limiter_type ≡ true)
      ⊎ (upstream_covered (new_index f sch) limiter passing_connectors p ≡ some true)
unfolding lacks_limiter
covered_of_silence f sch p quiet static named used =
    elim (Bool-cases (has_processor_type p memory_limiter_type)) [
      | inl e ↦ inl e
      | inr e ↦ inr (ground (arith, quiet, static, named, used, e))
    ]

-- Where missing-memory-limiter reports nothing and no two pipelines share a key, every pipeline that
-- has receivers and whose processors are no expansions either lists a memory_limiter itself, or
-- gets all its data through forward and routing connectors behind a declared memory_limiter.
pub missing_memory_limiter_nil :
    (f : File) (sch : Option Schema) (p : Pipeline)
    → ((a b : Pipeline)
        → In a f.service.pipelines
        → In b f.service.pipelines
        → a.key ≡ b.key
        → a ≡ b)
    → missing_memory_limiter (context_of f sch) ≡ []
    → In p f.service.pipelines
    → is_expansion p.processors_node ≡ false
    → has_dynamic_refs p.processors ≡ false
    → (length p.receivers == 0) ≡ false
    → (has_processor_type p memory_limiter_type ≡ true)
      ⊎ IsCovered (new_index f sch) limiter passing_connectors p false
unfolding missing_memory_limiter
missing_memory_limiter_nil f sch p unique silent i static named used =
    let idx = new_index f sch in
    let ps = f.service.pipelines in
    let reports = λ (q : Pipeline). append_if (lacks_limiter idx q) (limiter_finding q) in
    let none_here =
      In-nil_loop ps (λ (q : Pipeline). reports q ≡ []) p ((for_each-nil ps reports).0 silent) i in
    elim (covered_of_silence f sch p (ground (arith, none_here)) static named used) [
      | inl e ↦ inl e
      | inr e ↦ inr (upstream_covered_sound f sch limiter passing_connectors p unique i e)
    ]
