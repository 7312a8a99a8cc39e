-- ===== src/Rule/Upstream/Wired.antt =====
-- What `UpstreamCovered` proves over the index of a config.
use otelcol_config_lint.Config.Id.{Kind}
use otelcol_config_lint.Base.{
  arith, Bool-cases, In, List, Option, Option-cases, String, [], false, inl, inr, length, some,
  true, ◌*◌, ◌+◌, ◌≡◌,
}
use otelcol_config_lint.Config.File.{File, Pipeline}
use otelcol_config_lint.Rule.Index.{has_dynamic, new_index}
use otelcol_config_lint.Rule.Index.Producers.{new_index-Closed}
use otelcol_config_lint.Rule.Upstream.{upstream_covered, walk}
use otelcol_config_lint.Rule.Upstream.Covered.{IsCovered}
use otelcol_config_lint.Rule.Upstream.Sound.{walk-IsCovered}
use otelcol_config_lint.Schema.{Schema}

-- Where no two pipelines of a config share a key, a positive answer of `UpstreamCovered` is right:
-- every way into the pipeline, followed back through the given connectors, passes a processor of
-- the given types, and the derivation is finite, so that no cycle counts as a proof.
pub upstream_covered_sound :
    (f : File) (sch : Option Schema) (processors connectors : List String) (p : Pipeline)
    → ((a b : Pipeline)
        → In a f.service.pipelines
        → In b f.service.pipelines
        → a.key ≡ b.key
        → a ≡ b)
    → In p f.service.pipelines
    → upstream_covered (new_index f sch) processors connectors p ≡ some true
    → IsCovered (new_index f sch) processors connectors p false
unfolding upstream_covered new_index
upstream_covered_sound f sch processors connectors p unique i h =
    let idx = new_index f sch in
    let ps = f.service.pipelines in
    let fuel = 2 * length ps + 1 in
    elim (Bool-cases (has_dynamic idx Kind.exporter)) [
      | inl e ↦ absurd (cc (rw e at h))
      | inr e ↦ elim (Option-cases (walk idx processors connectors fuel p false [])) [
        | inl s ↦ absurd (cc (rw (e, s) at h))
        | inr s ↦
            walk-IsCovered idx processors connectors ps (new_index-Closed f sch) unique fuel p s.0 i
              s.1 (ground (arith, rw (e, s.1) at h))
      ]
    ]
