-- ===== src/Rule/Pipelines/Runnable.antt =====
-- What service-required and empty-pipeline leave of a config.
use otelcol_config_lint.Base.{
  All, Bool, List, [], append-nil, append_if, arith, false, for_each-nil, if◌then◌else◌, length,
  nat_eq, not, some, string_eq, ◌&&◌, ◌==◌, ◌∷◌, ◌≡◌,
}
use otelcol_config_lint.Config.File.{Pipeline}
use otelcol_config_lint.Rule.Context.{Context}
use otelcol_config_lint.Rule.Node.{is_expansion}
use otelcol_config_lint.Rule.Pipelines.{empty_pipeline, empty_slots, service_required}

-- A pipeline that is written out has a receiver and an exporter in each slot that is written out.
abbrev pub HasEnds : Pipeline → Type 0
HasEnds p =
    is_expansion (some p.node) ≡ false
    → (is_expansion p.receivers_node ≡ false → (length p.receivers == 0) ≡ false)
      × (is_expansion p.exporters_node ≡ false → (length p.exporters == 0) ≡ false)

append_if-nil : {A : Type 0} (b : Bool) (x : A) → append_if b x ≡ [] → b ≡ false
append_if-nil b x h = ground arith

empty_slots-nil :
    (p : Pipeline)
    → empty_slots p ≡ []
    → (length p.receivers == 0 && not (is_expansion p.receivers_node) ≡ false)
      × (length p.exporters == 0 && not (is_expansion p.exporters_node) ≡ false)
unfolding empty_slots
empty_slots-nil p h =
    let both = (append-nil _ _).0 h in (append_if-nil _ _ both.0, append_if-nil _ _ both.1)

round-HasEnds :
    (p : Pipeline) → (if is_expansion (some p.node) then [] else empty_slots p) ≡ [] → HasEnds p
round-HasEnds p h written =
    let slots = empty_slots-nil p (rw written at h) in
    ((λ e. ground (arith, slots.0, e)), (λ e. ground (arith, slots.1, e)))

All-from :
    {A : Type 0} (P Q : A → Type 0) (xs : List A) → ((x : A) → P x → Q x) → All P xs → All Q xs
All-from P Q [] h a = tt
All-from P Q (x ∷ xs) h a = (h x a.0, All-from P Q xs h a.1)

-- A config that service-required and empty-pipeline both accept, and whose service and pipelines
-- blocks are no expansions, has a pipeline; and each of its pipelines has a receiver and an
-- exporter, but for what an expansion supplies.
pub HasEnds-of_silence :
    (ctx : Context)
    → service_required ctx ≡ []
    → empty_pipeline ctx ≡ []
    → is_expansion ctx.file.service.node ≡ false
    → is_expansion ctx.file.service.pipelines_node ≡ false
    → ((length ctx.file.service.pipelines == 0) ≡ false) × All HasEnds ctx.file.service.pipelines
unfolding service_required empty_pipeline
HasEnds-of_silence ctx silent quiet static named =
    let ps = ctx.file.service.pipelines in
    let rounds =
      (for_each-nil ps
          (λ (p : Pipeline). if is_expansion (some p.node) then [] else empty_slots p)).0
        quiet in
    (
      ground (arith, silent, static, named),
      All-from _ HasEnds ps (λ (p : Pipeline). round-HasEnds p) rounds,
    )
