-- ===== src/Rule/Pipelines.antt =====
-- pkg/rule/servicerequired, emptypipeline and missingmemorylimiter: what every pipeline must have.
pub mod Protected
pub mod Runnable
use Prim.Native.String.{◌++◌ as str_append}
use otelcol_config_lint.Base.{
  Bool, List, Option, String, [], append_if, contains_func, false, for_each, if◌then◌else◌, is_nil,
  length, nat_eq, none, not, some, string_eq, ◌&&◌, ◌++◌, ◌==◌, ◌||◌, ◌∷◌,
}
use otelcol_config_lint.Config.File.{File, Pipeline, Ref, Service}
use otelcol_config_lint.Diag.{Severity, unset}
use otelcol_config_lint.Rule.Context.{Context, Finding, finding}
use otelcol_config_lint.Rule.Docs.{memory_limiter_docs, memory_limiter_type}
use otelcol_config_lint.Rule.Index.{Index, has_dynamic_refs}
use otelcol_config_lint.Rule.Node.{is_expansion, node_or}
use otelcol_config_lint.Rule.Upstream.{upstream_covered}
use otelcol_config_lint.Rule.Words.{quote}

pub service_hint : Finding → Finding
service_hint φ = record φ {
  hint = "add a service.pipelines section wiring the declared components together";
}

-- `Check` of service-required
unfoldable pub service_required : Context → List Finding
unfolding service_hint
service_required ctx =
    let svc = ctx.file.service in
    if is_expansion svc.node || is_expansion svc.pipelines_node
    then []
    else if is_nil svc.node
    then service_hint
        (finding ctx.file.root "service" "config has no service block, so nothing will run")
      ∷ []
    else if is_nil svc.pipelines_node
    then finding svc.key_node "service"
        "service has no pipelines, so no telemetry will be processed"
      ∷ []
    else append_if (length svc.pipelines == 0) (
        finding svc.pipelines_node "service.pipelines"
          "service.pipelines is empty, so no telemetry will be processed")

pub slot_path : Pipeline → String → String
slot_path p slot = str_append "service.pipelines." (str_append p.key (str_append "." slot))

-- the round of empty-pipeline for one pipeline
pub empty_slots : Pipeline → List Finding
unfolding slot_path quote
empty_slots p =
    append_if (length p.receivers == 0 && not (is_expansion p.receivers_node)) (
      finding (some (node_or p.receivers_node p.key_node)) (slot_path p "receivers")
        (str_append "pipeline " (str_append (quote p.key) " has no receivers")))
    ++ append_if (length p.exporters == 0 && not (is_expansion p.exporters_node)) (
        finding (some (node_or p.exporters_node p.key_node)) (slot_path p "exporters")
          (str_append "pipeline " (str_append (quote p.key) " has no exporters")))

-- `Check` of empty-pipeline
unfoldable pub empty_pipeline : Context → List Finding
unfolding empty_slots
empty_pipeline ctx =
    for_each ctx.file.service.pipelines
      (λ (p : Pipeline). if is_expansion (some p.node) then [] else empty_slots p)

-- `HasProcessorType`
unfoldable pub has_processor_type : Pipeline → String → Bool
has_processor_type p typ = contains_func p.processors (λ (ref : Ref). ref.id.type == typ)

-- forward and routing pass the data of one signal on synchronously
abbrev pub passing_connectors : List String
passing_connectors = "forward" ∷ "routing" ∷ []

abbrev pub is_yes : Option Bool → Bool
is_yes (some b) = b
is_yes none = false

-- what is left of the guards of missing-memory-limiter
pub lacks_limiter : Index → Pipeline → Bool
unfolding has_processor_type has_dynamic_refs
lacks_limiter idx p =
    if is_expansion p.processors_node
    then false
    else if has_processor_type p memory_limiter_type
        || has_dynamic_refs p.processors
        || length p.receivers == 0
    then false
    else not (is_yes (upstream_covered idx (memory_limiter_type ∷ []) passing_connectors p))

abbrev pub limiter_finding : Pipeline → Finding
limiter_finding p = record {
  node = some (node_or p.processors_node p.key_node);
  path = slot_path p "processors";
  message = str_append "pipeline " (str_append (quote p.key) " has no memory_limiter processor");
  hint = "add memory_limiter as the first processor to bound the collector's memory use";
  docs = memory_limiter_docs;
  severity = Severity.unset;
}

-- `Check` of missing-memory-limiter
unfoldable pub missing_memory_limiter : Context → List Finding
unfolding lacks_limiter
missing_memory_limiter ctx =
    for_each ctx.file.service.pipelines
      (λ (p : Pipeline). append_if (lacks_limiter ctx.index p) (limiter_finding p))
