-- ===== src/Rule/ProcessorOrder.antt =====
-- pkg/rule/processororder: the places that memory_limiter, batch and enrichment have in a pipeline.
pub mod Quiet
use Prim.Native.String.{◌++◌ as str_append}
use otelcol_config_lint.Base.{
  Bool, List, Option, String, [], contains_func, for_each, get_elem?, if◌then◌else◌, leb, length,
  nat_eq, none, not, some, string_eq, take, ℕ, ◌++◌, ◌+◌, ◌-◌, ◌==◌, ◌||◌, ◌∷◌,
}
use otelcol_config_lint.Base.Text.{itoa}
use otelcol_config_lint.Config.Id.{id_text}
use otelcol_config_lint.Config.File.{File, Pipeline, Ref, Service}
use otelcol_config_lint.Diag.{Severity, info, unset}
use otelcol_config_lint.Rule.Context.{Context, Finding}
use otelcol_config_lint.Rule.Docs.{
  batch_docs, batch_type, memory_limiter_docs, memory_limiter_type, probabilistic_sampler_docs,
  tail_sampling_docs,
}
use otelcol_config_lint.Rule.Words.{quote}

abbrev enriching_types : List String
enriching_types =
    "k8sattributes" ∷ "k8s_attributes" ∷ "resourcedetection" ∷ "resource_detection" ∷ "resource"
    ∷ []

unfoldable pub enriches : String → Bool
enriches typ = contains_func enriching_types (λ t. t == typ)

-- `samplerDocs`: the page, where the processor type decides what is kept
unfoldable pub sampler_docs : String → Option String
sampler_docs typ =
    if typ == "tail_sampling"
    then some tail_sampling_docs
    else if typ == "probabilistic_sampler"
    then some probabilistic_sampler_docs
    else none

-- A sampler and its page.
pub record Sampler : Type 0 where
  pub ref : Ref
  pub docs : String

-- the loop of `samplerBefore` over `refs[:i]`
pub first_sampler : List Ref → Option Sampler
unfolding sampler_docs
first_sampler [] = none
first_sampler (before ∷ rest) = elim (sampler_docs before.id.type) [
  | some docs ↦ some (record { ref = before; docs = docs })
  | none ↦ first_sampler rest
]

-- `samplerBefore`, of the processor at `i`
unfoldable pub sampler_before : List Ref → ℕ → Ref → Option Sampler
unfolding first_sampler enriches
sampler_before refs i ref = if not (enriches ref.id.type) then none else first_sampler (take i refs)

processors_path : Pipeline → String
processors_path p = str_append "service.pipelines." (str_append p.key ".processors")

-- `checkLimiterFirst`
unfoldable pub limiter_first : Pipeline → ℕ → Ref → List Finding
unfolding processors_path itoa id_text quote
limiter_first p i ref =
    if not (ref.id.type == memory_limiter_type) || i == 0
    then []
    else record {
      node = some ref.node;
      path = ref.path;
      message = str_append "memory_limiter is processor " (
          str_append (itoa (i + 1))
            (str_append " in pipeline " (str_append (quote p.key) "; it must be first")));
      hint = str_append "move " (
          str_append (quote (id_text ref.id)) (str_append " to the front of " (processors_path p)));
      docs = memory_limiter_docs;
      severity = Severity.unset;
    }
      ∷ []

batch_finding : Pipeline → Ref → Finding
unfolding quote
batch_finding p ref = record {
  node = some ref.node;
  path = ref.path;
  message = str_append "batch runs before other processors in pipeline " (quote p.key);
  hint = "put batch last so upstream processors see individual items and cannot drop whole batches";
  docs = batch_docs;
  severity = Severity.info;
}

-- `checkBatchLast`: its guard keeps the index `i + 1` in range
unfoldable pub batch_last : Pipeline → ℕ → Ref → List Finding
unfolding batch_finding
batch_last p i ref =
    if not (ref.id.type == batch_type) || leb (length p.processors - 1) i
    then []
    else elim (get_elem? p.processors (i + 1)) [
      | none ↦ []
      | some next ↦ if next.id.type == memory_limiter_type then [] else batch_finding p ref ∷ []
    ]

sampling_finding : Pipeline → Ref → Sampler → Finding
unfolding processors_path id_text quote
sampling_finding p ref sampler = record {
  node = some ref.node;
  path = ref.path;
  message = str_append (quote (id_text ref.id)) (
      str_append " runs after " (
        str_append (quote (id_text sampler.ref.id)) (
          str_append " in pipeline " (
            str_append (quote p.key)
              ", so sampling policies cannot match the attributes it adds"))));
  hint = str_append "move " (
      str_append (quote (id_text ref.id)) (
        str_append " ahead of " (
          str_append (quote (id_text sampler.ref.id)) (
            str_append " in " (
              str_append (processors_path p)
                " so the decision is made against enriched telemetry")))));
  docs = sampler.docs;
  severity = Severity.unset;
}

-- `checkSampling`
unfoldable pub sampling : Pipeline → ℕ → Ref → List Finding
unfolding sampler_before sampling_finding
sampling p i ref = elim (sampler_before p.processors i ref) [
  | none ↦ []
  | some sampler ↦ sampling_finding p ref sampler ∷ []
]

-- the loop over a pipeline's processors, from the one at `i`
pub order_from : Pipeline → ℕ → List Ref → List Finding
unfolding limiter_first batch_last sampling
order_from p i [] = []
order_from p i (ref ∷ rest) =
    (limiter_first p i ref ++ batch_last p i ref ++ sampling p i ref) ++ order_from p (i + 1) rest

-- `Check` of processor-order
unfoldable pub processor_order : Context → List Finding
unfolding order_from
processor_order ctx =
    for_each ctx.file.service.pipelines (λ (p : Pipeline). order_from p 0 p.processors)
