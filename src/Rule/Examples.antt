-- ===== src/Rule/Examples.antt =====
-- Runs of the rules, and witnesses.
use otelcol_config_lint.Base.{
  map, ◌==◌, nat_eq, true, sym, Bool, ◌∙◌, string_eq, String, All, In, List, [], false, inl, inr,
  is_nil, length, none, refl, some, ℕ, ◌↔◌, ◌∷◌, ◌≡◌, ◌≤◌, ◌⊎◌,
}
use otelcol_config_lint.Base.Text.{cut, trim_space, codes}
use otelcol_config_lint.Config.Entries.{entries_of, index_path}
use otelcol_config_lint.Rule.Node.{resolve_alias, has_expansion, is_expansion}
use otelcol_config_lint.Rule.ExtensionRefs.{extension_refs}
use otelcol_config_lint.Config.Id.{id_eq, section_kind, parse_id, id_text, Kind, kind_eq}
use otelcol_config_lint.Config.File.{Component, Pipeline, Ref, read_file}
use otelcol_config_lint.Rule.Context.{Finding, context_of}
use otelcol_config_lint.Rule.Index.{
  has_dynamic_refs, resolve_ref, declarations, resolve_in, has_dynamic, is_used, new_index,
}
use otelcol_config_lint.Rule.Index.Used.{is_referenced, is_used-new_index}
use otelcol_config_lint.Rule.ProcessorOrder.{processor_order}
use otelcol_config_lint.Rule.ProcessorOrder.Quiet.{IsOrdered, processor_order-nil}
use otelcol_config_lint.Rule.References.{
  duplicates_of, undefined_extension_finding, undefined_reference, undefined_slot_finding,
}
use otelcol_config_lint.Rule.References.Duplicate.{duplicates_of_slot, listed_twice, repeats}
use otelcol_config_lint.Rule.References.Undefined.{undefined_reference_iff}
use otelcol_config_lint.Rule.References.Meant.{IsUndefinedExtension, IsUndefinedSlot}
use otelcol_config_lint.Rule.Sample.{
  wired_sample, forward_section, sample, id_of, zombie, debug, traces_pipeline, ref_to,
}
use mathlib.Core.Path.{subst}
use otelcol_config_lint.Rule.Pipelines.{
  missing_memory_limiter, has_processor_type, service_required, empty_pipeline,
}
use otelcol_config_lint.Rule.Pipelines.Protected.{missing_memory_limiter_nil}
use otelcol_config_lint.Rule.Pipelines.Runnable.{HasEnds, HasEnds-of_silence}
use otelcol_config_lint.Rule.ConnectorWiring.{connector_wiring}
use otelcol_config_lint.Rule.ConnectorWiring.Quiet.{IsWired, connector_wiring-nil}
use otelcol_config_lint.Rule.Upstream.{upstream_covered, has_processor}
use otelcol_config_lint.Rule.Upstream.Covered.{IsCovered}
use otelcol_config_lint.Rule.Upstream.Wired.{upstream_covered_sound}
use otelcol_config_lint.Rule.Upstream.Fuel.{upstream_covered_total}
use otelcol_config_lint.Rule.Usage.{unused_component, unused_finding}
use otelcol_config_lint.Rule.Usage.Reported.{IsUnused, unused_component_iff}
use otelcol_config_lint.Rule.Words.{edit_distance}
use otelcol_config_lint.Rule.Words.Distance.{Edits, edit_distance_least}

-- the sample is read as expected
sample_pipelines : sample.service.pipelines ≡ traces_pipeline ∷ []
unfolding sample read_file entries_of section_kind parse_id index_path trim_space cut
sample_pipelines = refl

unused_in_sample :
    unused_component (context_of sample none)
    ≡ unused_finding Kind.receiver zombie ∷ unused_finding Kind.exporter debug ∷ []
unfolding unused_component sample new_index entries_of section_kind has_dynamic is_expansion id_text
    parse_id trim_space cut resolve_in declarations extension_refs
unused_in_sample = refl

is_used-new_index_example :
    is_used (new_index sample none) Kind.receiver (id_of "zombie")
    ≡ is_referenced sample none Kind.receiver (id_of "zombie")
is_used-new_index_example = is_used-new_index sample none Kind.receiver (id_of "zombie")

abbrev zombie_finding : Finding
zombie_finding = unused_finding Kind.receiver zombie

unused_component_iff_example : In zombie_finding (unused_component (context_of sample none)) ↔ (
    (is_nil sample.service.node ≡ false)
    × ((k : Kind) × (c : Component) × IsUnused sample none k c
        × (zombie_finding ≡ unused_finding k c)))
unused_component_iff_example = unused_component_iff sample none zombie_finding

abbrev undefined_finding : Finding
undefined_finding =
    undefined_slot_finding (context_of sample none) traces_pipeline Kind.exporter
      (ref_to 12 "debugg" "service.pipelines.traces.exporters[0]")

undefined_reference_iff_example :
    In undefined_finding (undefined_reference (context_of sample none)) ↔ (
      ((r : Ref) × IsUndefinedExtension sample r
        × (undefined_finding ≡ undefined_extension_finding (context_of sample none) r))
      ⊎ ((p : Pipeline) × (slot : Kind) × (r : Ref) × IsUndefinedSlot sample p slot r
          × (undefined_finding ≡ undefined_slot_finding (context_of sample none) p slot r)))
undefined_reference_iff_example = undefined_reference_iff sample none undefined_finding

processor_order-nil_example :
    (processor_order (context_of sample none) ≡ []) ↔ All IsOrdered sample.service.pipelines
processor_order-nil_example = processor_order-nil (context_of sample none)

abbrev otlp_twice : List Ref
otlp_twice =
    ref_to 10 "otlp" "service.pipelines.traces.receivers[0]"
    ∷ ref_to 10 "otlp" "service.pipelines.traces.receivers[1]"
    ∷ []

duplicates_of_slot_example :
    duplicates_of traces_pipeline Kind.receiver [] otlp_twice
    ≡ map (listed_twice traces_pipeline Kind.receiver) (repeats [] otlp_twice)
duplicates_of_slot_example = duplicates_of_slot traces_pipeline Kind.receiver otlp_twice

edit_distance_least_example :
    Edits (codes "oltp") (codes "otlp") (edit_distance (codes "oltp") (codes "otlp"))
    × ((n : ℕ)
        → Edits (codes "oltp") (codes "otlp") n
        → edit_distance (codes "oltp") (codes "otlp") ≤ n)
edit_distance_least_example = edit_distance_least (codes "oltp") (codes "otlp")

abbrev signal_names : List String
signal_names = "traces" ∷ "metrics" ∷ "logs" ∷ []

abbrev limiter : List String
limiter = "memory_limiter" ∷ []

abbrev passing : List String
passing = "forward" ∷ "routing" ∷ []

-- the sample's one pipeline has its receivers behind a memory_limiter
sample_is_covered :
    upstream_covered (new_index sample none) limiter passing traces_pipeline ≡ some true
unfolding upstream_covered has_processor resolve_ref sample new_index entries_of section_kind
    has_dynamic is_expansion id_text parse_id trim_space cut resolve_in declarations extension_refs
sample_is_covered = refl

traces-In-sample : In traces_pipeline sample.service.pipelines
traces-In-sample = subst (λ ps. In traces_pipeline ps) (sym sample_pipelines) (inl refl)

is_traces : (p : Pipeline) → In p sample.service.pipelines → p ≡ traces_pipeline
is_traces p i = elim (subst (λ ps. In p ps) sample_pipelines i) [ inl e ↦ e | inr n ↦ absurd n ]

upstream_covered_sound_example :
    IsCovered (new_index sample none) limiter passing traces_pipeline false
upstream_covered_sound_example =
    upstream_covered_sound sample none limiter passing traces_pipeline
      (λ a b i j k. is_traces a i ∙ sym (is_traces b j)) traces-In-sample sample_is_covered

upstream_covered_total_example :
    (b : Bool) × (upstream_covered (new_index sample none) limiter passing traces_pipeline ≡ some b)
upstream_covered_total_example =
    upstream_covered_total sample none limiter passing traces_pipeline traces-In-sample

sample_has_limiter : missing_memory_limiter (context_of sample none) ≡ []
unfolding missing_memory_limiter has_processor_type upstream_covered sample new_index entries_of
    section_kind is_expansion parse_id trim_space cut has_dynamic_refs
sample_has_limiter = refl

static_processors : is_expansion traces_pipeline.processors_node ≡ false
unfolding is_expansion
static_processors = refl

named_processors : has_dynamic_refs traces_pipeline.processors ≡ false
unfolding has_dynamic_refs id_text has_expansion
named_processors = refl

missing_memory_limiter_nil_example :
    (has_processor_type traces_pipeline "memory_limiter" ≡ true)
    ⊎ IsCovered (new_index sample none) limiter passing traces_pipeline false
missing_memory_limiter_nil_example =
    missing_memory_limiter_nil sample none traces_pipeline
      (λ a b i j k. is_traces a i ∙ sym (is_traces b j)) sample_has_limiter traces-In-sample
      static_processors named_processors refl

sample_has_service : service_required (context_of sample none) ≡ []
unfolding service_required sample entries_of section_kind is_expansion parse_id trim_space cut
sample_has_service = refl

sample_has_slots : empty_pipeline (context_of sample none) ≡ []
unfolding empty_pipeline sample entries_of section_kind is_expansion parse_id trim_space cut
sample_has_slots = refl

static_service : is_expansion sample.service.node ≡ false
unfolding sample entries_of section_kind is_expansion
static_service = refl

static_pipelines : is_expansion sample.service.pipelines_node ≡ false
unfolding sample entries_of section_kind is_expansion
static_pipelines = refl

HasEnds-of_silence_example :
    ((length sample.service.pipelines == 0) ≡ false) × All HasEnds sample.service.pipelines
HasEnds-of_silence_example =
    HasEnds-of_silence (context_of sample none) sample_has_service sample_has_slots static_service
      static_pipelines

forward_found : wired_sample.sections Kind.connector ≡ some forward_section
unfolding wired_sample entries_of section_kind parse_id trim_space cut
forward_found = refl

wired_present : is_nil wired_sample.service.node ≡ false
unfolding wired_sample entries_of section_kind
wired_present = refl

wired_is_quiet : connector_wiring (context_of wired_sample none) ≡ []
unfolding connector_wiring wired_sample new_index entries_of section_kind parse_id trim_space cut
    resolve_in declarations extension_refs id_text has_expansion resolve_alias
wired_is_quiet = refl

connector_wiring-nil_example :
    (connector_wiring (context_of wired_sample none) ≡ [])
    ↔ All (IsWired (new_index wired_sample none)) forward_section.components
connector_wiring-nil_example =
    connector_wiring-nil (context_of wired_sample none) forward_section forward_found wired_present
