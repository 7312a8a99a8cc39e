-- ===== src/Config/File.antt =====
-- pkg/config/parse.go: how the parsed config is read off the resolved root mapping.
mod Model
unfoldable pub use Model.{refs_of, position, setting, component}
pub use Model.{Component, Section, Ref, TelemetrySignal, Telemetry, Pipeline, Service, File}
use otelcol_config_lint.Base.{
  List, Option, String, [], if◌then◌else◌, map, nat_eq, none, not, some, string_eq, ℕ, ◌++◌, ◌+◌,
  ◌==◌, ◌∷◌,
}
use otelcol_config_lint.Config.Entries.{Entry, entries_of, index_path}
use otelcol_config_lint.Config.Id.{Kind, id_eq, kind_eq, parse_id, section_kind}
use otelcol_config_lint.Yaml.{Node, is_scalar, sequence, to_list, value_of}

components_in : Kind → List Entry → List Component
components_in k [] = []
components_in k (c ∷ rest) =
    record { id = parse_id c.key; kind = k; key_node = c.key_node; value_node = c.node }
    ∷ components_in k rest

unfoldable pub parse_section : Kind → Entry → Section
unfolding components_in
parse_section k e = record {
  kind = k;
  key_node = e.key_node;
  node = e.node;
  components = components_in k (entries_of e.node e.path);
}

-- the loop of `refs`: only scalars are references, and each is counted
refs_in : String → ℕ → List Node → List Ref
refs_in path i [] = []
refs_in path i (item ∷ rest) =
    let more = refs_in path (i + 1) rest in
    let ref : Ref = record {
      id = parse_id (value_of item);
      node = item;
      path = index_path path i;
    } in
    if not (is_scalar item) then more else ref ∷ more

unfoldable pub refs : Node → String → List Ref
unfolding refs_in
refs (sequence _ ns) path = refs_in path 0 (to_list ns)
refs _ path = []

unfoldable pub telemetry_signal : Entry → TelemetrySignal
telemetry_signal e = record {
  key = e.key;
  key_node = e.key_node;
  node = e.node;
  settings = entries_of e.node e.path;
}

-- one round of each loop, and the loop
telemetry_step : Telemetry → Entry → Telemetry
unfolding telemetry_signal
telemetry_step tel sub =
    if sub.key == "logs"
    then record tel { logs = some (telemetry_signal sub) }
    else if sub.key == "metrics"
    then record tel { metrics = some (telemetry_signal sub) }
    else if sub.key == "traces"
    then record tel { traces = some (telemetry_signal sub) }
    else record tel { other = tel.other ++ sub ∷ [] }

abbrev no_telemetry : Telemetry
no_telemetry = record {
  key_node = none;
  node = none;
  logs = none;
  metrics = none;
  traces = none;
  other = [];
}

abbrev pub each {ℓ κ} : {S : Type ℓ} {A : Type κ} → (S → A → S) → S → List A → S
each step s [] = s
each step s (x ∷ xs) = each step (step s x) xs

unfoldable pub parse_telemetry : Entry → Telemetry
unfolding telemetry_step
parse_telemetry e =
    each telemetry_step (record no_telemetry { key_node = some e.key_node; node = some e.node })
      (entries_of e.node e.path)

pipeline_step : Pipeline → Entry → Pipeline
pipeline_step p sub =
    if sub.key == "receivers"
    then record p { receivers_node = some sub.node; receivers = refs sub.node sub.path }
    else if sub.key == "processors"
    then record p { processors_node = some sub.node; processors = refs sub.node sub.path }
    else if sub.key == "exporters"
    then record p { exporters_node = some sub.node; exporters = refs sub.node sub.path }
    else record p { unknown = p.unknown ++ sub ∷ [] }

unfoldable pub parse_pipeline : Entry → Pipeline
unfolding pipeline_step
parse_pipeline e =
    let id = parse_id e.key in
    each pipeline_step
      (record {
        key = e.key;
        signal = id.type;
        name = id.name;
        key_node = e.key_node;
        node = e.node;
        receivers = [];
        processors = [];
        exporters = [];
        receivers_node = none;
        processors_node = none;
        exporters_node = none;
        unknown = [];
      })
      (entries_of e.node e.path)

service_step : Service → Entry → Service
service_step s sub =
    if sub.key == "extensions"
    then record s { extensions_node = some sub.node; extensions = refs sub.node sub.path }
    else if sub.key == "telemetry"
    then record s { telemetry = parse_telemetry sub }
    else if sub.key == "pipelines"
    then record s {
      pipelines_node = some sub.node;
      pipelines = s.pipelines ++ map parse_pipeline (entries_of sub.node sub.path);
    }
    else record s { unknown = s.unknown ++ sub ∷ [] }

abbrev no_service : Service
no_service = record {
  key_node = none;
  node = none;
  extensions = [];
  extensions_node = none;
  pipelines = [];
  pipelines_node = none;
  telemetry = no_telemetry;
  unknown = [];
}

unfoldable pub parse_service : Entry → Service
unfolding service_step parse_telemetry parse_pipeline refs
parse_service e =
    each service_step (record no_service { key_node = some e.key_node; node = some e.node })
      (entries_of e.node e.path)

-- `f.Sections[kind] = s`
abbrev with_section : (Kind → Option Section) → Kind → Section → Kind → Option Section
with_section sections kind s k = if k == kind then some s else sections k

-- one round of the loop over the root's entries
file_step : File → Entry → File
file_step f e = elim (section_kind e.key) [
  | some kind ↦ record f { sections = with_section f.sections kind (parse_section kind e) }
  | none ↦
      if e.key == "service"
      then record f { service = parse_service e }
      else record f { unknown = f.unknown ++ e ∷ [] }
]

abbrev empty_file : String → File
empty_file path = record {
  path = path;
  root = none;
  sections = λ _. none;
  service = no_service;
  unknown = [];
  duplicate_keys = [];
}

-- The end of `Parse`: the root is a mapping whose aliases and merge keys are resolved.
unfoldable pub read_file : String → List Entry → Node → File
unfolding file_step parse_section parse_service
read_file path duplicates root =
    each file_step (record (empty_file path) { root = some root; duplicate_keys = duplicates })
      (entries_of root "")
