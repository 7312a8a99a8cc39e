-- ===== src/Rule/Sample.antt =====
-- A config that the runs of the rules read:
--
--   receivers: {otlp: , zombie: }
--   processors: {batch: , memory_limiter: }
--   exporters: {debug: }
--   service:
--     pipelines:
--       traces:
--         receivers: [otlp, otlp]
--         processors: [batch, memory_limiter]
--         exporters: [debugg]
use otelcol_config_lint.Base.{List, String, [], false, none, some, ℕ, ◌∷◌}
use otelcol_config_lint.Config.Id.{ComponentId, Kind}
use otelcol_config_lint.Config.File.{Section, Component, File, Pipeline, Ref, read_file}
use otelcol_config_lint.Rule.Settings.Library.{Scalars}
use otelcol_config_lint.Yaml.{Attrs, Node, Nodes, scalar, mapping, sequence, nil, cons}

abbrev at_line : ℕ → String → String → Attrs
at_line line tag value = record {
  tag = tag;
  value = value;
  line = line;
  column = 1;
  tagged = false;
  literal = false;
}

abbrev pub text : ℕ → String → Node
text line value = scalar (at_line line "!!str" value)

abbrev pub null : ℕ → Node
null line = scalar (at_line line "!!null" "")

abbrev pub pair : Node → Node → Nodes → Nodes
pair k v rest = cons k (cons v rest)

abbrev pub map_of : ℕ → Nodes → Node
map_of line ns = mapping (at_line line "!!map" "") ns

abbrev pub texts : ℕ → List String → Nodes
texts line [] = nil
texts line (t ∷ ts) = cons (text line t) (texts line ts)

abbrev pub list_of : ℕ → List String → Node
list_of line ts = sequence (at_line line "!!seq" "") (texts line ts)

abbrev pub declared : ℕ → List String → Nodes
declared line [] = nil
declared line (t ∷ ts) = pair (text line t) (null line) (declared line ts)

abbrev traces : Node
traces = map_of 10 (
    pair (text 10 "receivers") (list_of 10 ("otlp" ∷ "otlp" ∷ [])) (
      pair (text 11 "processors") (list_of 11 ("batch" ∷ "memory_limiter" ∷ []))
        (pair (text 12 "exporters") (list_of 12 ("debugg" ∷ [])) nil)))

abbrev pub root : Node
root = map_of 1 (
    pair (text 1 "receivers") (map_of 2 (declared 2 ("otlp" ∷ "zombie" ∷ []))) (
      pair (text 3 "processors") (map_of 4 (declared 4 ("batch" ∷ "memory_limiter" ∷ []))) (
        pair (text 5 "exporters") (map_of 6 (declared 6 ("debug" ∷ []))) (
          pair (text 7 "service")
            (map_of 8
              (pair (text 8 "pipelines") (map_of 9 (pair (text 9 "traces") traces nil)) nil))
            nil))))

unfoldable pub sample : File
unfolding read_file
sample = read_file "collector.yaml" [] root

abbrev pub id_of : String → ComponentId
id_of type = record { type = type; name = "" }

abbrev pub zombie : Component
zombie = record {
  id = id_of "zombie";
  kind = Kind.receiver;
  key_node = text 2 "zombie";
  value_node = null 2;
}

abbrev pub debug : Component
debug = record {
  id = id_of "debug";
  kind = Kind.exporter;
  key_node = text 6 "debug";
  value_node = null 6;
}

abbrev pub ref_to : ℕ → String → String → Ref
ref_to line type path = record { id = id_of type; node = text line type; path = path }

abbrev pub traces_pipeline : Pipeline
traces_pipeline = record {
  key = "traces";
  signal = "traces";
  name = "";
  key_node = text 9 "traces";
  node = traces;
  receivers =
      ref_to 10 "otlp" "service.pipelines.traces.receivers[0]"
      ∷ ref_to 10 "otlp" "service.pipelines.traces.receivers[1]"
      ∷ [];
  processors =
      ref_to 11 "batch" "service.pipelines.traces.processors[0]"
      ∷ ref_to 11 "memory_limiter" "service.pipelines.traces.processors[1]"
      ∷ [];
  exporters = ref_to 12 "debugg" "service.pipelines.traces.exporters[0]" ∷ [];
  receivers_node = some (list_of 10 ("otlp" ∷ "otlp" ∷ []));
  processors_node = some (list_of 11 ("batch" ∷ "memory_limiter" ∷ []));
  exporters_node = some (list_of 12 ("debugg" ∷ []));
  unknown = [];
}

-- connectors: {forward: }, fed by the pipeline traces/in and consumed by traces/out
abbrev ends : String → String → Node
ends receiver exporter = map_of 5 (
    pair (text 5 "receivers") (list_of 5 (receiver ∷ []))
      (pair (text 5 "exporters") (list_of 5 (exporter ∷ [])) nil))

abbrev wired_root : Node
wired_root = map_of 1 (
    pair (text 1 "connectors") (map_of 2 (declared 2 ("forward" ∷ []))) (
      pair (text 3 "service")
        (map_of 4 (
          pair (text 4 "pipelines")
            (map_of 5 (
              pair (text 5 "traces/in") (ends "otlp" "forward")
                (pair (text 6 "traces/out") (ends "forward" "debug") nil)))
            nil))
        nil))

unfoldable pub wired_sample : File
unfolding read_file
wired_sample = read_file "collector.yaml" [] wired_root

abbrev pub forward_section : Section
forward_section = record {
  kind = Kind.connector;
  key_node = text 1 "connectors";
  node = map_of 2 (declared 2 ("forward" ∷ []));
  components =
      record {
        id = id_of "forward";
        kind = Kind.connector;
        key_node = text 2 "forward";
        value_node = null 2;
      }
      ∷ [];
}

-- readers that accept nothing
abbrev pub strict_scalars : Scalars
strict_scalars = record {
  decode_int = λ _. none;
  decode_float = λ _. none;
  decode_bool = λ _. none;
  parse_int = λ _. none;
  parse_uint32 = λ _. none;
  parse_float = λ _. none;
  parse_bool = λ _. none;
  format_float = λ _. "";
  parse_duration = λ _. none;
  duration_text = λ _. "";
  tenths = λ _ _. "";
}
