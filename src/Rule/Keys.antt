-- ===== src/Rule/Keys.antt =====
-- The rules of the packages duplicatekey, unknownpipelinekey, unknownservicekey and unknowntoplevelkey.
use otelcol_config_lint.Base.{List, String, [], for_each, map, some, ◌∷◌}
use otelcol_config_lint.Base.Text.{concat}
use otelcol_config_lint.Config.Entries.{Entry}
use otelcol_config_lint.Config.File.{Pipeline}
use otelcol_config_lint.Rule.Context.{Context, Finding, finding}
use otelcol_config_lint.Rule.Words.{list, quote, suggest}

abbrev pub duplicate_finding : Entry → Finding
duplicate_finding e =
    finding (some e.key_node) e.path
      (concat ("duplicate key " ∷ quote e.key ∷ "; the earlier value is discarded" ∷ []))

-- `Check` of duplicate-key
unfoldable pub duplicate_key : Context → List Finding
unfolding quote
duplicate_key ctx = map duplicate_finding ctx.file.duplicate_keys

abbrev pub unknown_key : String → Entry → String → Finding
unknown_key message e hint = record (finding (some e.key_node) e.path message) { hint = hint }

abbrev pub pipeline_keys : List String
pipeline_keys = "receivers" ∷ "processors" ∷ "exporters" ∷ []

abbrev pub unknown_in_pipeline : Pipeline → Entry → Finding
unknown_in_pipeline p e =
    unknown_key (concat ("unknown key " ∷ quote e.key ∷ " in pipeline " ∷ quote p.key ∷ [])) e (
      concat
        ("pipelines accept receivers, processors and exporters" ∷ suggest e.key pipeline_keys ∷ []))

-- `Check` of unknown-pipeline-key
unfoldable pub unknown_pipeline_key : Context → List Finding
unfolding quote suggest
unknown_pipeline_key ctx =
    for_each ctx.file.service.pipelines (λ (p : Pipeline). map (unknown_in_pipeline p) p.unknown)

abbrev pub service_keys : List String
service_keys = "extensions" ∷ "pipelines" ∷ "telemetry" ∷ []

abbrev pub unknown_in_service : Entry → Finding
unknown_in_service e = unknown_key (concat ("unknown key " ∷ quote e.key ∷ " in service" ∷ [])) e (
    concat
      ("service accepts extensions, pipelines and telemetry" ∷ suggest e.key service_keys ∷ []))

-- `Check` of unknown-service-key
unfoldable pub unknown_service_key : Context → List Finding
unfolding quote suggest
unknown_service_key ctx = map unknown_in_service ctx.file.service.unknown

abbrev pub top_level_keys : List String
top_level_keys =
    "connectors" ∷ "exporters" ∷ "extensions" ∷ "processors" ∷ "receivers" ∷ "service" ∷ []

abbrev pub unknown_at_top : Entry → Finding
unknown_at_top e =
    unknown_key (concat ("unknown top-level key " ∷ quote e.key ∷ [])) e
      (concat ("valid top-level keys: " ∷ list top_level_keys ∷ suggest e.key top_level_keys ∷ []))

-- `Check` of unknown-top-level-key
unfoldable pub unknown_top_level_key : Context → List Finding
unfolding quote suggest list
unknown_top_level_key ctx = map unknown_at_top ctx.file.unknown
