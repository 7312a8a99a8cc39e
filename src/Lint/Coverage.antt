-- ===== src/Lint/Coverage.antt =====
-- pkg/lint/coverage.go: which settings of a file the field rules could check.
use otelcol_config_lint.Base.{
  Bool, List, Option, String, [], append_if, for_each, if◌then◌else◌, is_empty, is_nil, ltb, nat_eq,
  none, not, some, string_eq, suc, zero, ℕ, ◌&&◌, ◌++◌, ◌+◌, ◌==◌, ◌||◌, ◌∷◌,
}
use otelcol_config_lint.Config.Entries.{index_path, join}
use otelcol_config_lint.Diag.{Severity, severity_eq}
use otelcol_config_lint.Lint.Model.{
  Coverage, CoverageSkip, CoverageStatus, Linter, Result, complete, is_complete, not_checked,
  partial,
}
use otelcol_config_lint.Lint.Policy.{severity_for}
use otelcol_config_lint.Rule.Context.{Context, Rule, schema_ready}
use otelcol_config_lint.Rule.Fields.{Event, on_skipped, walk_components}
use otelcol_config_lint.Rule.Node.{has_expansion, max_settings_depth}
use otelcol_config_lint.Rule.Settings.Library.{Scalars}
use otelcol_config_lint.Schema.{Schema, count}
use otelcol_config_lint.Schema.Decoding.{scalar_decoding}
use otelcol_config_lint.Yaml.{Node, Nodes, alias, cons, mapping, nil, scalar, sequence, value_of}

abbrev skip : String → String → CoverageSkip
skip path reason = record { path = path; reason = reason; block = "" }

-- `runtimeValues`: the aliases that may still be followed, and the levels that are left
unfoldable mutual
  unfolding has_expansion join index_path

  pub runtime_values : ℕ → ℕ → Node → String → List CoverageSkip
  runtime_values zero levels (alias _ _) path = skip path "unresolved_structure" ∷ []
  runtime_values (suc left) levels (alias _ n) path = runtime_values left levels n path
  runtime_values left zero (scalar _) path = skip path "unresolved_structure" ∷ []
  runtime_values left zero (mapping _ _) path = skip path "unresolved_structure" ∷ []
  runtime_values left zero (sequence _ _) path = skip path "unresolved_structure" ∷ []
  runtime_values left (suc levels) (scalar a) path =
      append_if (has_expansion a.value) (skip path "runtime_value")
  runtime_values left (suc levels) (mapping _ ns) path = runtime_entries levels ns path
  runtime_values left (suc levels) (sequence _ ns) path = runtime_items levels ns path 0

  pub runtime_entries : ℕ → Nodes → String → List CoverageSkip
  runtime_entries levels nil path = []
  runtime_entries levels (cons k nil) path = []
  runtime_entries levels (cons k (cons v rest)) path =
      runtime_values max_settings_depth levels v (join path (value_of k))
      ++ runtime_entries levels rest path

  pub runtime_items : ℕ → Nodes → String → ℕ → List CoverageSkip
  runtime_items levels nil path i = []
  runtime_items levels (cons n rest) path i =
      runtime_values max_settings_depth levels n (index_path path i)
      ++ runtime_items levels rest path (i + 1)

abbrev is_field_rule : String → Bool
is_field_rule name =
    name == "unknown-field"
    || name == "required-field"
    || name == "invalid-value"
    || name == "deprecated-field"

-- the field rules of a linter that are not off
unfoldable pub field_rules : Linter → List Rule → List String
unfolding severity_for
field_rules l [] = []
field_rules l (r ∷ rs) =
    append_if (is_field_rule r.name && not (severity_for l r == Severity.off)) r.name
    ++ field_rules l rs

skip_of : Event → List CoverageSkip
skip_of (on_skipped path reason) = skip path reason ∷ []
skip_of _ = []

abbrev root_values : Option Node → List CoverageSkip
root_values none = []
root_values (some n) = runtime_values max_settings_depth (suc max_settings_depth) n ""

-- what `coverage` appends to `Skipped`, in order
unfoldable pub skipped_of : Scalars → Context → List CoverageSkip
unfolding schema_ready walk_components skip_of scalar_decoding runtime_values
skipped_of lib ctx =
    (if schema_ready ctx
      then for_each (walk_components lib ctx) skip_of
      else skip "" "missing_schema" ∷ [])
    ++ (append_if (is_nil (scalar_decoding ctx.schema) && schema_ready ctx)
          (skip "" "unknown_decoder")
        ++ root_values ctx.file.root)

abbrev distribution_of : Schema → String
distribution_of s = if s.distribution == "" && ltb 0 (count s) then "contrib" else s.distribution

abbrev status_of : Bool → List String → List CoverageSkip → CoverageStatus
status_of ready rules skips =
    if not ready || is_empty rules
    then not_checked
    else if is_empty skips
    then complete
    else partial

-- `coverage`
unfoldable pub coverage : Scalars → Linter → Context → Coverage
unfolding skipped_of field_rules
coverage lib l ctx = record {
  status = status_of (schema_ready ctx) (field_rules l l.rules) (skipped_of lib ctx);
  collector_version = l.schema.collector_version;
  distribution = distribution_of l.schema;
  field_rules = field_rules l l.rules;
  skipped = skipped_of lib ctx;
}

abbrev in_block : String → List CoverageSkip → List CoverageSkip
in_block block [] = []
in_block block (s ∷ ss) = record s { block = block } ∷ in_block block ss

abbrev merged : Option Coverage → Coverage → Coverage
merged none c = c
merged (some old) c = record old {
  skipped = old.skipped ++ c.skipped;
  status = if is_complete c.status then old.status else c.status;
}

-- `addCoverage`
unfoldable pub add_coverage : Result → Option Coverage → String → Result
add_coverage r none block = r
add_coverage r (some c) block = record r {
  coverage = some (merged r.coverage (record c { skipped = in_block block c.skipped }));
}
