-- ===== src/Ruleset/Examples.antt =====
-- Runs and witnesses of the selection.
use otelcol_config_lint.Base.{Option, String, [], none, refl, some, ◌∷◌, ◌≡◌}
use otelcol_config_lint.Sets.{intersection, new}
use otelcol_config_lint.Diag.{Severity}
use otelcol_config_lint.Ruleset.{Levels, Result, Selection, all_rules, failed, ok, severities}
use otelcol_config_lint.Ruleset.Precedence.{chosen_level, severities-chosen_level}

-- Starts from no rule, and gives one that is disabled a level.
abbrev only_unused : Selection
only_unused = record {
  default = "none";
  enable = "unused-component" ∷ "empty-pipeline" ∷ [];
  disable = "missing-batch" ∷ [];
  severity = "missing-batch=error" ∷ "unused-component=info" ∷ [];
}

abbrev level_of : Result Levels → String → Option Severity
level_of (ok out) name = out name
level_of (failed e) name = none

unused_is_info : level_of (severities all_rules only_unused) "unused-component" ≡ some Severity.info
unfolding severities intersection new
unused_is_info = refl

resolved_levels : Levels
resolved_levels = λ name. level_of (severities all_rules only_unused) name

only_unused-ok : severities all_rules only_unused ≡ ok resolved_levels
unfolding severities resolved_levels intersection new
only_unused-ok = refl

severities-chosen_level_example :
    resolved_levels "missing-batch" ≡ chosen_level all_rules only_unused "missing-batch"
severities-chosen_level_example =
    severities-chosen_level all_rules only_unused resolved_levels "missing-batch" only_unused-ok
