-- ===== src/Diag/Examples.antt =====
-- Runs and witnesses for the diagnostics.

use mathlib.Core.List.{Perm}
use otelcol_config_lint.Base.{List, String, [], refl, some, ℕ, ◌↔◌, ◌∷◌, ◌≡◌, ◌≢◌}
use otelcol_config_lint.Base.Text.{codes, to_lower, trim_space}
use otelcol_config_lint.Diag.{Diagnostic, Severity, parse_severity, severity_text, sort}
use otelcol_config_lint.Diag.Levels.{parse_severity_iff}
use otelcol_config_lint.Diag.Order.{Key}
use otelcol_config_lint.Diag.Sorting.{IsSorted, at_key, sort_lem}

abbrev at : ℕ → String → String → Diagnostic
at line rule message = record {
  rule = rule;
  severity = Severity.error;
  message = message;
  position = record { file = "collector.yaml"; line = line; column = 1 };
  path = "";
  hint = "";
  docs = "";
}

abbrev found : List Diagnostic
found = at 7 "unknown-field" "first" ∷ at 2 "empty-pipeline" "" ∷ at 7 "unknown-field" "second" ∷ []

sort_found :
    sort found
    ≡ at 2 "empty-pipeline" "" ∷ at 7 "unknown-field" "first" ∷ at 7 "unknown-field" "second" ∷ []
unfolding sort
sort_found = refl

sort_lem_example :
    IsSorted (sort found)
    × Perm (sort found) found
    × ((k : Key) → at_key k (sort found) ≡ at_key k found)
sort_lem_example = sort_lem found

parse_severity_iff_example : (parse_severity " Warning" ≡ some Severity.warning) ↔ (
    (Severity.warning ≢ Severity.unset)
    × (to_lower (trim_space " Warning") ≡ codes (severity_text Severity.warning)))
parse_severity_iff_example = parse_severity_iff " Warning" Severity.warning
