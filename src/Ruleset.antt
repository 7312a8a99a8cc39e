-- ===== src/Ruleset.antt =====
-- pkg/ruleset: the registry of rules, and which rules run at which level.
pub mod Precedence
mod Examples
use otelcol_config_lint.Base.{
  List, Option, String, [], if◌then◌else◌, nat_eq, none, not, some, string_eq, ◌==◌, ◌||◌, ◌∷◌,
}
use otelcol_config_lint.Base.Text.{cut, Cut}
use otelcol_config_lint.Diag.{
  Severity, error, info, off, parse_severity, severity_eq, text_lt, warning,
}
use otelcol_config_lint.Sets.{intersection, new}

-- What the selection reads of a rule.
pub record Registered : Type 0 where
  pub name : String
  pub severity : Severity

abbrev rule_at : String → Severity → Registered
rule_at name severity = record { name = name; severity = severity }

-- `All`, sorted by name
abbrev pub all_rules : List Registered
all_rules =
    rule_at "batch-size-bounds" Severity.error
    ∷ rule_at "component-stability" Severity.info
    ∷ rule_at "connector-wiring" Severity.error
    ∷ rule_at "debug-exporter-verbosity" Severity.warning
    ∷ rule_at "debug-extension-exposed" Severity.warning
    ∷ rule_at "deprecated-component" Severity.warning
    ∷ rule_at "deprecated-field" Severity.warning
    ∷ rule_at "deprecated-telemetry-key" Severity.warning
    ∷ rule_at "duplicate-key" Severity.error
    ∷ rule_at "duplicate-reference" Severity.warning
    ∷ rule_at "empty-pipeline" Severity.error
    ∷ rule_at "hardcoded-secret" Severity.warning
    ∷ rule_at "insecure-tls" Severity.warning
    ∷ rule_at "invalid-component-id" Severity.error
    ∷ rule_at "invalid-pipeline-key" Severity.error
    ∷ rule_at "invalid-value" Severity.error
    ∷ rule_at "memory-limiter-config" Severity.error
    ∷ rule_at "memory-limiter-sizing" Severity.warning
    ∷ rule_at "missing-batch" Severity.info
    ∷ rule_at "missing-memory-limiter" Severity.info
    ∷ rule_at "no-persistent-queue" Severity.info
    ∷ rule_at "processor-order" Severity.warning
    ∷ rule_at "receiver-binds-all-interfaces" Severity.warning
    ∷ rule_at "required-field" Severity.error
    ∷ rule_at "service-required" Severity.error
    ∷ rule_at "signal-support" Severity.error
    ∷ rule_at "telemetry-metrics-disabled" Severity.info
    ∷ rule_at "undefined-extension-reference" Severity.error
    ∷ rule_at "undefined-reference" Severity.error
    ∷ rule_at "unknown-component" Severity.error
    ∷ rule_at "unknown-field" Severity.warning
    ∷ rule_at "unknown-pipeline-key" Severity.error
    ∷ rule_at "unknown-service-key" Severity.error
    ∷ rule_at "unknown-top-level-key" Severity.error
    ∷ rule_at "unused-component" Severity.warning
    ∷ rule_at "wrong-node-type" Severity.error
    ∷ []

-- the loop of `Lookup`
unfoldable pub lookup_in : List Registered → String → Option Registered
lookup_in [] name = none
lookup_in (r ∷ rs) name = if r.name == name then some r else lookup_in rs name

-- `Selection`; the settings blocks of the rules are not part of it here.
pub record Selection : Type 0 where
  pub default : String
  pub enable : List String
  pub disable : List String
  pub severity : List String

pub data SelectionError : Type 0 where
  unknown_default : String → SelectionError
  enabled_and_disabled : String → SelectionError
  unknown_enable : String → SelectionError
  unknown_disable : String → SelectionError
  bad_severity_pair : String → SelectionError
  unknown_severity_rule : String → SelectionError
  unknown_severity : String → String → SelectionError

pub data Result (A : Type 0) : Type 0 where
  ok : A → Result A
  failed : SelectionError → Result A

abbrev pub then_with : {A : Type 0} {B : Type 0} → Result A → (A → Result B) → Result B
then_with (ok a) f = f a
then_with (failed e) f = failed e

-- `map[string]diag.Severity`: the function that looks a name up
abbrev pub Levels : Type 0
Levels = String → Option Severity

abbrev pub write : Levels → String → Severity → Levels
write out name severity asked = if asked == name then some severity else out asked

-- the loop over `All()` for the set that starts with no rule
pub all_off : List Registered → Levels → Levels
all_off [] out = out
all_off (r ∷ rs) out = all_off rs (write out r.name Severity.off)

unfoldable pub start : List Registered → String → Result Levels
unfolding all_off
start all default =
    if default == "" || default == "all"
    then ok (λ _. none)
    else if default == "none"
    then ok (all_off all (λ _. none))
    else failed (unknown_default default)

-- `sets.List(both)[0]`: the least name of a list that has one
abbrev least : String → List String → String
least name [] = name
least name (n ∷ ns) = least (if text_lt n name then n else name) ns

pub check_both : List String → Result Unit
check_both [] = ok tt
check_both (n ∷ ns) = failed (enabled_and_disabled (least n ns))

pub enable_all : List Registered → List String → Levels → Result Levels
unfolding lookup_in
enable_all all [] out = ok out
enable_all all (name ∷ rest) out = elim (lookup_in all name) [
  | none ↦ failed (unknown_enable name)
  | some r ↦ enable_all all rest (write out name r.severity)
]

pub disable_all : List Registered → List String → Levels → Result Levels
unfolding lookup_in
disable_all all [] out = ok out
disable_all all (name ∷ rest) out = elim (lookup_in all name) [
  | none ↦ failed (unknown_disable name)
  | some r ↦ disable_all all rest (write out name Severity.off)
]

-- one pair of the form rule=level
pub apply_pair : List Registered → String → Levels → Result Levels
unfolding lookup_in cut parse_severity
apply_pair all pair out =
    let parts = cut b'=' pair in
    if not parts.found then failed (bad_severity_pair pair) else elim (lookup_in all parts.before) [
      | none ↦ failed (unknown_severity_rule parts.before)
      | some r ↦ elim (parse_severity parts.after) [
        | none ↦ failed (unknown_severity parts.before parts.after)
        | some level ↦ ok (write out parts.before level)
      ]
    ]

-- `applyLevels`
unfoldable pub apply_levels : List Registered → List String → Levels → Result Levels
unfolding apply_pair
apply_levels all [] out = ok out
apply_levels all (pair ∷ rest) out = then_with (apply_pair all pair out) (apply_levels all rest)

-- `severities`, over the registered rules
unfoldable pub severities : List Registered → Selection → Result Levels
unfolding start check_both enable_all disable_all apply_levels
severities all sel = then_with (start all sel.default) (λ out.
    then_with (check_both (intersection (new sel.enable) (new sel.disable))) (λ _.
      then_with (enable_all all sel.enable out) (λ enabled.
        then_with (disable_all all sel.disable enabled) (apply_levels all sel.severity))))
