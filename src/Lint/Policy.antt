-- ===== src/Lint/Policy.antt =====
-- pkg/lint/linter.go and policy.go: which level a rule reports at, for all files and for one.
use otelcol_config_lint.Base.{
  Bool, List, Option, String, [], false, if◌then◌else◌, is_nil, nat_eq, none, refl, some, string_eq,
  true, ◌&&◌, ◌==◌, ◌≡◌,
}
use otelcol_config_lint.Diag.{Severity, severity_eq}
use otelcol_config_lint.Lint.Model.{Linter, Options}
use otelcol_config_lint.Rule.Context.{Context, Environment, Rule, no_environment, run}
use otelcol_config_lint.Ruleset.{Levels, write}
use otelcol_config_lint.Schema.{Schema}

abbrev or_level : Severity → Severity → Severity
or_level s default = if s == Severity.unset then default else s

abbrev empty_schema : Schema
empty_schema = record {
  collector_version = "";
  distribution = "";
  decoder = none;
  components = λ _. [];
}

abbrev or_else {ℓ} : {A : Type ℓ} → Option A → A → A
or_else none a = a
or_else (some b) a = b

-- the levels, where a missing schema is not to fail a file
abbrev lenient : Bool → Levels → Levels
lenient ignore levels =
    if ignore && is_nil (levels "unknown-component")
    then write levels "unknown-component" Severity.off
    else levels

-- `New`; `all` is `ruleset.All()`
unfoldable pub new_linter : List Rule → Options → Linter
new_linter all o = record {
  opts = record o {
    min_severity = or_level o.min_severity Severity.info;
    fail_on = or_level o.fail_on Severity.error;
    severities = lenient o.ignore_missing_schemas o.severities;
  };
  schema = or_else o.schema empty_schema;
  rules = or_else o.rules all;
}

-- `SeverityFor`
unfoldable pub severity_for : Linter → Rule → Severity
severity_for l r = elim (l.opts.severities r.name) [ some s ↦ s | none ↦ r.severity ]

abbrev pub is_off : Option Severity → Bool
is_off (some Severity.off) = true
is_off _ = false

-- the entries that the loop leaves in `explicit`
abbrev pub allowed : Levels → Levels → Levels
allowed global explicit name = if is_off (global name) then none else explicit name

-- the levels behind the loop: each name is read and written on its own
abbrev pub overlaid : Levels → Levels → Levels
overlaid global explicit name = elim (allowed global explicit name) [
  | some s ↦ some s
  | none ↦ global name
]

-- The linter for one file, and the levels that the policy sets there.
pub record Local : Type 0 where
  pub linter : Linter
  pub explicit : Levels

unfoldable pub for_policy : Linter → String → Option (String → Levels) → Local
for_policy l path none = record { linter = l; explicit = λ _. none }
for_policy l path (some policy) = record {
  linter = record l {
    opts = record l.opts { severities = overlaid l.opts.severities (policy path) };
  };
  explicit = allowed l.opts.severities (policy path);
}

-- `forPath`
unfoldable pub for_path : Linter → String → Local
unfolding for_policy
for_path l path = for_policy l path l.opts.rule_policy

-- `environment`
unfoldable pub environment : Linter → String → Environment
environment l path = elim l.opts.environment [ none ↦ no_environment | some resolve ↦ resolve path ]

for_policy-off :
    (l : Linter) (path : String) (r : Rule) (policy : Option (String → Levels))
    → l.opts.severities r.name ≡ some Severity.off
    → (severity_for (for_policy l path policy).linter r ≡ Severity.off)
      × ((for_policy l path policy).explicit r.name ≡ none)
unfolding for_policy severity_for
for_policy-off l path r none h = (rw (h, severity_for) refl, refl)
for_policy-off l path r (some policy) h = (rw (h, severity_for, h) refl, rw h refl)

run-off : (r : Rule) (ctx : Context) (s : Severity) → s ≡ Severity.off → run r ctx s ≡ []
unfolding run
run-off r ctx s e = rw e refl

-- A rule that the global selection turns off reports nothing in any file, whatever the policy of a
-- file sets for it, and the policy's level for it is dropped.
pub for_path_keeps_off :
    (l : Linter) (path : String) (r : Rule) (ctx : Context)
    → l.opts.severities r.name ≡ some Severity.off
    → (run r ctx (severity_for (for_path l path).linter r) ≡ [])
      × ((for_path l path).explicit r.name ≡ none)
unfolding for_path
for_path_keeps_off l path r ctx h =
    let (level, dropped) = for_policy-off l path r l.opts.rule_policy h in
    (run-off r ctx (severity_for (for_path l path).linter r) level, dropped)
