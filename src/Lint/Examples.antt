-- ===== src/Lint/Examples.antt =====
-- A run of the linter over the sample, a run of the pool, and witnesses.
use otelcol_config_lint.Base.{
  if◌then◌else◌, ◌==◌, All, ltb, [], ◌∷◌, none, some, true, false, ℕ, refl, ◌≡◌, ◌<◌, ◌⊎◌, Bool,
  List, arith, inl, nat_eq, string_eq,
}
use otelcol_config_lint.Diag.{Severity}
use otelcol_config_lint.Lint.Check.{Host, undecodable, lint_config}
use otelcol_config_lint.Lint.Check.Cancelled.{Stays, lint_config_whole}
use otelcol_config_lint.Lint.Check.Verdict.{HasNames, lint_config-verdict, never, verdict}
use otelcol_config_lint.Lint.Environments.{
  EnvironmentOverride, EnvironmentPolicy, IsFirst, applies, resolve, resolve-IsFirst, resolve_in,
}
use otelcol_config_lint.Scanner.{Globs, path_matches}
use otelcol_config_lint.Lint.Model.{
  Linter, Options, Parsed, Result, Status, bare, failed_with, parsed,
}
use otelcol_config_lint.Lint.Policy.{for_path, for_path_keeps_off, new_linter, severity_for}
use otelcol_config_lint.Lint.Pool.{
  IsFinished, Pool, Reach, Step, begin, close, finish, here, leave, next, put, returned, send,
  start, worker_count,
}
use otelcol_config_lint.Lint.Pool.Complete.{lint_all_complete}
use otelcol_config_lint.Lint.Pool.Progress.{CanStep, lint_all_ends, moves_left}
use otelcol_config_lint.Lint.Summary.{add, failed, no_results, summarize}
use otelcol_config_lint.Rule.Context.{no_environment, Context, context_of, run}
use otelcol_config_lint.Rule.Sample.{sample, strict_scalars}
use otelcol_config_lint.Rule.Usage.{unused_component_rule}
use otelcol_config_lint.Ruleset.{Levels}

abbrev parsed_sample : Parsed
parsed_sample = record { file = sample; head_comments = [] }

abbrev host : Host
host = record {
  parse = λ _ _. parsed parsed_sample;
  decode = λ _. [];
  unmarshal = λ _. undecodable "EOF";
  marshal = λ _. none;
  escaped = λ s. s;
  scalars = strict_scalars;
  ctx_error = "context canceled";
}

abbrev unused_off : Levels
unused_off name = if name == "unused-component" then some Severity.off else none

-- every file turns the rule on as an error
abbrev options : Levels → Options
options levels = record {
  schema = none;
  availability = none;
  distributions = none;
  rules = none;
  severities = levels;
  strict = false;
  ignore_missing_schemas = false;
  rule_policy = some (λ _ _. some Severity.error);
  environment = none;
  min_severity = Severity.unset;
  fail_on = Severity.unset;
  embedded = false;
}

abbrev linter : Linter
linter = new_linter (unused_component_rule ∷ []) (options (λ _. none))

abbrev silenced : Linter
silenced = new_linter (unused_component_rule ∷ []) (options unused_off)

linter-HasNames : HasNames linter.rules
unfolding new_linter
linter-HasNames = (refl, tt)

lint_config-verdict_example :
    (lint_config host never linter 0 "collector.yaml" "receivers:").0
    ≡ verdict host linter "collector.yaml" parsed_sample
lint_config-verdict_example =
    lint_config-verdict host linter 0 "collector.yaml" "receivers:" parsed_sample linter-HasNames
      refl

-- the context is cancelled from its second poll on
abbrev soon : ℕ → Bool
soon n = ltb 0 n

soon-Stays : Stays soon
soon-Stays n h = ground arith

lint_config_whole_example :
    ((lint_config host soon linter 0 "collector.yaml" "receivers:").0
      ≡ failed_with "collector.yaml" host.ctx_error)
    ⊎ ((lint_config host soon linter 0 "collector.yaml" "receivers:").0
        ≡ (lint_config host never linter 0 "collector.yaml" "receivers:").0)
lint_config_whole_example =
    lint_config_whole soon soon-Stays host linter 0 "collector.yaml" "receivers:"

silenced_is_off : silenced.opts.severities "unused-component" ≡ some Severity.off
unfolding new_linter
silenced_is_off = refl

abbrev sample_context : Context
sample_context = context_of sample none

for_path_keeps_off_example :
    (run unused_component_rule sample_context
        (severity_for (for_path silenced "collector.yaml").linter unused_component_rule)
      ≡ [])
    × ((for_path silenced "collector.yaml").explicit "unused-component" ≡ none)
for_path_keeps_off_example =
    for_path_keeps_off silenced "collector.yaml" unused_component_rule sample_context
      silenced_is_off

abbrev results : List Result
results = bare "a.yaml" Status.valid ∷ failed_with "b.yaml" "no such file" ∷ []

results_fail : failed (summarize no_results results) ≡ true
unfolding failed summarize add
results_fail = refl

-- One file and one worker: the index is sent, the channel closed, the file linted, the worker leaves.
abbrev outcome : ℕ → Result
outcome _ = bare "a.yaml" Status.valid

abbrev ended : Pool
ended = record {
  next = 1;
  closed = true;
  cancelled = false;
  workers = returned ∷ [];
  results = put (λ _. none) 0 (outcome 0);
}

ended_is_reached : Reach 1 outcome (start 4 1) ended
unfolding start worker_count
ended_is_reached =
    next
      (next
        (next (next (next here (send [] [] refl (omega arith) refl)) (close refl (inl refl)))
          (begin [] [] 0 refl refl))
        (finish [] [] 0 (outcome 0) (λ _. refl) refl))
      (leave [] [] refl refl)

lint_all_complete_example : ended.results 0 ≡ some (outcome 0)
lint_all_complete_example =
    lint_all_complete 1 outcome 4 ended_is_reached (refl, refl) refl 0 (omega arith)

lint_all_ends_example :
    (IsFinished ended ⊎ CanStep 1 outcome ended)
    × ((t : Pool) → Step 1 outcome ended t → moves_left 1 t < moves_left 1 ended)
lint_all_ends_example = lint_all_ends 1 outcome 4 (omega arith) ended_is_reached

-- a library for which a pattern matches the texts that equal it
abbrev plain : Globs
plain = record { glob_match = λ pattern name. some (pattern == name); base = λ path. path }

abbrev gateway : EnvironmentOverride
gateway = record { paths = "*gateway*" ∷ []; env = record no_environment { kubernetes = true } }

abbrev policy : EnvironmentPolicy
policy = record { default = no_environment; overrides = gateway ∷ [] }

gateway_is_found : resolve plain policy "deploy/gateway.yaml" ≡ gateway.env
unfolding resolve resolve_in path_matches
gateway_is_found = refl

resolve-IsFirst_example :
    ((over : EnvironmentOverride) × IsFirst plain "deploy/gateway.yaml" policy.overrides over
      × (resolve plain policy "deploy/gateway.yaml" ≡ over.env))
    ⊎ (All
          (λ (o : EnvironmentOverride). applies plain "deploy/gateway.yaml" o ≡ false)
          policy.overrides
        × (resolve plain policy "deploy/gateway.yaml" ≡ policy.default))
resolve-IsFirst_example = resolve-IsFirst plain policy "deploy/gateway.yaml" refl
