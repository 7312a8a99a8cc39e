-- ===== src/Lint/Check.antt =====
-- pkg/lint/linter.go: one file through the parser and the rules. What the linter does not do itself is
-- a parameter: decoding YAML, writing it, and the verb `%q`. A run polls its context at the places
-- where the code asks `ctx.Err()`; the polls are numbered, and a function gives the answers.
pub mod Verdict
pub mod Cancelled
pub mod Reported
use otelcol_config_lint.Base.{
  Bool, List, Option, String, [], if◌then◌else◌, map, none, some, ℕ, ◌+◌, ◌∷◌,
}
use otelcol_config_lint.Diag.{Diagnostic, Severity, sort}
use otelcol_config_lint.Lint.Coverage.{coverage}
use otelcol_config_lint.Lint.Findings.{add_all, kept, suppressed_at, suppression_errors}
use otelcol_config_lint.Lint.Model.{
  Linter, ParseOutcome, Parsed, Result, Status, bare, broken, failed_with, invalid, parsed,
  syntax_error, valid,
}
use otelcol_config_lint.Lint.Policy.{Local, environment, for_path, severity_for}
use otelcol_config_lint.Rule.Context.{Context, Rule, context_of, run}
use otelcol_config_lint.Rule.Settings.Library.{Scalars}
use otelcol_config_lint.Ruleset.{Levels}
use otelcol_config_lint.Yaml.{Node, is_mapping, is_scalar, mapping, tag_of, value_of}

-- One step of `yaml.Decoder.Decode`: a document with its root, one without, or an error.
pub data Decoded : Type 0 where
  document : Node → Decoded
  no_content : Decoded
  undecodable : String → Decoded

-- What stands outside the linter. `decode` gives the documents up to the end or to an
-- error, `unmarshal` the first of them; `ctx_error` is the text of `ctx.Err()`.
pub record Host : Type 0 where
  pub parse : String → String → ParseOutcome
  pub decode : String → List Decoded
  pub unmarshal : String → Decoded
  pub marshal : Node → Option String
  pub escaped : String → String
  pub scalars : Scalars
  pub ctx_error : String

-- the level that a policy sets for the findings of a rule
abbrev pub with_level : Option Severity → Diagnostic → Diagnostic
with_level none d = d
with_level (some s) d = record d { severity = s }

abbrev pub relevel : Levels → Rule → List Diagnostic → List Diagnostic
relevel explicit r ds = map (with_level (explicit r.name)) ds

-- the context that `lintConfig` gives the rules
abbrev pub rule_context : Linter → String → Parsed → Context
rule_context l path p = record (context_of p.file (some l.schema)) {
  strict = l.opts.strict;
  env = environment l path;
  avail = l.opts.availability;
  dists = l.opts.distributions;
}

module _ (h : Host) (l : Linter) (explicit : Levels) (ctx : Context)
    (comments : List (ℕ × String)) where
  -- what one rule adds: its findings at the policy's level, less those suppressed on their line
  unfoldable pub added : Rule → List Diagnostic
  unfolding run severity_for kept suppressed_at
  added r =
      kept (suppressed_at h.escaped l.rules comments)
        (relevel explicit r (run r ctx (severity_for l r)))

  -- the loop of `checkRules`, with the number of the next poll
  unfoldable pub check_loop : (ℕ → Bool) → ℕ → List Rule → Result → Result × ℕ
  unfolding added
  check_loop cancelled n [] res = (res, n)
  check_loop cancelled n (r ∷ rs) res =
      if cancelled n
      then (res, n + 1)
      else check_loop cancelled (n + 1) rs
          (add_all l.opts.fail_on l.opts.min_severity res (added r))

  -- `checkRules`
  unfoldable pub check_rules : (ℕ → Bool) → ℕ → Result → Result × ℕ
  unfolding check_loop suppression_errors
  check_rules cancelled n res = check_loop cancelled n l.rules (
      add_all l.opts.fail_on l.opts.min_severity res
        (suppression_errors h.escaped l.rules ctx.file.path comments))

module _ (h : Host) (cancelled : ℕ → Bool) where
  -- `lintConfig` behind the parser, with the linter and the levels for the file
  pub check_parsed : ℕ → String → Parsed → Local → Result × ℕ
  unfolding check_rules coverage
  check_parsed n path p local =
      let l = local.linter in
      let ctx = rule_context l path p in
      let start = record (bare path Status.valid) { coverage = some (coverage h.scalars l ctx) } in
      let (res, m) = check_rules h l local.explicit ctx p.head_comments cancelled n start in
      (
        if cancelled m
            then failed_with path h.ctx_error
            else record res { diagnostics = sort res.diagnostics },
        m + 1,
      )

  pub check_outcome : Linter → ℕ → String → ParseOutcome → Result × ℕ
  unfolding check_parsed for_path
  check_outcome l n path (syntax_error ds text) =
      (record (bare path Status.invalid) { diagnostics = ds; err = some text }, n)
  check_outcome l n path (broken text) = (failed_with path text, n)
  check_outcome l n path (parsed p) = check_parsed n path p (for_path l path)

  -- `lintConfig`, whose first poll stands between the parser and its error
  unfoldable pub lint_config : Linter → ℕ → String → String → Result × ℕ
  unfolding check_outcome
  lint_config l n path src =
      if cancelled n
      then (failed_with path h.ctx_error, n + 1)
      else check_outcome l (n + 1) path (h.parse path src)
