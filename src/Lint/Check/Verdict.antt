-- ===== src/Lint/Check/Verdict.antt =====
-- What a run that is not cancelled says of a file.
use mathlib.Core.Path.{ap₂}
use otelcol_config_lint.Lint.Check.Reported.{
  added-reported, directive_errors, for_policy-rules, reported, suppression_errors_lem,
}
use otelcol_config_lint.Base.{
  All, Option, none, string_eq, ◌==◌, true, ap, Bool, List, String, [], false, for_each,
  if◌then◌else◌, refl, some, sym, ℕ, ◌++◌, ◌+◌, ◌∙◌, ◌∷◌, ◌≡◌,
}
use otelcol_config_lint.Diag.{Severity, Diagnostic, sort}
use otelcol_config_lint.Lint.Check.{
  check_outcome, check_parsed, Host, added, check_loop, check_rules, lint_config, rule_context,
}
use otelcol_config_lint.Lint.Coverage.{coverage}
use otelcol_config_lint.Lint.Findings.{invalidated, add_all, suppression_errors}
use otelcol_config_lint.Lint.Findings.Kept.{add_all_lem, add_all-append, at_or_above, reaches}
use otelcol_config_lint.Lint.Model.{Linter, Parsed, Result, Status, bare, parsed}
use otelcol_config_lint.Lint.Policy.{Local, for_path, for_policy}
use otelcol_config_lint.Rule.Context.{Context, Rule}
use otelcol_config_lint.Ruleset.{Levels}

abbrev pub never : ℕ → Bool
never _ = false

module _ (h : Host) (l : Linter) (explicit : Levels) (ctx : Context)
    (comments : List (ℕ × String)) where
  -- All that the rules find, less what is suppressed.
  abbrev pub from_rules : List Rule → List Diagnostic
  from_rules rs = for_each rs (added h l explicit ctx comments)

  -- The errors of the directives, and all that the rules find.
  abbrev pub all_findings : List Diagnostic
  all_findings = suppression_errors h.escaped l.rules ctx.file.path comments ++ from_rules l.rules

  check_loop-never :
      (n : ℕ) (rs : List Rule) (res : Result)
      → (check_loop h l explicit ctx comments never n rs res).0
        ≡ add_all l.opts.fail_on l.opts.min_severity res (from_rules rs)
  unfolding check_loop add_all
  check_loop-never n [] res = refl
  check_loop-never n (r ∷ rs) res =
      let found = added h l explicit ctx comments r in
      check_loop-never (n + 1) rs (add_all l.opts.fail_on l.opts.min_severity res found)
      ∙ sym (add_all-append l.opts.fail_on l.opts.min_severity res found (from_rules rs))

  pub check_rules-never :
      (n : ℕ) (res : Result)
      → (check_rules h l explicit ctx comments never n res).0
        ≡ add_all l.opts.fail_on l.opts.min_severity res all_findings
  unfolding check_rules
  check_rules-never n res =
      let errors = suppression_errors h.escaped l.rules ctx.file.path comments in
      check_loop-never n l.rules (add_all l.opts.fail_on l.opts.min_severity res errors)
      ∙ sym (add_all-append l.opts.fail_on l.opts.min_severity res errors (from_rules l.rules))

-- Every rule has a name.
abbrev pub HasNames : List Rule → Type 0
HasNames rs = All (λ (r : Rule). (r.name == "") ≡ false) rs

-- All that is to be said of a parsed file: of the directives, and of the findings of the rules.
abbrev pub said : Host → Linter → String → Parsed → List Diagnostic
said h l path p =
    directive_errors h.escaped l.rules p.file.path p.head_comments
    ++ for_each l.rules
        (reported l path (rule_context (for_path l path).linter path p) p.head_comments)

-- The result of a parsed file.
abbrev pub verdict : Host → Linter → String → Parsed → Result
verdict h l path p =
    let here = (for_path l path).linter in
    let found = said h l path p in
    record (bare path (if reaches l.opts.fail_on found then Status.invalid else Status.valid)) {
      diagnostics = sort (at_or_above l.opts.min_severity found);
      coverage = some (coverage h.scalars here (rule_context here path p));
    }

invalidated_valid :
    (b : Bool) → invalidated b Status.valid ≡ (if b then Status.invalid else Status.valid)
invalidated_valid true = refl
invalidated_valid false = refl

-- What the code finds is what is to be said.
module _ (h : Host) (l : Linter) (path : String) (p : Parsed) where
  abbrev here : Local
  here = for_path l path

  abbrev ctx : Context
  ctx = rule_context here.linter path p

  from_rules-reported :
      (rs : List Rule)
      → HasNames rs
      → from_rules h here.linter here.explicit ctx p.head_comments rs
        ≡ for_each rs (reported l path ctx p.head_comments)
  from_rules-reported [] named = refl
  from_rules-reported (r ∷ rs) named =
      ap₂ ◌++◌ (added-reported h l path ctx p.head_comments r named.0)
        (from_rules-reported rs named.1)

  all_findings-said :
      HasNames l.rules
      → all_findings h here.linter here.explicit ctx p.head_comments ≡ said h l path p
  unfolding for_path
  all_findings-said named =
      let file = p.file.path in
      let comments = p.head_comments in
      ap
        (λ rs.
          suppression_errors h.escaped rs file comments
          ++ from_rules h here.linter here.explicit ctx comments rs)
        (for_policy-rules l path l.opts.rule_policy)
      ∙ ap₂ ◌++◌ (suppression_errors_lem h.escaped l.rules file comments)
          (from_rules-reported l.rules named)

-- The policy leaves the other options alone.
for_policy-fail_on :
    (l : Linter) (path : String) (policy : Option (String → Levels))
    → ((for_policy l path policy).linter.opts.fail_on ≡ l.opts.fail_on)
      × ((for_policy l path policy).linter.opts.min_severity ≡ l.opts.min_severity)
unfolding for_policy
for_policy-fail_on l path none = (refl, refl)
for_policy-fail_on l path (some policy) = (refl, refl)

check_parsed-never :
    (h : Host) (n : ℕ) (l : Linter) (path : String) (p : Parsed)
    → HasNames l.rules
    → (check_parsed h never n path p (for_path l path)).0 ≡ verdict h l path p
unfolding check_parsed for_path
check_parsed-never h n l path p named =
    let here = for_policy l path l.opts.rule_policy in
    let m = here.linter in
    let ctx = rule_context m path p in
    let start = record (bare path Status.valid) { coverage = some (coverage h.scalars m ctx) } in
    let found = all_findings h m here.explicit ctx p.head_comments in
    let level = for_policy-fail_on l path l.opts.rule_policy in
    let result = λ (fail_on least : Severity) (ds : List Diagnostic). record start {
      status = if reaches fail_on ds then Status.invalid else Status.valid;
      diagnostics = sort (at_or_above least ds);
    } in
    ap {A = Result} {B = Result} (λ r. record r { diagnostics = sort r.diagnostics })
      (check_rules-never h m here.explicit ctx p.head_comments n start
        ∙ add_all_lem m.opts.fail_on m.opts.min_severity start found)
    ∙ ap {A = Status} {B = Result}
        (λ s. record (result m.opts.fail_on m.opts.min_severity found) { status = s })
        (invalidated_valid (reaches m.opts.fail_on found))
    ∙ ap (result m.opts.fail_on m.opts.min_severity) (all_findings-said h l path p named)
    ∙ ap₂ (λ fail_on least. result fail_on least (said h l path p)) level.0 level.1

-- A run that is not cancelled says of a file that parses, with rules that all have names: it is
-- invalid exactly if something that is to be said is at or above the level to fail on, and valid
-- otherwise; it shows what is at or above the least level that is shown, sorted. What is to be said are
-- the directives that cannot be read, as errors, and the findings of each rule that is not off, less
-- those that a directive on the line above suppresses. A rule is off, and a finding is shown, at the
-- level that the policy of the path sets, which counts only where the global selection does not turn
-- the rule off; else a finding has its own level or, without one, that of the selection or of the rule.
pub lint_config-verdict :
    (h : Host) (l : Linter) (n : ℕ) (path src : String) (p : Parsed)
    → HasNames l.rules
    → h.parse path src ≡ parsed p
    → (lint_config h never l n path src).0 ≡ verdict h l path p
unfolding lint_config
lint_config-verdict h l n path src p named e =
    ap (λ o. (check_outcome h never l (n + 1) path o).0) e
    ∙ check_parsed-never h (n + 1) l path p named
