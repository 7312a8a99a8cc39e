-- ===== src/Lint/Check/Cancelled.antt =====
-- A run that is cancelled gives no partial answer.
use otelcol_config_lint.Lint.Policy.{for_path, Local}
use otelcol_config_lint.Base.{
  ap, some, ◌⊎◌, Bool, Bool-cases, List, String, [], false, inl, inr, refl, true, ℕ, ◌+◌, ◌∷◌, ◌≡◌,
}
use otelcol_config_lint.Lint.Check.{
  rule_context, check_rules, lint_config, check_outcome, check_parsed, Host, added, check_loop,
}
use otelcol_config_lint.Lint.Check.Verdict.{never}
use otelcol_config_lint.Diag.{sort}
use otelcol_config_lint.Lint.Coverage.{coverage}
use otelcol_config_lint.Lint.Findings.{add_all, suppression_errors}
use otelcol_config_lint.Lint.Model.{
  Status, parsed, broken, bare, syntax_error, Parsed, ParseOutcome, failed_with, Linter, Result,
}
use otelcol_config_lint.Rule.Context.{Context, Rule}
use otelcol_config_lint.Ruleset.{Levels}

-- A context that is cancelled stays cancelled.
abbrev pub Stays : (ℕ → Bool) → Type 0
Stays cancelled = (n : ℕ) → cancelled n ≡ true → cancelled (n + 1) ≡ true

module _ (cancelled : ℕ → Bool) (stays : Stays cancelled) where
  earlier : (n : ℕ) → cancelled (n + 1) ≡ false → cancelled n ≡ false
  earlier n h = elim (Bool-cases (cancelled n)) [ inl t ↦ absurd (cc (stays n t, h)) | inr f ↦ f ]

  module _ (h : Host) (l : Linter) (explicit : Levels) (ctx : Context)
      (comments : List (ℕ × String)) where
    -- The loop ran as without a cancellation, where the poll behind it is not cancelled.
    loop_completes :
        (n : ℕ) (rs : List Rule) (res : Result)
        → cancelled (check_loop h l explicit ctx comments cancelled n rs res).1 ≡ false
        → ((check_loop h l explicit ctx comments cancelled n rs res).0
            ≡ (check_loop h l explicit ctx comments never n rs res).0)
          × (cancelled n ≡ false)
    unfolding check_loop
    loop_completes n [] res q = (refl, q)
    loop_completes n (r ∷ rs) res q = elim (Bool-cases (cancelled n)) [
      | inl t ↦
          let later : cancelled (n + 1) ≡ false = rw (t, check_loop) at q in
          absurd (cc (stays n t, later))
      | inr f ↦
          let rest =
            loop_completes (n + 1) rs
              (add_all l.opts.fail_on l.opts.min_severity res (added h l explicit ctx comments r))
              (rw (f, check_loop) at q) in
          (rw (f, check_loop) rest.0, f)
    ]

  parsed_whole :
      (h : Host) (n : ℕ) (path : String) (p : Parsed) (here : Local)
      → ((check_parsed h cancelled n path p here).0 ≡ failed_with path h.ctx_error)
        ⊎ ((check_parsed h cancelled n path p here).0 ≡ (check_parsed h never n path p here).0)
  unfolding check_parsed check_rules
  parsed_whole h n path p here =
      let l = here.linter in
      let ctx = rule_context l path p in
      let start = record (bare path Status.valid) { coverage = some (coverage h.scalars l ctx) } in
      let begun =
        add_all l.opts.fail_on l.opts.min_severity start
          (suppression_errors h.escaped l.rules ctx.file.path p.head_comments) in
      let ended = check_loop h l here.explicit ctx p.head_comments cancelled n l.rules begun in
      elim (Bool-cases (cancelled ended.1)) [
        | inl t ↦ inl (rw t refl)
        | inr f ↦ inr (
            rw f (
              ap {A = Result} {B = Result} (λ r. record r { diagnostics = sort r.diagnostics })
                (loop_completes h l here.explicit ctx p.head_comments n l.rules begun f).0))
      ]

  outcome_whole :
      (h : Host) (l : Linter) (n : ℕ) (path : String) (o : ParseOutcome)
      → ((check_outcome h cancelled l n path o).0 ≡ failed_with path h.ctx_error)
        ⊎ ((check_outcome h cancelled l n path o).0 ≡ (check_outcome h never l n path o).0)
  unfolding check_outcome
  outcome_whole h l n path (syntax_error ds text) = inr refl
  outcome_whole h l n path (broken text) = inr refl
  outcome_whole h l n path (parsed p) = parsed_whole h n path p (for_path l path)

  -- However a run is interleaved with a cancellation that stays, its result is the error of the context
  -- or the result of the run that is never cancelled: no rule is left out of a result silently.
  pub lint_config_whole :
      (h : Host) (l : Linter) (n : ℕ) (path src : String)
      → ((lint_config h cancelled l n path src).0 ≡ failed_with path h.ctx_error)
        ⊎ ((lint_config h cancelled l n path src).0 ≡ (lint_config h never l n path src).0)
  unfolding lint_config
  lint_config_whole h l n path src = elim (Bool-cases (cancelled n)) [
    | inl t ↦ inl (rw t refl)
    | inr f ↦ rw f (outcome_whole h l (n + 1) path (h.parse path src))
  ]
