-- ===== src/Lint/Summary.antt =====
-- pkg/lint/linter.go: `Summary`, which counts results by status and findings by level.
use otelcol_config_lint.Base.{
  Bool, List, Option, [], if◌then◌else◌, ltb, nat_eq, none, some, string_eq, ℕ, ◌+◌, ◌==◌, ◌||◌,
  ◌∷◌,
}
use otelcol_config_lint.Diag.{Severity, Diagnostic, severity_eq, count}
use otelcol_config_lint.Lint.Model.{Coverage, Result, Status, is_complete, status_eq}

pub record Summary : Type 0 where
  pub valid : ℕ
  pub invalid : ℕ
  pub errors : ℕ
  pub skipped : ℕ
  pub warnings : ℕ
  pub infos : ℕ
  pub incomplete : ℕ

abbrev pub no_results : Summary
no_results = record {
  valid = 0;
  invalid = 0;
  errors = 0;
  skipped = 0;
  warnings = 0;
  infos = 0;
  incomplete = 0;
}

abbrev count_status : Summary → Status → Summary
count_status s Status.valid = record s { valid = s.valid + 1 }
count_status s Status.invalid = record s { invalid = s.invalid + 1 }
count_status s Status.error = record s { errors = s.errors + 1 }
count_status s Status.skipped = record s { skipped = s.skipped + 1 }

abbrev lacks : Option Coverage → ℕ
lacks none = 0
lacks (some c) = if is_complete c.status then 0 else 1

-- `Summary.Add`
unfoldable pub add : Summary → Result → Summary
unfolding count
add s r =
    let t = count_status s r.status in
    record t {
      incomplete = t.incomplete + lacks r.coverage;
      warnings = t.warnings + count Severity.warning r.diagnostics;
      infos = t.infos + count Severity.info r.diagnostics;
    }

-- the summary of a run: `Add` for each result
unfoldable pub summarize : Summary → List Result → Summary
unfolding add
summarize s [] = s
summarize s (r ∷ rs) = summarize (add s r) rs

-- `Summary.Failed`
unfoldable pub failed : Summary → Bool
failed s = ltb 0 s.invalid || ltb 0 s.errors

-- A result that makes a run fail.
abbrev pub is_failure : Result → Bool
is_failure r = r.status == Status.invalid || r.status == Status.error

-- How many results have the status.
abbrev pub number_of : Status → List Result → ℕ
number_of st [] = 0
number_of st (r ∷ rs) = (if r.status == st then 1 else 0) + number_of st rs

-- How many findings have the level.
abbrev pub at_level : Severity → List Diagnostic → ℕ
at_level level [] = 0
at_level level (d ∷ ds) = (if d.severity == level then 1 else 0) + at_level level ds

abbrev pub findings_at : Severity → List Result → ℕ
findings_at level [] = 0
findings_at level (r ∷ rs) = at_level level r.diagnostics + findings_at level rs

-- How many results were checked, but not against the whole of a schema.
abbrev pub not_complete : List Result → ℕ
not_complete [] = 0
not_complete (r ∷ rs) = elim r.coverage [
  | none ↦ not_complete rs
  | some c ↦ (if is_complete c.status then 0 else 1) + not_complete rs
]
