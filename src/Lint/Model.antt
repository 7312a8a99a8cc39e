-- ===== src/Lint/Model.antt =====
-- pkg/lint/linter.go and coverage.go: outcomes, options and results.
use otelcol_config_lint.Base.{
  Bool, Equality, List, Option, String, [], arith, false, none, some, true, ℕ, ◌↔◌, ◌≡◌,
}
use otelcol_config_lint.Config.File.{File}
use otelcol_config_lint.Config.Id.{Kind}
use otelcol_config_lint.Diag.{Diagnostic, Severity, severity_eq}
use otelcol_config_lint.Rule.Context.{Environment, Rule}
use otelcol_config_lint.Ruleset.{Levels}
use otelcol_config_lint.Schema.{Schema}

pub data Status : Type 0 where
  valid invalid error skipped : Status

abbrev pub status_beq : Status → Status → Bool
status_beq Status.valid Status.valid = true
status_beq Status.invalid Status.invalid = true
status_beq Status.error Status.error = true
status_beq Status.skipped Status.skipped = true
status_beq _ _ = false

pub status_beq_iff : (a b : Status) → (status_beq a b ≡ true) ↔ (a ≡ b)
status_beq_iff a b = ground arith

instance abbrev pub status_eq : Equality Status
status_eq = record { equals = status_beq; equals_iff = status_beq_iff }

pub data CoverageStatus : Type 0 where
  complete partial not_checked : CoverageStatus

abbrev pub is_complete : CoverageStatus → Bool
is_complete complete = true
is_complete _ = false

pub record CoverageSkip : Type 0 where
  pub path : String
  pub reason : String
  pub block : String

pub record Coverage : Type 0 where
  pub status : CoverageStatus
  pub collector_version : String
  pub distribution : String
  pub field_rules : List String
  pub skipped : List CoverageSkip

-- `err` is the text of the error.
pub record Result : Type 0 where
  pub path : String
  pub status : Status
  pub diagnostics : List Diagnostic
  pub skip_reason : String
  pub coverage : Option Coverage
  pub err : Option String

-- A result with nothing but a path and a status.
abbrev pub bare : String → Status → Result
bare path status = record {
  path = path;
  status = status;
  diagnostics = [];
  skip_reason = "";
  coverage = none;
  err = none;
}

abbrev pub failed_with : String → String → Result
failed_with path err = record (bare path Status.error) { err = some err }

-- `Result.Message`
unfoldable pub message : Result → String
message r = elim r.err [ some text ↦ text | none ↦ r.skip_reason ]

-- `Options`, without the file system. A nil map is the map that holds nothing.
pub record Options : Type 0 where
  pub schema : Option Schema
  pub availability : Option (Kind → String → List String)
  pub distributions : Option (Kind → String → List String)
  pub rules : Option (List Rule)
  pub severities : Levels
  pub strict : Bool
  pub ignore_missing_schemas : Bool
  pub rule_policy : Option (String → Levels)
  pub environment : Option (String → Environment)
  pub min_severity : Severity
  pub fail_on : Severity
  pub embedded : Bool

-- `Linter`: the options that `New` has completed, with the schema and the rules it settled on.
pub record Linter : Type 0 where
  pub opts : Options
  pub schema : Schema
  pub rules : List Rule

-- What `config.Parse` gives a linter: the file and the comments that stand above a node, by line.
pub record Parsed : Type 0 where
  pub file : File
  pub head_comments : List (ℕ × String)

pub data ParseOutcome : Type 0 where
  parsed : Parsed → ParseOutcome
  syntax_error : List Diagnostic → String → ParseOutcome
  broken : String → ParseOutcome
