-- ===== src/Lint/Findings.antt =====
-- pkg/lint/suppression.go: which findings a result keeps, and what makes it invalid.
pub mod Kept
use Prim.Native.Char.{Char, code}
use otelcol_config_lint.Base.{
  Bool, List, String, [], append_if, contains_func, false, for_each, if◌then◌else◌, nat_eq, not,
  string_eq, true, ℕ, ◌&&◌, ◌++◌, ◌+◌, ◌==◌, ◌∷◌,
}
use otelcol_config_lint.Base.Text.{concat, is_space, trim_space}
use otelcol_config_lint.Config.File.{File}
use otelcol_config_lint.Diag.{Diagnostic, Severity, at_least, error}
use otelcol_config_lint.Lint.Model.{Result, Status, invalid, message}
use otelcol_config_lint.Rule.Context.{Rule}

abbrev pub invalidated : Bool → Status → Status
invalidated true s = Status.invalid
invalidated false s = s

-- `addFinding`, with the levels of the options
unfoldable pub add_finding : Severity → Severity → Result → Diagnostic → Result
unfolding at_least
add_finding fail_on min_severity r d = record r {
  status = invalidated (at_least d.severity fail_on) r.status;
  diagnostics = r.diagnostics ++ append_if (at_least d.severity min_severity) d;
}

-- a loop that adds findings
unfoldable pub add_all : Severity → Severity → Result → List Diagnostic → Result
unfolding add_finding
add_all fail_on min_severity r [] = r
add_all fail_on min_severity r (d ∷ ds) =
    add_all fail_on min_severity (add_finding fail_on min_severity r d) ds

abbrev pub suppression_prefix : String
suppression_prefix = "otelcol-config-lint:"

-- `strings.HasPrefix`
abbrev pub has_prefix : String → String → Bool
has_prefix s String.[] = true
has_prefix String.[] (String.◌∷◌ _ _) = false
has_prefix (String.◌∷◌ c s) (String.◌∷◌ d p) = code c == code d && has_prefix s p

-- `strings.Fields`; the flag says that the text behind continues a field
abbrev add_char : Char → List String → List String
add_char c [] = String.◌∷◌ c String.[] ∷ []
add_char c (s ∷ ss) = String.◌∷◌ c s ∷ ss

abbrev open_field : List String → Bool → List String
open_field rest true = rest
open_field rest false = String.[] ∷ rest

starts_field : String → Bool
unfolding is_space
starts_field String.[] = false
starts_field (String.◌∷◌ c _) = not (is_space c)

unfoldable pub fields : String → List String
unfolding is_space starts_field
fields String.[] = []
fields (String.◌∷◌ c s) =
    let rest = fields s in
    if is_space c then rest else add_char c (open_field rest (starts_field s))

abbrev without_hash : String → String
without_hash String.[] = String.[]
without_hash (String.◌∷◌ c s) = if code c == b'#' then s else String.◌∷◌ c s

abbrev pub knows : List Rule → String → Bool
knows rules name = contains_func rules (λ (r : Rule). r.name == name)

-- What a head comment says: nothing, which rule to suppress, or something that cannot be read.
pub data Directive : Type 0 where
  comment : Directive
  suppress : String → Directive
  unreadable : String → Directive

abbrev directive_of : List Rule → String → List String → Directive
directive_of rules text (a ∷ b ∷ []) =
    if a == concat (suppression_prefix ∷ "disable-next-line" ∷ []) && knows rules b
    then suppress b
    else unreadable text
directive_of rules text _ = unreadable text

unfoldable pub read_directive : List Rule → String → Directive
unfolding trim_space fields
read_directive rules text =
    let t = trim_space (without_hash text) in
    if not (has_prefix t suppression_prefix) then comment else directive_of rules t (fields t)

-- `escaped` is the verb `%q` of `fmt`.
abbrev invalid_suppression : (String → String) → String → ℕ → String → Diagnostic
invalid_suppression escaped path line text = record {
  rule = "invalid-suppression";
  severity = Severity.error;
  message = concat (
      "invalid suppression "
      ∷ escaped text
      ∷ "; expected "
      ∷ suppression_prefix
      ∷ "disable-next-line <known-rule>"
      ∷ []);
  position = record { file = path; line = line; column = 1 };
  path = "";
  hint = "";
  docs = "";
}

abbrev pub directive_findings : (String → String) → String → ℕ → Directive → List Diagnostic
directive_findings escaped path line (unreadable text) =
    invalid_suppression escaped path line text ∷ []
directive_findings escaped path line _ = []

abbrev pub rule_of : Directive → String
rule_of (suppress name) = name
rule_of _ = ""

-- The two results of `suppressions`: the findings that it adds, in the order of the comments, and the
-- rule that a line suppresses, which is no rule's name where there is none.
module _ (escaped : String → String) (rules : List Rule) where
  unfoldable pub suppression_errors : String → List (ℕ × String) → List Diagnostic
  unfolding read_directive
  suppression_errors path comments =
      for_each comments (λ c. directive_findings escaped path c.0 (read_directive rules c.1))

  unfoldable pub suppressed_at : List (ℕ × String) → ℕ → String
  unfolding read_directive
  suppressed_at [] line = ""
  suppressed_at (c ∷ cs) line =
      let rest = suppressed_at cs line in
      if c.0 + 1 == line then rule_of (read_directive rules c.1) else rest

-- The findings of one rule that are not suppressed on their line.
unfoldable pub kept : (ℕ → String) → List Diagnostic → List Diagnostic
kept suppressed [] = []
kept suppressed (d ∷ ds) =
    let rest = kept suppressed ds in
    if not (suppressed d.position.line == d.rule) then d ∷ rest else rest
