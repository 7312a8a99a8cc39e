-- ===== src/Diag.antt =====
-- pkg/diag/diag.go: severities, positions and diagnostics.
pub mod Levels
pub mod Order
pub mod Sorting
mod Examples
use Prim.Native.Nat.{Ordering}
use Prim.Native.String.{◌++◌, compare as compare_text}
use otelcol_config_lint.Base.{
  Bool, Equality, List, Option, String, [], arith, false, if◌then◌else◌, leb, ltb, nat_eq, none,
  not, some, string_eq, true, ℕ, ◌&&◌, ◌+◌, ◌==◌, ◌↔◌, ◌∷◌, ◌≡◌,
}
use otelcol_config_lint.Base.Text.{same_codes, codes, itoa, to_lower, trim_space}

-- A `Severity` is a text in the source: the four levels, and `unset` for its zero value "".
pub data Severity : Type 0 where
  error warning info off unset : Severity

abbrev pub severity_beq : Severity → Severity → Bool
severity_beq Severity.error Severity.error = true
severity_beq Severity.warning Severity.warning = true
severity_beq Severity.info Severity.info = true
severity_beq Severity.off Severity.off = true
severity_beq Severity.unset Severity.unset = true
severity_beq _ _ = false

pub severity_beq_iff : (a b : Severity) → (severity_beq a b ≡ true) ↔ (a ≡ b)
severity_beq_iff a b = ground arith

instance abbrev pub severity_eq : Equality Severity
severity_eq = record { equals = severity_beq; equals_iff = severity_beq_iff }

abbrev pub severity_text : Severity → String
severity_text Severity.error = "error"
severity_text Severity.warning = "warning"
severity_text Severity.info = "info"
severity_text Severity.off = "off"
severity_text Severity.unset = ""

-- `none` is the error `ErrUnknownSeverity`
unfoldable pub parse_severity : String → Option Severity
unfolding to_lower trim_space codes
parse_severity s =
    let level = to_lower (trim_space s) in
    if same_codes level (codes "error")
    then some Severity.error
    else if same_codes level (codes "warning")
    then some Severity.warning
    else if same_codes level (codes "info")
    then some Severity.info
    else if same_codes level (codes "off")
    then some Severity.off
    else none

unfoldable pub rank : Severity → ℕ
rank Severity.error = 0
rank Severity.warning = 1
rank Severity.info = 2
rank _ = 3

unfoldable pub at_least : Severity → Severity → Bool
unfolding rank
at_least s floor = leb (rank s) (rank floor)

pub record Position : Type 0 where
  pub file : String
  pub line : ℕ
  pub column : ℕ

unfoldable pub position_text : Position → String
unfolding itoa
position_text p =
    if p.line == 0
    then p.file
    else if p.column == 0
    then p.file ++ (":" ++ itoa p.line)
    else p.file ++ (":" ++ (itoa p.line ++ (":" ++ itoa p.column)))

pub record Diagnostic : Type 0 where
  pub rule : String
  pub severity : Severity
  pub message : String
  pub position : Position
  pub path : String
  pub hint : String
  pub docs : String

-- Go's `<` on texts
unfoldable pub text_lt : String → String → Bool
text_lt a b = elim (compare_text a b) [ Ordering.lt ↦ true | _ ↦ false ]

-- the comparison that `Sort` hands to `sort.SliceStable`
unfoldable pub less : Diagnostic → Diagnostic → Bool
unfolding text_lt
less a b =
    if not (a.position.file == b.position.file)
    then text_lt a.position.file b.position.file
    else if not (a.position.line == b.position.line)
    then ltb a.position.line b.position.line
    else if not (a.position.column == b.position.column)
    then ltb a.position.column b.position.column
    else text_lt a.rule b.rule

-- `sort.SliceStable` as an insertion from the right: an element goes before those that are not
-- less than it.
pub insert : Diagnostic → List Diagnostic → List Diagnostic
insert d [] = d ∷ []
insert d (e ∷ ds) = if less e d then e ∷ insert d ds else d ∷ e ∷ ds

unfoldable pub sort : List Diagnostic → List Diagnostic
unfolding insert less
sort [] = []
sort (d ∷ ds) = insert d (sort ds)

unfoldable pub count : Severity → List Diagnostic → ℕ
count s [] = 0
count s (d ∷ ds) = (if d.severity == s then 1 else 0) + count s ds

unfoldable pub has_errors : List Diagnostic → Bool
unfolding count
has_errors ds = ltb 0 (count Severity.error ds)
