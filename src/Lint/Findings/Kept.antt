-- ===== src/Lint/Findings/Kept.antt =====
-- What adding findings does to a result.
use otelcol_config_lint.Base.{
  false, refl, ◌∙◌, sym, ◌||◌, ap, true, append_if, Bool, List, [], contains_func, if◌then◌else◌,
  ◌++◌, ◌∷◌, ◌≡◌,
}
use otelcol_config_lint.Diag.{Diagnostic, Severity, at_least}
use otelcol_config_lint.Lint.Findings.{add_finding, invalidated, add_all}
use otelcol_config_lint.Lint.Model.{Status, Result}
use mathlib.Core.Path.{ap₂}
use mathlib.Core.List.{append_assoc, append-nil as append_end}

-- The findings that are at or above a level, in order.
abbrev pub at_or_above : Severity → List Diagnostic → List Diagnostic
at_or_above floor [] = []
at_or_above floor (d ∷ ds) =
    if at_least d.severity floor then d ∷ at_or_above floor ds else at_or_above floor ds

abbrev pub reaches : Severity → List Diagnostic → Bool
reaches floor ds = contains_func ds (λ (d : Diagnostic). at_least d.severity floor)

append_if-or :
    (b : Bool) (d : Diagnostic) (xs ys : List Diagnostic)
    → (xs ++ append_if b d) ++ ys ≡ xs ++ (if b then d ∷ ys else ys)
append_if-or true d xs ys = append_assoc xs (d ∷ []) ys
append_if-or false d xs ys = append_assoc xs [] ys

invalidated_twice :
    (a b : Bool) (s : Status) → invalidated b (invalidated a s) ≡ invalidated (a || b) s
invalidated_twice true true s = refl
invalidated_twice true false s = refl
invalidated_twice false b s = refl

-- Adding findings to a result appends those that are at or above the least level that is shown, in
-- order, makes the result invalid exactly if one of them is at or above the level to fail on, and
-- leaves its coverage alone.
pub add_all_lem :
    (fail_on min_severity : Severity) (r : Result) (ds : List Diagnostic)
    → add_all fail_on min_severity r ds ≡ record r {
      status = invalidated (reaches fail_on ds) r.status;
      diagnostics = r.diagnostics ++ at_or_above min_severity ds;
    }
unfolding add_all
add_all_lem fail_on min_severity r [] =
    ap (λ l. record r { diagnostics = l }) (sym (append_end r.diagnostics))
add_all_lem fail_on min_severity r (d ∷ ds) =
    add_all_lem fail_on min_severity (add_finding fail_on min_severity r d) ds
    ∙ ap₂ (λ s l. record r { status = s; diagnostics = l })
        (invalidated_twice (at_least d.severity fail_on) (reaches fail_on ds) r.status)
        (append_if-or (at_least d.severity min_severity) d r.diagnostics
          (at_or_above min_severity ds))

pub add_all-append :
    (fail_on min_severity : Severity) (r : Result) (xs ys : List Diagnostic)
    → add_all fail_on min_severity r (xs ++ ys)
      ≡ add_all fail_on min_severity (add_all fail_on min_severity r xs) ys
unfolding add_all
add_all-append fail_on min_severity r [] ys = refl
add_all-append fail_on min_severity r (x ∷ xs) ys =
    add_all-append fail_on min_severity (add_finding fail_on min_severity r x) xs ys
