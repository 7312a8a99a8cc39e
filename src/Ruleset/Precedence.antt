-- ===== src/Ruleset/Precedence.antt =====
-- Which of a selection's fields decides the level of a rule.
use otelcol_config_lint.Sets.{new, intersection}
use mathlib.Core.Path.{subst}
use otelcol_config_lint.Base.{
  beq→eq, eq_iff, inr, arith, Option-cases, ap, false, inl, refl, Bool-cases, sym, true, Bool, List,
  Option, String, [], contains_func, if◌then◌else◌, is_nil, nat_eq, none, not, some, string_eq,
  ◌&&◌, ◌==◌, ◌∷◌, ◌≡◌,
}
use otelcol_config_lint.Base.Text.{cut}
use otelcol_config_lint.Diag.{Severity, parse_severity, severity_eq}
use otelcol_config_lint.Ruleset.{
  check_both, all_off, start, write, enable_all, severities, then_with, failed, disable_all, Result,
  apply_levels, Levels, Registered, Selection, apply_pair, lookup_in, ok,
}

abbrev pub or_else {ℓ} : {A : Type ℓ} → Option A → Option A → Option A
or_else none o = o
or_else (some a) o = some a

-- The level that a pair names for a rule.
abbrev pub pair_level : String → String → Option Severity
pair_level pair name =
    if (cut b'=' pair).before == name then parse_severity (cut b'=' pair).after else none

-- The level of the last pair that names the rule.
abbrev pub last_level : List String → String → Option Severity
last_level [] name = none
last_level (pair ∷ rest) name = or_else (last_level rest name) (pair_level pair name)

abbrev pub own_level : List Registered → String → Option Severity
own_level all name = elim (lookup_in all name) [ none ↦ none | some r ↦ some r.severity ]

abbrev pub lists : List String → String → Bool
lists names name = contains_func names (λ n. n == name)

-- The level of the set that the selection starts from.
abbrev pub starting_level : List Registered → String → String → Option Severity
starting_level all default name =
    if default == "none" && not (is_nil (lookup_in all name)) then some Severity.off else none

-- What the fields say, the later ones first.
abbrev pub chosen_level : List Registered → Selection → String → Option Severity
chosen_level all sel name = or_else (last_level sel.severity name) (
    if lists sel.disable name
    then some Severity.off
    else if lists sel.enable name
    then own_level all name
    else starting_level all sel.default name)

-- A map that is there, looked up.
abbrev get : Result Levels → String → Option Severity
get (ok out) name = out name
get (failed _) name = none

abbrev is_ok : {A : Type 0} → Result A → Bool
is_ok (ok _) = true
is_ok (failed _) = false

then_with-ok :
    {A : Type 0} {B : Type 0} (r : Result A) (f : A → Result B) (b : B)
    → then_with r f ≡ ok b
    → ((a : A) × (r ≡ ok a) × (f a ≡ ok b))
then_with-ok (ok a) f b h = (a, refl, h)
then_with-ok (failed e) f b h = absurd (cc (h))

get-apply_pair :
    (all : List Registered) (pair : String) (out : Levels) (name : String)
    → is_ok (apply_pair all pair out) ≡ true
    → get (apply_pair all pair out) name ≡ or_else (pair_level pair name) (out name)
unfolding apply_pair
get-apply_pair all pair out name h =
    let parts = cut b'=' pair in
    elim (Bool-cases parts.found) [
      | inl f ↦ elim (Option-cases (lookup_in all parts.before)) [
        | inl l ↦ ground (arith, f, l, h)
        | inr l ↦ elim (Option-cases (parse_severity parts.after)) [
          | inl s ↦ ground (arith, f, l.1, s, h)
          | inr s ↦
              rw (f, l.1, s.1)
                (ground (arith, s.1, eq_iff parts.before name, eq_iff name parts.before))
        ]
      ]
      | inr f ↦ ground (arith, f, h)
    ]

get-apply_levels :
    (all : List Registered) (pairs : List String) (out out' : Levels) (name : String)
    → apply_levels all pairs out ≡ ok out'
    → out' name ≡ or_else (last_level pairs name) (out name)
unfolding apply_levels
get-apply_levels all [] out out' name h = sym (ap (λ r. get r name) h)
get-apply_levels all (pair ∷ rest) out out' name h =
    let (mid, first, later) =
      then_with-ok (apply_pair all pair out) (apply_levels all rest) out' h in
    let step = get-apply_pair all pair out name (ap is_ok first) in
    ground (arith, step, ap (λ r. get r name) first, get-apply_levels all rest mid out' name later)

get-disable_all :
    (all : List Registered) (names : List String) (out out' : Levels) (name : String)
    → disable_all all names out ≡ ok out'
    → out' name ≡ (if lists names name then some Severity.off else out name)
unfolding disable_all
get-disable_all all [] out out' name h = sym (ap (λ r. get r name) h)
get-disable_all all (n ∷ rest) out out' name h = elim (Option-cases (lookup_in all n)) [
  | inl l ↦ absurd (cc (rw (l, disable_all) at h))
  | inr l ↦ ground (
    arith,
    get-disable_all all rest (write out n Severity.off) out' name (rw (l.1, disable_all) at h),
    eq_iff n name,
    eq_iff name n,
  )
]

get-enable_all :
    (all : List Registered) (names : List String) (out out' : Levels) (name : String)
    → enable_all all names out ≡ ok out'
    → out' name ≡ (if lists names name then own_level all name else out name)
unfolding enable_all
get-enable_all all [] out out' name h = sym (ap (λ r. get r name) h)
get-enable_all all (n ∷ rest) out out' name h = elim (Option-cases (lookup_in all n)) [
  | inl l ↦ absurd (cc (rw (l, enable_all) at h))
  | inr l ↦ ground (
    arith,
    get-enable_all all rest (write out n l.0.severity) out' name (rw (l.1, enable_all) at h),
    l.1,
    eq_iff n name,
    eq_iff name n,
    λ (p : n ≡ name). ap (own_level all) p,
  )
]

get-all_off :
    (rs : List Registered) (out : Levels) (name : String)
    → all_off rs out name ≡ (if is_nil (lookup_in rs name) then out name else some Severity.off)
unfolding all_off lookup_in
get-all_off [] out name = refl
get-all_off (r ∷ rs) out name = ground (
  arith,
  get-all_off rs (write out r.name Severity.off) name,
  eq_iff r.name name,
  eq_iff name r.name,
)

get-start_none :
    (all : List Registered) (name : String) (out : Levels)
    → start all "none" ≡ ok out
    → out name ≡ starting_level all "none" name
unfolding start
get-start_none all name out h =
    ground (arith, ap (λ r. get r name) h, get-all_off all (λ _. none) name)

get-start :
    (all : List Registered) (default name : String) (out : Levels)
    → start all default ≡ ok out
    → out name ≡ starting_level all default name
unfolding start
get-start all default name out h = elim (Bool-cases (default == "none")) [
  | inl e ↦
      subst (λ d. start all d ≡ ok out → out name ≡ starting_level all d name)
        (sym (beq→eq default "none" e)) (get-start_none all name out) h
  | inr e ↦ ground (arith, e, ap is_ok h, ap (λ r. get r name) h)
]

-- Where a selection is resolved, a rule runs at the level of the last severity pair that names it;
-- else it is off if disable names it; else it runs at its own level if enable names it; else it is
-- off in the set "none" and has no level of its own in the map otherwise.
pub severities-chosen_level :
    (all : List Registered) (sel : Selection) (out : Levels) (name : String)
    → severities all sel ≡ ok out
    → out name ≡ chosen_level all sel name
unfolding severities
severities-chosen_level all sel out name h =
    let (first, started, h1) = then_with-ok (start all sel.default) _ out h in
    let (u, _, h2) =
      then_with-ok (check_both (intersection (new sel.enable) (new sel.disable))) _ out h1 in
    let (enabled, h3, h4) = then_with-ok (enable_all all sel.enable first) _ out h2 in
    let (disabled, h5, h6) =
      then_with-ok (disable_all all sel.disable enabled) (apply_levels all sel.severity) out h4 in
    ground (
      arith,
      get-start all sel.default name first started,
      get-enable_all all sel.enable first enabled name h3,
      get-disable_all all sel.disable enabled disabled name h5,
      get-apply_levels all sel.severity disabled out name h6,
    )
