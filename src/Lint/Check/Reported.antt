-- ===== src/Lint/Check/Reported.antt =====
-- What a rule adds to the result of a file, said finding by finding.
use otelcol_config_lint.Ruleset.{Levels}
use otelcol_config_lint.Lint.Check.{added, Host, with_level}
use otelcol_config_lint.Base.{
  Option-cases, arith, ◌∙◌, ◌++◌, map, sym, ap, true, beq→eq, Bool, Bool-cases, List, Option,
  String, [], append_if, for_each, if◌then◌else◌, inl, inr, none, not, refl, some, string_eq,
  nat_eq, false, ℕ, ◌+◌, ◌==◌, ◌∷◌, ◌≡◌,
}
use otelcol_config_lint.Base.Text.{concat}
use otelcol_config_lint.Config.File.{File, position}
use otelcol_config_lint.Diag.{Diagnostic, Severity, severity_eq}
use otelcol_config_lint.Lint.Findings.{
  suppression_errors, directive_findings, kept, Directive, comment, read_directive, rule_of,
  suppress, suppressed_at, unreadable,
}
use otelcol_config_lint.Lint.Model.{Linter}
use otelcol_config_lint.Lint.Policy.{for_path, severity_for, for_policy, is_off}
use otelcol_config_lint.Rule.Context.{run, level, report, Context, Finding, Rule}

abbrev pub or_level : Option Severity → Severity → Severity
or_level none s = s
or_level (some t) s = t

-- The level that the policy of the path sets for a rule: none where there is no policy, or the global
-- selection turns the rule off.
abbrev pub policy_level : Levels → String → String → Option (String → Levels) → Option Severity
policy_level global path name none = none
policy_level global path name (some policy) =
    if is_off (global name) then none else policy path name

abbrev pub set_level : Linter → String → Rule → Option Severity
set_level l path r = policy_level l.opts.severities path r.name l.opts.rule_policy

-- The level that a rule runs at: the policy's, else the global selection's, else its own.
abbrev pub running_level : Linter → String → Rule → Severity
running_level l path r =
    or_level (set_level l path r) (or_level (l.opts.severities r.name) r.severity)

-- The level that one of its findings is shown at: the policy's, else that of the finding, else the
-- level that the rule runs at.
abbrev pub shown_level : Linter → String → Rule → Finding → Severity
shown_level l path r φ =
    or_level (set_level l path r)
      (if φ.severity == Severity.unset then running_level l path r else φ.severity)

-- The first comment that stands on the line above.
abbrev pub text_above : List (ℕ × String) → ℕ → Option String
text_above [] line = none
text_above (c ∷ cs) line =
    let later = text_above cs line in if c.0 + 1 == line then some c.1 else later

abbrev pub names : Directive → String → Bool
names (suppress rule) name = rule == name
names _ name = false

abbrev pub hides : List Rule → String → Option String → Bool
hides rules name none = false
hides rules name (some text) = names (read_directive rules text) name

-- A directive on the line above suppresses the rule.
abbrev pub is_suppressed : List Rule → List (ℕ × String) → ℕ → String → Bool
is_suppressed rules comments line name = hides rules name (text_above comments line)

abbrev pub diagnostic_of : Linter → String → Rule → File → Finding → Diagnostic
diagnostic_of l path r f φ = record {
  rule = r.name;
  severity = shown_level l path r φ;
  message = φ.message;
  position = position f φ.node;
  path = φ.path;
  hint = φ.hint;
  docs = φ.docs;
}

-- What is said of the findings of one rule: nothing where it is off, and else each of them that is
-- not suppressed on its line.
abbrev pub reported : Linter → String → Context → List (ℕ × String) → Rule → List Diagnostic
reported l path ctx comments r =
    if running_level l path r == Severity.off
    then []
    else for_each (r.check ctx) (λ φ.
      append_if (not (is_suppressed l.rules comments (position ctx.file φ.node).line r.name))
        (diagnostic_of l path r ctx.file φ))

unnamed : (name : String) → (name == "") ≡ false → ("" == name) ≡ false
unnamed name h = elim (Bool-cases ("" == name)) [
  | inl e ↦
      let empty : (name == "") ≡ true = ap (λ t. t == "") (sym (beq→eq "" name e)) in
      absurd (cc (h, empty))
  | inr e ↦ e
]

no_rule :
    (d : Directive) (name : String) → (name == "") ≡ false → (rule_of d == name) ≡ names d name
no_rule comment name h = unnamed name h
no_rule (suppress rule) name h = refl
no_rule (unreadable text) name h = unnamed name h

module _ (escaped : String → String) (rules : List Rule) (comments : List (ℕ × String)) where
  suppressed_at-names :
      (cs : List (ℕ × String)) (line : ℕ) (name : String)
      → (name == "") ≡ false
      → (suppressed_at escaped rules cs line == name) ≡ is_suppressed rules cs line name
  unfolding suppressed_at
  suppressed_at-names [] line name h = unnamed name h
  suppressed_at-names (c ∷ cs) line name h = elim (Bool-cases (c.0 + 1 == line)) [
    | inl e ↦ rw e (no_rule (read_directive rules c.1) name h)
    | inr e ↦ rw e (suppressed_at-names cs line name h)
  ]

  abbrev kept_one : Rule → File → Severity → Option Severity → Finding → List Diagnostic
  kept_one r f level e φ =
      append_if (not (is_suppressed rules comments (position f φ.node).line r.name))
        (with_level e (report r f level φ))

  pick :
      (a b : Bool) (d : Diagnostic) (xs ys : List Diagnostic)
      → a ≡ b
      → xs ≡ ys
      → (if not a then d ∷ xs else xs) ≡ append_if (not b) d ++ ys
  pick true true d xs ys e h = h
  pick false false d xs ys e h = ap (λ l. d ∷ l) h
  pick true false d xs ys e h = absurd (cc (e))
  pick false true d xs ys e h = absurd (cc (e))

  -- The three loops over the findings of a rule that runs, as one.
  kept_findings :
      (r : Rule) (f : File) (level : Severity) (e : Option Severity) (φs : List Finding)
      → (r.name == "") ≡ false
      → kept (suppressed_at escaped rules comments) (map (with_level e) (map (report r f level) φs))
        ≡ for_each φs (kept_one r f level e)
  unfolding kept report
  kept_findings r f level e [] named = refl
  kept_findings r f level none (φ ∷ φs) named =
      pick _ _ _ _ _ (suppressed_at-names comments (position f φ.node).line r.name named)
        (kept_findings r f level none φs named)
  kept_findings r f level (some s) (φ ∷ φs) named =
      pick _ _ _ _ _ (suppressed_at-names comments (position f φ.node).line r.name named)
        (kept_findings r f level (some s) φs named)

level_lem :
    (default own : Severity)
    → (default == Severity.off) ≡ false
    → level default own ≡ (if own == Severity.unset then default else own)
unfolding level
level_lem default own h = ground (arith, h)

-- The level of a finding, as the steps of the code arrive at it.
with_level-report :
    (l : Linter) (path : String) (r : Rule) (f : File) (φ : Finding) (e : Option Severity)
    → set_level l path r ≡ e
    → (running_level l path r == Severity.off) ≡ false
    → with_level e (report r f (running_level l path r) φ) ≡ diagnostic_of l path r f φ
unfolding report
with_level-report l path r f φ none h runs =
    let by_finding = if φ.severity == Severity.unset then running_level l path r else φ.severity in
    ap {A = Severity} {B = Diagnostic} (λ s. record (diagnostic_of l path r f φ) { severity = s })
      (level_lem (running_level l path r) φ.severity runs ∙ sym (ap (λ o. or_level o by_finding) h))
with_level-report l path r f φ (some s) h runs =
    let by_finding = if φ.severity == Severity.unset then running_level l path r else φ.severity in
    ap {A = Severity} {B = Diagnostic} (λ t. record (diagnostic_of l path r f φ) { severity = t })
      (sym (ap (λ o. or_level o by_finding) h))

-- The linter for one file, as the spec reads the policy.
for_policy-explicit :
    (l : Linter) (path : String) (name : String) (policy : Option (String → Levels))
    → (for_policy l path policy).explicit name ≡ policy_level l.opts.severities path name policy
unfolding for_policy
for_policy-explicit l path name none = refl
for_policy-explicit l path name (some policy) = refl

severity_for_lem :
    (l : Linter) (path : String) (r : Rule) (policy : Option (String → Levels))
    → severity_for (for_policy l path policy).linter r
      ≡ or_level
          (policy_level l.opts.severities path r.name policy)
          (or_level (l.opts.severities r.name) r.severity)
unfolding for_policy severity_for
severity_for_lem l path r none = elim (Option-cases (l.opts.severities r.name)) [
  | inl g ↦ rw (g, severity_for) refl
  | inr (s, g) ↦ rw (g, severity_for) refl
]
severity_for_lem l path r (some policy) =
    let set = policy_level l.opts.severities path r.name (some policy) in
    elim (Option-cases set) [
      | inl e ↦ elim (Option-cases (l.opts.severities r.name)) [
        | inl g ↦ rw (e, g, severity_for) refl
        | inr (s, g) ↦ rw (e, g, severity_for) refl
      ]
      | inr (t, e) ↦ rw (e, severity_for) refl
    ]

pub for_policy-rules :
    (l : Linter) (path : String) (policy : Option (String → Levels))
    → (for_policy l path policy).linter.rules ≡ l.rules
unfolding for_policy
for_policy-rules l path none = refl
for_policy-rules l path (some policy) = refl

module _ (h : Host) (l : Linter) (path : String) (ctx : Context)
    (comments : List (ℕ × String)) where
  abbrev steps : Rule → List Rule → Option Severity → Severity → List Diagnostic
  steps r rules e severity =
      kept (suppressed_at h.escaped rules comments) (map (with_level e) (run r ctx severity))

  steps-reported :
      (r : Rule)
      → (r.name == "") ≡ false
      → steps r l.rules (set_level l path r) (running_level l path r)
        ≡ reported l path ctx comments r
  unfolding run kept
  steps-reported r named =
      let e = set_level l path r in
      let severity = running_level l path r in
      elim (Bool-cases (severity == Severity.off)) [
        | inl off ↦ rw (off, kept) refl
        | inr runs ↦ rw runs (
            kept_findings h.escaped l.rules comments r ctx.file severity e (r.check ctx) named
            ∙ ap (for_each (r.check ctx)) (λ i φ.
              append_if
                (not (is_suppressed l.rules comments (position ctx.file φ.node).line r.name))
                (with_level-report l path r ctx.file φ e refl runs i)))
      ]

  -- A rule adds what is reported of it, where its name is not empty.
  pub added-reported :
      (r : Rule)
      → (r.name == "") ≡ false
      → added h (for_path l path).linter (for_path l path).explicit ctx comments r
        ≡ reported l path ctx comments r
  unfolding added for_path
  added-reported r named =
      let policy = l.opts.rule_policy in
      let here = for_policy l path policy in
      ap (λ rules. steps r rules (here.explicit r.name) (severity_for here.linter r))
        (for_policy-rules l path policy)
      ∙ ap (λ e. steps r l.rules e (severity_for here.linter r))
          (for_policy-explicit l path r.name policy)
      ∙ ap (steps r l.rules (set_level l path r)) (severity_for_lem l path r policy)
      ∙ steps-reported r named

-- What is said of a directive that cannot be read.
abbrev pub said_of : (String → String) → String → ℕ → Directive → List Diagnostic
said_of escaped path line (unreadable text) =
    record {
      rule = "invalid-suppression";
      severity = Severity.error;
      message = concat (
          "invalid suppression "
          ∷ escaped text
          ∷ "; expected otelcol-config-lint:disable-next-line <known-rule>"
          ∷ []);
      position = record { file = path; line = line; column = 1 };
      path = "";
      hint = "";
      docs = "";
    }
    ∷ []
said_of escaped path line _ = []

abbrev pub directive_errors :
    (String → String) → List Rule → String → List (ℕ × String) → List Diagnostic
directive_errors escaped rules path comments =
    for_each comments (λ (c : ℕ × String). said_of escaped path c.0 (read_directive rules c.1))

directive_findings_lem :
    (escaped : String → String) (path : String) (line : ℕ) (d : Directive)
    → directive_findings escaped path line d ≡ said_of escaped path line d
directive_findings_lem escaped path line comment = refl
directive_findings_lem escaped path line (suppress rule) = refl
directive_findings_lem escaped path line (unreadable text) = refl

pub suppression_errors_lem :
    (escaped : String → String) (rules : List Rule) (path : String) (comments : List (ℕ × String))
    → suppression_errors escaped rules path comments ≡ directive_errors escaped rules path comments
unfolding suppression_errors
suppression_errors_lem escaped rules path comments =
    ap (for_each comments)
      (λ i c. directive_findings_lem escaped path c.0 (read_directive rules c.1) i)
