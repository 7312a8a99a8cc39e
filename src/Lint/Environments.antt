-- ===== src/Lint/Environments.antt =====
-- pkg/lint/environment.go: the environment that a config file is deployed into, by its path.
use otelcol_config_lint.Base.{
  All, Bool, Bool-cases, List, Option, String, [], contains_func, false, if◌then◌else◌, inl, inr,
  is_empty, none, not, refl, some, string_eq, true, ℕ, ◌++◌, ◌+◌, ◌==◌, ◌||◌, ◌∷◌, ◌≡◌, ap, ◌⊎◌,
}
use otelcol_config_lint.Rule.Context.{Environment}
use otelcol_config_lint.Scanner.{Globs, is_bad_pattern, path_matches, stdin_marker}

pub record EnvironmentOverride : Type 0 where
  pub paths : List String
  pub env : Environment

pub record EnvironmentPolicy : Type 0 where
  pub default : Environment
  pub overrides : List EnvironmentOverride

module _ (globs : Globs) where
  -- the number of the first override with a pattern that `Validate` rejects, and the pattern
  abbrev pub first_bad : List String → Option String
  first_bad [] = none
  first_bad (p ∷ ps) = let rest = first_bad ps in if is_bad_pattern globs p then some p else rest

  abbrev pub or_later : ℕ → Option String → Option (ℕ × String) → Option (ℕ × String)
  or_later n none later = later
  or_later n (some p) later = some (n, p)

  pub validate_from : ℕ → List EnvironmentOverride → Option (ℕ × String)
  unfolding is_bad_pattern
  validate_from n [] = none
  validate_from n (over ∷ rest) = or_later n (first_bad over.paths) (validate_from (n + 1) rest)

  -- `Validate`
  unfoldable pub validate : EnvironmentPolicy → Option (ℕ × String)
  unfolding validate_from
  validate p = validate_from 1 p.overrides

  -- an override with a pattern that matches
  abbrev pub applies : String → EnvironmentOverride → Bool
  applies path over = contains_func over.paths (λ pattern. path_matches globs pattern path)

  -- the loops of `Resolve`
  unfoldable pub resolve_in : Environment → List EnvironmentOverride → String → Environment
  unfolding path_matches
  resolve_in default [] path = default
  resolve_in default (over ∷ rest) path =
      let later = resolve_in default rest path in if applies path over then over.env else later

  -- `Resolve`
  unfoldable pub resolve : EnvironmentPolicy → String → Environment
  unfolding resolve_in
  resolve p path = if path == stdin_marker then p.default else resolve_in p.default p.overrides path

  -- An override applies to the path, and none of those in front of it does.
  abbrev pub IsFirst : String → List EnvironmentOverride → EnvironmentOverride → Type 0
  IsFirst path overrides over =
      (front : List EnvironmentOverride) × (back : List EnvironmentOverride) × (overrides
        ≡ front ++ over ∷ back)
      × All (λ (o : EnvironmentOverride). applies path o ≡ false) front
      × (applies path over ≡ true)

  resolve_in-IsFirst :
      (default : Environment) (overrides : List EnvironmentOverride) (path : String)
      → ((over : EnvironmentOverride) × IsFirst path overrides over
          × (resolve_in default overrides path ≡ over.env))
        ⊎ (All (λ (o : EnvironmentOverride). applies path o ≡ false) overrides
            × (resolve_in default overrides path ≡ default))
  unfolding resolve_in
  resolve_in-IsFirst default [] path = inr (tt, refl)
  resolve_in-IsFirst default (o ∷ os) path = elim (Bool-cases (applies path o)) [
    | inl e ↦ inl (o, ([], os, refl, tt, e), rw e refl)
    | inr e ↦ elim (resolve_in-IsFirst default os path) [
      | inl (over, (front, back, split, none_before, hit), eq) ↦
          inl (over, (o ∷ front, back, ap (λ l. o ∷ l) split, (e, none_before), hit), rw e eq)
      | inr (none_at_all, eq) ↦ inr ((e, none_at_all), rw e eq)
    ]
  ]

  -- Resolve gives a path other than standard input the environment of the first override with a
  -- pattern that matches it, whole and not merged with the defaults, and the defaults where no
  -- override has such a pattern.
  pub resolve-IsFirst :
      (p : EnvironmentPolicy) (path : String)
      → (path == stdin_marker) ≡ false
      → ((over : EnvironmentOverride) × IsFirst path p.overrides over × (resolve p path ≡ over.env))
        ⊎ (All (λ (o : EnvironmentOverride). applies path o ≡ false) p.overrides
            × (resolve p path ≡ p.default))
  unfolding resolve
  resolve-IsFirst p path h = rw h (resolve_in-IsFirst p.default p.overrides path)

-- `Configured`
unfoldable pub is_configured : EnvironmentPolicy → Bool
is_configured p = p.default.kubernetes || not (is_empty p.overrides)
