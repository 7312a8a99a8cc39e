-- ===== src/Scanner.antt =====
-- pkg/scanner/scanner.go: which paths match a pattern. The walk over directories is input and output;
-- `filepath` is a parameter.
use otelcol_config_lint.Base.{
  Bool, List, Option, String, contains_func, false, if◌then◌else◌, is_nil, nat_eq, none, some,
  string_eq, ◌&&◌, ◌==◌, ◌||◌,
}
use Prim.Native.Char.{code}
use otelcol_config_lint.Lint.Findings.{has_prefix}

-- `Match` gives no answer for a pattern that it cannot parse.
pub record Globs : Type 0 where
  pub glob_match : String → String → Option Bool
  pub base : String → String

abbrev pub stdin_marker : String
stdin_marker = "-"

-- `strings.Contains`
abbrev pub contains_text : String → String → Bool
contains_text String.[] p = has_prefix String.[] p
contains_text (String.◌∷◌ c s) p = has_prefix (String.◌∷◌ c s) p || contains_text s p

-- `strings.Trim(pattern, "*")`
abbrev pub trim_left_stars : String → String
trim_left_stars String.[] = String.[]
trim_left_stars (String.◌∷◌ c s) =
    let rest = trim_left_stars s in if code c == b'*' then rest else String.◌∷◌ c s

abbrev pub trim_right_stars : String → String
trim_right_stars String.[] = String.[]
trim_right_stars (String.◌∷◌ c s) =
    let rest = trim_right_stars s in
    if code c == b'*' && rest == "" then String.[] else String.◌∷◌ c rest

abbrev accepted : Option Bool → Bool
accepted none = false
accepted (some b) = b

module _ (globs : Globs) where
  -- `Match`
  unfoldable pub path_matches : String → String → Bool
  path_matches pattern path =
      accepted (globs.glob_match pattern (globs.base path))
      || accepted (globs.glob_match pattern path)
      || contains_text pattern "*"
        && contains_text path (trim_right_stars (trim_left_stars pattern))

  -- whether `CheckPattern` gives an error
  unfoldable pub is_bad_pattern : String → Bool
  is_bad_pattern pattern = is_nil (globs.glob_match pattern "")

  -- `excluded`
  unfoldable pub is_excluded : List String → String → Bool
  unfolding path_matches
  is_excluded exclude path = contains_func exclude (λ pattern. path_matches pattern path)
