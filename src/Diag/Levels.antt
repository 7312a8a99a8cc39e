-- ===== src/Diag/Levels.antt =====
-- `ParseSeverity` and `AtLeast`.
use otelcol_config_lint.Base.{List, String, [], arith, refl, some, true, ℕ, ◌↔◌, ◌∷◌, ◌≡◌, ◌≢◌}
use otelcol_config_lint.Base.Text.{same_codes, codes, to_lower, trim_space}
use otelcol_config_lint.Diag.{Severity, parse_severity, severity_text}

pub same_codes_iff : (xs ys : List ℕ) → (same_codes xs ys ≡ true) ↔ (xs ≡ ys)
same_codes_iff [] [] = ground arith
same_codes_iff [] (y ∷ ys) = ground arith
same_codes_iff (x ∷ xs) [] = ground arith
same_codes_iff (x ∷ xs) (y ∷ ys) = ground (arith, same_codes_iff xs ys)

parse_severity_sound :
    (s : String) (v : Severity)
    → parse_severity s ≡ some v
    → (v ≢ Severity.unset) × (to_lower (trim_space s) ≡ codes (severity_text v))
unfolding parse_severity
parse_severity_sound s Severity.error h =
    (λ e. cc, ground (arith, same_codes_iff (to_lower (trim_space s)) (codes "error")))
parse_severity_sound s Severity.warning h =
    (λ e. cc, ground (arith, same_codes_iff (to_lower (trim_space s)) (codes "warning")))
parse_severity_sound s Severity.info h =
    (λ e. cc, ground (arith, same_codes_iff (to_lower (trim_space s)) (codes "info")))
parse_severity_sound s Severity.off h =
    (λ e. cc, ground (arith, same_codes_iff (to_lower (trim_space s)) (codes "off")))
parse_severity_sound s Severity.unset h = absurd (ground arith)

parse_severity_complete :
    (s : String) (v : Severity)
    → (v ≢ Severity.unset) × (to_lower (trim_space s) ≡ codes (severity_text v))
    → parse_severity s ≡ some v
unfolding parse_severity
parse_severity_complete s Severity.error h = rw (h.1, parse_severity)
parse_severity_complete s Severity.warning h = rw (h.1, parse_severity)
parse_severity_complete s Severity.info h = rw (h.1, parse_severity)
parse_severity_complete s Severity.off h = rw (h.1, parse_severity)
parse_severity_complete s Severity.unset h = absurd (h.0 refl)

-- `ParseSeverity` reads a text as the level `v` exactly when the text, trimmed and in lower case, is
-- the name of `v`, one of the four levels.
pub parse_severity_iff :
    (s : String) (v : Severity)
    → (parse_severity s ≡ some v)
      ↔ ((v ≢ Severity.unset) × (to_lower (trim_space s) ≡ codes (severity_text v)))
parse_severity_iff s v = (parse_severity_sound s v, parse_severity_complete s v)
