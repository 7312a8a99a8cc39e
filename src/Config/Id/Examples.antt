-- ===== src/Config/Id/Examples.antt =====
-- Runs and witnesses for the identifiers.
use otelcol_config_lint.Base.{refl, ◌≡◌}
use mathlib.Core.Path.{subst}
use otelcol_config_lint.Base.Text.{trim_space, cut}
use otelcol_config_lint.Config.Id.{ComponentId, id_text, parse_id}
use otelcol_config_lint.Config.Id.RoundTrip.{IsCanonical, parse_id-IsCanonical, parse_id-id_text}

abbrev traces_otlp : ComponentId
traces_otlp = record { type = "otlp"; name = "traces" }

parse_otlp : parse_id " otlp / traces" ≡ traces_otlp
unfolding parse_id trim_space cut
parse_otlp = refl

traces_otlp-IsCanonical : IsCanonical traces_otlp
traces_otlp-IsCanonical = subst IsCanonical parse_otlp (parse_id-IsCanonical " otlp / traces")

parse_id-id_text_example : parse_id (id_text traces_otlp) ≡ traces_otlp
parse_id-id_text_example = parse_id-id_text traces_otlp traces_otlp-IsCanonical
