-- ===== src/Rule/Identifiers/Examples.antt =====
-- Identifiers, and a witness.
use otelcol_config_lint.Base.{All, [], none, refl, true, ◌≡◌, ◌↔◌, nat_eq, string_eq}
use otelcol_config_lint.Base.Text.{codes, cut, trim_space, utf8}
use otelcol_config_lint.Config.File.{Pipeline}
use otelcol_config_lint.Rule.Context.{context_of}
use otelcol_config_lint.Rule.Identifiers.{
  identifier_error, invalid_pipeline_key, is_signal, is_word,
}
use otelcol_config_lint.Rule.Identifiers.Accepted.{invalid_pipeline_key-nil, is_identifier}
use otelcol_config_lint.Rule.Sample.{sample}

spaces_are_trimmed : identifier_error is_word " otlp / 2 " ≡ ""
unfolding identifier_error cut trim_space codes utf8
spaces_are_trimmed = refl

name_is_missing : identifier_error is_word "otlp/" ≡ "the name after / must not be empty"
unfolding identifier_error cut trim_space codes utf8
name_is_missing = refl

invalid_pipeline_key-nil_example :
    (invalid_pipeline_key is_word (context_of sample none) ≡ [])
    ↔ All
        (λ (p : Pipeline). (is_identifier is_word p.key ≡ true) × (is_signal p.signal ≡ true))
        sample.service.pipelines
invalid_pipeline_key-nil_example = invalid_pipeline_key-nil is_word (context_of sample none)
