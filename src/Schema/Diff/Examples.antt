-- ===== src/Schema/Diff/Examples.antt =====
-- Two releases that differ by a rename, and a witness.
use otelcol_config_lint.Base.{
  All, if◌then◌else◌, ◌==◌, String, [], ◌∷◌, none, some, true, refl, ◌≡◌, ◌↔◌, string_eq, nat_eq,
}
use otelcol_config_lint.Config.Id.{kind_eq, Kind, kinds}
use otelcol_config_lint.Diag.{text_lt}
use otelcol_config_lint.Schema.{Inventory, Schema, find_type, count}
use otelcol_config_lint.Schema.Diff.{
  alias_pairs, missing_from, openness_changes, renames_in, sort_by, sort_refs, diff_schemas,
  is_empty_diff, restabilised_in, stability_signals, crosses_beta, at_least_beta, open_in,
  pairs_from,
}
use otelcol_config_lint.Schema.Diff.Empty.{is_empty_diff_iff}
use otelcol_config_lint.Schema.Diff.Same.{IsUnchanged}
use otelcol_config_lint.Sets.{insert, insert_one, new}

abbrev described : String → String → Inventory
described type alias = record {
  type = type;
  signals = "traces" ∷ [];
  stability = ("traces", "beta") ∷ [];
  pairs = [];
  deprecated = "";
  alias_of = "";
  alias = alias;
  fields = none;
}

abbrev release_with : String → String → String → Schema
release_with version type alias = record {
  collector_version = version;
  distribution = "core";
  decoder = none;
  components = λ k. if k == Kind.exporter then (type, described type alias) ∷ [] else [];
}

abbrev earlier : Schema
earlier = release_with "0.156.0" "otlp" ""

abbrev later : Schema
later = release_with "0.157.0" "otlp_grpc" "otlp"

-- An old name that only the field `Alias` of its replacement records is reported twice.
renamed_and_removed :
    ((diff_schemas (some earlier) later).renamed
      ≡ record { kind = Kind.exporter; source = "otlp"; target = "otlp_grpc" } ∷ [])
    × ((diff_schemas (some earlier) later).removed
        ≡ record { kind = Kind.exporter; type = "otlp" } ∷ [])
unfolding diff_schemas count open_in missing_from renames_in restabilised_in openness_changes
    sort_refs sort_by text_lt alias_pairs pairs_from stability_signals crosses_beta at_least_beta
    new insert insert_one find_type
renamed_and_removed = (refl, refl)

is_empty_diff_iff_example :
    (is_empty_diff (diff_schemas (some earlier) later) ≡ true)
    ↔ All (λ k. IsUnchanged (earlier.components k) (later.components k)) kinds
is_empty_diff_iff_example = is_empty_diff_iff earlier later
