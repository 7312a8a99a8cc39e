-- ===== src/Schema/Decoding.antt =====
-- pkg/schema/decoder.go: how the collector of a release decodes quoted scalars.
use otelcol_config_lint.Base.{
  Bool, List, Option, String, [], false, if◌then◌else◌, is_nil, length, ltb, nat_eq, none, not,
  some, string_eq, true, ℕ, ◌&&◌, ◌==◌, ◌^◌, ◌||◌, ◌∷◌,
}
use otelcol_config_lint.Base.Order.{is_lt}
use otelcol_config_lint.Base.Text.{codes, cut}
use otelcol_config_lint.Schema.{Decoder, Schema}
use otelcol_config_lint.Schema.Version.{compare_version, digits, normalize, split, without_v}

-- `ParseUint` at base 10 and 32 bits, of a text that `FormatUint` writes the same way
abbrev pub is_canonical : List ℕ → Bool
is_canonical [] = false
is_canonical (c ∷ []) = not (is_nil (digits 0 (c ∷ [])))
is_canonical (c ∷ d ∷ cs) =
    not (c == b'0') && elim (digits 0 (c ∷ d ∷ cs)) [ none ↦ false | some n ↦ ltb n (2 ^ 32) ]

abbrev all_canonical : List String → Bool
all_canonical [] = true
all_canonical (p ∷ ps) = is_canonical (codes p) && all_canonical ps

-- `releaseVersion`
unfoldable pub release_version : String → Option String
unfolding normalize cut split codes digits
release_version v =
    let version = (cut b'+' (normalize v)).before in
    let parts = split b'.' (without_v version) in
    if length parts == 3 && all_canonical parts then some version else none

-- The two defaults that are known: weak conversion, and null as zero.
pub record ScalarDecoding : Type 0 where
  pub weak : Bool
  pub null_zero : Bool

abbrev decoding_at : String → Option String → Option ScalarDecoding
decoding_at null_boundary none = none
decoding_at null_boundary (some version) = some (record {
  weak = is_lt (compare_version version "v0.105.0");
  null_zero = not (is_lt (compare_version version null_boundary));
})

abbrev is_upstream : String → Bool
is_upstream d = d == "" || d == "core" || d == "contrib" || d == "k8s" || d == "otlp"

decoding_of : Schema → Option Decoder → Option ScalarDecoding
unfolding release_version
decoding_of s (some d) =
    if d.modified || d.incomplete
    then none
    else decoding_at "v1.33.0" (release_version d.confmap_version)
decoding_of s none =
    if is_upstream s.distribution
    then decoding_at "v0.127.0" (release_version s.collector_version)
    else none

-- `ScalarDecoding`; `none` where the defaults are not known
unfoldable pub scalar_decoding : Option Schema → Option ScalarDecoding
unfolding decoding_of
scalar_decoding none = none
scalar_decoding (some s) = decoding_of s s.decoder
