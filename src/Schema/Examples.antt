-- ===== src/Schema/Examples.antt =====
-- Releases in order, and witnesses.
use Prim.Native.Nat.{Ordering}
use otelcol_config_lint.Base.{
  ◌==◌, not, Bool, [], ◌∷◌, none, some, true, false, String, refl, ◌≡◌, List, In, All, string_eq,
  nat_eq,
}
use otelcol_config_lint.Base.Order.{opposite}
use otelcol_config_lint.Base.Order.Lists.{at_most}
use otelcol_config_lint.Schema.Spans.{expand_type, oldest_first, runs, shipped, spans_of}
use otelcol_config_lint.Schema.Spans.Ascending.{IsDistinct}
use otelcol_config_lint.Schema.Spans.RoundTrip.{expand_type-spans_of}
use otelcol_config_lint.Schema.Version.{
  compare_version, nearest, parse_version, prerelease, segment, split, compare_prerelease,
  compare_identifier, is_numeric, compare_numeric, trim_leading_zeros, atoi, digits, normalize,
}
use otelcol_config_lint.Schema.Version.Order.{compare_version_total_preorder}
use otelcol_config_lint.Schema.Version.Nearest.{IsNewestFirst, nearest_newest}

release_candidate_first : compare_version "0.120.0-rc.2" "0.120.0" ≡ Ordering.lt
unfolding compare_version parse_version prerelease segment split compare_prerelease
    compare_identifier is_numeric compare_numeric trim_leading_zeros atoi digits normalize
release_candidate_first = refl

numbers_by_value : compare_version "1.0.0-rc.10" "1.0.0-rc.9" ≡ Ordering.gt
unfolding compare_version parse_version prerelease segment split compare_prerelease
    compare_identifier is_numeric compare_numeric trim_leading_zeros atoi digits normalize
numbers_by_value = refl

compare_version_total_preorder_example :
    (compare_version "0.120.0" "0.120.0-rc.2" ≡ opposite (compare_version "0.120.0-rc.2" "0.120.0"))
    × (at_most (compare_version "0.120.0-rc.2" "0.120.0") ≡ true
        → at_most (compare_version "0.120.0" "v1.0") ≡ true
        → at_most (compare_version "0.120.0-rc.2" "v1.0") ≡ true)
compare_version_total_preorder_example =
    compare_version_total_preorder "0.120.0-rc.2" "0.120.0" "v1.0"

abbrev versions : List String
versions = "0.121.0" ∷ "0.120.0" ∷ "0.120.0-rc.2" ∷ []

versions-IsNewestFirst : IsNewestFirst versions
unfolding compare_version parse_version prerelease segment split compare_prerelease
    compare_identifier is_numeric compare_numeric trim_leading_zeros atoi digits normalize
versions-IsNewestFirst = ((refl, (refl, tt)), ((refl, tt), (tt, tt)))

nearest_newest_example :
    ((v : String)
      → nearest versions "0.120.5" ≡ some v
      → In v versions
        × (at_most (compare_version v "0.120.5") ≡ true)
        × All
            (λ w.
              at_most (compare_version w "0.120.5") ≡ true → at_most (compare_version w v) ≡ true)
            versions)
    × (nearest versions "0.120.5" ≡ none
        → All (λ w. at_most (compare_version w "0.120.5") ≡ false) versions)
nearest_newest_example = nearest_newest versions "0.120.5" versions-IsNewestFirst

-- a component that the second release lacks, and that is still shipped
abbrev releases : List String
releases = "0.120.0" ∷ "0.118.0" ∷ "0.119.0" ∷ "0.121.0" ∷ []

abbrev ships : String → Bool
ships v = not (v == "0.119.0")

gap_is_kept :
    spans_of releases ships
    ≡ record { from = "0.118.0"; to = "0.118.0" } ∷ record { from = "0.120.0"; to = "" } ∷ []
unfolding compare_version parse_version prerelease segment split compare_prerelease
    compare_identifier is_numeric compare_numeric trim_leading_zeros atoi digits normalize spans_of
    runs oldest_first
gap_is_kept = refl

releases-IsDistinct : IsDistinct releases
unfolding compare_version parse_version prerelease segment split compare_prerelease
    compare_identifier is_numeric compare_numeric trim_leading_zeros atoi digits normalize
releases-IsDistinct = ((refl, (refl, (refl, tt))), ((refl, (refl, tt)), ((refl, tt), (tt, tt))))

expand_type-spans_of_example :
    expand_type (oldest_first releases) (some (spans_of releases ships))
    ≡ some (shipped ships (oldest_first releases))
expand_type-spans_of_example =
    expand_type-spans_of releases ships releases-IsDistinct (refl, (refl, (refl, (refl, tt))))
