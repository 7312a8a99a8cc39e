-- ===== src/Schema/Spans.antt =====
-- pkg/schema/components.go: which releases ship a component type, as runs of consecutive releases.
pub mod Ascending
pub mod Exact
pub mod RoundTrip
use otelcol_config_lint.Base.{
  Bool, List, Option, String, [], contains_func, false, if◌then◌else◌, none, not, some, string_eq,
  true, ◌&&◌, ◌++◌, ◌==◌, ◌||◌, ◌∷◌,
}
use otelcol_config_lint.Base.Order.{is_lt}
use otelcol_config_lint.Base.Order.Lists.{at_most}
use otelcol_config_lint.Config.Id.{Kind}
use otelcol_config_lint.Schema.Version.{compare_version}

-- `to` is empty while the component is still shipped.
pub record Span : Type 0 where
  pub from : String
  pub to : String

-- `Span.Covers`
unfoldable pub span_covers : Span → String → Bool
span_covers s version =
    not (is_lt (compare_version version s.from))
    && (s.to == "" || at_most (compare_version version s.to))

-- `covers`
unfoldable pub covers : List Span → String → Bool
unfolding span_covers
covers spans version = contains_func spans (λ (s : Span). span_covers s version)

-- `oldestFirst`; of releases that compare equal, any order will do for the code
abbrev pub insert_release : String → List String → List String
insert_release v [] = v ∷ []
insert_release v (w ∷ ws) =
    let rest = insert_release v ws in if is_lt (compare_version w v) then w ∷ rest else v ∷ w ∷ ws

unfoldable pub oldest_first : List String → List String
oldest_first [] = []
oldest_first (v ∷ vs) = insert_release v (oldest_first vs)

-- The loop of `SpansOf`: the span that `cur` points at is carried, and stands in the list once a
-- release without the component or the end of the list is met.
abbrev pub started : Option Span → String → String
started none v = v
started (some s) v = s.from

abbrev pub extended : Option Span → String → Span
extended cur v = record { from = started cur v; to = v }

abbrev pub ended : Option Span → List Span
ended none = []
ended (some s) = s ∷ []

unfoldable pub runs : (String → Bool) → Option Span → List String → List Span
runs present cur [] = ended cur
runs present cur (v ∷ vs) =
    let longer = runs present (some (extended cur v)) vs in
    let closed = ended cur ++ runs present none vs in if present v then longer else closed

-- the newest of the ordered releases
abbrev pub newest : List String → String
newest [] = ""
newest (v ∷ []) = v
newest (v ∷ w ∷ vs) = newest (w ∷ vs)

-- the last span is left open where it ends at the newest release
abbrev pub open_last : String → List Span → List Span
open_last last [] = []
open_last last (s ∷ []) = (if s.to == last then record s { to = "" } else s) ∷ []
open_last last (s ∷ t ∷ ts) = s ∷ open_last last (t ∷ ts)

-- `SpansOf`
unfoldable pub spans_of : List String → (String → Bool) → List Span
unfolding oldest_first runs
spans_of releases present =
    let ordered = oldest_first releases in open_last (newest ordered) (runs present none ordered)

abbrev pub shipped : (String → Bool) → List String → List String
shipped ships [] = []
shipped ships (v ∷ vs) = let rest = shipped ships vs in if ships v then v ∷ rest else rest

-- A distribution's components, by kind and type.
abbrev pub ComponentSpans : Type 0
ComponentSpans = Kind → String → Option (List Span)

pub record Components : Type 0 where
  pub distributions : String → Option ComponentSpans

-- what `Expand` gives for one type
abbrev pub expand_type : List String → Option (List Span) → Option (List String)
expand_type ordered none = none
expand_type ordered (some spans) = some (shipped (covers spans) ordered)

abbrev pub expand_spans :
    List String → Option ComponentSpans → Option (Kind → String → Option (List String))
expand_spans ordered none = none
expand_spans ordered (some by_kind) = some (λ kind type. expand_type ordered (by_kind kind type))

-- `Expand`
unfoldable pub expand :
    Components → String → List String → Option (Kind → String → Option (List String))
unfolding oldest_first
expand c distribution releases = expand_spans (oldest_first releases) (c.distributions distribution)

-- `Has`
unfoldable pub has_distribution : Components → String → Bool
has_distribution c distribution = elim (c.distributions distribution) [
  | none ↦ false
  | some _ ↦ true
]
