-- ===== src/Schema/Spans/RoundTrip.antt =====
-- The spans of a component give back the releases that ship it.
use otelcol_config_lint.Base.{
  All, All-map, Bool, Bool-cases, List, String, [], arith, if◌then◌else◌, inl, inr, none, refl,
  some, string_eq, true, ◌==◌, ◌||◌, ◌∷◌, ◌≡◌, ◌∙◌, ap, nat_eq, beq→eq,
}
use mathlib.Core.Path.{ap₂}
use otelcol_config_lint.Schema.Spans.{
  Span, span_covers, covers, oldest_first, runs, newest, open_last, spans_of, shipped, expand_type,
}
use otelcol_config_lint.Schema.Spans.Ascending.{
  upto, IsDistinct, oldest_first-All, oldest_first-IsAscending, newest-upto,
}
use otelcol_config_lint.Schema.Spans.Exact.{is_named, runs_exact}

-- Leaving the last span open does not change what is covered up to the newest release.
open_last-covers :
    (last : String) (spans : List Span) (w : String)
    → upto w last ≡ true
    → covers (open_last last spans) w ≡ covers spans w
unfolding covers span_covers
open_last-covers last [] w h = refl
open_last-covers last (s ∷ []) w h = elim (Bool-cases (s.to == last)) [
  | inl e ↦
      let k : upto w s.to ≡ true = ap (upto w) (beq→eq s.to last e) ∙ h in rw e (ground (arith, k))
  | inr e ↦ rw e refl
]
open_last-covers last (s ∷ t ∷ ts) w h =
    ap (λ b. span_covers s w || b) (open_last-covers last (t ∷ ts) w h)

shipped_same :
    (f g : String → Bool) (vs : List String) → All (λ w. f w ≡ g w) vs → shipped f vs ≡ shipped g vs
shipped_same f g [] h = refl
shipped_same f g (v ∷ vs) h =
    ap₂ (λ b rest. if b then v ∷ rest else rest) h.0 (shipped_same f g vs h.1)

-- Of releases with a name that no two of compare equal, the spans that SpansOf collapses the present
-- ones into are expanded to exactly those, oldest first: gaps are kept, and the span that is left open
-- for a component that is still shipped ends at the newest release.
pub expand_type-spans_of :
    (releases : List String) (present : String → Bool)
    → IsDistinct releases
    → All (λ v. is_named v ≡ true) releases
    → expand_type (oldest_first releases) (some (spans_of releases present))
      ≡ some (shipped present (oldest_first releases))
unfolding spans_of
expand_type-spans_of releases present d n =
    let vs = oldest_first releases in
    let o = oldest_first-IsAscending releases d in
    let exact = runs_exact present none vs tt (oldest_first-All _ releases n) o in
    ap some (
      shipped_same (covers (open_last (newest vs) (runs present none vs)))
        (covers (runs present none vs)) vs
        (All-map _ _ vs (λ w h. open_last-covers (newest vs) (runs present none vs) w h)
          (newest-upto vs o))
      ∙ shipped_same (covers (runs present none vs)) present vs exact)
