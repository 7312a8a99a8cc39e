-- ===== src/Schema/Diff/Empty.antt =====
-- When the diff of two releases is empty.
use otelcol_config_lint.Config.Id.{kinds, Kind}
use otelcol_config_lint.Base.{
  ◌∷◌, is_empty, arith, All-iff, List, Bool, for_each-nil, All-map, All, [], some, string_eq, true,
  ◌&&◌, ◌≡◌, ◌↔◌,
}
use otelcol_config_lint.Schema.{Schema}
use otelcol_config_lint.Schema.Diff.{
  per_kind, diff_schemas, is_empty_diff, Ref, openness_changes, renames_in, missing_from, added_in,
  restabilised_in, ByType,
}
use otelcol_config_lint.Schema.Diff.Lists.{is_empty-nil}
use otelcol_config_lint.Schema.Diff.Unchanged.{NoneIn, kind_iff}
use otelcol_config_lint.Schema.Diff.Same.{IsUnchanged, IsUnchanged_iff}

six :
    (a b c d e f : Bool)
    → ((a && b && c && d && e && f) ≡ true)
      ↔ ((a ≡ true) × (b ≡ true) × (c ≡ true) × (d ≡ true) × (e ≡ true) × (f ≡ true))
six a b c d e f = ground arith

All-six :
    (P Q R S T U : Kind → Type 0) (ks : List Kind)
    → All P ks
    → All Q ks
    → All R ks
    → All S ks
    → All T ks
    → All U ks
    → All (λ k. P k × Q k × R k × S k × T k × U k) ks
All-six P Q R S T U [] a b c d e f = tt
All-six P Q R S T U (k ∷ ks) a b c d e f =
    ((a.0, b.0, c.0, d.0, e.0, f.0), All-six P Q R S T U ks a.1 b.1 c.1 d.1 e.1 f.1)

abbrev Absent : {B : Type 0} → Schema → Schema → (Kind → ByType → ByType → List B) → Kind → Type 0
Absent old release f k = f k (old.components k) (release.components k) ≡ []

-- A list that the loop over the kinds builds is empty.
per_kind_iff :
    {B : Type 0} (old release : Schema) (f : Kind → ByType → ByType → List B)
    → (is_empty (per_kind old release f) ≡ true) ↔ All (Absent old release f) kinds
per_kind_iff old release f =
    let loop = for_each-nil kinds (λ k. f k (old.components k) (release.components k)) in
    let empty = is_empty-nil (per_kind old release f) in
    ((λ h. loop.0 (empty.0 h)), (λ h. empty.1 (loop.1 h)))

abbrev NoneAt : Schema → Schema → Kind → Type 0
NoneAt old release k = NoneIn k (old.components k) (release.components k)

abbrev removed_in : Kind → ByType → ByType → List Ref
removed_in k was now = missing_from k now was []

abbrev opened_in : Kind → ByType → ByType → List Ref
opened_in k was now = (openness_changes k was now).0

abbrev closed_in : Kind → ByType → ByType → List Ref
closed_in k was now = (openness_changes k was now).1

empty_iff :
    (old release : Schema)
    → (is_empty_diff (diff_schemas (some old) release) ≡ true) ↔ All (NoneAt old release) kinds
unfolding is_empty_diff diff_schemas
empty_iff old release =
    let parts = six _ _ _ _ _ _ in
    let none_at = NoneAt old release in
    let added = per_kind_iff old release added_in in
    let removed = per_kind_iff old release removed_in in
    let renamed = per_kind_iff old release renames_in in
    let changes = per_kind_iff old release restabilised_in in
    let opened = per_kind_iff old release opened_in in
    let closed = per_kind_iff old release closed_in in
    (
      (λ h.
          let (a, b, c, d, e, f) = parts.0 h in
          All-six (Absent old release added_in) (Absent old release removed_in)
            (Absent old release renames_in) (Absent old release restabilised_in)
            (Absent old release opened_in) (Absent old release closed_in) kinds (added.0 a)
            (removed.0 b) (renamed.0 c) (changes.0 d) (opened.0 e) (closed.0 f)),
      (λ h. parts.1 (
        added.1 (All-map none_at (Absent old release added_in) kinds (λ k q. q.0) h),
        removed.1 (All-map none_at (Absent old release removed_in) kinds (λ k q. q.1) h),
        renamed.1 (All-map none_at (Absent old release renames_in) kinds (λ k q. q.2) h),
        changes.1 (All-map none_at (Absent old release restabilised_in) kinds (λ k q. q.3) h),
        opened.1 (All-map none_at (Absent old release opened_in) kinds (λ k q. q.4) h),
        closed.1 (All-map none_at (Absent old release closed_in) kinds (λ k q. q.5) h),
      )),
    )

-- A diff against an earlier release is empty exactly if, kind by kind, both releases list the same
-- types; a legacy name that the earlier release lists has, by what the components describe, no new name
-- now that it did not have there; and each component of both has settings that are open in both or in
-- neither, and no signal with a level in both that is beta or stable in just one of them.
pub is_empty_diff_iff :
    (old release : Schema)
    → (is_empty_diff (diff_schemas (some old) release) ≡ true)
      ↔ All (λ k. IsUnchanged (old.components k) (release.components k)) kinds
is_empty_diff_iff old release =
    let empty = empty_iff old release in
    let each =
      All-iff (NoneAt old release) (λ k. IsUnchanged (old.components k) (release.components k))
        kinds
        (λ k.
          let quiet = kind_iff k (old.components k) (release.components k) in
          let same = IsUnchanged_iff (old.components k) (release.components k) in
          ((λ h. same.0 (quiet.0 h)), (λ h. quiet.1 (same.1 h)))) in
    ((λ h. each.0 (empty.0 h)), (λ h. empty.1 (each.1 h)))
