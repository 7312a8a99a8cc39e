-- ===== src/Schema/Diff/Unchanged.antt =====
-- When the diff of the components of one kind is empty, in the terms of the code.
use otelcol_config_lint.Diag.{text_lt}
use otelcol_config_lint.Sets.{insert, new}
use otelcol_config_lint.Config.Id.{Kind}
use otelcol_config_lint.Base.{
  refl, ◌||◌, arith, All-iff, List, ap, Bool, ◌∙◌, sym, for_each-nil, for_each, All-In, All-map,
  All, Bool-cases, String, [], append_if, false, inl, inr, not, some, string_eq, true, ◌&&◌, ◌≡◌,
  ◌↔◌,
}
use otelcol_config_lint.Schema.{Inventory, find_type}
use otelcol_config_lint.Schema.Diff.{
  rename_entry, missing_entry, targets, change_lt, Rename, Ref, openness_changes, sort_refs,
  renames_in, missing_from, added_in, restabilised_in, closed_entry, opened_entry, change_of,
  changes_entry, ByType, alias_pairs, crosses_beta, has_type, is_open_component, knows_pair,
  stability_signals,
}
use otelcol_config_lint.Schema.Diff.Lists.{
  All-times, sort_by-nil, append_if-nil, crossing_is_listed, with_old-nil, not_both, All_at,
}

-- Both releases have the types.
abbrev pub KnownTypes : ByType → ByType → Type 0
KnownTypes old current =
    All (λ (e : String × Inventory). has_type old e.0 ≡ true) current
    × All (λ (e : String × Inventory). has_type current e.0 ≡ true) old

-- No type of the earlier release has a new name that it did not have there.
abbrev pub KnownNames : ByType → ByType → Type 0
KnownNames old current =
    All (λ (p : String × String). has_type old p.0 ≡ true → knows_pair (alias_pairs old) p ≡ true)
      (alias_pairs current)

-- A component of both releases is open in both or in neither, and no signal crossed the beta line.
abbrev pub QuietEntry : ByType → String × Inventory → Type 0
QuietEntry old e =
    (was : Inventory)
    → find_type old e.0 ≡ some was
    → (is_open_component was ≡ is_open_component e.1)
      × ((signal : String) → crosses_beta was e.1 signal ≡ false)

abbrev pub IsQuiet : ByType → ByType → Type 0
IsQuiet old current = KnownTypes old current × KnownNames old current × All (QuietEntry old) current

-- The parts of one component.
quiet_iff :
    (kind : Kind) (type : String) (was c : Inventory)
    → (for_each (stability_signals was c) (change_of kind type was c) ≡ [])
      ↔ ((signal : String) → crosses_beta was c signal ≡ false)
quiet_iff kind type was c =
    let signals = stability_signals was c in
    let loop = for_each-nil signals (change_of kind type was c) in
    (
      (λ h signal. elim (Bool-cases (crosses_beta was c signal)) [
        | inl e ↦
            let none_here =
              All_at (λ s. change_of kind type was c s ≡ []) signals signal (loop.0 h)
                (crossing_is_listed was c signal e) in
            (append_if-nil (crosses_beta was c signal) _).0 none_here
        | inr e ↦ e
      ]),
      (λ q. loop.1 (All-In _ signals (λ s _. (append_if-nil (crosses_beta was c s) _).1 (q s)))),
    )

entry_iff :
    (kind : Kind) (old : ByType) (e : String × Inventory)
    → ((changes_entry kind old e ≡ [])
        × (opened_entry kind old e ≡ [])
        × (closed_entry kind old e ≡ []))
      ↔ QuietEntry old e
entry_iff kind old e =
    let found = find_type old e.0 in
    let changes =
      with_old-nil found
        (λ was. for_each (stability_signals was e.1) (change_of kind e.0 was e.1)) in
    let opens =
      with_old-nil found
        (λ was. append_if (not (is_open_component was) && is_open_component e.1) _) in
    let closes =
      with_old-nil found
        (λ was. append_if (is_open_component was && not (is_open_component e.1)) _) in
    (
      (λ h was eq. (
        (not_both (is_open_component was) (is_open_component e.1)).0 (
          (append_if-nil _ _).0 (opens.0 h.1 was eq),
          (append_if-nil _ _).0 (closes.0 h.2 was eq),
        ),
        (quiet_iff kind e.0 was e.1).0 (changes.0 h.0 was eq),
      )),
      (λ same. (
        changes.1 (λ was eq. (quiet_iff kind e.0 was e.1).1 (same was eq).1),
        opens.1 (λ was eq. (append_if-nil _ _).1 ((not_both _ _).1 (same was eq).0).0),
        closes.1 (λ was eq. (append_if-nil _ _).1 ((not_both _ _).1 (same was eq).0).1),
      )),
    )

missing_iff :
    (kind : Kind) (base have : ByType)
    → (missing_from kind base have [] ≡ [])
      ↔ All (λ (e : String × Inventory). has_type base e.0 ≡ true) have
unfolding missing_from sort_refs
missing_iff kind base have =
    let sorted =
      sort_by-nil (λ (a b : Ref). text_lt a.type b.type)
        (for_each have (missing_entry kind base [])) in
    let loop = for_each-nil have (missing_entry kind base []) in
    let entries =
      All-iff (λ e. missing_entry kind base [] e ≡ [])
        (λ (e : String × Inventory). has_type base e.0 ≡ true) have
        (λ e.
          let at = append_if-nil (not (has_type base e.0 || false)) _ in
          ((λ h. ground (arith, at.0 h)), (λ h. at.1 (ground (arith, h))))) in
    ((λ h. entries.0 (loop.0 (sorted.0 h))), (λ h. sorted.1 (loop.1 (entries.1 h))))

renames_iff :
    (kind : Kind) (old current : ByType)
    → (renames_in kind old current ≡ []) ↔ KnownNames old current
unfolding renames_in
renames_iff kind old current =
    let sorted =
      sort_by-nil (λ (a b : Rename). text_lt a.source b.source)
        (for_each (alias_pairs current) (rename_entry kind old)) in
    let loop = for_each-nil (alias_pairs current) (rename_entry kind old) in
    let entries =
      All-iff (λ p. rename_entry kind old p ≡ [])
        (λ (p : String × String). has_type old p.0 ≡ true → knows_pair (alias_pairs old) p ≡ true)
        (alias_pairs current)
        (λ p.
          let at = append_if-nil (not (knows_pair (alias_pairs old) p) && has_type old p.0) _ in
          (
            (λ h k. ground (arith, at.0 h, k)),
            (λ h. at.1 (implied (knows_pair (alias_pairs old) p) (has_type old p.0) h)),
          )) in
    ((λ h. entries.0 (loop.0 (sorted.0 h))), (λ h. sorted.1 (loop.1 (entries.1 h))))
  where
    implied : (a b : Bool) → (b ≡ true → a ≡ true) → (not a && b) ≡ false
    implied a true h = rw (h refl) refl
    implied true false h = refl
    implied false false h = refl

-- The six lists of one kind.
abbrev pub NoneIn : Kind → ByType → ByType → Type 0
NoneIn kind old current =
    (added_in kind old current ≡ [])
    × (missing_from kind current old [] ≡ [])
    × (renames_in kind old current ≡ [])
    × (restabilised_in kind old current ≡ [])
    × ((openness_changes kind old current).0 ≡ [])
    × ((openness_changes kind old current).1 ≡ [])

added_without_renames :
    (kind : Kind) (old current : ByType)
    → renames_in kind old current ≡ []
    → added_in kind old current ≡ missing_from kind old current []
unfolding new insert
added_without_renames kind old current h =
    ap (λ (rs : List Rename). missing_from kind old current (new (targets rs))) h

entries_iff :
    (kind : Kind) (old current : ByType)
    → ((restabilised_in kind old current ≡ [])
        × ((openness_changes kind old current).0 ≡ [])
        × ((openness_changes kind old current).1 ≡ []))
      ↔ All (QuietEntry old) current
unfolding restabilised_in openness_changes sort_refs
entries_iff kind old current =
    let lt = λ (a b : Ref). text_lt a.type b.type in
    let changes = for_each-nil current (changes_entry kind old) in
    let opens = for_each-nil current (opened_entry kind old) in
    let closes = for_each-nil current (closed_entry kind old) in
    let sorted_changes = sort_by-nil change_lt (for_each current (changes_entry kind old)) in
    let sorted_opens = sort_by-nil lt (for_each current (opened_entry kind old)) in
    let sorted_closes = sort_by-nil lt (for_each current (closed_entry kind old)) in
    let part = λ (e : String × Inventory). entry_iff kind old e in
    (
      (λ h.
          All-map _ _ current (λ e q. (part e).0 (q.0, q.1.0, q.1.1))
            (All-times _ _ current (changes.0 (sorted_changes.0 h.0)) (
              All-times _ _ current (opens.0 (sorted_opens.0 h.1))
                (closes.0 (sorted_closes.0 h.2))))),
      (λ same. (
        sorted_changes.1 (changes.1 (All-map _ _ current (λ e q. ((part e).1 q).0) same)),
        sorted_opens.1 (opens.1 (All-map _ _ current (λ e q. ((part e).1 q).1) same)),
        sorted_closes.1 (closes.1 (All-map _ _ current (λ e q. ((part e).1 q).2) same)),
      )),
    )

pub kind_iff : (kind : Kind) (old current : ByType) → NoneIn kind old current ↔ IsQuiet old current
kind_iff kind old current =
    let renames = renames_iff kind old current in
    let entries = entries_iff kind old current in
    let plain = added_without_renames kind old current in
    (
      (λ (added, removed, renamed, changes, opened, closed). (
        (
          (missing_iff kind old current).0 (sym (plain renamed) ∙ added),
          (missing_iff kind current old).0 removed,
        ),
        renames.0 renamed,
        entries.0 (changes, opened, closed),
      )),
      (λ (types, names, same). (
        plain (renames.1 names) ∙ (missing_iff kind old current).1 types.0,
        (missing_iff kind current old).1 types.1,
        renames.1 names,
        (entries.1 same).0,
        (entries.1 same).1,
        (entries.1 same).2,
      )),
    )
