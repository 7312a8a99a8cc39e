-- ===== src/Schema/Diff.antt =====
-- pkg/schema/diff.go: what one release changed about the components of a distribution.
pub mod Lists
pub mod Names
pub mod Lookup
pub mod Unchanged
pub mod Same
pub mod Empty
mod Examples
use otelcol_config_lint.Base.{
  Bool, List, Option, String, [], append_if, contains_func, false, for_each, if◌then◌else◌,
  is_empty, is_nil, map, none, not, some, string_eq, true, ℕ, ◌&&◌, ◌++◌, ◌==◌, ◌||◌, ◌∷◌,
}
use otelcol_config_lint.Config.Id.{Kind, kinds}
use otelcol_config_lint.Diag.{text_lt}
use otelcol_config_lint.Schema.{Inventory, Schema, count, find_type, info}
use otelcol_config_lint.Sets.{has, new}

-- `Components[kind]`
abbrev pub ByType : Type 0
ByType = List (String × Inventory)

pub record Ref : Type 0 where
  pub kind : Kind
  pub type : String

pub record Rename : Type 0 where
  pub kind : Kind
  pub source : String
  pub target : String

pub record StabilityChange : Type 0 where
  pub kind : Kind
  pub type : String
  pub signal : String
  pub source : String
  pub target : String

pub record Diff : Type 0 where
  pub distribution : String
  pub source : String
  pub target : String
  pub added : List Ref
  pub removed : List Ref
  pub renamed : List Rename
  pub restabilised : List StabilityChange
  pub left_open : List Ref
  pub opened : List Ref
  pub closed : List Ref
  pub total : ℕ

-- `AtLeastBeta`
unfoldable pub at_least_beta : String → Bool
at_least_beta s = s == "beta" || s == "stable"

module _ {A : Type 0} (lt : A → A → Bool) where
  abbrev pub insert_by : A → List A → List A
  insert_by a [] = a ∷ []
  insert_by a (b ∷ bs) = let rest = insert_by a bs in if lt b a then b ∷ rest else a ∷ b ∷ bs

  -- `sort.Slice`
  unfoldable pub sort_by : List A → List A
  sort_by [] = []
  sort_by (a ∷ as') = insert_by a (sort_by as')

-- `sortRefs`
unfoldable pub sort_refs : List Ref → List Ref
unfolding sort_by text_lt
sort_refs refs = sort_by (λ a b. text_lt a.type b.type) refs

abbrev pub has_type : ByType → String → Bool
has_type by_type type = not (is_nil (find_type by_type type))

-- `missingFrom`; `skip` is nil in one of its calls
abbrev pub missing_entry : Kind → ByType → List String → String × Inventory → List Ref
missing_entry kind base skip e =
    append_if (not (has_type base e.0 || has skip e.0)) (record { kind = kind; type = e.0 })

unfoldable pub missing_from : Kind → ByType → ByType → List String → List Ref
unfolding sort_refs
missing_from kind base have skip = sort_refs (for_each have (missing_entry kind base skip))

-- `isOpen`
abbrev pub is_open_component : Inventory → Bool
is_open_component c = elim c.fields [ none ↦ false | some f ↦ (info f).is_open ]

-- `openIn`
unfoldable pub open_in : Kind → ByType → List Ref
unfolding sort_refs
open_in kind by_type = sort_refs (
    for_each by_type (λ (e : String × Inventory).
      append_if (is_open_component e.1) (record { kind = kind; type = e.0 })))

-- the components of both releases, with what each says
abbrev pub with_old : {B : Type 0} → Option Inventory → (Inventory → List B) → List B
with_old none f = []
with_old (some was) f = f was

-- `opennessChanges`, its two results one by one
abbrev pub opened_entry : Kind → ByType → String × Inventory → List Ref
opened_entry kind old e = with_old (find_type old e.0) (λ was.
    append_if (not (is_open_component was) && is_open_component e.1)
      (record { kind = kind; type = e.0 }))

abbrev pub closed_entry : Kind → ByType → String × Inventory → List Ref
closed_entry kind old e = with_old (find_type old e.0) (λ was.
    append_if (is_open_component was && not (is_open_component e.1))
      (record { kind = kind; type = e.0 }))

unfoldable pub openness_changes : Kind → ByType → ByType → List Ref × List Ref
unfolding sort_refs
openness_changes kind old current = (
  sort_refs (for_each current (opened_entry kind old)),
  sort_refs (for_each current (closed_entry kind old)),
)

-- A map from legacy names to their replacements; writing a key replaces its entry.
abbrev pub write_pair : String → String → List (String × String) → List (String × String)
write_pair k v [] = (k, v) ∷ []
write_pair k v (e ∷ es) = let rest = write_pair k v es in if e.0 == k then (k, v) ∷ es else e ∷ rest

abbrev pub alias_pair : String × Inventory → List (String × String) → List (String × String)
alias_pair e out =
    if not (e.1.alias_of == "")
    then write_pair e.0 e.1.alias_of out
    else if not (e.1.alias == "")
    then write_pair e.1.alias e.0 out
    else out

-- `aliasPairs`
pub pairs_from : List (String × String) → ByType → List (String × String)
pairs_from out [] = out
pairs_from out (e ∷ es) = pairs_from (alias_pair e out) es

unfoldable pub alias_pairs : ByType → List (String × String)
unfolding pairs_from
alias_pairs by_type = pairs_from [] by_type

abbrev pub knows_pair : List (String × String) → String × String → Bool
knows_pair pairs p = contains_func pairs (λ (q : String × String). q.0 == p.0 && q.1 == p.1)

-- `renamesIn`
abbrev pub rename_entry : Kind → ByType → String × String → List Rename
rename_entry kind old p =
    append_if (not (knows_pair (alias_pairs old) p) && has_type old p.0)
      (record { kind = kind; source = p.0; target = p.1 })

unfoldable pub renames_in : Kind → ByType → ByType → List Rename
unfolding sort_by text_lt alias_pairs
renames_in kind old current =
    sort_by (λ (a b : Rename). text_lt a.source b.source)
      (for_each (alias_pairs current) (rename_entry kind old))

-- `Stability[signal]`, empty where the map has no such key
abbrev pub level_of : List (String × String) → String → String
level_of [] signal = ""
level_of (e ∷ es) signal = if e.0 == signal then e.1 else level_of es signal

-- `stabilitySignals`
unfoldable pub stability_signals : Inventory → Inventory → List String
unfolding sort_by text_lt new
stability_signals a b =
    sort_by text_lt (new (map (λ (e : String × String). e.0) (a.stability ++ b.stability)))

abbrev pub both_or_neither : Bool → Bool → Bool
both_or_neither true b = b
both_or_neither false b = not b

-- the condition under which the level of a signal is reported
unfoldable pub crosses_beta : Inventory → Inventory → String → Bool
unfolding at_least_beta
crosses_beta was comp signal =
    let before = level_of was.stability signal in
    let after = level_of comp.stability signal in
    not
      (before == "" || after == "" || both_or_neither (at_least_beta before) (at_least_beta after))

abbrev pub change_of : Kind → String → Inventory → Inventory → String → List StabilityChange
change_of kind type was comp signal = append_if (crosses_beta was comp signal) (record {
  kind = kind;
  type = type;
  signal = signal;
  source = level_of was.stability signal;
  target = level_of comp.stability signal;
})

abbrev pub changes_entry : Kind → ByType → String × Inventory → List StabilityChange
changes_entry kind old e =
    with_old (find_type old e.0)
      (λ was. for_each (stability_signals was e.1) (change_of kind e.0 was e.1))

abbrev pub change_lt : StabilityChange → StabilityChange → Bool
change_lt a b = if not (a.type == b.type) then text_lt a.type b.type else text_lt a.signal b.signal

-- `restabilisedIn`
unfoldable pub restabilised_in : Kind → ByType → ByType → List StabilityChange
unfolding sort_by text_lt stability_signals crosses_beta
restabilised_in kind old current = sort_by change_lt (for_each current (changes_entry kind old))

-- what the loop of `DiffSchemas` adds for one kind
abbrev pub targets : List Rename → List String
targets renames = map (λ (r : Rename). r.target) renames

abbrev pub added_in : Kind → ByType → ByType → List Ref
added_in kind old current =
    missing_from kind old current (new (targets (renames_in kind old current)))

-- the result without an earlier release
abbrev first_diff : Schema → Diff
first_diff release = record {
  distribution = release.distribution;
  source = "";
  target = release.collector_version;
  added = [];
  removed = [];
  renamed = [];
  restabilised = [];
  left_open = for_each kinds (λ k. open_in k (release.components k));
  opened = [];
  closed = [];
  total = count release;
}

abbrev pub per_kind : {B : Type 0} → Schema → Schema → (Kind → ByType → ByType → List B) → List B
per_kind old release f = for_each kinds (λ k. f k (old.components k) (release.components k))

-- `DiffSchemas`
unfoldable pub diff_schemas : Option Schema → Schema → Diff
unfolding count open_in missing_from renames_in restabilised_in openness_changes
diff_schemas none release = first_diff release
diff_schemas (some old) release = record (first_diff release) {
  source = old.collector_version;
  added = per_kind old release added_in;
  removed = per_kind old release (λ k was now. missing_from k now was []);
  renamed = per_kind old release renames_in;
  restabilised = per_kind old release restabilised_in;
  opened = per_kind old release (λ k was now. (openness_changes k was now).0);
  closed = per_kind old release (λ k was now. (openness_changes k was now).1);
}

-- `Empty`
unfoldable pub is_empty_diff : Diff → Bool
is_empty_diff d =
    is_empty d.added
    && is_empty d.removed
    && is_empty d.renamed
    && is_empty d.restabilised
    && is_empty d.opened
    && is_empty d.closed
