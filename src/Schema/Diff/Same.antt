-- ===== src/Schema/Diff/Same.antt =====
-- What an empty diff asks of the components of one kind, said of the components themselves.
use otelcol_config_lint.Base.{
  All, All-iff, Bool, Bool-cases, List, Option, Option-cases, String, [], ap, arith, false,
  if◌then◌else◌, inl, inr, none, not, refl, some, string_eq, sym, true, ◌==◌, ◌||◌, ◌∙◌, ◌∷◌, ◌≡◌,
  ◌↔◌,
}
use otelcol_config_lint.Schema.{Field, Inventory, field, find_type}
use otelcol_config_lint.Schema.Diff.{
  ByType, at_least_beta, both_or_neither, crosses_beta, has_type, is_open_component, level_of,
}
use otelcol_config_lint.Schema.Diff.Lookup.{SameNames, SameNames_iff}
use otelcol_config_lint.Schema.Diff.Names.{find_type-listed, listed}
use otelcol_config_lint.Schema.Diff.Unchanged.{IsQuiet, KnownTypes, QuietEntry}

-- Both releases list the types.
abbrev pub SameTypes : ByType → ByType → Type 0
SameTypes old current =
    All (λ (e : String × Inventory). listed old e.0 ≡ true) current
    × All (λ (e : String × Inventory). listed current e.0 ≡ true) old

-- A schema of the settings that lets other keys through.
abbrev pub has_open_settings : Option Field → Bool
has_open_settings none = false
has_open_settings (some (field i children)) = i.is_open

-- The level that is recorded for a signal.
abbrev pub recorded : List (String × String) → String → Option String
recorded [] signal = none
recorded (e ∷ es) signal =
    let later = recorded es signal in if e.0 == signal then some e.1 else later

abbrev pub is_mature : String → Bool
is_mature level = level == "beta" || level == "stable"

-- No signal that both record at a level is mature in one and not in the other.
abbrev pub SameStability : Inventory → Inventory → Type 0
SameStability was c =
    (signal before after : String)
    → recorded was.stability signal ≡ some before
    → recorded c.stability signal ≡ some after
    → (before == "") ≡ false
    → (after == "") ≡ false
    → is_mature before ≡ is_mature after

abbrev pub SameEntry : ByType → String × Inventory → Type 0
SameEntry old e =
    (was : Inventory)
    → find_type old e.0 ≡ some was
    → (has_open_settings was.fields ≡ has_open_settings e.1.fields) × SameStability was e.1

abbrev pub IsUnchanged : ByType → ByType → Type 0
IsUnchanged old current =
    SameTypes old current × SameNames old current × All (SameEntry old) current

is_open_lem : (c : Inventory) → is_open_component c ≡ has_open_settings c.fields
is_open_lem c = of_fields c.fields
  where
    of_fields :
        (fields : Option Field)
        → is_open_component (record c { fields = fields }) ≡ has_open_settings fields
    of_fields none = refl
    of_fields (some (field i children)) = refl

level_of-recorded :
    (es : List (String × String)) (signal level : String)
    → recorded es signal ≡ some level
    → level_of es signal ≡ level
level_of-recorded [] signal level h = absurd (cc (h))
level_of-recorded (e ∷ es) signal level h = elim (Bool-cases (e.0 == signal)) [
  | inl q ↦ let found : some e.1 ≡ some level = rw q at h in rw q (cc (found))
  | inr q ↦
      let later : recorded es signal ≡ some level = rw q at h in
      rw q (level_of-recorded es signal level later)
]

level_of-unrecorded :
    (es : List (String × String)) (signal : String)
    → recorded es signal ≡ none
    → level_of es signal ≡ ""
level_of-unrecorded [] signal h = refl
level_of-unrecorded (e ∷ es) signal h = elim (Bool-cases (e.0 == signal)) [
  | inl q ↦ let found : some e.1 ≡ none = rw q at h in absurd (cc (found))
  | inr q ↦
      let later : recorded es signal ≡ none = rw q at h in
      rw q (level_of-unrecorded es signal later)
]

-- What `crosses_beta` asks of two levels.
abbrev crossed : String → String → Bool
crossed before after =
    not (before == "" || after == "" || both_or_neither (is_mature before) (is_mature after))

crosses_beta-crossed :
    (was c : Inventory) (signal before after : String)
    → level_of was.stability signal ≡ before
    → level_of c.stability signal ≡ after
    → crosses_beta was c signal ≡ crossed before after
unfolding crosses_beta at_least_beta
crosses_beta-crossed was c signal before after h k =
    ap (λ b. crossed b (level_of c.stability signal)) h ∙ ap (crossed before) k

same_sides :
    (a b x y : Bool) → not (a || b || both_or_neither x y) ≡ false → a ≡ false → b ≡ false → x ≡ y
same_sides a b x y h p q = ground arith

not_crossed :
    (a b x y : Bool) → (a ≡ false → b ≡ false → x ≡ y) → not (a || b || both_or_neither x y) ≡ false
not_crossed true b x y h = refl
not_crossed false true x y h = refl
not_crossed false false x y h = ground (arith, h refl refl)

quiet_iff :
    (was c : Inventory)
    → ((signal : String) → crosses_beta was c signal ≡ false) ↔ SameStability was c
quiet_iff was c = (
  (λ q signal before after h k p r.
      let levels =
        crosses_beta-crossed was c signal before after
          (level_of-recorded was.stability signal before h)
          (level_of-recorded c.stability signal after k) in
      same_sides (before == "") (after == "") (is_mature before) (is_mature after)
        (sym levels ∙ q signal) p r),
  (λ s signal. elim (Option-cases (recorded was.stability signal)) [
    | inl h ↦
        crosses_beta-crossed was c signal "" (level_of c.stability signal)
          (level_of-unrecorded was.stability signal h) refl
    | inr (before, h) ↦ elim (Option-cases (recorded c.stability signal)) [
      | inl k ↦
          crosses_beta-crossed was c signal before ""
            (level_of-recorded was.stability signal before h)
            (level_of-unrecorded c.stability signal k)
          ∙ unrecorded (before == "") (both_or_neither (is_mature before) (is_mature ""))
      | inr (after, k) ↦
          crosses_beta-crossed was c signal before after
            (level_of-recorded was.stability signal before h)
            (level_of-recorded c.stability signal after k)
          ∙ not_crossed (before == "") (after == "") (is_mature before) (is_mature after)
              (s signal before after h k)
    ]
  ]),
)
  where
    unrecorded : (a b : Bool) → not (a || true || b) ≡ false
    unrecorded a b = ground arith

entry_iff : (old : ByType) (e : String × Inventory) → QuietEntry old e ↔ SameEntry old e
entry_iff old e = (
  (λ q was h.
      (sym (is_open_lem was) ∙ (q was h).0 ∙ is_open_lem e.1, (quiet_iff was e.1).0 (q was h).1)),
  (λ s was h.
      (is_open_lem was ∙ (s was h).0 ∙ sym (is_open_lem e.1), (quiet_iff was e.1).1 (s was h).1)),
)

types_iff : (old current : ByType) → KnownTypes old current ↔ SameTypes old current
types_iff old current =
    let known = λ (ts : ByType) (e : String × Inventory). find_type-listed ts e.0 in
    let side = λ (ts es : ByType).
      All-iff (λ (e : String × Inventory). has_type ts e.0 ≡ true)
        (λ (e : String × Inventory). listed ts e.0 ≡ true) es
        (λ e. ((λ h. sym (known ts e) ∙ h), (λ h. known ts e ∙ h))) in
    (
      (λ q. ((side old current).0 q.0, (side current old).0 q.1)),
      (λ s. ((side old current).1 s.0, (side current old).1 s.1)),
    )

pub IsUnchanged_iff : (old current : ByType) → IsQuiet old current ↔ IsUnchanged old current
IsUnchanged_iff old current =
    let types = types_iff old current in
    let names = SameNames_iff old current in
    let entries = All-iff (QuietEntry old) (SameEntry old) current (entry_iff old) in
    (
      (λ q. (types.0 q.0, names.0 q.1, entries.0 q.2)),
      (λ s. (types.1 s.0, names.1 s.1, entries.1 s.2)),
    )
