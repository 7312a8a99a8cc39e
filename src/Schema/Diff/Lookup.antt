-- ===== src/Schema/Diff/Lookup.antt =====
-- A list of pairs with one entry for each key, as what it answers.
use mathlib.Core.Path.{subst}
use otelcol_config_lint.Base.{
  All, Bool-cases, Option, String, [], ap, beq→eq, false, inl, inr, none, refl, some, string_eq,
  sym, true, ◌==◌, ◌∙◌, ◌∷◌, ◌≡◌, ◌↔◌, eq_iff,
}
use otelcol_config_lint.Schema.Diff.{ByType, alias_pairs, has_type, knows_pair}
use otelcol_config_lint.Schema.Diff.Names.{
  Differs, IsUnique, Pairs, find_type-listed, listed, or_else, pair_at, pair_at-pairs_from,
  pairs_from-IsUnique, replacement,
}

-- A key that is found is not one that differs from all.
other_found_lem :
    (x : String) (es : Pairs) (l r : String)
    → Differs x es
    → pair_at es l ≡ some r
    → (x == l) ≡ false
other_found_lem x [] l r d h = absurd (cc (h))
other_found_lem x (e ∷ es) l r d h = elim (Bool-cases (e.0 == l)) [
  | inl q ↦ ap (λ t. x == t) (sym (beq→eq e.0 l q)) ∙ d.0
  | inr q ↦ let later : pair_at es l ≡ some r = rw q at h in other_found_lem x es l r d.1 later
]

same_text : (s : String) → (s == s) ≡ true
same_text s = (eq_iff s s).1 refl

All-pair_at :
    (P : String × String → Type 0) (es : Pairs)
    → IsUnique es
    → All P es ↔ ((l r : String) → pair_at es l ≡ some r → P (l, r))
All-pair_at P [] u = ((λ _ l r h. absurd (cc (h))), (λ _. tt))
All-pair_at P (e ∷ es) u =
    let later = All-pair_at P es u.1 in
    (
      (λ a l r h. elim (Bool-cases (e.0 == l)) [
        | inl q ↦
            let here : some e.1 ≡ some r = rw q at h in
            let value : e.1 ≡ r = cc (here) in
            subst (λ t. P (t, r)) (beq→eq e.0 l q) (subst (λ t. P (e.0, t)) value a.0)
        | inr q ↦ let behind : pair_at es l ≡ some r = rw q at h in later.0 a.1 l r behind
      ]),
      (λ f. (
        f e.0 e.1 (rw (same_text e.0) refl),
        later.1 (λ l r h. f l r (rw (other_found_lem e.0 es l r u.0 h) h)),
      )),
    )

knows_pair_iff :
    (es : Pairs) (l r : String)
    → IsUnique es
    → (knows_pair es (l, r) ≡ true) ↔ (pair_at es l ≡ some r)
knows_pair_iff [] l r u = ((λ h. absurd (cc (h))), (λ h. absurd (cc (h))))
knows_pair_iff (e ∷ es) l r u =
    let later = knows_pair_iff es l r u.1 in
    elim (Bool-cases (e.0 == l)) [
      | inl q ↦
          let same : e.0 ≡ l = beq→eq e.0 l q in
          rw q (
            (λ h. elim (Bool-cases (e.1 == r)) [
              | inl v ↦ ap some (beq→eq e.1 r v)
              | inr v ↦
                  let behind : knows_pair es (l, r) ≡ true = rw v at h in
                  let differs = other_found_lem e.0 es l r u.0 (later.0 behind) in
                  absurd (cc (q, differs))
            ]),
            (λ h.
                let value : e.1 ≡ r = cc (h) in
                let hit : (e.1 == r) ≡ true = (eq_iff e.1 r).1 value in rw hit refl),
          )
      | inr q ↦ rw q ((λ h. later.0 h), (λ h. later.1 h))
    ]

or_nothing : (o : Option String) → or_else o none ≡ o
or_nothing none = refl
or_nothing (some s) = refl

pair_at-alias_pairs :
    (by_type : ByType) (l : String) → pair_at (alias_pairs by_type) l ≡ replacement by_type l
unfolding alias_pairs
pair_at-alias_pairs by_type l = pair_at-pairs_from [] by_type l ∙ or_nothing (replacement by_type l)

alias_pairs-IsUnique : (by_type : ByType) → IsUnique (alias_pairs by_type)
unfolding alias_pairs
alias_pairs-IsUnique by_type = pairs_from-IsUnique [] by_type tt

-- A legacy name that the earlier release lists has no new name now that it did not have there.
abbrev pub SameNames : ByType → ByType → Type 0
SameNames old current =
    (legacy new_name : String)
    → replacement current legacy ≡ some new_name
    → listed old legacy ≡ true
    → replacement old legacy ≡ some new_name

pub SameNames_iff :
    (old current : ByType)
    → All
        (λ (p : String × String). has_type old p.0 ≡ true → knows_pair (alias_pairs old) p ≡ true)
        (alias_pairs current)
      ↔ SameNames old current
SameNames_iff old current =
    let P =
      λ (p : String × String). has_type old p.0 ≡ true → knows_pair (alias_pairs old) p ≡ true in
    let all = All-pair_at P (alias_pairs current) (alias_pairs-IsUnique current) in
    let known = λ (l r : String). knows_pair_iff (alias_pairs old) l r (alias_pairs-IsUnique old) in
    (
      (λ a l r h there.
          sym (pair_at-alias_pairs old l)
          ∙ (known l r).0
              (all.0 a l r (pair_at-alias_pairs current l ∙ h) (find_type-listed old l ∙ there))),
      (λ s. all.1 (λ l r h there. (known l r).1 (
          pair_at-alias_pairs old l
          ∙ s l r (sym (pair_at-alias_pairs current l) ∙ h)
              (sym (find_type-listed old l) ∙ there)))),
    )
