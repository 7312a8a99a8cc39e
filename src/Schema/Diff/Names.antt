-- ===== src/Schema/Diff/Names.antt =====
-- The pairs of legacy and new names, said by what each component describes.
use mathlib.Core.Path.{subst}
use otelcol_config_lint.Base.{
  All, Bool, Bool-cases, List, Option, String, [], ap, arith, beq→eq, contains_func, false,
  if◌then◌else◌, inl, inr, none, not, refl, some, string_eq, true, ◌==◌, ◌∙◌, ◌∷◌, ◌≡◌, eq_iff,
}
use otelcol_config_lint.Schema.{Inventory, find_type}
use otelcol_config_lint.Schema.Diff.{ByType, alias_pair, has_type, pairs_from, write_pair}

-- The release has a component of the type.
abbrev pub listed : ByType → String → Bool
listed by_type type = contains_func by_type (λ (e : String × Inventory). e.0 == type)

-- What a component says of a legacy name: that it is a name of its own, for which `AliasOf` is the new
-- one; or, without `AliasOf`, that its `Alias` is one, for which its own name is the new one.
abbrev pub renamed_by : String × Inventory → String → Option String
renamed_by e legacy =
    if not (e.1.alias_of == "")
    then if e.0 == legacy then some e.1.alias_of else none
    else if not (e.1.alias == "")
    then if e.1.alias == legacy then some e.0 else none
    else none

abbrev pub or_else : Option String → Option String → Option String
or_else none o = o
or_else (some s) o = some s

-- The new name of a legacy one: what the last component says that says something of it. The code
-- walks a map, so that where two components disagree it takes either.
abbrev pub replacement : ByType → String → Option String
replacement [] legacy = none
replacement (e ∷ es) legacy = or_else (replacement es legacy) (renamed_by e legacy)

pub find_type-listed :
    (by_type : ByType) (type : String) → has_type by_type type ≡ listed by_type type
unfolding find_type
find_type-listed [] type = refl
find_type-listed ((t, c) ∷ rest) type = elim (Bool-cases (t == type)) [
  | inl e ↦ rw e refl
  | inr e ↦ rw e (find_type-listed rest type)
]

abbrev pub Pairs : Type 0
Pairs = List (String × String)

abbrev pub pair_at : Pairs → String → Option String
pair_at [] k = none
pair_at (e ∷ es) k = let later = pair_at es k in if e.0 == k then some e.1 else later

abbrev pub Differs : String → Pairs → Type 0
Differs k es = All (λ (q : String × String). (k == q.0) ≡ false) es

abbrev pub IsUnique : Pairs → Type 0
IsUnique [] = Unit
IsUnique (e ∷ es) = Differs e.0 es × IsUnique es

pair_at-write_pair :
    (k v : String) (es : Pairs) (l : String)
    → pair_at (write_pair k v es) l ≡ (if k == l then some v else pair_at es l)
pair_at-write_pair k v [] l = refl
pair_at-write_pair k v (e ∷ es) l = elim (Bool-cases (e.0 == k)) [
  | inl q ↦
      let same : e.0 ≡ k = beq→eq e.0 k q in
      rw q (elim (Bool-cases (k == l)) [
        | inl x ↦ rw x refl
        | inr x ↦ let other : (e.0 == l) ≡ false = ap (λ t. t == l) same ∙ x in rw (x, other) refl
      ])
  | inr q ↦ rw q (elim (Bool-cases (e.0 == l)) [
    | inl x ↦
        let same : e.0 ≡ l = beq→eq e.0 l x in
        let other : (k == l) ≡ false = ground (arith, q, same, eq_iff e.0 k, eq_iff k l) in
        rw (x, other) refl
    | inr x ↦ rw x (pair_at-write_pair k v es l)
  ])
]

Differs-write_pair :
    (x k v : String) (es : Pairs) → (x == k) ≡ false → Differs x es → Differs x (write_pair k v es)
Differs-write_pair x k v [] h d = (h, tt)
Differs-write_pair x k v (e ∷ es) h d = elim (Bool-cases (e.0 == k)) [
  | inl q ↦ rw q (h, d.1)
  | inr q ↦ rw q (d.0, Differs-write_pair x k v es h d.1)
]

write_pair-IsUnique : (k v : String) (es : Pairs) → IsUnique es → IsUnique (write_pair k v es)
write_pair-IsUnique k v [] u = (tt, tt)
write_pair-IsUnique k v (e ∷ es) u = elim (Bool-cases (e.0 == k)) [
  | inl q ↦ rw q (subst (λ t. Differs t es) (beq→eq e.0 k q) u.0, u.1)
  | inr q ↦ rw q (Differs-write_pair e.0 k v es q u.0, write_pair-IsUnique k v es u.1)
]

alias_pair-IsUnique :
    (e : String × Inventory) (out : Pairs) → IsUnique out → IsUnique (alias_pair e out)
alias_pair-IsUnique e out u = elim (Bool-cases (e.1.alias_of == "")) [
  | inr q ↦ rw q (write_pair-IsUnique e.0 e.1.alias_of out u)
  | inl q ↦ elim (Bool-cases (e.1.alias == "")) [
    | inr p ↦ rw (q, p) (write_pair-IsUnique e.1.alias e.0 out u)
    | inl p ↦ rw (q, p) u
  ]
]

pair_at-alias_pair :
    (e : String × Inventory) (out : Pairs) (l : String)
    → pair_at (alias_pair e out) l ≡ or_else (renamed_by e l) (pair_at out l)
pair_at-alias_pair e out l = elim (Bool-cases (e.1.alias_of == "")) [
  | inr q ↦
      rw q
        (pair_at-write_pair e.0 e.1.alias_of out l ∙ chosen (e.0 == l) e.1.alias_of (pair_at out l))
  | inl q ↦ elim (Bool-cases (e.1.alias == "")) [
    | inr p ↦
        rw (q, p)
          (pair_at-write_pair e.1.alias e.0 out l ∙ chosen (e.1.alias == l) e.0 (pair_at out l))
    | inl p ↦ rw (q, p) refl
  ]
]
  where
    chosen :
        (b : Bool) (v : String) (o : Option String)
        → (if b then some v else o) ≡ or_else (if b then some v else none) o
    chosen true v o = refl
    chosen false v o = refl

or_else_assoc : (a b c : Option String) → or_else a (or_else b c) ≡ or_else (or_else a b) c
or_else_assoc none b c = refl
or_else_assoc (some a) b c = refl

pub pair_at-pairs_from :
    (out : Pairs) (es : ByType) (l : String)
    → pair_at (pairs_from out es) l ≡ or_else (replacement es l) (pair_at out l)
unfolding pairs_from
pair_at-pairs_from out [] l = refl
pair_at-pairs_from out (e ∷ es) l =
    pair_at-pairs_from (alias_pair e out) es l
    ∙ ap (or_else (replacement es l)) (pair_at-alias_pair e out l)
    ∙ or_else_assoc (replacement es l) (renamed_by e l) (pair_at out l)

pub pairs_from-IsUnique : (out : Pairs) (es : ByType) → IsUnique out → IsUnique (pairs_from out es)
unfolding pairs_from
pairs_from-IsUnique out [] u = u
pairs_from-IsUnique out (e ∷ es) u =
    pairs_from-IsUnique (alias_pair e out) es (alias_pair-IsUnique e out u)
