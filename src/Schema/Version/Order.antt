-- ===== src/Schema/Version/Order.antt =====
-- `Compare` is the order of a key, and `Nearest` finds the greatest version in bounds.
use Prim.Native.Nat.{Ordering, compare as compare_ℕ}
use Prim.Native.String.{compare as compare_text, then as then_by}
use otelcol_config_lint.Base.{
  eq_iff, beq→eq, inr, inl, not, Bool-cases, List, Option, String, [], ap, arith, if◌then◌else◌,
  map, nat_eq, none, refl, some, string_eq, sym, true, ℕ, ◌==◌, ◌∙◌, ◌∷◌, ◌≡◌,
}
use otelcol_config_lint.Base.Order.{
  IsOrder, compare_text-IsOrder, compare_ℕ-IsOrder, lexicographic, lexicographic-IsOrder, opposite,
}
use otelcol_config_lint.Base.Order.Lists.{
  at_most, at_most_trans, compare_lists, compare_lists-IsOrder, compare_or_last,
  compare_or_last-IsOrder,
}
use otelcol_config_lint.Schema.Version.{
  compare_fields, compare_identifier, compare_numeric, compare_prerelease, compare_suffix,
  compare_version, is_numeric, parse_version, prerelease, size, split, trim_leading_zeros,
}

-- A field of digits is its number, by the length of its digits; any other is its text.
abbrev Ident : Type 0
Ident = Option (ℕ × String) × String

abbrev ident_key : String → Ident
ident_key s =
    if is_numeric s
    then (some (size (trim_leading_zeros s), trim_leading_zeros s), "")
    else (none, s)

abbrev compare_ident : Ident → Ident → Ordering
compare_ident = lexicographic (compare_or_last (lexicographic compare_ℕ compare_text)) compare_text

compare_ident-IsOrder : IsOrder compare_ident
compare_ident-IsOrder =
    lexicographic-IsOrder
      (compare_or_last-IsOrder (lexicographic-IsOrder compare_ℕ-IsOrder compare_text-IsOrder))
      compare_text-IsOrder

-- A release has no suffix and comes behind its pre-releases.
abbrev suffix_key : String → Option (List Ident)
suffix_key r = if r == "" then none else some (map ident_key (split b'.' r))

abbrev compare_suffix_key : Option (List Ident) → Option (List Ident) → Ordering
compare_suffix_key = compare_or_last (compare_lists compare_ident)

abbrev Key : Type 0
Key = ℕ × (ℕ × (ℕ × Option (List Ident)))

abbrev key : String → Key
key v = let p = parse_version v in (p.0, (p.1, (p.2, suffix_key (prerelease v))))

abbrev compare_key : Key → Key → Ordering
compare_key =
    lexicographic compare_ℕ (lexicographic compare_ℕ (lexicographic compare_ℕ compare_suffix_key))

compare_suffix_key-IsOrder : IsOrder compare_suffix_key
compare_suffix_key-IsOrder = compare_or_last-IsOrder (compare_lists-IsOrder compare_ident-IsOrder)

compare_key-IsOrder : IsOrder compare_key
compare_key-IsOrder = lexicographic-IsOrder compare_ℕ-IsOrder (
    lexicographic-IsOrder compare_ℕ-IsOrder
      (lexicographic-IsOrder compare_ℕ-IsOrder compare_suffix_key-IsOrder))

own_opposite : (o : Ordering) → o ≡ opposite o → o ≡ Ordering.eq
own_opposite Ordering.lt e = cc
own_opposite Ordering.eq e = refl
own_opposite Ordering.gt e = cc

order_self {ℓ} :
    {A : Type ℓ} {cmp : A → A → Ordering} → IsOrder cmp → (a : A) → cmp a a ≡ Ordering.eq
order_self {cmp} o a = own_opposite (cmp a a) (o.flip a a)

-- Two numbers that differ decide, and else what follows them.
compare_step :
    (m n : ℕ) (o : Ordering)
    → (if not (m == n) then compare_ℕ m n else o) ≡ then_by (compare_ℕ m n) o
compare_step m n o = ground arith

then_eq : (o : Ordering) → then_by o Ordering.eq ≡ o
then_eq Ordering.lt = refl
then_eq Ordering.eq = refl
then_eq Ordering.gt = refl

compare_numeric-trims :
    (a b : String)
    → compare_numeric a b
      ≡ lexicographic compare_ℕ compare_text
          (size (trim_leading_zeros a), trim_leading_zeros a)
          (size (trim_leading_zeros b), trim_leading_zeros b)
unfolding compare_numeric
compare_numeric-trims a b =
    let x = trim_leading_zeros a in
    let y = trim_leading_zeros b in compare_step (size x) (size y) (compare_text x y)

compare_identifier-ident_key :
    (a b : String) → compare_identifier a b ≡ compare_ident (ident_key a) (ident_key b)
unfolding compare_identifier
compare_identifier-ident_key a b =
    let same = order_self compare_text-IsOrder "" in
    elim (Bool-cases (is_numeric a)) [
      | inl p ↦ elim (Bool-cases (is_numeric b)) [
        | inl q ↦ rw (p, q, same, then_eq) (compare_numeric-trims a b)
        | inr q ↦ rw (p, q) refl
      ]
      | inr p ↦ elim (Bool-cases (is_numeric b)) [ inl q ↦ rw (p, q) refl | inr q ↦ rw (p, q) refl ]
    ]

compare_fields-keys :
    (xs ys : List String)
    → compare_fields xs ys ≡ compare_lists compare_ident (map ident_key xs) (map ident_key ys)
unfolding compare_fields
compare_fields-keys [] [] = refl
compare_fields-keys [] (y ∷ ys) = refl
compare_fields-keys (x ∷ xs) [] = refl
compare_fields-keys (x ∷ xs) (y ∷ ys) =
    ground (arith, compare_identifier-ident_key x y, compare_fields-keys xs ys)

compare_suffix-suffix_key :
    (ra rb : String) → compare_suffix ra rb ≡ compare_suffix_key (suffix_key ra) (suffix_key rb)
unfolding compare_suffix compare_prerelease
compare_suffix-suffix_key ra rb = elim (Bool-cases (ra == rb)) [
  | inl same ↦ rw same (
      sym (order_self compare_suffix_key-IsOrder (suffix_key rb))
      ∙ ap (λ r. compare_suffix_key (suffix_key r) (suffix_key rb)) (sym (beq→eq ra rb same)))
  | inr differ ↦ elim (Bool-cases (ra == "")) [
    | inl p ↦ elim (Bool-cases (rb == "")) [
      | inl q ↦ absurd (ground (arith, eq_iff ra rb, eq_iff ra "", eq_iff rb ""))
      | inr q ↦ rw (differ, p, q) refl
    ]
    | inr p ↦ elim (Bool-cases (rb == "")) [
      | inl q ↦ rw (differ, p, q) refl
      | inr q ↦ rw (differ, p, q) (compare_fields-keys (split b'.' ra) (split b'.' rb))
    ]
  ]
]

compare_version-key : (a b : String) → compare_version a b ≡ compare_key (key a) (key b)
unfolding compare_version
compare_version-key a b =
    let pa = parse_version a in
    let pb = parse_version b in
    let suffix = compare_suffix-suffix_key (prerelease a) (prerelease b) in
    compare_step pa.0 pb.0 _
    ∙ ap (then_by (compare_ℕ pa.0 pb.0)) (
        compare_step pa.1 pb.1 _
        ∙ ap (then_by (compare_ℕ pa.1 pb.1))
            (compare_step pa.2 pb.2 _ ∙ ap (then_by (compare_ℕ pa.2 pb.2)) suffix))

-- Swapping the versions turns the result of `Compare` round, and being at most a version is
-- transitive: with pre-releases, padded numbers and segments that cannot be read, versions are
-- sorted consistently.
pub compare_version_total_preorder :
    (a b c : String)
    → (compare_version b a ≡ opposite (compare_version a b))
      × (at_most (compare_version a b) ≡ true
          → at_most (compare_version b c) ≡ true
          → at_most (compare_version a c) ≡ true)
compare_version_total_preorder a b c = (
  compare_version-key b a
      ∙ compare_key-IsOrder.flip (key a) (key b)
      ∙ ap opposite (sym (compare_version-key a b)),
  (λ h k.
      ap at_most (compare_version-key a c)
      ∙ at_most_trans compare_key-IsOrder (key a) (key b) (key c)
          (sym (ap at_most (compare_version-key a b)) ∙ h)
          (sym (ap at_most (compare_version-key b c)) ∙ k)),
)
