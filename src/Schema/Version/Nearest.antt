-- ===== src/Schema/Version/Nearest.antt =====
-- `Nearest` finds the newest version in bounds, in a list that stands newest first.
use mathlib.Core.Path.{subst}
use otelcol_config_lint.Base.{
  All, All-map, Bool-cases, In, List, String, [], arith, false, inl, inr, none, some, sym, true,
  ◌∷◌, ◌≡◌,
}
use otelcol_config_lint.Base.Order.Lists.{at_most}
use otelcol_config_lint.Schema.Version.{compare_version, nearest}
use otelcol_config_lint.Schema.Version.Order.{compare_version_total_preorder}

-- As `Versions` sorts the list of an `UnknownVersionError`.
abbrev pub IsNewestFirst : List String → Type 0
IsNewestFirst [] = Unit
IsNewestFirst (v ∷ vs) = All (λ w. at_most (compare_version w v) ≡ true) vs × IsNewestFirst vs

at_most_self : (v : String) → at_most (compare_version v v) ≡ true
unfolding compare_version
at_most_self v = ground (arith, compare_version_total_preorder v v v)

nearest-none :
    (vs : List String) (version : String)
    → nearest vs version ≡ none
    → All (λ w. at_most (compare_version w version) ≡ false) vs
unfolding nearest
nearest-none [] version h = tt
nearest-none (v ∷ vs) version h = elim (Bool-cases (at_most (compare_version v version))) [
  | inl fits ↦ absurd (ground (arith, fits, h))
  | inr newer ↦ (newer, nearest-none vs version (ground (arith, newer, h)))
]

nearest-some :
    (vs : List String) (version v : String)
    → IsNewestFirst vs
    → nearest vs version ≡ some v
    → In v vs
      × (at_most (compare_version v version) ≡ true)
      × All
          (λ w. at_most (compare_version w version) ≡ true → at_most (compare_version w v) ≡ true)
          vs
unfolding nearest
nearest-some [] version v order h = absurd (cc (h))
nearest-some (u ∷ vs) version v order h = elim (Bool-cases (at_most (compare_version u version))) [
  | inl fits ↦
      let e : u ≡ v = ground (arith, fits, h) in
      (
        inl (sym e),
        subst (λ t. at_most (compare_version t version) ≡ true) e fits,
        subst
            (λ t.
              All
                (λ w.
                  at_most (compare_version w version) ≡ true → at_most (compare_version w t) ≡ true)
                (u ∷ vs))
            e ((λ _. at_most_self u), All-map _ _ vs (λ w p _. p) order.0),
      )
  | inr newer ↦
      let (there, below, greatest) = nearest-some vs version v order.1 (ground (arith, newer, h)) in
      (inr there, below, ((λ p. absurd (cc (p, newer))), greatest))
]

-- Of versions that stand newest first, `Nearest` gives one that is at most the requested version
-- and that no other such version is newer than; where it gives none, every version is newer than
-- the requested one.
pub nearest_newest :
    (vs : List String) (version : String)
    → IsNewestFirst vs
    → ((v : String)
        → nearest vs version ≡ some v
        → In v vs
          × (at_most (compare_version v version) ≡ true)
          × All
              (λ w.
                at_most (compare_version w version) ≡ true → at_most (compare_version w v) ≡ true)
              vs)
      × (nearest vs version ≡ none → All (λ w. at_most (compare_version w version) ≡ false) vs)
nearest_newest vs version order =
    ((λ v h. nearest-some vs version v order h), nearest-none vs version)
