-- ===== src/Schema/Spans/Ascending.antt =====
-- Releases that no two of compare equal are sorted into an ascending list.
use Prim.Native.Nat.{Ordering}
use otelcol_config_lint.Base.{
  All, All-map, Bool, Bool-cases, List, String, [], arith, inl, inr, not, refl, string_eq, true,
  ◌||◌, ◌∷◌, ◌≡◌, ◌∙◌, ap, nat_eq,
}
use otelcol_config_lint.Base.Order.{is_lt, opposite}
use otelcol_config_lint.Base.Order.Lists.{at_most}
use otelcol_config_lint.Schema.Spans.{insert_release, oldest_first, newest}
use otelcol_config_lint.Schema.Version.{compare_version}
use otelcol_config_lint.Schema.Version.Order.{compare_version_total_preorder}

-- The comparison of two texts is computed once, here.
abbrev pub before : String → String → Bool
before v w = is_lt (compare_version v w)

abbrev pub upto : String → String → Bool
upto v w = at_most (compare_version v w)

opposite_facts : (o p : Ordering) → p ≡ opposite o → at_most p ≡ not (is_lt o)
opposite_facts Ordering.lt p e = ap at_most e
opposite_facts Ordering.eq p e = ap at_most e
opposite_facts Ordering.gt p e = ap at_most e

pub upto-not_before : (v w : String) → upto w v ≡ not (before v w)
upto-not_before v w = opposite_facts _ _ (compare_version_total_preorder v w v).0

lt_at_most : (o : Ordering) → is_lt o ≡ true → at_most o ≡ true
lt_at_most Ordering.lt h = refl
lt_at_most Ordering.eq h = absurd (cc (h))
lt_at_most Ordering.gt h = absurd (cc (h))

pub before_upto : (v w : String) → before v w ≡ true → upto v w ≡ true
before_upto v w h = lt_at_most _ h

pub upto_trans : (u v w : String) → upto u v ≡ true → upto v w ≡ true → upto u w ≡ true
upto_trans u v w = (compare_version_total_preorder u v w).1

-- Each release stands before all that follow.
abbrev pub IsAscending : List String → Type 0
IsAscending [] = Unit
IsAscending (v ∷ vs) = All (λ w. before v w ≡ true) vs × IsAscending vs

-- No two releases compare equal.
abbrev pub IsDistinct : List String → Type 0
IsDistinct [] = Unit
IsDistinct (v ∷ vs) = All (λ w. (before v w || before w v) ≡ true) vs × IsDistinct vs

before_trans : (u v w : String) → before u v ≡ true → before v w ≡ true → before u w ≡ true
before_trans u v w h k = elim (Bool-cases (before u w)) [
  | inl e ↦ e
  | inr e ↦
      let back = upto_trans v w u (before_upto v w k) (upto-not_before u w ∙ ap not e) in
      absurd (cc (h, upto-not_before u v, back))
]

All-insert_release :
    (P : String → Type 0) (v : String) (vs : List String)
    → P v
    → All P vs
    → All P (insert_release v vs)
All-insert_release P v [] p ps = (p, tt)
All-insert_release P v (w ∷ ws) p ps = elim (Bool-cases (before w v)) [
  | inl e ↦ rw e (ps.0, All-insert_release P v ws p ps.1)
  | inr e ↦ rw e (p, ps)
]

insert_release-IsAscending :
    (v : String) (vs : List String)
    → All (λ w. (before v w || before w v) ≡ true) vs
    → IsAscending vs
    → IsAscending (insert_release v vs)
insert_release-IsAscending v [] d a = (tt, tt)
insert_release-IsAscending v (w ∷ ws) d a = elim (Bool-cases (before w v)) [
  | inl e ↦ rw e (
    All-insert_release (λ u. before w u ≡ true) v ws e a.0,
    insert_release-IsAscending v ws d.1 a.1,
  )
  | inr e ↦
      let first : before v w ≡ true = ground (arith, e, d.0) in
      rw e ((first, All-map _ _ ws (λ u p. before_trans v w u first p) a.0), a)
]

pub oldest_first-All : (P : String → Type 0) (vs : List String) → All P vs → All P (oldest_first vs)
unfolding oldest_first
oldest_first-All P [] h = tt
oldest_first-All P (v ∷ vs) h =
    All-insert_release P v (oldest_first vs) h.0 (oldest_first-All P vs h.1)

pub oldest_first-IsAscending : (vs : List String) → IsDistinct vs → IsAscending (oldest_first vs)
unfolding oldest_first
oldest_first-IsAscending [] d = tt
oldest_first-IsAscending (v ∷ vs) d =
    insert_release-IsAscending v (oldest_first vs) (oldest_first-All _ vs d.0)
      (oldest_first-IsAscending vs d.1)

pub upto_self : (v : String) → upto v v ≡ true
upto_self v = elim (Bool-cases (before v v)) [
  | inl e ↦ before_upto v v e
  | inr e ↦ upto-not_before v v ∙ ap not e
]

-- In an ascending list, every release is at most the newest.
pub newest-upto : (vs : List String) → IsAscending vs → All (λ w. upto w (newest vs) ≡ true) vs
newest-upto [] a = tt
newest-upto (v ∷ []) a = (upto_self v, tt)
newest-upto (v ∷ w ∷ vs) a =
    let rest = newest-upto (w ∷ vs) a.1 in
    (upto_trans v w (newest (w ∷ vs)) (before_upto v w a.0.0) rest.0, rest)
