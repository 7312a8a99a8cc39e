-- ===== src/Diag/Sorting.antt =====
-- `Sort` gives the ordered and stable permutation of its input.
use mathlib.Core.List.Perm
use text.Mathlib.Text.{is_eq}
use mathlib.Core.List.{Perm}
use otelcol_config_lint.Base.{
  sym, ap, Bool, ◌∙◌, if◌then◌else◌, true, All, All-map, Bool-cases, List, [], false, inl, inr,
  refl, ◌∷◌, ◌≡◌,
}
use otelcol_config_lint.Base.Order.{is_eq→eq, is_lt}
use otelcol_config_lint.Diag.{insert, Diagnostic, less, sort}
use otelcol_config_lint.Diag.Order.{
  less-compare_key, less_irrefl, compare_key-IsOrder, not_less_trans, less_asymm, Key, compare_key,
  key,
}

-- No element has a key that is less than the key of one that stands before it: keys are compared by
-- file, then line, then column, then rule.
abbrev pub IsSorted : List Diagnostic → Type 0
IsSorted [] = Unit
IsSorted (d ∷ ds) = All (λ e. is_lt (compare_key (key e) (key d)) ≡ false) ds × IsSorted ds

-- The same, as `less` says it.
abbrev NoneLess : List Diagnostic → Type 0
NoneLess [] = Unit
NoneLess (d ∷ ds) = All (λ e. less e d ≡ false) ds × NoneLess ds

NoneLess-IsSorted : (ds : List Diagnostic) → NoneLess ds → IsSorted ds
NoneLess-IsSorted [] h = tt
NoneLess-IsSorted (d ∷ ds) h =
    (All-map _ _ ds (λ e p. sym (less-compare_key e d) ∙ p) h.0, NoneLess-IsSorted ds h.1)

abbrev same_key : Key → Diagnostic → Bool
same_key k d = is_eq (compare_key (key d) k)

-- The elements that stand at the key `k`, in order.
abbrev pub at_key : Key → List Diagnostic → List Diagnostic
at_key k [] = []
at_key k (d ∷ ds) = if same_key k d then d ∷ at_key k ds else at_key k ds

insert-perm : (d : Diagnostic) (ds : List Diagnostic) → Perm (insert d ds) (d ∷ ds)
unfolding insert
insert-perm d [] = Perm.refl (d ∷ [])
insert-perm d (e ∷ ds) = elim (Bool-cases (less e d)) [
  | inl h ↦ rw h (Perm.trans (Perm.cons e (insert-perm d ds)) (Perm.swap d e ds))
  | inr h ↦ rw h (Perm.refl (d ∷ e ∷ ds))
]

sort-perm : (ds : List Diagnostic) → Perm (sort ds) ds
unfolding sort
sort-perm [] = Perm.refl []
sort-perm (d ∷ ds) = Perm.trans (insert-perm d (sort ds)) (Perm.cons d (sort-perm ds))

All-insert :
    (P : Diagnostic → Type 0) (d : Diagnostic) (ds : List Diagnostic)
    → P d
    → All P ds
    → All P (insert d ds)
unfolding insert
All-insert P d [] p h = (p, tt)
All-insert P d (e ∷ ds) p h = elim (Bool-cases (less e d)) [
  | inl t ↦ rw t (h.0, All-insert P d ds p h.1)
  | inr t ↦ rw t (p, h)
]

not_less-All :
    (d e : Diagnostic) (ds : List Diagnostic)
    → less e d ≡ false
    → All (λ y. less y e ≡ false) ds
    → All (λ y. less y d ≡ false) ds
not_less-All d e [] t h = tt
not_less-All d e (y ∷ ds) t h = (not_less_trans d e y t h.0, not_less-All d e ds t h.1)

insert-NoneLess : (d : Diagnostic) (ds : List Diagnostic) → NoneLess ds → NoneLess (insert d ds)
unfolding insert
insert-NoneLess d [] h = (tt, tt)
insert-NoneLess d (e ∷ ds) h = elim (Bool-cases (less e d)) [
  | inl t ↦ rw t (All-insert _ d ds (less_asymm e d t) h.0, insert-NoneLess d ds h.1)
  | inr t ↦ rw t ((t, not_less-All d e ds t h.0), h)
]

sort-NoneLess : (ds : List Diagnostic) → NoneLess (sort ds)
unfolding sort
sort-NoneLess [] = tt
sort-NoneLess (d ∷ ds) = insert-NoneLess d (sort ds) (sort-NoneLess ds)

same_key→eq : (k : Key) (d : Diagnostic) → same_key k d ≡ true → key d ≡ k
same_key→eq k d h = compare_key-IsOrder.same (key d) k (is_eq→eq _ h)

at_key-swap :
    (k : Key) (d e : Diagnostic) (ds : List Diagnostic)
    → less e d ≡ true
    → at_key k (e ∷ d ∷ ds) ≡ at_key k (d ∷ e ∷ ds)
at_key-swap k d e ds t = elim (Bool-cases (same_key k d)) [
  | inl x ↦ elim (Bool-cases (same_key k e)) [
    | inl y ↦ absurd (cc (t, less_irrefl e d (same_key→eq k e y ∙ sym (same_key→eq k d x))))
    | inr y ↦ rw (x, y)
  ]
  | inr x ↦ rw x
]

at_key-insert :
    (k : Key) (d : Diagnostic) (ds : List Diagnostic) → at_key k (insert d ds) ≡ at_key k (d ∷ ds)
unfolding insert
at_key-insert k d [] = refl
at_key-insert k d (e ∷ ds) = elim (Bool-cases (less e d)) [
  | inl t ↦ rw t (rw (at_key-insert k d ds) (at_key-swap k d e ds t))
  | inr t ↦ rw t
]

at_key-sort : (k : Key) (ds : List Diagnostic) → at_key k (sort ds) ≡ at_key k ds
unfolding sort
at_key-sort k [] = refl
at_key-sort k (d ∷ ds) =
    at_key-insert k d (sort ds) ∙ ap (λ l. if same_key k d then d ∷ l else l) (at_key-sort k ds)

-- `Sort` gives a permutation of the diagnostics in which none stands behind one that is greater by
-- file, line, column and rule; the diagnostics that are equal in all four keep their order.
pub sort_lem :
    (ds : List Diagnostic)
    → IsSorted (sort ds) × Perm (sort ds) ds × ((k : Key) → at_key k (sort ds) ≡ at_key k ds)
sort_lem ds = (NoneLess-IsSorted (sort ds) (sort-NoneLess ds), sort-perm ds, λ k. at_key-sort k ds)
