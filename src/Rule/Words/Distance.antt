-- ===== src/Rule/Words/Distance.antt =====
-- `editDistance` is the least number of edits that turn one text into the other.
use mathlib.Core.Path.{subst}
use native.Mathlib.Decide.{dec_le}
use otelcol_config_lint.Rule.Words.{edit_distance, fill, rows, count_from, last_of}
use otelcol_config_lint.Base.{
  ◌∙◌, ap, refl, inr, beq→eq, inl, Bool-cases, List, [], arith, if◌then◌else◌, length, min, nat_eq,
  string_eq, suc, ℕ, ◌+◌, ◌==◌, ◌∷◌, ◌≡◌, ◌≤◌,
}

-- `Edits a b n`: `n` bytes are deleted, inserted or replaced on the way from `a` to `b`.
pub data Edits : List ℕ → List ℕ → ℕ → Type 0 where
  done : Edits [] [] 0
  delete : {a b : List ℕ} {n : ℕ} (x : ℕ) → Edits a b n → Edits (x ∷ a) b (suc n)
  insert : {a b : List ℕ} {n : ℕ} (y : ℕ) → Edits a b n → Edits a (y ∷ b) (suc n)
  keep : {a b : List ℕ} {n : ℕ} (x y : ℕ) → x ≡ y → Edits a b n → Edits (x ∷ a) (y ∷ b) n
  replace : {a b : List ℕ} {n : ℕ} (x y : ℕ) → Edits a b n → Edits (x ∷ a) (y ∷ b) (suc n)

-- The recurrence of Levenshtein.
lev : List ℕ → List ℕ → ℕ
lev [] b = length b
lev (x ∷ a) [] = suc (length a)
lev (x ∷ a) (y ∷ b) =
    min (lev a (y ∷ b) + 1) (min (lev (x ∷ a) b + 1) (lev a b + (if x == y then 0 else 1)))

lev-nil : (a : List ℕ) → lev a [] ≡ length a
unfolding lev
lev-nil [] = refl
lev-nil (x ∷ a) = refl

lev-delete : (x : ℕ) (a b : List ℕ) → lev (x ∷ a) b ≤ lev a b + 1
unfolding lev
lev-delete x a [] = omega (arith, lev-nil a)
lev-delete x a (y ∷ b) = omega arith

lev-insert : (y : ℕ) (a b : List ℕ) → lev a (y ∷ b) ≤ lev a b + 1
unfolding lev
lev-insert y [] b = omega arith
lev-insert y (x ∷ a) b = omega arith

lev-least : {a b : List ℕ} {n : ℕ} → Edits a b n → lev a b ≤ n
unfolding lev
lev-least done = omega arith
lev-least (delete {a} {b} x e) = omega (arith, lev-delete x a b, lev-least e)
lev-least (insert {a} {b} y e) = omega (arith, lev-insert y a b, lev-least e)
lev-least (keep {a} {b} x y p e) = ground (arith, lev-least e)
lev-least (replace {a} {b} x y e) = ground (arith, lev-least e)

Edits-eq : {a b : List ℕ} {m n : ℕ} → m ≡ n → Edits a b m → Edits a b n
Edits-eq p e = subst (Edits _ _) p e

Edits-min : {a b : List ℕ} (m n : ℕ) → Edits a b m → Edits a b n → Edits a b (min m n)
Edits-min m n e f = elim (dec_le m n) [
  | yes h ↦ Edits-eq (omega arith) e
  | no h ↦ Edits-eq (omega arith) f
]

Edits-change :
    (x y : ℕ) {a b : List ℕ} {n : ℕ}
    → Edits a b n
    → Edits (x ∷ a) (y ∷ b) (n + (if x == y then 0 else 1))
Edits-change x y e = elim (Bool-cases (x == y)) [
  | inl same ↦ rw same (Edits-eq (omega arith) (keep x y (beq→eq x y same) e))
  | inr other ↦ rw other (Edits-eq (omega arith) (replace x y e))
]

Edits-lev : (a b : List ℕ) → Edits a b (lev a b)
unfolding lev
Edits-lev [] [] = done
Edits-lev [] (y ∷ b) = insert y (Edits-lev [] b)
Edits-lev (x ∷ a) [] = delete x (Edits-eq (lev-nil a) (Edits-lev a []))
Edits-lev (x ∷ a) (y ∷ b) =
    Edits-min _ _ (Edits-eq (omega arith) (delete x (Edits-lev a (y ∷ b)))) (
      Edits-min _ _ (Edits-eq (omega arith) (insert y (Edits-lev (x ∷ a) b)))
        (Edits-change x y (Edits-lev a b)))

-- The first list reversed, in front of the second.
rev_onto : List ℕ → List ℕ → List ℕ
rev_onto [] p = p
rev_onto (x ∷ a) p = rev_onto a (x ∷ p)

rev_onto-rev_onto : (a p : List ℕ) → rev_onto (rev_onto a p) [] ≡ rev_onto p a
unfolding rev_onto
rev_onto-rev_onto [] p = refl
rev_onto-rev_onto (x ∷ a) p = rev_onto-rev_onto a (x ∷ p)

Edits-rev_onto :
    {a b p q : List ℕ} {m n k : ℕ}
    → Edits a b n
    → Edits p q m
    → n + m ≡ k
    → Edits (rev_onto a p) (rev_onto b q) k
unfolding rev_onto
Edits-rev_onto done f h = Edits-eq (omega arith) f
Edits-rev_onto (delete x e) f h = Edits-rev_onto e (delete x f) (omega arith)
Edits-rev_onto (insert y e) f h = Edits-rev_onto e (insert y f) (omega arith)
Edits-rev_onto (keep x y p e) f h = Edits-rev_onto e (keep x y p f) h
Edits-rev_onto (replace x y e) f h = Edits-rev_onto e (replace x y f) (omega arith)

-- The cells behind the first of the row of `a`, of which `p` is read and `b` is not.
row_rest : List ℕ → List ℕ → List ℕ → List ℕ
row_rest a p [] = []
row_rest a p (y ∷ b) = lev a (y ∷ p) ∷ row_rest a (y ∷ p) b

abbrev row : List ℕ → List ℕ → List ℕ → List ℕ
row a p b = lev a p ∷ row_rest a p b

count_from-row : (p b : List ℕ) → count_from (length p) b ≡ row [] p b
unfolding count_from row_rest lev
count_from-row p [] = refl
count_from-row p (y ∷ b) =
    let next : length p + 1 ≡ suc (length p) = omega arith in
    ap (λ n. length p ∷ count_from n b) next ∙ ap (◌∷◌ (length p)) (count_from-row (y ∷ p) b)

fill-row : (c : ℕ) (a p b : List ℕ) → fill c (lev (c ∷ a) p) b (row a p b) ≡ row_rest (c ∷ a) p b
unfolding fill row_rest lev
fill-row c a p [] = refl
fill-row c a p (y ∷ b) = ap (◌∷◌ (lev (c ∷ a) (y ∷ p))) (fill-row c a (y ∷ p) b)

rows-row :
    (i : ℕ) (a b done_a : List ℕ)
    → i ≡ length done_a
    → rows i a b (row done_a [] b) ≡ row (rev_onto a done_a) [] b
unfolding rows rev_onto lev
rows-row i [] b d h = refl
rows-row i (c ∷ a) b d h =
    let next : i + 1 ≡ suc (length d) = omega arith in
    ap (λ k. rows (i + 1) a b (k ∷ fill c k b (row d [] b))) next
    ∙ ap (λ r. rows (i + 1) a b (suc (length d) ∷ r)) (fill-row c d [] b)
    ∙ rows-row (i + 1) a b (c ∷ d) next

last_of-row : (a p b : List ℕ) → last_of (row a p b) ≡ lev a (rev_onto b p)
unfolding last_of row_rest rev_onto
last_of-row a p [] = refl
last_of-row a p (y ∷ b) = last_of-row a (y ∷ p) b

edit_distance-eq-lev : (a b : List ℕ) → edit_distance a b ≡ lev (rev_onto a []) (rev_onto b [])
unfolding edit_distance
edit_distance-eq-lev a b =
    ap (λ r. last_of (rows 0 a b r)) (count_from-row [] b)
    ∙ ap last_of (rows-row 0 a b [] refl)
    ∙ last_of-row (rev_onto a []) [] b

Edits-back : (a b : List ℕ) {n : ℕ} → Edits (rev_onto a []) (rev_onto b []) n → Edits a b n
unfolding rev_onto
Edits-back a b {n} e =
    rw (rev_onto-rev_onto a [], rev_onto-rev_onto b []) at
      (Edits-rev_onto {k = n} e done (omega arith))

-- `editDistance` is the number of edits of some way from the one text to the other, and no way takes
-- fewer.
pub edit_distance_least :
    (a b : List ℕ) → Edits a b (edit_distance a b) × ((n : ℕ) → Edits a b n → edit_distance a b ≤ n)
edit_distance_least a b = (
  rw (edit_distance-eq-lev a b) (Edits-back a b (Edits-lev (rev_onto a []) (rev_onto b []))),
  λ n e. rw (edit_distance-eq-lev a b) (lev-least (Edits-rev_onto e done (omega arith))),
)
