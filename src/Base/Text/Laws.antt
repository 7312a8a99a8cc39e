-- ===== src/Base/Text/Laws.antt =====
-- Trimming is idempotent; a text with no separator is not cut; a joined text is cut where it was
-- joined.
use Prim.Native.Char.{Char, code}
use Prim.Native.Nat.{ℕ}
use Prim.Native.String.{String, [], ◌∷◌, ◌++◌}
use mathlib.Core.Bool.{true, false}
use mathlib.Core.Logic.{inl, inr}
use mathlib.Core.Path.{◌≡◌, refl, ap, ◌∙◌}
use text.Mathlib.TextLemmas.{nil-append, cons-append}
use otelcol_config_lint.Base.Tests.{Bool-cases, nat_beq}
use otelcol_config_lint.Base.Text.Defs.{
  is_space, trim_left, trim_right_cons, trim_right, trim_space, cut,
}

-- No character of the text is the separator.
abbrev pub Free : ℕ → String → Type 0
Free sep [] = Unit
Free sep (c ∷ s) = (nat_beq (code c) sep ≡ false) × Free sep s

trim_left_idem : (s : String) → trim_left (trim_left s) ≡ trim_left s
unfolding trim_left
trim_left_idem [] = refl
trim_left_idem (c ∷ s) = elim (Bool-cases (is_space c)) [
  | inl e ↦ rw e (trim_left_idem s)
  | inr e ↦ rw e (rw e)
]

trim_right-cons_idem :
    (c : Char) (r : String)
    → trim_right r ≡ r
    → trim_right (trim_right_cons c r) ≡ trim_right_cons c r
unfolding trim_right
trim_right-cons_idem c [] h = elim (Bool-cases (is_space c)) [ inl e ↦ rw e | inr e ↦ rw e (rw e) ]
trim_right-cons_idem c (d ∷ r) h = ap (trim_right_cons c) h

trim_right_idem : (s : String) → trim_right (trim_right s) ≡ trim_right s
unfolding trim_right
trim_right_idem [] = refl
trim_right_idem (c ∷ s) = trim_right-cons_idem c (trim_right s) (trim_right_idem s)

trim_left-trim_right_cons :
    (c : Char) (r : String)
    → is_space c ≡ false
    → trim_left (trim_right_cons c r) ≡ trim_right_cons c r
unfolding trim_left
trim_left-trim_right_cons c [] e = rw e (rw e)
trim_left-trim_right_cons c (d ∷ r) e = rw e

-- What starts with no space still does after its end is trimmed.
trim_left-trim_right :
    (s : String) → trim_left (trim_right (trim_left s)) ≡ trim_right (trim_left s)
unfolding trim_left trim_right
trim_left-trim_right [] = refl
trim_left-trim_right (c ∷ s) = elim (Bool-cases (is_space c)) [
  | inl e ↦ rw e (trim_left-trim_right s)
  | inr e ↦ rw e (trim_left-trim_right_cons c (trim_right s) e)
]

pub trim_space_idem : (s : String) → trim_space (trim_space s) ≡ trim_space s
trim_space_idem s =
    let t = trim_left s in
    unfold trim_space in ap trim_right (trim_left-trim_right s) ∙ trim_right_idem t

Free-trim_left : (sep : ℕ) (s : String) → Free sep s → Free sep (trim_left s)
unfolding trim_left
Free-trim_left sep [] h = tt
Free-trim_left sep (c ∷ s) h = elim (Bool-cases (is_space c)) [
  | inl e ↦ rw e (Free-trim_left sep s h.1)
  | inr e ↦ rw e h
]

Free-trim_right_cons :
    (sep : ℕ) (c : Char) (r : String)
    → nat_beq (code c) sep ≡ false
    → Free sep r
    → Free sep (trim_right_cons c r)
Free-trim_right_cons sep c [] e h = elim (Bool-cases (is_space c)) [
  | inl b ↦ rw b tt
  | inr b ↦ rw b (e, tt)
]
Free-trim_right_cons sep c (d ∷ r) e h = (e, h)

Free-trim_right : (sep : ℕ) (s : String) → Free sep s → Free sep (trim_right s)
unfolding trim_right
Free-trim_right sep [] h = tt
Free-trim_right sep (c ∷ s) h =
    Free-trim_right_cons sep c (trim_right s) h.0 (Free-trim_right sep s h.1)

pub Free-trim_space : (sep : ℕ) (s : String) → Free sep s → Free sep (trim_space s)
unfolding trim_space
Free-trim_space sep s h = Free-trim_right sep (trim_left s) (Free-trim_left sep s h)

pub Free-cut : (sep : ℕ) (s : String) → Free sep (cut sep s).before
unfolding cut
Free-cut sep [] = tt
Free-cut sep (c ∷ s) = elim (Bool-cases (nat_beq (code c) sep)) [
  | inl e ↦ rw e tt
  | inr e ↦ rw e (e, Free-cut sep s)
]

pub cut-Free :
    (sep : ℕ) (s : String)
    → Free sep s
    → cut sep s ≡ record { before = s; after = []; found = false }
unfolding cut
cut-Free sep [] h = refl
cut-Free sep (c ∷ s) h = rw (h.0, cut-Free sep s h.1)

pub cut_joined :
    (sep : ℕ) (t : String) (c : Char) (s : String)
    → Free sep t
    → nat_beq (code c) sep ≡ true
    → cut sep (t ++ (c ∷ s)) ≡ record { before = t; after = s; found = true }
unfolding cut
cut_joined sep [] c s h e = rw (nil-append, e)
cut_joined sep (d ∷ t) c s h e = rw cons-append (rw (h.0, cut_joined sep t c s h.1 e))
