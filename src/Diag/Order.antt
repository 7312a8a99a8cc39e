-- ===== src/Diag/Order.antt =====
-- The comparison that `Sort` uses is the lexicographic order by file, line, column and rule.
use Prim.Native.Nat.{Ordering, compare as compare_ℕ}
use Prim.Native.String.{compare as compare_text}
use otelcol_config_lint.Base.{sym, ap, ◌∙◌, false, true, arith, String, ℕ, ◌≡◌}
use otelcol_config_lint.Base.Order.{
  is_lt_self, is_lt_asymm, not_lt_trans, is_lt, IsOrder, compare_text-IsOrder, compare_ℕ-IsOrder,
  lexicographic, lexicographic-IsOrder,
}
use otelcol_config_lint.Diag.{Diagnostic, less}

-- What `Sort` sees of a diagnostic.
abbrev pub Key : Type 0
Key = String × (ℕ × (ℕ × String))

abbrev pub key : Diagnostic → Key
key d = (d.position.file, (d.position.line, (d.position.column, d.rule)))

abbrev pub compare_key : Key → Key → Ordering
compare_key =
    lexicographic compare_text (lexicographic compare_ℕ (lexicographic compare_ℕ compare_text))

pub compare_key-IsOrder : IsOrder compare_key
compare_key-IsOrder = lexicographic-IsOrder compare_text-IsOrder (
    lexicographic-IsOrder compare_ℕ-IsOrder
      (lexicographic-IsOrder compare_ℕ-IsOrder compare_text-IsOrder))

pub less-compare_key : (a b : Diagnostic) → less a b ≡ is_lt (compare_key (key a) (key b))
unfolding less
less-compare_key a b = ground arith

-- `less` keeps the order: it is irreflexive, and its failure is transitive.
pub less_irrefl : (a b : Diagnostic) → key a ≡ key b → less a b ≡ false
less_irrefl a b e =
    less-compare_key a b
    ∙ ap (λ k. is_lt (compare_key k (key b))) e
    ∙ is_lt_self compare_key-IsOrder (key b)

pub less_asymm : (a b : Diagnostic) → less a b ≡ true → less b a ≡ false
less_asymm a b h =
    less-compare_key b a
    ∙ is_lt_asymm compare_key-IsOrder (key a) (key b) (sym (less-compare_key a b) ∙ h)

pub not_less_trans : (a b c : Diagnostic) → less b a ≡ false → less c b ≡ false → less c a ≡ false
not_less_trans a b c h k =
    less-compare_key c a
    ∙ not_lt_trans compare_key-IsOrder (key a) (key b) (key c) (sym (less-compare_key b a) ∙ h)
        (sym (less-compare_key c b) ∙ k)
