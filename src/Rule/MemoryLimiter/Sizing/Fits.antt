-- ===== src/Rule/MemoryLimiter/Sizing/Fits.antt =====
-- Which limits memory-limiter-sizing lets pass, and from which container limit on it wraps round.
use otelcol_config_lint.Rule.MemoryLimiter.Bounds.{mul64_pos}
use otelcol_config_lint.Base.{
  ◌⊎◌, refl, inr, inl, Bool-cases, not, ◌||◌, if◌then◌else◌, Bool, List, [], ap, arith, false, leb,
  ltb, true, ℕ, ◌&&◌, ◌*◌, ◌+◌, ◌/◌, ◌<◌, ◌^◌, ◌∙◌, ◌∷◌, ◌≡◌,
}
use otelcol_config_lint.Base.Int.{
  ◌*ℤ◌, mul64, div64, ltb_ℤ, leb_ℤ, add64, pos, wrap64, wrap64_of_IsInt64, ◌+ℤ◌,
}
use otelcol_config_lint.Rule.Context.{Environment, Finding}
use otelcol_config_lint.Rule.MemoryLimiter.{MemoryLimiter, whole_percent}
use otelcol_config_lint.Rule.MemoryLimiter.Sizing.{ceiling_percent, check_limit, process_overhead}
use otelcol_config_lint.Rule.Settings.Library.{Scalars}

abbrev pub nothing_found : List Finding → Bool
nothing_found [] = true
nothing_found (_ ∷ _) = false

-- The hard limit leaves the overhead of the process and a fifth of the container's limit free.
abbrev pub leaves_room : ℕ → ℕ → Bool
leaves_room hard limit =
    ltb hard limit
    && leb (hard + process_overhead) limit
    && leb hard (limit * ceiling_percent / whole_percent)

+ℤ-pos : (m n : ℕ) → pos m +ℤ pos n ≡ pos (m + n)
unfolding ◌+ℤ◌
+ℤ-pos m n = ground arith

add64_pos : (m n : ℕ) → m + n < 2 ^ 63 → add64 (pos m) (pos n) ≡ pos (m + n)
add64_pos m n h = ap wrap64 (+ℤ-pos m n) ∙ wrap64_of_IsInt64 (pos (m + n)) h

silent :
    (a b c d : Bool) (x y z : Finding)
    → nothing_found
        (if a then [] else if b then x ∷ [] else if c then y ∷ [] else if d then z ∷ [] else [])
      ≡ (a || not b && not c && not d)
silent a b c d x y z = ground arith

all_ways :
    (a b c d : Bool) → a ≡ false → (b ≡ true) ⊎ (d ≡ true) → (a || not b && not c && not d) ≡ false
all_ways a b c d h (inl r) = ground arith
all_ways a b c d h (inr r) = ground arith

wrapped_is_low :
    (hard : ℕ)
    → ltb_ℤ (div64 (mul64 (pos (2 ^ 59)) (pos ceiling_percent)) whole_percent) (pos hard) ≡ true
unfolding ◌*ℤ◌
wrapped_is_low hard = ground arith

module _ (lib : Scalars) (lim : MemoryLimiter) (env : Environment) (hard limit : ℕ) where
  -- For a container limit that is above zero and below 2^63 / 80 bytes, checkLimit is silent exactly
  -- for the hard limits below it that leave the process 50Mi and are at most 80% of it.
  pub check_limit-leaves_room :
      env.memory_limit ≡ pos limit
      → 0 < limit
      → limit * ceiling_percent < 2 ^ 63
      → nothing_found (check_limit lib lim env (pos hard)) ≡ leaves_room hard limit
  unfolding check_limit
  check_limit-leaves_room e positive small = rw e (
      silent (leb_ℤ (pos limit) (pos 0)) (leb_ℤ (pos limit) (pos hard))
        (ltb_ℤ (pos limit) (add64 (pos hard) (pos process_overhead)))
        (ltb_ℤ (div64 (mul64 (pos limit) (pos ceiling_percent)) whole_percent) (pos hard)) _ _ _
      ∙ elim (Bool-cases (ltb hard limit)) [
        | inl below ↦
            rw
              (
                add64_pos hard process_overhead (ground arith),
                mul64_pos limit ceiling_percent small,
              )
              (ground arith)
        | inr above ↦
            all_ways (leb_ℤ (pos limit) (pos 0)) (leb_ℤ (pos limit) (pos hard))
              (ltb_ℤ (pos limit) (add64 (pos hard) (pos process_overhead)))
              (ltb_ℤ (div64 (mul64 (pos limit) (pos ceiling_percent)) whole_percent) (pos hard))
              (ground arith) (inl (ground arith))
            ∙ rw above refl
      ])

  -- Four fifths of a container limit of 2^59 bytes (512Pi) do not fit in an int64 before the division:
  -- the product wraps round to a negative number, and checkLimit reports every hard limit.
  pub check_limit_wraps :
      env.memory_limit ≡ pos (2 ^ 59) → nothing_found (check_limit lib lim env (pos hard)) ≡ false
  unfolding check_limit ◌*ℤ◌
  check_limit_wraps e =
      let cap = pos (2 ^ 59) in
      rw e (
        silent (leb_ℤ cap (pos 0)) (leb_ℤ cap (pos hard))
          (ltb_ℤ cap (add64 (pos hard) (pos process_overhead)))
          (ltb_ℤ (div64 (mul64 cap (pos ceiling_percent)) whole_percent) (pos hard)) _ _ _
        ∙ all_ways (leb_ℤ cap (pos 0)) (leb_ℤ cap (pos hard))
            (ltb_ℤ cap (add64 (pos hard) (pos process_overhead)))
            (ltb_ℤ (div64 (mul64 cap (pos ceiling_percent)) whole_percent) (pos hard)) refl
            (inr (wrapped_is_low hard)))
