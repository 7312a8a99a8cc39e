-- ===== src/Rule/MemoryLimiter/Bounds.antt =====
-- `HardLimit` does not wrap round: it is the number of bytes without a bound, where that fits.
use native.Mathlib.Nat.{div-lt_iff_lt-mul}
use otelcol_config_lint.Base.{
  refl, false, inr, inl, Bool-cases, none, some, ◌∙◌, true, leb, ap, arith, Bool, if◌then◌else◌,
  not, ℕ, ◌&&◌, ◌*◌, ◌/◌, ◌<◌, ◌^◌, ◌||◌, ◌≡◌,
}
use otelcol_config_lint.Base.Int.{
  div64, negsuc, wrap64_of_IsInt64, wrap64, ℤ, ltb_ℤ, mul64, pos, pos_part, ◌*ℤ◌,
}
use otelcol_config_lint.Rule.Context.{Environment}
use otelcol_config_lint.Rule.MemoryLimiter.{
  max_int64, limit_in_mib, share_of, hard_limit, MemoryLimiter, mib, whole_percent,
}
use otelcol_config_lint.Rule.Settings.{positive, unknown}

-- The bytes that a limiter enforces, counted in natural numbers.
abbrev pub bytes : MemoryLimiter → Environment → ℕ
bytes m env =
    if positive m.limit_mib
    then pos_part m.limit_mib.num * mib
    else pos_part env.memory_limit * pos_part m.limit_percent.num / whole_percent

-- What is computed before the percentage is divided out.
abbrev pub product : MemoryLimiter → Environment → ℕ
product m env =
    if positive m.limit_mib
    then pos_part m.limit_mib.num * mib
    else pos_part env.memory_limit * pos_part m.limit_percent.num

-- Whether the settings say how much memory may be used.
abbrev pub states_limit : MemoryLimiter → Environment → Bool
states_limit m env =
    not (unknown m.limit_mib || unknown m.limit_percent)
    && (positive m.limit_mib || positive m.limit_percent && ltb_ℤ (pos 0) env.memory_limit)

*ℤ-pos : (m n : ℕ) → pos m *ℤ pos n ≡ pos (m * n)
unfolding ◌*ℤ◌
*ℤ-pos m n = grind arith

pub mul64_pos : (m n : ℕ) → m * n < 2 ^ 63 → mul64 (pos m) (pos n) ≡ pos (m * n)
mul64_pos m n h = ap wrap64 (*ℤ-pos m n) ∙ wrap64_of_IsInt64 (pos (m * n)) h

limit_in_mib-product :
    (n : ℤ)
    → ltb_ℤ (pos 0) n ≡ true
    → limit_in_mib n
      ≡ (if leb (pos_part n * mib) max_int64 then some (pos (pos_part n * mib)) else none)
limit_in_mib-product (pos k) h = elim (Bool-cases (leb (k * mib) max_int64)) [
  | inl fits ↦
      let below : ltb_ℤ (pos (max_int64 / mib)) (pos k) ≡ false = ground arith in
      rw (fits, below) (ap some (mul64_pos k mib (ground arith)))
  | inr over ↦
      let above : ltb_ℤ (pos (max_int64 / mib)) (pos k) ≡ true = ground arith in
      rw (over, above) refl
]
limit_in_mib-product (negsuc k) h = absurd (ground arith)

share_of-product :
    (n p : ℤ)
    → ltb_ℤ (pos 0) n ≡ true
    → ltb_ℤ (pos 0) p ≡ true
    → share_of n p ≡ (
        if leb (pos_part n * pos_part p) max_int64
        then some (pos (pos_part n * pos_part p / whole_percent))
        else none)
share_of-product (negsuc k) p h g = absurd (ground arith)
share_of-product (pos k) (negsuc q) h g = absurd (ground arith)
share_of-product (pos k) (pos q) h g =
    let bound = div-lt_iff_lt-mul {k = q} {x = max_int64} {y = k} (ground arith) in
    elim (Bool-cases (leb (k * q) max_int64)) [
      | inl fits ↦
          let below : ltb_ℤ (pos (max_int64 / q)) (pos k) ≡ false = ground (arith, bound) in
          rw (fits, below) (ap (λ z. some (div64 z whole_percent)) (mul64_pos k q (ground arith)))
      | inr over ↦
          let above : ltb_ℤ (pos (max_int64 / q)) (pos k) ≡ true = ground (arith, bound) in
          rw (over, above) refl
    ]

-- HardLimit never wraps round: where the settings state a limit and the product that is computed
-- fits in an int64, it is the exact number of bytes; in every other case there is no limit.
pub hard_limit_exact :
    (m : MemoryLimiter) (env : Environment)
    → hard_limit m env ≡ (
        if states_limit m env && leb (product m env) max_int64
        then some (pos (bytes m env))
        else none)
unfolding hard_limit
hard_limit_exact m env = elim (Bool-cases (unknown m.limit_mib || unknown m.limit_percent)) [
  | inl u ↦ rw (u, hard_limit) refl
  | inr u ↦ elim (Bool-cases (positive m.limit_mib)) [
    | inl p ↦ rw (u, p, hard_limit) (limit_in_mib-product m.limit_mib.num (ground arith))
    | inr p ↦ elim (Bool-cases (positive m.limit_percent && ltb_ℤ (pos 0) env.memory_limit)) [
      | inl q ↦
          rw (u, p, q, hard_limit)
            (share_of-product env.memory_limit m.limit_percent.num (ground arith) (ground arith))
      | inr q ↦ rw (u, p, q, hard_limit) refl
    ]
  ]
]
