-- ===== src/Quantity.antt =====
-- pkg/quantity/quantity.go: memory sizes as Kubernetes manifests write them.
use Prim.Native.String.{◌++◌ as str_append}
use otelcol_config_lint.Base.{
  List, Option, String, [], if◌then◌else◌, leb, nat_eq, none, some, string_eq, ℕ, ◌%◌, ◌&&◌, ◌/◌,
  ◌==◌, ◌^◌, ◌∷◌,
}
use otelcol_config_lint.Base.Int.{itoa64, leb_ℤ, ltb_ℤ, pos, pos_part, ℤ}

pub record BinaryUnit : Type 0 where
  pub suffix : String
  pub size : ℕ

abbrev unit_of : String → ℕ → BinaryUnit
unit_of suffix size = record { suffix = suffix; size = size }

abbrev pub binary_units : List BinaryUnit
binary_units =
    unit_of "Ei" (2 ^ 60)
    ∷ unit_of "Pi" (2 ^ 50)
    ∷ unit_of "Ti" (2 ^ 40)
    ∷ unit_of "Gi" (2 ^ 30)
    ∷ unit_of "Mi" (2 ^ 20)
    ∷ unit_of "Ki" (2 ^ 10)
    ∷ []

-- the loop of `Format`: the largest unit that divides the number
pub whole_unit : ℕ → List BinaryUnit → Option BinaryUnit
whole_unit n [] = none
whole_unit n (u ∷ us) =
    let rest = whole_unit n us in if leb u.size n && n % u.size == 0 then some u else rest

-- `Format`. `tenths n unit` is `FormatFloat(float64(n) / unit, 'f', 1, 64)`.
unfoldable pub format : (ℤ → ℕ → String) → ℤ → String
unfolding itoa64 whole_unit
format tenths bytes =
    if ltb_ℤ bytes (pos (2 ^ 10))
    then itoa64 bytes
    else elim (whole_unit (pos_part bytes) binary_units) [
      | some u ↦ str_append (itoa64 (pos (pos_part bytes / u.size))) u.suffix
      | none ↦
          if leb_ℤ (pos (2 ^ 20)) bytes
          then str_append (tenths bytes (2 ^ 20)) "Mi"
          else str_append (tenths bytes (2 ^ 10)) "Ki"
    ]
