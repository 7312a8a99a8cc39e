-- ===== src/Rule/Settings/Library.antt =====
-- What the program uses of yaml.v3, strconv and time to decode scalars, and the values of `float64`.
use otelcol_config_lint.Base.{
  Bool, Option, String, false, if◌then◌else◌, ltb, nat_eq, none, not, some, string_eq, true, ℕ,
  ◌&&◌, ◌==◌, ◌^◌, ◌||◌,
}
use otelcol_config_lint.Base.Int.{negated, pos, ℤ}
use otelcol_config_lint.Yaml.{Node}

-- A finite number is its sign, the whole part of its absolute value, and whether a fraction follows.
pub data Float : Type 0 where
  nan : Float
  infinite : Bool → Float
  finite : Bool → ℕ → Bool → Float

-- `num < 0`
abbrev pub is_negative : Float → Bool
is_negative nan = false
is_negative (infinite negative) = negative
is_negative (finite negative whole fraction) = negative && (ltb 0 whole || fraction)

-- `int64(num)` where `num >= math.MinInt64 && num < math.MaxInt64`, whose bounds are -2^63 and 2^63
-- as floating point numbers
unfoldable pub to_int64 : Float → Option ℤ
to_int64 nan = none
to_int64 (infinite _) = none
to_int64 (finite true whole fraction) =
    if ltb whole (2 ^ 63) || whole == 2 ^ 63 && not fraction then some (negated whole) else none
to_int64 (finite false whole fraction) = if ltb whole (2 ^ 63) then some (pos whole) else none

-- `none` is an error.
pub record Scalars : Type 0 where
  -- `Node.Decode` into an int64, a float64 and a bool
  pub decode_int : Node → Option ℤ
  pub decode_float : Node → Option Float
  pub decode_bool : Node → Option Bool
  -- `ParseInt(s, 0, 64)`, `ParseUint(s, 0, 32)`, `ParseFloat(s, 64)`, `ParseBool`
  pub parse_int : String → Option ℤ
  pub parse_uint32 : String → Option ℕ
  pub parse_float : String → Option Float
  pub parse_bool : String → Option Bool
  -- `FormatFloat(x, 'g', -1, 64)`
  pub format_float : Float → String
  -- `time.ParseDuration` and `Duration.String`, in nanoseconds
  pub parse_duration : String → Option ℤ
  pub duration_text : ℤ → String
  -- `FormatFloat(float64(n) / unit, 'f', 1, 64)`
  pub tenths : ℤ → ℕ → String
