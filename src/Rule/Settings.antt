-- ===== src/Rule/Settings.antt =====
-- pkg/rule/setting.go and legacy.go: the numbers that rules read out of settings. The decoding of
-- scalars, which gopkg.in/yaml.v3, strconv and time do, is a parameter.
pub mod Library
use otelcol_config_lint.Base.{
  Bool, List, Option, String, [], false, if◌then◌else◌, is_nil, nat_eq, none, not, some, string_eq,
  true, ◌&&◌, ◌-◌, ◌==◌, ◌^◌, ◌||◌, ◌∷◌,
}
use otelcol_config_lint.Base.Int.{itoa64, ltb_ℤ, pos, ℤ}
use otelcol_config_lint.Config.Id.{Kind}
use otelcol_config_lint.Config.File.{Component, File}
use otelcol_config_lint.Rule.Context.{Context}
use otelcol_config_lint.Rule.Node.{has_expansion, is_expansion, is_null}
use otelcol_config_lint.Rule.Settings.Library.{Scalars, is_negative, to_int64}
use otelcol_config_lint.Schema.{Schema}
use otelcol_config_lint.Schema.Decoding.{ScalarDecoding, scalar_decoding}
use otelcol_config_lint.Yaml.{Node, attrs, is_scalar, scalar, tag_of, value_of}

abbrev pub str_tag : String
str_tag = "!!str"

abbrev pub int_tag : String
int_tag = "!!int"

abbrev pub float_tag : String
float_tag = "!!float"

abbrev pub bool_tag : String
bool_tag = "!!bool"

pub record Setting : Type 0 where
  pub node : Option Node
  pub present : Bool
  pub known : Bool
  pub num : ℤ

abbrev pub absent : Setting
absent = record { node = none; present = false; known = false; num = pos 0 }

-- a value that was written, read as `num` where it is known
abbrev pub written : Node → Option ℤ → Setting
written n none = record { node = some n; present = true; known = false; num = pos 0 }
written n (some num) = record { node = some n; present = true; known = true; num = num }

-- whether no scalar decoder is asked
abbrev pub opaque : Node → Bool
opaque n = not (is_scalar n) || has_expansion (value_of n)

module _ (lib : Scalars) where
  open lib use {
    decode_int, decode_float, parse_duration, parse_uint32, parse_int, parse_float, parse_bool,
    format_float,
  }

  -- the value of an integer or of a floating point number
  pub number_of : Node → Option ℤ
  unfolding to_int64
  number_of n =
      if tag_of n == int_tag
      then decode_int n
      else if tag_of n == float_tag
      then elim (decode_float n) [ none ↦ none | some x ↦ to_int64 x ]
      else none

  unfoldable pub read_int_of : Node → Setting
  unfolding number_of is_null has_expansion
  read_int_of n =
      if is_null (some n)
      then written n (some (pos 0))
      else if opaque n
      then written n none
      else written n (number_of n)

  -- `ReadInt`
  unfoldable pub read_int : Option Node → Setting
  unfolding read_int_of
  read_int none = absent
  read_int (some n) = read_int_of n

  -- `ReadDuration`, in nanoseconds
  unfoldable pub read_duration_of : Node → Setting
  unfolding read_int_of is_null has_expansion
  read_duration_of n =
      if is_null (some n)
      then written n (some (pos 0))
      else if opaque n
      then written n none
      else if tag_of n == int_tag || tag_of n == float_tag
      then read_int_of n
      else written n (parse_duration (value_of n))

  unfoldable pub read_duration : Option Node → Setting
  unfolding read_duration_of
  read_duration none = absent
  read_duration (some n) = read_duration_of n

  abbrev pub or_default : String → String → String
  or_default value default = if value == "" then default else value

  abbrev pub retagged : Node → Option String → String → Node
  retagged (scalar a) (some value) tag = scalar (record a { value = value; tag = tag })
  retagged n _ tag = n

  abbrev mapped {ℓ} : {A : Type ℓ} → (A → String) → Option A → Option String
  mapped f none = none
  mapped f (some a) = some (f a)

  abbrev bool_text : Bool → String
  bool_text true = "true"
  bool_text false = "false"

  -- `decodeQuotedScalar`
  unfoldable pub decode_quoted_scalar : Node → String → Node
  unfolding itoa64
  decode_quoted_scalar n typ =
      let value = value_of n in
      if typ == "int"
      then retagged n (mapped itoa64 (parse_int (or_default value "0"))) int_tag
      else if typ == "float"
      then retagged n (mapped format_float (parse_float (or_default value "0"))) float_tag
      else if typ == "bool"
      then retagged n (mapped bool_text (parse_bool (or_default value "false"))) bool_tag
      else n

  -- `DecodeScalar`
  unfoldable pub decode_scalar : Option Schema → Node → String → Node
  unfolding decode_quoted_scalar scalar_decoding has_expansion
  decode_scalar sch n typ =
      if not (is_scalar n) || not (tag_of n == str_tag) || has_expansion (value_of n)
      then n
      else elim (scalar_decoding sch) [
        | none ↦ n
        | some d ↦ if d.weak then decode_quoted_scalar n typ else n
      ]

  -- `Context.ReadInt`
  unfoldable pub context_read_int : Option Schema → Node → Setting
  unfolding decode_scalar read_int_of
  context_read_int sch n = record (read_int_of (decode_scalar sch n "int")) { node = some n }

  abbrev pub bad_text : Node → Bool
  bad_text n = is_nil (parse_uint32 (or_default (value_of n) "0"))

  abbrev negative_float : Node → Bool
  negative_float n = elim (decode_float n) [ none ↦ false | some x ↦ is_negative x ]

  abbrev pub undecodable : Option Node → Bool
  undecodable none = false
  undecodable (some n) =
      if tag_of n == str_tag
      then bad_text n
      else if tag_of n == float_tag
      then negative_float n
      else false

  -- `InvalidUint32`
  unfoldable pub invalid_uint32 : Setting → Bool
  invalid_uint32 s =
      if not s.known
      then false
      else if ltb_ℤ s.num (pos 0) || ltb_ℤ (pos (2 ^ 32 - 1)) s.num
      then true
      else undecodable s.node

-- `Positive`
abbrev pub positive : Setting → Bool
positive s = s.known && ltb_ℤ (pos 0) s.num

-- `Unknown`
abbrev pub unknown : Setting → Bool
unknown s = s.present && not s.known

-- `ProcessorsOfType`
module _ {T : Type 0} where
  pub read_of_type : String → (Component → T) → List Component → List T
  read_of_type typ read [] = []
  read_of_type typ read (c ∷ cs) =
      let rest = read_of_type typ read cs in
      if c.id.type == typ && not (is_expansion (some c.value_node)) then read c ∷ rest else rest

  unfoldable pub processors_of_type : File → String → (Component → T) → List T
  unfolding read_of_type
  processors_of_type f typ read = elim (f.sections Kind.processor) [
    | none ↦ []
    | some sec ↦ read_of_type typ read sec.components
  ]
