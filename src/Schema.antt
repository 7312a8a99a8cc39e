-- ===== src/Schema.antt =====
-- pkg/schema/schema.go: the component inventory of a release.
pub mod Version
pub mod Spans
pub mod Diff
mod Examples
pub mod Decoding
use otelcol_config_lint.Base.{
  Bool, List, Option, String, [], contains_func, if◌then◌else◌, length, nat_eq, none, some,
  string_eq, true, ℕ, ◌+◌, ◌==◌, ◌||◌, ◌∷◌,
}
use otelcol_config_lint.Config.Id.{Kind, id_eq, kind_eq, kinds}

-- What a `Field` holds beside its children.
pub record FieldInfo : Type 0 where
  pub type : String
  pub required : List String
  pub enum : List String
  pub is_open : Bool
  pub deprecated : String
  pub extension_ref : String

-- `Field`; its `Children` are a map, each key once.
mutual
  pub data Field : Type 0 where
    field : FieldInfo → Children → Field

  pub data Children : Type 0 where
    leaf : Children
    child : String → Field → Children → Children

abbrev pub info : Field → FieldInfo
info (field i _) = i

abbrev pub children : Field → Children
children (field _ cs) = cs

-- `Children[key]`
unfoldable pub child_at : Children → String → Option Field
child_at leaf key = none
child_at (child name f rest) key = if name == key then some f else child_at rest key

-- `Pair`
pub record Pair : Type 0 where
  pub source : String
  pub target : String

-- The fields of a schema's `Component` that the program reads behind the decoding.
pub record Inventory : Type 0 where
  pub type : String
  pub signals : List String
  pub stability : List (String × String)
  pub pairs : List Pair
  pub deprecated : String
  pub alias_of : String
  pub alias : String
  pub fields : Option Field

-- `Decoder`
pub record Decoder : Type 0 where
  pub confmap_version : String
  pub incomplete : Bool
  pub modified : Bool

pub record Schema : Type 0 where
  pub collector_version : String
  pub distribution : String
  pub decoder : Option Decoder
  pub components : Kind → List (String × Inventory)

pub find_type : List (String × Inventory) → String → Option Inventory
find_type [] typ = none
find_type ((t, c) ∷ rest) typ = if t == typ then some c else find_type rest typ

-- `Lookup`
unfoldable pub lookup : Schema → Kind → String → Option Inventory
unfolding find_type
lookup s k typ = find_type (s.components k) typ

count_of : Schema → List Kind → ℕ
count_of s [] = 0
count_of s (k ∷ ks) = length (s.components k) + count_of s ks

-- `Count`
unfoldable pub count : Schema → ℕ
unfolding count_of
count s = count_of s kinds

-- `Supports`
unfoldable pub supports : Inventory → String → Bool
supports c s =
    if contains_func c.signals (λ t. t == s)
    then true
    else contains_func c.pairs (λ (p : Pair). p.source == s || p.target == s)

-- `SupportsAsExporter`
unfoldable pub supports_as_exporter : Inventory → String → Bool
supports_as_exporter c s = contains_func c.pairs (λ (p : Pair). p.source == s)

-- `SupportsAsReceiver`
unfoldable pub supports_as_receiver : Inventory → String → Bool
supports_as_receiver c s = contains_func c.pairs (λ (p : Pair). p.target == s)
