-- ===== src/Config/Id.antt =====
-- pkg/config/component.go: component kinds, signals and identifiers.
pub mod RoundTrip
mod Examples
use Prim.Native.String.{◌++◌}
use otelcol_config_lint.Base.{
  ℕ, String, Bool, true, false, ◌≡◌, ◌↔◌, Option, none, some, List, [], ◌∷◌, ◌&&◌, Equality, ◌==◌,
  arith, eq_iff, string_eq, if◌then◌else◌,
}
use otelcol_config_lint.Base.Text.{Cut, trim_space, cut}

pub data Kind : Type 0 where
  receiver processor exporter extension connector : Kind

abbrev pub kinds : List Kind
kinds = Kind.receiver ∷ Kind.processor ∷ Kind.exporter ∷ Kind.extension ∷ Kind.connector ∷ []

-- The underlying text of a `Kind`.
abbrev pub kind_text : Kind → String
kind_text Kind.receiver = "receiver"
kind_text Kind.processor = "processor"
kind_text Kind.exporter = "exporter"
kind_text Kind.extension = "extension"
kind_text Kind.connector = "connector"

unfoldable pub section_key : Kind → String
section_key k = kind_text k ++ "s"

-- the loop of `SectionKind`
section_kind_in : List Kind → String → Option Kind
section_kind_in [] key = none
section_kind_in (k ∷ ks) key = if section_key k == key then some k else section_kind_in ks key

unfoldable pub section_kind : String → Option Kind
unfolding section_kind_in section_key
section_kind key = section_kind_in kinds key

abbrev pub kind_beq : Kind → Kind → Bool
kind_beq Kind.receiver Kind.receiver = true
kind_beq Kind.processor Kind.processor = true
kind_beq Kind.exporter Kind.exporter = true
kind_beq Kind.extension Kind.extension = true
kind_beq Kind.connector Kind.connector = true
kind_beq _ _ = false

pub kind_beq_iff : (a b : Kind) → (kind_beq a b ≡ true) ↔ (a ≡ b)
kind_beq_iff a b = ground arith

instance abbrev pub kind_eq : Equality Kind
kind_eq = record { equals = kind_beq; equals_iff = kind_beq_iff }

abbrev pub signals : List String
signals = "traces" ∷ "metrics" ∷ "logs" ∷ "profiles" ∷ []

-- `ID`
pub record ComponentId : Type 0 where
  pub type : String
  pub name : String

unfoldable pub parse_id : String → ComponentId
parse_id s =
    let parts = cut b'/' s in
    record { type = trim_space parts.before; name = trim_space parts.after }

unfoldable pub id_text : ComponentId → String
id_text id = if id.name == "" then id.type else id.type ++ ("/" ++ id.name)

abbrev pub id_beq : ComponentId → ComponentId → Bool
id_beq a b = a.type == b.type && a.name == b.name

pub id_beq_iff : (a b : ComponentId) → (id_beq a b ≡ true) ↔ (a ≡ b)
id_beq_iff a b = ground (arith, eq_iff a.type b.type, eq_iff a.name b.name)

instance abbrev pub id_eq : Equality ComponentId
id_eq = record { equals = id_beq; equals_iff = id_beq_iff }
