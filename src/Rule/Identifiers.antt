-- ===== src/Rule/Identifiers.antt =====
-- pkg/rule/identifier.go and the rules of the packages invalidcomponentid and invalidpipelinekey. The
-- classes of Unicode characters are a parameter.
pub mod Accepted
mod Examples
use otelcol_config_lint.Base.{
  Bool, List, String, [], append_if, contains_func, false, for_each, if◌then◌else◌, leb, length,
  ltb, nat_eq, none, not, some, string_eq, true, ℕ, ◌&&◌, ◌++◌, ◌==◌, ◌||◌, ◌∷◌, Option,
}
use otelcol_config_lint.Base.Text.{Cut, codes, concat, cut, trim_space, utf8}
use otelcol_config_lint.Config.Id.{Kind, kinds, section_key, signals}
use otelcol_config_lint.Config.File.{Component, File, Pipeline, Ref, Section, refs_of}
use otelcol_config_lint.Rule.Context.{Context, Finding, finding}
use otelcol_config_lint.Rule.ExtensionRefs.{ExtensionRef}
use otelcol_config_lint.Rule.Node.{has_expansion}
use otelcol_config_lint.Rule.Words.{quote, suggest}
use otelcol_config_lint.Yaml.{Node, value_of}

abbrev pub max_identifier_name_bytes : ℕ
max_identifier_name_bytes = 1024

abbrev pub is_letter : ℕ → Bool
is_letter c = leb b'a' c && leb c b'z' || leb b'A' c && leb c b'Z'

abbrev pub is_word : ℕ → Bool
is_word c = is_letter c || leb b'0' c && leb c b'9' || c == b'_'

abbrev pub all_codes : (ℕ → Bool) → List ℕ → Bool
all_codes p [] = true
all_codes p (c ∷ cs) = p c && all_codes p cs

-- `^[a-zA-Z][0-9a-zA-Z_]{0,62}$`
abbrev pub type_matches : List ℕ → Bool
type_matches [] = false
type_matches (c ∷ cs) = is_letter c && all_codes is_word cs && leb (length cs) 62

-- `^[^\pZ\pC\pS]+$`, where `plain` tells the characters outside the three classes
abbrev pub name_matches : (ℕ → Bool) → List ℕ → Bool
name_matches plain [] = false
name_matches plain (c ∷ cs) = all_codes plain (c ∷ cs)

abbrev pub byte_length : String → ℕ
byte_length s = length (utf8 (codes s))

-- the switch of `IdentifierError`
abbrev pub error_of : (ℕ → Bool) → String → String → Bool → String
error_of plain type name has_name =
    if type == ""
    then "the type before / must not be empty"
    else if not (type_matches (codes type))
    then "the type must be 1–63 ASCII letters, digits or underscores, starting with a letter"
    else if has_name && name == ""
    then "the name after / must not be empty"
    else if ltb max_identifier_name_bytes (byte_length name)
    then "the name must not exceed 1024 bytes"
    else if has_name && not (name_matches plain (codes name))
    then "the name must not contain whitespace, control characters or Unicode symbols"
    else ""

-- `IdentifierError`
unfoldable pub identifier_error : (ℕ → Bool) → String → String
unfolding cut trim_space codes utf8
identifier_error plain raw =
    let parts = cut b'/' raw in
    error_of plain (trim_space parts.before) (trim_space parts.after) parts.found

abbrev message_for : String → String → String → String
message_for what raw reason =
    concat ("invalid " ∷ what ∷ " identifier " ∷ quote raw ∷ ": " ∷ reason ∷ [])

-- `IsSignal`
abbrev pub is_signal : String → Bool
is_signal s = contains_func signals (λ t. t == s)

module _ (plain : ℕ → Bool) where
  -- the function `check`
  unfoldable pub check_identifier : Node → String → List Finding
  unfolding identifier_error quote
  check_identifier n path =
      let reason = identifier_error plain (value_of n) in
      append_if (not (reason == ""))
        (finding (some n) path (message_for "component" (value_of n) reason))

  abbrev pub check_component : Kind → Component → List Finding
  check_component k c =
      check_identifier c.key_node (concat (section_key k ∷ "." ∷ value_of c.key_node ∷ []))

  abbrev pub check_section : Kind → Option Section → List Finding
  check_section k none = []
  check_section k (some sec) = for_each sec.components (check_component k)

  abbrev pub check_ref : Ref → List Finding
  check_ref r = if has_expansion (value_of r.node) then [] else check_identifier r.node r.path

  abbrev pub check_refs : Pipeline → List Finding
  check_refs p =
      for_each (Kind.receiver ∷ Kind.processor ∷ Kind.exporter ∷ [])
        (λ slot. for_each (refs_of p slot) check_ref)

  -- `Check` of invalid-component-id
  unfoldable pub invalid_component_id : Context → List Finding
  unfolding check_identifier has_expansion refs_of section_key
  invalid_component_id ctx =
      for_each kinds (λ k. check_section k (ctx.file.sections k))
      ++ for_each ctx.file.service.extensions check_ref
      ++ for_each ctx.file.service.pipelines check_refs
      ++ for_each ctx.index.ext_refs (λ (r : ExtensionRef). check_identifier r.node r.path)

  -- one round of the loop of invalid-pipeline-key
  abbrev pub pipeline_findings : Pipeline → List Finding
  pipeline_findings p =
      let reason = identifier_error plain p.key in
      let path = concat ("service.pipelines." ∷ p.key ∷ []) in
      if not (reason == "")
      then finding (some p.key_node) path (message_for "pipeline" p.key reason) ∷ []
      else if is_signal p.signal
      then []
      else record (finding (some p.key_node) path
          (concat ("pipeline " ∷ quote p.key ∷ " does not name a known signal" ∷ []))) {
            hint = concat (
                "pipeline keys look like traces, metrics/internal or logs/2"
                ∷ suggest p.signal signals
                ∷ []);
          }
        ∷ []

  -- `Check` of invalid-pipeline-key
  unfoldable pub invalid_pipeline_key : Context → List Finding
  unfolding identifier_error quote suggest
  invalid_pipeline_key ctx = for_each ctx.file.service.pipelines pipeline_findings
