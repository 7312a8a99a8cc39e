-- ===== src/Rule/References.antt =====
-- pkg/rule/undefinedreference and duplicatereference: references that name nothing declared, and
-- references listed twice.
pub mod Meant
pub mod Undefined
pub mod Duplicate
use Prim.Native.String.{◌++◌ as str_append}
use otelcol_config_lint.Base.{
  Bool, List, [], append_if, for_each, if◌then◌else◌, is_nil, not, some, ◌&&◌, ◌++◌, ◌||◌, ◌∷◌,
}
use otelcol_config_lint.Config.Id.{
  id_eq, ComponentId, Kind, extension, id_text, kind_text, section_key,
}
use otelcol_config_lint.Config.File.{Component, File, Pipeline, Ref, Section, Service, refs_of}
use otelcol_config_lint.Diag.{Severity, error, warning, unset}
use otelcol_config_lint.Rule.Context.{Context, Finding, Rule, finding, misplaced_hint}
use otelcol_config_lint.Rule.ExtensionRefs.{ExtensionRef}
use otelcol_config_lint.Rule.Index.{
  Index, has_dynamic_declarations, is_declared, resolve_ref, slots,
}
use otelcol_config_lint.Rule.Node.{has_expansion}
use otelcol_config_lint.Rule.Words.{quote}
use otelcol_config_lint.Sets.{has, insert_one}

abbrev pub undefined_extension_finding : Context → Ref → Finding
undefined_extension_finding ctx ref = record {
  node = some ref.node;
  path = ref.path;
  message =
      str_append "service.extensions references "
        (str_append (quote (id_text ref.id)) " which is not declared under extensions");
  hint = misplaced_hint ctx ref.id Kind.extension;
  docs = "";
  severity = Severity.unset;
}

abbrev pub undefined_slot_finding : Context → Pipeline → Kind → Ref → Finding
undefined_slot_finding ctx p slot ref = record {
  node = some ref.node;
  path = ref.path;
  message = str_append "pipeline " (
      str_append (quote p.key) (
        str_append " references " (
          str_append (kind_text slot) (
            str_append " " (
              str_append (quote (id_text ref.id))
                (str_append " which is not declared under " (section_key slot)))))));
  hint = misplaced_hint ctx ref.id slot;
  docs = "";
  severity = Severity.unset;
}

-- what is left of the guards of the two loops
pub extension_is_undefined : Index → Ref → Bool
extension_is_undefined idx ref =
    not (has_expansion (id_text ref.id) || has_dynamic_declarations idx Kind.extension)
    && is_nil (is_declared idx Kind.extension ref.id)

pub slot_is_undefined : Index → Kind → Ref → Bool
slot_is_undefined idx slot ref =
    not (has_expansion (id_text ref.id) || has_dynamic_declarations idx slot)
    && is_nil (resolve_ref idx slot ref.id)

-- `Check` of undefined-reference
unfoldable pub undefined_reference : Context → List Finding
unfolding extension_is_undefined slot_is_undefined refs_of
undefined_reference ctx =
    for_each ctx.file.service.extensions (λ (ref : Ref).
      append_if (extension_is_undefined ctx.index ref) (undefined_extension_finding ctx ref))
    ++ for_each ctx.file.service.pipelines (λ (p : Pipeline). for_each slots (λ (slot : Kind).
      for_each (refs_of p slot) (λ (ref : Ref).
        append_if (slot_is_undefined ctx.index slot ref) (undefined_slot_finding ctx p slot ref))))

abbrev pub duplicate_finding : Pipeline → Kind → Ref → Finding
duplicate_finding p slot ref = finding (some ref.node) ref.path (
    str_append (quote (id_text ref.id))
      (str_append " is listed twice in " (str_append p.key (str_append "." (section_key slot)))))

-- The innermost loop of duplicate-reference, with the identifiers seen.
pub duplicates_of : Pipeline → Kind → List ComponentId → List Ref → List Finding
unfolding insert_one
duplicates_of p slot seen [] = []
duplicates_of p slot seen (ref ∷ rest) =
    let skipped = duplicates_of p slot seen rest in
    let later = duplicates_of p slot (insert_one seen ref.id) rest in
    if has_expansion (id_text ref.id)
    then skipped
    else append_if (has seen ref.id) (duplicate_finding p slot ref) ++ later

-- `Check` of duplicate-reference
unfoldable pub duplicate_reference : Context → List Finding
unfolding duplicates_of refs_of
duplicate_reference ctx =
    for_each ctx.file.service.pipelines
      (λ (p : Pipeline). for_each slots (λ (slot : Kind). duplicates_of p slot [] (refs_of p slot)))
