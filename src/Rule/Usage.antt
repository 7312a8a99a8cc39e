-- ===== src/Rule/Usage.antt =====
-- pkg/rule/unusedcomponent: a declared component that nothing references.
pub mod Reported
use Prim.Native.String.{◌++◌ as str_append}
use otelcol_config_lint.Base.{
  List, Option, String, [], append_if, for_each, if◌then◌else◌, is_nil, nat_eq, none, not, some,
  string_eq, ◌==◌,
}
use otelcol_config_lint.Config.Id.{
  Kind, extension, id_eq, id_text, kind_eq, kind_text, kinds, section_key,
}
use otelcol_config_lint.Config.File.{Component, Section}
use otelcol_config_lint.Diag.{Severity, warning, unset}
use otelcol_config_lint.Rule.Context.{Context, Finding, Rule}
use otelcol_config_lint.Rule.Index.{Index, has_dynamic, is_used}
use otelcol_config_lint.Rule.Words.{quote}

abbrev missing_from : Kind → String
missing_from k =
    if k == Kind.extension then "not listed in service.extensions" else "referenced by no pipeline"

abbrev pub unused_finding : Kind → Component → Finding
unused_finding k c = record {
  node = some c.key_node;
  path = str_append (section_key k) (str_append "." (id_text c.id));
  message = str_append (kind_text k) (
      str_append " "
        (str_append (quote (id_text c.id)) (str_append " is declared but " (missing_from k))));
  hint = "remove it, or reference it so it actually runs";
  docs = "";
  severity = Severity.unset;
}

-- the loop's round for one kind
pub unused_of : Index → Kind → Option Section → List Finding
unfolding is_used
unused_of idx k none = []
unused_of idx k (some sec) =
    if has_dynamic idx k
    then []
    else for_each sec.components
        (λ (c : Component). append_if (not (is_used idx k c.id)) (unused_finding k c))

-- `Check` of unused-component
unfoldable pub unused_component : Context → List Finding
unfolding unused_of
unused_component ctx =
    if is_nil ctx.file.service.node
    then []
    else for_each kinds (λ (k : Kind). unused_of ctx.index k (ctx.file.sections k))

abbrev pub unused_component_rule : Rule
unused_component_rule = record {
  name = "unused-component";
  description = "a declared component that no pipeline references is never instantiated";
  severity = Severity.warning;
  check = unused_component;
}
