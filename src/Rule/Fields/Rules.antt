-- ===== src/Rule/Fields/Rules.antt =====
-- pkg/rule/unknownfield, requiredfield, invalidvalue and deprecatedfield: the rules that hear one
-- callback each of the walk over settings.
use otelcol_config_lint.Base.{Bool, List, [], for_each, if◌then◌else◌, some, ◌∷◌}
use otelcol_config_lint.Base.Text.{concat}
use otelcol_config_lint.Diag.{Severity}
use otelcol_config_lint.Rule.Context.{Context, Finding, finding}
use otelcol_config_lint.Rule.Fields.{
  Event, on_deprecated, on_invalid, on_required, on_unknown, walk_components,
}
use otelcol_config_lint.Rule.Settings.Library.{Scalars}
use otelcol_config_lint.Rule.Words.{list, quote, suggest, component_of, short_path}

abbrev unknown_severity : Bool → Severity
unknown_severity strict = if strict then Severity.error else Severity.warning

unknown_of : Bool → Event → List Finding
unfolding list suggest quote component_of
unknown_of strict (on_unknown key n path known) =
    record {
      node = some n;
      path = path;
      message = concat ("unknown setting " ∷ quote key ∷ " for " ∷ component_of path ∷ []);
      hint = concat ("accepted settings: " ∷ list known ∷ suggest key known ∷ []);
      docs = "";
      severity = unknown_severity strict;
    }
    ∷ []
unknown_of strict _ = []

-- `Check` of unknown-field
unfoldable pub unknown_field : Scalars → Context → List Finding
unfolding unknown_of walk_components
unknown_field lib ctx = for_each (walk_components lib ctx) (unknown_of ctx.strict)

required_of : Event → List Finding
unfolding quote component_of
required_of (on_required key n path) =
    finding (some n) path
      (concat ("missing required setting " ∷ quote key ∷ " for " ∷ component_of path ∷ []))
    ∷ []
required_of _ = []

-- `Check` of required-field
unfoldable pub required_field : Scalars → Context → List Finding
unfolding required_of walk_components
required_field lib ctx = for_each (walk_components lib ctx) required_of

invalid_of : Event → List Finding
unfolding quote short_path
invalid_of (on_invalid n path want) =
    finding (some n) path (concat (quote (short_path path) ∷ " must be " ∷ want ∷ [])) ∷ []
invalid_of _ = []

-- `Check` of invalid-value
unfoldable pub invalid_value : Scalars → Context → List Finding
unfolding invalid_of walk_components
invalid_value lib ctx = for_each (walk_components lib ctx) invalid_of

deprecated_of : Event → List Finding
unfolding quote
deprecated_of (on_deprecated key n path note) =
    record (finding (some n) path (concat ("setting " ∷ quote key ∷ " is deprecated" ∷ []))) {
      hint = note;
    }
    ∷ []
deprecated_of _ = []

-- `Check` of deprecated-field
unfoldable pub deprecated_field : Scalars → Context → List Finding
unfolding deprecated_of walk_components
deprecated_field lib ctx = for_each (walk_components lib ctx) deprecated_of
