-- ===== src/Config/Examples.antt =====
-- Runs and witnesses for duplicates and merge keys: the mapping
--
--   <<: {a: from the merge, b: from the merge}
--   a: own
--   a: again
use otelcol_config_lint.Base.{String, [], false, refl, some, ◌↔◌, ◌≡◌}
use otelcol_config_lint.Config.Entries.{collect_duplicates}
use otelcol_config_lint.Config.Entries.Duplicates.{HasUniqueKeys, collect_duplicates-nil}
use otelcol_config_lint.Config.Resolve.{merged_entries, resolve}
use otelcol_config_lint.Config.Resolve.Aliases.{has_alias, has_alias-resolve}
use otelcol_config_lint.Config.Resolve.Merge.{
  merged_value, own_value, or_else, value_at, value_at-resolve,
}
use otelcol_config_lint.Sets.{new}
use otelcol_config_lint.Yaml.{Attrs, Node, Nodes, alias, cons, content, mapping, nil, scalar}

abbrev attrs_of : String → String → Attrs
attrs_of tag value = record {
  tag = tag;
  value = value;
  line = 1;
  column = 1;
  tagged = false;
  literal = false;
}

abbrev text : String → Node
text value = scalar (attrs_of "!!str" value)

abbrev base : Node
base = mapping (attrs_of "!!map" "") (
    cons (text "a")
      (cons (text "from the merge") (cons (text "b") (cons (text "from the merge") nil))))

abbrev written : Nodes
written = cons (scalar (attrs_of "!!merge" "<<")) (
    cons (alias (attrs_of "" "base") base)
      (cons (text "a") (cons (text "own") (cons (text "a") (cons (text "again") nil)))))

abbrev document : Node
document = mapping (attrs_of "!!map" "") written

own_value_wins : value_at "a" (content (resolve document)) ≡ some (text "own")
unfolding resolve
own_value_wins = refl

merge_supplies : value_at "b" (content (resolve document)) ≡ some (text "from the merge")
unfolding resolve merged_entries new
merge_supplies = refl

value_at-resolve_example :
    value_at "b" (content (resolve document))
    ≡ or_else (own_value "b" written) (merged_value "b" written)
value_at-resolve_example = value_at-resolve "b" (attrs_of "!!map" "") written

has_alias-resolve_example : has_alias (resolve document) ≡ false
has_alias-resolve_example = has_alias-resolve document

collect_duplicates-nil_example : (collect_duplicates document "" ≡ []) ↔ HasUniqueKeys document
collect_duplicates-nil_example = collect_duplicates-nil document ""
