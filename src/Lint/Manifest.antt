-- ===== src/Lint/Manifest.antt =====
-- pkg/lint/manifest.go and linter.go: which sources are Kubernetes manifests, and which texts inside
-- them are collector configs.
use otelcol_config_lint.Base.{
  Bool, List, Option, String, [], contains_func, false, if◌then◌else◌, is_empty, is_nil, nat_eq,
  none, not, some, string_eq, true, ◌&&◌, ◌==◌, ◌||◌, ◌∷◌,
}
use otelcol_config_lint.Base.Text.{concat}
use otelcol_config_lint.Lint.Check.{Decoded, Host, document, no_content, undecodable}
use otelcol_config_lint.Lint.Findings.{has_prefix}
use otelcol_config_lint.Lint.Model.{ParseOutcome, parsed}
use otelcol_config_lint.Schema.Version.{split}
use otelcol_config_lint.Yaml.{Node, is_mapping, is_scalar, mapping, tag_of, to_list, value_of}

pub value_in : List Node → String → Option Node
value_in (k ∷ v ∷ rest) key =
    let later = value_in rest key in if value_of k == key then some v else later
value_in _ key = none

abbrev pub pairs_of : Option Node → List Node
pairs_of (some (mapping _ ns)) = to_list ns
pairs_of _ = []

-- `mappingValue`
unfoldable pub mapping_value : Option Node → String → Option Node
unfolding value_in
mapping_value n key = value_in (pairs_of n) key

abbrev is_named_text : Option Node → Bool
is_named_text none = false
is_named_text (some n) = is_scalar n && tag_of n == "!!str" && not (value_of n == "")

-- `manifestRoot`
unfoldable pub manifest_root : Option Node → Bool
unfolding mapping_value
manifest_root root =
    is_named_text (mapping_value root "apiVersion") && is_named_text (mapping_value root "kind")

abbrev reparsed : ParseOutcome → Bool
reparsed (parsed p) = is_empty p.file.duplicate_keys && manifest_root p.file.root
reparsed _ = false

module _ (h : Host) where
  is_manifest : String → Node → Bool
  unfolding manifest_root
  is_manifest path root =
      is_mapping root
      && manifest_root (some root)
      && elim (h.marshal root) [ none ↦ false | some text ↦ reparsed (h.parse path text) ]

  -- the loop of `kubernetesDocuments`
  all_manifests : String → List Decoded → Bool → Bool
  unfolding is_manifest
  all_manifests path [] found = found
  all_manifests path (undecodable _ ∷ ds) found = false
  all_manifests path (no_content ∷ ds) found = all_manifests path ds found
  all_manifests path (document root ∷ ds) found =
      let skipping = all_manifests path ds found in
      let further = all_manifests path ds true in
      if tag_of root == "!!null" then skipping else if is_manifest path root then further else false

  -- `kubernetesDocuments`
  unfoldable pub kubernetes_documents : String → String → Bool
  unfolding all_manifests
  kubernetes_documents path src = all_manifests path (h.decode src) false

  abbrev sections : List String
  sections = "receivers" ∷ "exporters" ∷ "processors" ∷ "connectors" ∷ "extensions" ∷ []

  block_of : Node → Bool
  unfolding mapping_value
  block_of root =
      is_mapping root
      && (contains_func sections (λ key. not (is_nil (mapping_value (some root) key)))
          || not (is_nil (mapping_value (mapping_value (some root) "service") "pipelines")))

  line_names_section : String → Bool
  line_names_section line =
      contains_func sections (λ key. has_prefix line (concat (key ∷ ":" ∷ [])))

  -- `collectorBlock`
  unfoldable pub collector_block : String → Bool
  unfolding block_of line_names_section split
  collector_block src = elim (h.unmarshal src) [
    | document root ↦ block_of root
    | _ ↦ contains_func (split 10 src) line_names_section
  ]
