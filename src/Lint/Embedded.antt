-- ===== src/Lint/Embedded.antt =====
-- pkg/lint/linter.go: the configs inside ConfigMaps, and `Lint`.
use Prim.Native.Char.{code}
use otelcol_config_lint.Base.{
  Bool, List, Option, String, [], false, get_elem?, if◌then◌else◌, ltb, map, nat_eq, none, not,
  some, string_eq, ℕ, ◌&&◌, ◌++◌, ◌+◌, ◌==◌, ◌||◌, ◌∷◌,
}
use otelcol_config_lint.Base.Text.{concat, trim_space}
use otelcol_config_lint.Diag.{Diagnostic, sort}
use otelcol_config_lint.Lint.Check.{Decoded, Host, document, lint_config, no_content, undecodable}
use otelcol_config_lint.Lint.Coverage.{add_coverage}
use otelcol_config_lint.Lint.Findings.{has_prefix}
use otelcol_config_lint.Lint.Model.{status_eq, Linter, Result, Status, bare, failed_with}
use otelcol_config_lint.Lint.Manifest.{
  collector_block, kubernetes_documents, mapping_value, pairs_of,
}
use otelcol_config_lint.Schema.Version.{split}
use otelcol_config_lint.Yaml.{Node, attrs, is_mapping, is_scalar, value_of}

-- the bytes of a code point, and `strings.Index`, counted in bytes
abbrev width : ℕ → ℕ
width c = if ltb c 0x80 then 1 else if ltb c 0x800 then 2 else if ltb c 0x10000 then 3 else 4

abbrev further : ℕ → Option ℕ → Option ℕ
further n none = none
further n (some i) = some (n + i)

abbrev index_in : String → String → Option ℕ
index_in sub String.[] = if sub == "" then some 0 else none
index_in sub (String.◌∷◌ c s) =
    let later = index_in sub s in
    if has_prefix (String.◌∷◌ c s) sub then some 0 else further (width (code c)) later

pub indent_in : List String → ℕ → List String → ℕ
unfolding trim_space
indent_in lines at [] = 0
indent_in lines at (line ∷ rest) =
    let later = indent_in lines (at + 1) rest in
    if trim_space line == "" then later else elim (get_elem? lines at) [
      | none ↦ later
      | some whole ↦ elim (index_in line whole) [ none ↦ later | some offset ↦ offset ]
    ]

-- `blockIndent`
unfoldable pub block_indent : List String → Node → ℕ
unfolding indent_in split
block_indent lines block = indent_in lines (attrs block).line (split 10 (value_of block))

-- a finding of a block, at its place in the manifest
unfoldable pub shifted : String → ℕ → ℕ → Diagnostic → Diagnostic
shifted name line baseline d = record d {
  message = concat ("(" ∷ name ∷ ") " ∷ d.message ∷ []);
  position = record d.position {
    line = if ltb 0 d.position.line then d.position.line + line else d.position.line;
    column =
        if ltb 0 d.position.line && ltb 0 d.position.column
        then d.position.column + baseline
        else d.position.column;
  };
}

abbrev status_after : Status → Status → Status
status_after old new = if old == Status.skipped || new == Status.invalid then new else old

abbrev literal_scalar : Node → Bool
literal_scalar n = is_scalar n && (attrs n).literal

abbrev or_unnamed : Option Node → String
or_unnamed none = "<unnamed>"
or_unnamed (some n) = if value_of n == "" then "<unnamed>" else value_of n

module _ (h : Host) (cancelled : ℕ → Bool) (l : Linter) (path : String) (lines : List String) where
  -- one block of a ConfigMap, behind its checks
  unfoldable pub add_block : ℕ → String → Node → Node → Result → Result × ℕ
  unfolding lint_config block_indent shifted add_coverage
  add_block n name key block res =
      let checked = lint_config h cancelled l n path (value_of block) in
      let label = concat (name ∷ "/" ∷ value_of key ∷ []) in
      let covered =
        add_coverage (record res { status = status_after res.status checked.0.status })
          checked.0.coverage label in
      (
        record covered {
          diagnostics =
              covered.diagnostics
              ++ map (shifted label (attrs block).line (block_indent lines block))
                  checked.0.diagnostics;
        },
        checked.1,
      )

  -- the loop of `lintConfigMap`
  pub blocks_loop : ℕ → String → List Node → Result → Result × ℕ
  unfolding add_block collector_block
  blocks_loop n name (key ∷ block ∷ rest) res =
      if cancelled n
      then (res, n + 1)
      else let next =
          if not (literal_scalar block) || not (collector_block h (value_of block))
          then (res, n + 1)
          else add_block (n + 1) name key block res in
        blocks_loop next.1 name rest next.0
  blocks_loop n name _ res = (res, n)

  -- `lintConfigMap`
  unfoldable pub lint_config_map : ℕ → Node → Node → Result → Result × ℕ
  unfolding blocks_loop mapping_value
  lint_config_map n root entries res =
      blocks_loop n (or_unnamed (mapping_value (mapping_value (some root) "metadata") "name"))
        (pairs_of (some entries)) res

  is_config_map : Option Node → Bool
  is_config_map none = false
  is_config_map (some kind) = value_of kind == "ConfigMap"

  one_document : ℕ → Node → Result → Result × ℕ
  unfolding lint_config_map mapping_value is_config_map
  one_document n root res =
      if not (is_mapping root) || not (is_config_map (mapping_value (some root) "kind"))
      then (res, n)
      else elim (mapping_value (some root) "data") [
        | none ↦ (res, n)
        | some entries ↦ if is_mapping entries then lint_config_map n root entries res else (res, n)
      ]

  -- the loop of `lintEmbedded`, which polls before and behind the decoder
  pub documents_loop : ℕ → List Decoded → Result → Result × ℕ
  unfolding one_document
  documents_loop n [] res =
      if cancelled n || cancelled (n + 1)
      then (failed_with path h.ctx_error, n + 2)
      else (record res { diagnostics = sort res.diagnostics }, n + 2)
  documents_loop n (undecodable text ∷ ds) res =
      if cancelled n || cancelled (n + 1)
      then (failed_with path h.ctx_error, n + 2)
      else (failed_with path text, n + 2)
  documents_loop n (no_content ∷ ds) res =
      if cancelled n || cancelled (n + 1)
      then (failed_with path h.ctx_error, n + 2)
      else documents_loop (n + 2) ds res
  documents_loop n (document root ∷ ds) res =
      if cancelled n || cancelled (n + 1)
      then (failed_with path h.ctx_error, n + 2)
      else let next = one_document (n + 2) root res in documents_loop next.1 ds next.0

module _ (h : Host) (cancelled : ℕ → Bool) (l : Linter) where
  -- `lintEmbedded`
  unfoldable pub lint_embedded : ℕ → String → String → Result × ℕ
  unfolding documents_loop split
  lint_embedded n path src =
      documents_loop h cancelled l path (split 10 src) n (h.decode src) (bare path Status.skipped)

  abbrev manifest_hint : String
  manifest_hint = "Kubernetes manifest; use --embedded to lint ConfigMap contents"

  -- `Lint`
  unfoldable pub lint : ℕ → String → String → Result × ℕ
  unfolding lint_embedded kubernetes_documents lint_config
  lint n path src =
      if cancelled n
      then (failed_with path h.ctx_error, n + 1)
      else if l.opts.embedded
      then lint_embedded (n + 1) path src
      else if kubernetes_documents h path src
      then (record (bare path Status.skipped) { skip_reason = manifest_hint }, n + 1)
      else lint_config h cancelled l (n + 1) path src
