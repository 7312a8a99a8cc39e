-- ===== src/Lib.antt =====
-- A model of otelcol-config-lint, which checks OpenTelemetry Collector configs, and its theorems.
--
-- A run decodes a YAML file, resolves its aliases and merge keys, reads the component sections and
-- the service block, builds an index of what the service block references, and hands the file, the
-- index and a schema of the targeted release to each rule. A rule reports findings, which become
-- diagnostics at the level that the selection of rules gives it.
--
-- - Base: shared helpers. Base/Tests has the Boolean tests and the equality interface, Base/Lists the
--   lists, membership and the loops that append findings, Base/Text Go's functions on texts,
--   Base/Order comparisons, Base/Int the integers and int64 with its wrap-around.
-- - Yaml: the nodes of gopkg.in/yaml.v3 as trees. A node that an anchor shares is a copy below each
--   alias, so that the rewriting of shared nodes once (`resolver.walked`) is the same on each copy.
-- - Config: pkg/config. Config/Id is component.go, Config/Entries and Config/File are parse.go from
--   the resolved root on, with its types in Config/File/Model, Config/Resolve is the resolver of resolve.go.
-- - Diag: pkg/diag. Sets: pkg/sets. Schema: the inventory of pkg/schema/schema.go, with the versions
--   of store.go in Schema/Version, decoder.go in Schema/Decoding, components.go in Schema/Spans and
--   diff.go in Schema/Diff. Quantity: pkg/quantity.
-- - Rule: pkg/rule. Rule/Node is node.go, Rule/Words is text.go, Rule/ExtensionRefs and Rule/Index
--   are index.go, Rule/Upstream is upstream.go, Rule/Context is rule.go and schema.go. Rule/Usage,
--   Rule/References, Rule/ProcessorOrder, Rule/ConnectorWiring and Rule/Pipelines are the rules of
--   the packages unusedcomponent, undefinedreference, duplicatereference, processororder,
--   connectorwiring, servicerequired, emptypipeline and missingmemorylimiter. Rule/Settings is
--   setting.go and legacy.go, Rule/MemoryLimiter is memorylimiter.go with the rules of the packages
--   memorylimiterconfig and memorylimitersizing, Rule/Fields is fieldwalker.go with the rules of
--   unknownfield, requiredfield, invalidvalue and deprecatedfield. Rule/Identifiers is identifier.go
--   with the rules of invalidcomponentid and invalidpipelinekey, Rule/Keys the rules of duplicatekey,
--   unknownpipelinekey, unknownservicekey and unknowntoplevelkey. Rule/Sample holds the configs that
--   the runs read.
-- - Ruleset: pkg/ruleset, which rules exist and at which level each runs.
-- - Scanner: the patterns of pkg/scanner/scanner.go.
-- - Lint: pkg/lint. Lint/Environments is environment.go, Lint/Policy is policy.go with the options of
--   linter.go, Lint/Findings suppression.go, Lint/Coverage coverage.go, Lint/Manifest
--   and Lint/Embedded the Kubernetes documents of manifest.go and linter.go, Lint/Check `lintConfig`
--   and `checkRules`, Lint/Summary the counts, and Lint/Pool the dispatcher and the workers of `LintAll`.
--
-- A map is the function that looks a key up, with the zero value where the key is missing, or the
-- list of its entries where the code walks it. A nil pointer is `none`. A check is the list of its
-- calls of `Report`, in order. Texts are sequences of code points. Lines, columns, list positions and edits
-- are natural numbers; settings and memory sizes are int64 values, integers with their wrap-around.
--
-- The walks over a component's settings take the levels that are left of their depth, as the code
-- bounds it by 16. The walk of UpstreamCovered takes fuel for two visits of each pipeline and one
-- more step, which the list below says is enough.
--
-- What the program takes from other packages is a parameter: `Scalars` of Rule/Settings/Library holds
-- the readers of yaml.v3, strconv and time, `Host` of Lint/Check the parser of a file, the decoder and
-- writer of YAML and the verb %q, `Globs` of Scanner what is used of filepath, and Rule/Identifiers
-- takes the classes of Unicode characters. A context is a function that answers the polls of
-- `ctx.Err()` by their number; in Lint/Pool, its cancellation is a step between those of the workers.
--
-- Not modelled: the decoding of YAML and the texts of its errors, the limit on the size of expanded
-- documents, head comments, the rules on endpoints, secrets, batches, signals, telemetry and the
-- standing of components, the store of schemas, the Markdown of a diff, reading files, output
-- formats, and the commands.
pub mod Base
pub mod Config
pub mod Diag
pub mod Quantity
pub mod Scanner
pub mod Sets
pub mod Schema
pub mod Rule
pub mod Ruleset
pub mod Lint
pub mod Yaml
