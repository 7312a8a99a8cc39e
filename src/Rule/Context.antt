-- ===== src/Rule/Context.antt =====
-- pkg/rule/rule.go and schema.go: what a rule is given, what it reports, and how it is run.
use Prim.Native.String.{◌++◌ as str_append}
use otelcol_config_lint.Base.{
  ◌||◌, Bool, List, Option, String, [], false, if◌then◌else◌, ltb, map, nat_eq, none, not, some,
  string_eq, ◌&&◌, ◌==◌, ◌∷◌,
}
use otelcol_config_lint.Base.Int.{ℤ, pos, ltb_ℤ}
use otelcol_config_lint.Config.Id.{
  ComponentId, Kind, id_eq, id_text, kind_eq, kind_text, section_key,
}
use otelcol_config_lint.Config.File.{Component, File, position}
use otelcol_config_lint.Diag.{severity_eq, Diagnostic, Severity}
use otelcol_config_lint.Schema.{Schema, count}
use otelcol_config_lint.Rule.Index.{new_index, Index, kind_of}
use otelcol_config_lint.Rule.Words.{article, list, quote, suggest}
use otelcol_config_lint.Yaml.{Node}

-- `Environment`
pub record Environment : Type 0 where
  pub kubernetes : Bool
  pub host_network : Option Bool
  pub memory_request : ℤ
  pub memory_limit : ℤ

-- Nothing is known: the zero value.
abbrev pub no_environment : Environment
no_environment = record {
  kubernetes = false;
  host_network = none;
  memory_request = pos 0;
  memory_limit = pos 0;
}

-- `Environment.Known`
unfoldable pub environment_known : Environment → Bool
environment_known e =
    e.kubernetes && (ltb_ℤ (pos 0) e.memory_request || ltb_ℤ (pos 0) e.memory_limit)

-- What a rule is given. `avail` and `dists` ask the indexes of releases and distributions.
pub record Context : Type 0 where
  pub file : File
  pub schema : Option Schema
  pub index : Index
  pub avail : Option (Kind → String → List String)
  pub dists : Option (Kind → String → List String)
  pub strict : Bool
  pub env : Environment

pub record Finding : Type 0 where
  pub node : Option Node
  pub path : String
  pub message : String
  pub hint : String
  pub docs : String
  pub severity : Severity

-- The context that the linter builds of a file where it has nothing but a schema.
abbrev pub context_of : File → Option Schema → Context
context_of f sch = record {
  file = f;
  schema = sch;
  index = new_index f sch;
  avail = none;
  dists = none;
  strict = false;
  env = no_environment;
}

-- The zero values of the fields that a report may leave out.
abbrev pub finding : Option Node → String → String → Finding
finding node path message = record {
  node = node;
  path = path;
  message = message;
  hint = "";
  docs = "";
  severity = Severity.unset;
}

-- `Rule`: a check is the list of its calls of `Report`, in order.
pub record Rule : Type 0 where
  pub name : String
  pub description : String
  pub severity : Severity
  pub check : Context → List Finding

-- the level that `Report` records a finding at
unfoldable pub level : Severity → Severity → Severity
level default own =
    if not (own == Severity.unset) && not (default == Severity.off) then own else default

-- `Report`
unfoldable pub report : Rule → File → Severity → Finding → Diagnostic
unfolding level position
report r f severity found = record {
  rule = r.name;
  severity = level severity found.severity;
  message = found.message;
  position = position f found.node;
  path = found.path;
  hint = found.hint;
  docs = found.docs;
}

-- `Run`
unfoldable pub run : Rule → Context → Severity → List Diagnostic
unfolding report
run r ctx severity =
    if severity == Severity.off then [] else map (report r ctx.file severity) (r.check ctx)

-- `SchemaReady`
unfoldable pub schema_ready : Context → Bool
unfolding count
schema_ready ctx = elim ctx.schema [ none ↦ false | some s ↦ ltb 0 (count s) ]

texts_of : List Component → List String
unfolding id_text
texts_of [] = []
texts_of (c ∷ cs) = id_text c.id ∷ texts_of cs

-- `declaredIDs`
unfoldable pub declared_ids : File → Kind → List String
unfolding texts_of
declared_ids f k = elim (f.sections k) [ none ↦ [] | some sec ↦ texts_of sec.components ]

-- the second half of `MisplacedHint`
hint_declared : List String → ComponentId → Kind → String
unfolding id_text list suggest
hint_declared [] id want =
    str_append "no " (str_append (section_key want) " are declared in this config")
hint_declared (t ∷ ts) id want = str_append "declared " (
    str_append (section_key want)
      (str_append ": " (str_append (list (t ∷ ts)) (suggest (id_text id) (t ∷ ts)))))

-- `MisplacedHint`
unfoldable pub misplaced_hint : Context → ComponentId → Kind → String
unfolding hint_declared declared_ids kind_of id_text quote article
misplaced_hint ctx id want =
    let otherwise = hint_declared (declared_ids ctx.file want) id want in
    elim (kind_of ctx.index id) [
      | none ↦ otherwise
      | some k ↦
          if not (k == want)
          then str_append (quote (id_text id)) (
              str_append " is declared under " (
                str_append (section_key k) (
                  str_append "; it cannot be used as "
                    (str_append (article (kind_text want)) (str_append " " (kind_text want))))))
          else otherwise
    ]
