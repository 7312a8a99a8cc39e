-- ===== src/Rule/ExtensionRefs.antt =====
-- pkg/rule/index.go: the extension references written inside component settings.
use Prim.Native.String.{◌++◌ as str_append}
use otelcol_config_lint.Base.{
  zero, suc, ◌+◌, suc, ℕ, Bool, List, Option, String, [], false, if◌then◌else◌, nat_eq, none, not,
  some, string_eq, ◌++◌, ◌==◌, ◌∷◌,
}
use otelcol_config_lint.Config.Entries.{index_path, Entry, join}
use otelcol_config_lint.Config.File.{File, Component}
use otelcol_config_lint.Config.Id.{
  id_text, section_key, kinds, Kind, ComponentId, id_eq, kind_eq, parse_id,
}
use otelcol_config_lint.Rule.Docs.{auth_docs, exporter_queue_docs, sending_queue_key, storage_key}
use otelcol_config_lint.Rule.Node.{
  map_entries, resolve_alias, max_settings_depth, scalar_child, scalar_name,
}
use otelcol_config_lint.Schema.{lookup, Schema, Field, child_at, children, info}
use otelcol_config_lint.Yaml.{to_list, sequence, mapping, Node, value_of}

abbrev pub role_storage : String
role_storage = "storage"

abbrev pub role_auth : String
role_auth = "auth"

-- `ExtensionRef`
pub record ExtensionRef : Type 0 where
  pub id : ComponentId
  pub node : Node
  pub path : String
  pub component : Component
  pub role : String
  pub docs : String

unfoldable pub extension_ref_docs : String → String
extension_ref_docs role =
    if role == role_storage
    then exporter_queue_docs
    else if role == role_auth
    then auth_docs
    else ""

-- `extensionField`
pub record ExtensionField : Type 0 where
  pub parent : String
  pub key : String
  pub role : String

abbrev pub extension_fields : List ExtensionField
extension_fields =
    record { parent = sending_queue_key; key = storage_key; role = role_storage }
    ∷ record { parent = "auth"; key = "authenticator"; role = role_auth }
    ∷ []

-- `childSchema`
unfoldable pub child_schema : Option Field → String → Option Field
child_schema none key = none
child_schema (some f) key = child_at (children f) key

is_marked : Option Field → Bool
is_marked none = false
is_marked (some f) = not ((info f).extension_ref == "")

-- `marked`
unfoldable pub marked : Option Field → String → Bool
unfolding child_schema is_marked
marked f key = is_marked (child_schema f key)

-- `record`, given the scalar if there is one
found : Component → Option Node → String → String → List ExtensionRef
unfolding extension_ref_docs
found comp none path role = []
found comp (some name) path role =
    record {
      id = parse_id (value_of name);
      node = name;
      path = path;
      component = comp;
      role = role;
      docs = extension_ref_docs role;
    }
    ∷ []

-- the loop over the built-in pairs, which stops at the first that has the key as its parent
builtin_refs : Component → Option Field → Entry → List ExtensionField → List ExtensionRef
unfolding found
builtin_refs comp sub e [] = []
builtin_refs comp sub e (b ∷ bs) =
    if b.parent == e.key
    then if not (marked sub b.key)
      then found comp (scalar_child e.node b.key) (join e.path b.key) b.role
      else []
    else builtin_refs comp sub e bs

role_in : Option Field → String
role_in none = ""
role_in (some f) = (info f).extension_ref

-- the part of `walkMap` for one entry, with the walk that goes on below it
entry_refs :
    (Option Field → Node → String → List ExtensionRef)
    → Component
    → Option Field
    → Entry
    → List ExtensionRef
unfolding builtin_refs is_marked role_in
entry_refs walk comp sub e =
    if is_marked sub
    then found comp (scalar_name e.node) e.path (role_in sub)
    else builtin_refs comp sub e extension_fields ++ walk sub e.node e.path

each_entry : (Entry → List ExtensionRef) → List Entry → List ExtensionRef
each_entry f [] = []
each_entry f (e ∷ es) = f e ++ each_entry f es

each_item : (Node → String → List ExtensionRef) → String → ℕ → List Node → List ExtensionRef
each_item f path i [] = []
each_item f path i (n ∷ ns) = f n (index_path path i) ++ each_item f path (i + 1) ns

-- one node of `walk`, its aliases followed, given the walk of the level below
walk_node :
    (Option Field → Node → String → List ExtensionRef)
    → Component
    → Option Field
    → Node
    → String
    → List ExtensionRef
unfolding each_entry each_item entry_refs
walk_node below comp f (mapping a ns) path =
    each_entry (λ e. entry_refs below comp (child_schema f e.key) e)
      (map_entries (mapping a ns) path)
walk_node below comp f (sequence a ns) path =
    each_item (below (child_schema f "item")) path 0 (to_list ns)
walk_node below comp f _ path = []

-- `walk`, with the levels that are left: 17 less the depth
unfoldable pub walk : ℕ → Component → Option Field → Node → String → List ExtensionRef
unfolding walk_node
walk zero comp f n path = []
walk (suc left) comp f n path = walk_node (walk left comp) comp f (resolve_alias n) path

-- `componentExtensionRefs`
unfoldable pub component_extension_refs : Component → Option Field → List ExtensionRef
unfolding walk
component_extension_refs c fields =
    walk (suc max_settings_depth) c fields c.value_node
      (str_append (section_key c.kind) (str_append "." (id_text c.id)))

-- `settingsSchema`
unfoldable pub settings_schema : Option Schema → Kind → Component → Option Field
settings_schema none kind c = none
settings_schema (some sch) kind c = elim (lookup sch kind c.id.type) [
  | none ↦ none
  | some comp ↦ comp.fields
]

refs_of_components : Option Schema → Kind → List Component → List ExtensionRef
unfolding component_extension_refs settings_schema
refs_of_components sch kind [] = []
refs_of_components sch kind (c ∷ cs) =
    component_extension_refs c (settings_schema sch kind c) ++ refs_of_components sch kind cs

refs_of_kinds : File → Option Schema → List Kind → List ExtensionRef
unfolding refs_of_components
refs_of_kinds f sch [] = []
refs_of_kinds f sch (kind ∷ rest) =
    let more = refs_of_kinds f sch rest in
    elim (f.sections kind) [
      | none ↦ more
      | some sec ↦ refs_of_components sch kind sec.components ++ more
    ]

-- `extensionRefs`
unfoldable pub extension_refs : File → Option Schema → List ExtensionRef
unfolding refs_of_kinds
extension_refs f sch = refs_of_kinds f sch kinds
