-- ===== src/Rule/Index.antt =====
-- pkg/rule/index.go: which declarations the service block references.
pub mod Used
pub mod Producers
use otelcol_config_lint.Base.{
  Bool, List, Option, [], contains_func, false, if◌then◌else◌, nat_eq, none, not, some, string_eq,
  ◌&&◌, ◌++◌, ◌==◌, ◌||◌, ◌∷◌,
}
use otelcol_config_lint.Config.File.{Component, File, Pipeline, Ref, Service, each, refs, refs_of}
use otelcol_config_lint.Config.Id.{
  ComponentId, Kind, connector, exporter, extension, id_eq, id_text, kind_eq, kinds, processor,
  receiver,
}
use otelcol_config_lint.Rule.ExtensionRefs.{ExtensionRef, extension_refs, marked}
use otelcol_config_lint.Rule.Node.{has_expansion, is_expansion}
use otelcol_config_lint.Schema.{Schema}
use otelcol_config_lint.Yaml.{Node}
use otelcol_config_lint.Sets.{has, insert_one}

-- `declared`, `used` and `dynamic` are maps from kinds, `as_receiver` and `as_exporter` from
-- identifiers: each is the function that looks a key up, with the zero value where it is missing.
pub record Index : Type 0 where
  pub file : File
  pub declared : Kind → ComponentId → Option Component
  pub used : Kind → List ComponentId
  pub dynamic : Kind → Bool
  pub enabled : List ComponentId
  pub ext_refs : List ExtensionRef
  pub as_receiver : ComponentId → List Pipeline
  pub as_exporter : ComponentId → List Pipeline

-- the declarations of a section: a duplicate key keeps the last one
unfoldable pub declared_in : List Component → ComponentId → Option Component
declared_in [] id = none
declared_in (c ∷ cs) id = elim (declared_in cs id) [
  | some d ↦ some d
  | none ↦ if c.id == id then some c else none
]

unfoldable pub declarations : File → Kind → ComponentId → Option Component
unfolding declared_in
declarations f k id = elim (f.sections k) [ none ↦ none | some sec ↦ declared_in sec.components id ]

-- `HasDynamicRefs` of a reference list
unfoldable pub has_dynamic_refs : List Ref → Bool
has_dynamic_refs refs = contains_func refs (λ (r : Ref). has_expansion (id_text r.id))

slot_node : Pipeline → Kind → Option Node
slot_node p Kind.receiver = p.receivers_node
slot_node p Kind.processor = p.processors_node
slot_node p Kind.exporter = p.exporters_node
slot_node p _ = none

dynamic_pipeline : Kind → Pipeline → Bool
unfolding slot_node has_dynamic_refs refs_of
dynamic_pipeline slot p =
    is_expansion (some p.node)
    || is_expansion (slot_node p slot)
    || has_dynamic_refs (refs_of p slot)

dynamic_slot : Service → Kind → Bool
unfolding dynamic_pipeline
dynamic_slot svc slot =
    is_expansion svc.node
    || is_expansion svc.pipelines_node
    || contains_func svc.pipelines (dynamic_pipeline slot)

-- `dynamicReferences`: no entry for connectors, which `has_dynamic` reads from the two slots
unfoldable pub dynamic_references : Service → Kind → Bool
unfolding dynamic_slot has_dynamic_refs
dynamic_references svc Kind.extension =
    is_expansion svc.node || is_expansion svc.extensions_node || has_dynamic_refs svc.extensions
dynamic_references svc Kind.connector = false
dynamic_references svc slot = dynamic_slot svc slot

unfoldable pub accepts_connectors : Kind → Bool
accepts_connectors slot = slot == Kind.receiver || slot == Kind.exporter

-- `Resolve`, over the declarations
unfoldable pub resolve_in :
    (Kind → ComponentId → Option Component) → Kind → ComponentId → Option Component
unfolding accepts_connectors
resolve_in declared slot id = if has_expansion (id_text id) then none else elim (declared slot id) [
  | some c ↦ some c
  | none ↦ if accepts_connectors slot then declared Kind.connector id else none
]

-- What the loops of `NewIndex` change.
pub record Wiring : Type 0 where
  pub used : Kind → List ComponentId
  pub as_receiver : ComponentId → List Pipeline
  pub as_exporter : ComponentId → List Pipeline

-- `markUsed`
abbrev pub mark_used : Wiring → Kind → ComponentId → Wiring
mark_used w k id = record w { used = λ j. if j == k then insert_one (w.used j) id else w.used j }

-- `m[id] = append(m[id], p)`
abbrev pub append_at :
    (ComponentId → List Pipeline) → ComponentId → Pipeline → ComponentId → List Pipeline
append_at m id p j = if j == id then m j ++ p ∷ [] else m j

pub wire_connector : Kind → Pipeline → ComponentId → Wiring → Wiring
wire_connector Kind.receiver p id w = record w { as_receiver = append_at w.as_receiver id p }
wire_connector Kind.exporter p id w = record w { as_exporter = append_at w.as_exporter id p }
wire_connector _ p id w = w

pub wire_found : Kind → Pipeline → ComponentId → Wiring → Option Component → Wiring
unfolding wire_connector
wire_found slot p id w none = w
wire_found slot p id w (some c) =
    let marked = mark_used w c.kind id in
    if c.kind == Kind.connector then wire_connector slot p id marked else marked

abbrev pub slots : List Kind
slots = Kind.receiver ∷ Kind.processor ∷ Kind.exporter ∷ []

-- the innermost loop's round, and the three loops
module _ (declared : Kind → ComponentId → Option Component) where
  pub wire_ref : Kind → Pipeline → Wiring → Ref → Wiring
  unfolding wire_found
  wire_ref slot p w ref = wire_found slot p ref.id w (resolve_in declared slot ref.id)

  pub wire_slot : Pipeline → Wiring → Kind → Wiring
  unfolding wire_ref refs_of
  wire_slot p w slot = each (wire_ref slot p) w (refs_of p slot)

  pub wire_pipeline : Wiring → Pipeline → Wiring
  unfolding wire_slot
  wire_pipeline w p = each (wire_slot p) w slots

-- the loop over `service.extensions`
pub enable : List ComponentId → Ref → List ComponentId
enable enabled ref =
    if not (has_expansion (id_text ref.id)) then insert_one enabled ref.id else enabled

pub extension_step : Wiring → Ref → Wiring
extension_step w ref =
    if not (has_expansion (id_text ref.id)) then mark_used w Kind.extension ref.id else w

pub ext_ref_step : Wiring → ExtensionRef → Wiring
ext_ref_step w ref = mark_used w Kind.extension ref.id

abbrev pub no_wiring : Wiring
no_wiring = record { used = λ _. []; as_receiver = λ _. []; as_exporter = λ _. [] }

unfoldable pub wiring : File → List ExtensionRef → Wiring
unfolding wire_pipeline extension_step ext_ref_step insert_one
wiring f refs =
    each (wire_pipeline (declarations f))
      (each ext_ref_step (each extension_step no_wiring f.service.extensions) refs)
      f.service.pipelines

-- `NewIndex`
unfoldable pub new_index : File → Option Schema → Index
unfolding wiring enable dynamic_references
new_index f sch =
    let refs = extension_refs f sch in
    let w = wiring f refs in
    record {
      file = f;
      declared = declarations f;
      used = w.used;
      dynamic = dynamic_references f.service;
      enabled = each enable [] f.service.extensions;
      ext_refs = refs;
      as_receiver = w.as_receiver;
      as_exporter = w.as_exporter;
    }

-- `Declared`
abbrev pub is_declared : Index → Kind → ComponentId → Option Component
is_declared idx k id = idx.declared k id

-- `Resolve`
unfoldable pub resolve_ref : Index → Kind → ComponentId → Option Component
unfolding resolve_in
resolve_ref idx slot id = resolve_in idx.declared slot id

-- `Used`
unfoldable pub is_used : Index → Kind → ComponentId → Bool
is_used idx k id = has (idx.used k) id

-- `Enabled`
unfoldable pub is_enabled : Index → ComponentId → Bool
is_enabled idx id = has idx.enabled id

-- `HasDynamicRefs` of the index
unfoldable pub has_dynamic : Index → Kind → Bool
has_dynamic idx Kind.connector = idx.dynamic Kind.receiver || idx.dynamic Kind.exporter
has_dynamic idx k = idx.dynamic k

unfoldable pub section_is_expansion : Index → Kind → Bool
section_is_expansion idx slot = elim (idx.file.sections slot) [
  | none ↦ false
  | some sec ↦ is_expansion (some sec.node)
]

-- `HasDynamicDeclarations`: its own call is at connectors, which call no further
unfoldable pub has_dynamic_declarations : Index → Kind → Bool
unfolding section_is_expansion accepts_connectors
has_dynamic_declarations idx slot =
    section_is_expansion idx slot
    || accepts_connectors slot && section_is_expansion idx Kind.connector

-- the loop of `KindOf`
kind_among : Index → List Kind → ComponentId → Option Kind
kind_among idx [] id = none
kind_among idx (k ∷ ks) id = elim (idx.declared k id) [
  | some c ↦ some k
  | none ↦ kind_among idx ks id
]

-- `KindOf`
unfoldable pub kind_of : Index → ComponentId → Option Kind
unfolding kind_among
kind_of idx id = kind_among idx kinds id
