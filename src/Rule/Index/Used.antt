-- ===== src/Rule/Index/Used.antt =====
-- `Used` answers whether the config references a declaration.
use otelcol_config_lint.Base.{
  Bool, List, Option, [], arith, contains_func, false, nat_eq, none, not, some, string_eq, ◌&&◌,
  ◌==◌, ◌||◌, ◌∷◌, ◌≡◌,
}
use otelcol_config_lint.Config.File.{Component, File, Pipeline, Ref, each, refs_of}
use otelcol_config_lint.Config.Id.{ComponentId, Kind, id_eq, id_text, kind_beq_iff, kind_eq}
use otelcol_config_lint.Rule.ExtensionRefs.{ExtensionRef, extension_refs}
use otelcol_config_lint.Rule.Node.{has_expansion}
use otelcol_config_lint.Rule.Index.{
  no_wiring, wiring, new_index, ext_ref_step, wire_slot, wire_pipeline, is_used, extension_step,
  Wiring, declarations, mark_used, resolve_in, slots, wire_connector, wire_found, wire_ref,
}
use otelcol_config_lint.Schema.{Schema}
use otelcol_config_lint.Sets.Laws.{has-insert_one}
use otelcol_config_lint.Sets.{has}

-- The declaration that a reference from a slot stands for is `id`, of kind `k`.
abbrev pub names_declared : Kind → ComponentId → Option Component → ComponentId → Bool
names_declared k id none ref = false
names_declared k id (some c) ref = c.kind == k && ref == id

-- An entry of service.extensions that is no expansion.
abbrev pub lists : ComponentId → Ref → Bool
lists id ref = not (has_expansion (id_text ref.id)) && ref.id == id

abbrev pub refers : ComponentId → ExtensionRef → Bool
refers id ref = ref.id == id

module _ (declared : Kind → ComponentId → Option Component) (k : Kind) (id : ComponentId) where
  abbrev pub ref_names : Kind → Ref → Bool
  ref_names slot ref = names_declared k id (resolve_in declared slot ref.id) ref.id

  abbrev pub slot_names : Pipeline → Kind → Bool
  slot_names p slot = contains_func (refs_of p slot) (ref_names slot)

  abbrev pub pipeline_names : Pipeline → Bool
  pipeline_names p = contains_func slots (slot_names p)

-- The config references the declaration: an extension in service.extensions or in the settings of a
-- component, any declaration in a slot of a pipeline.
abbrev pub is_referenced : File → Option Schema → Kind → ComponentId → Bool
is_referenced f sch k id =
    (k == Kind.extension && contains_func f.service.extensions (lists id))
    || (k == Kind.extension && contains_func (extension_refs f sch) (refers id))
    || contains_func f.service.pipelines (pipeline_names (declarations f) k id)

has-mark_used :
    (w : Wiring) (j k : Kind) (i id : ComponentId)
    → has ((mark_used w j i).used k) id ≡ (has (w.used k) id || j == k && i == id)
has-mark_used w j k i id =
    ground (arith, has-insert_one (w.used k) i id, kind_beq_iff j k, kind_beq_iff k j)

module _ (declared : Kind → ComponentId → Option Component) (k : Kind) (id : ComponentId) where
  has-wire_found :
      (slot : Kind) (p : Pipeline) (i : ComponentId) (w : Wiring) (o : Option Component)
      → has ((wire_found slot p i w o).used k) id ≡ (has (w.used k) id || names_declared k id o i)
  unfolding wire_found wire_connector
  has-wire_found slot p i w none = ground arith
  has-wire_found slot p i w (some c) = elim slot [
    | Kind.receiver ↦ ground (arith, has-mark_used w c.kind k i id)
    | Kind.processor ↦ ground (arith, has-mark_used w c.kind k i id)
    | Kind.exporter ↦ ground (arith, has-mark_used w c.kind k i id)
    | Kind.connector ↦ ground (arith, has-mark_used w c.kind k i id)
    | Kind.extension ↦ ground (arith, has-mark_used w c.kind k i id)
  ]

  has-wire_refs :
      (slot : Kind) (p : Pipeline) (w : Wiring) (refs : List Ref)
      → has ((each (wire_ref declared slot p) w refs).used k) id
        ≡ (has (w.used k) id || contains_func refs (ref_names declared k id slot))
  unfolding wire_ref
  has-wire_refs slot p w [] = ground arith
  has-wire_refs slot p w (r ∷ rs) = ground (
    arith,
    has-wire_refs slot p (wire_ref declared slot p w r) rs,
    has-wire_found slot p r.id w (resolve_in declared slot r.id),
  )

  has-wire_slots :
      (p : Pipeline) (w : Wiring) (slots : List Kind)
      → has ((each (wire_slot declared p) w slots).used k) id
        ≡ (has (w.used k) id || contains_func slots (slot_names declared k id p))
  unfolding wire_slot
  has-wire_slots p w [] = ground arith
  has-wire_slots p w (slot ∷ rest) = ground (
    arith,
    has-wire_slots p (wire_slot declared p w slot) rest,
    has-wire_refs slot p w (refs_of p slot),
  )

  has-wire_pipelines :
      (w : Wiring) (ps : List Pipeline)
      → has ((each (wire_pipeline declared) w ps).used k) id
        ≡ (has (w.used k) id || contains_func ps (pipeline_names declared k id))
  unfolding wire_pipeline
  has-wire_pipelines w [] = ground arith
  has-wire_pipelines w (p ∷ ps) =
      ground (arith, has-wire_pipelines (wire_pipeline declared w p) ps, has-wire_slots p w slots)

module _ (k : Kind) (id : ComponentId) where
  has-extension_steps :
      (w : Wiring) (refs : List Ref)
      → has ((each extension_step w refs).used k) id
        ≡ (has (w.used k) id || k == Kind.extension && contains_func refs (lists id))
  unfolding extension_step
  has-extension_steps w [] = ground arith
  has-extension_steps w (r ∷ rs) = ground (
    arith,
    has-extension_steps (extension_step w r) rs,
    has-mark_used w Kind.extension k r.id id,
    kind_beq_iff k Kind.extension,
    kind_beq_iff Kind.extension k,
  )

  has-ext_ref_steps :
      (w : Wiring) (refs : List ExtensionRef)
      → has ((each ext_ref_step w refs).used k) id
        ≡ (has (w.used k) id || k == Kind.extension && contains_func refs (refers id))
  unfolding ext_ref_step
  has-ext_ref_steps w [] = ground arith
  has-ext_ref_steps w (r ∷ rs) = ground (
    arith,
    has-ext_ref_steps (ext_ref_step w r) rs,
    has-mark_used w Kind.extension k r.id id,
    kind_beq_iff k Kind.extension,
    kind_beq_iff Kind.extension k,
  )

-- `Used` answers true exactly for the declarations the config references: an extension that
-- service.extensions lists or that a component's settings name, or a declaration that a reference
-- in a slot of some pipeline resolves to.
pub is_used-new_index :
    (f : File) (sch : Option Schema) (k : Kind) (id : ComponentId)
    → is_used (new_index f sch) k id ≡ is_referenced f sch k id
unfolding is_used new_index wiring
is_used-new_index f sch k id =
    let declared = declarations f in
    let refs = extension_refs f sch in
    let listed = each extension_step no_wiring f.service.extensions in
    ground (
      arith,
      has-wire_pipelines declared k id (each ext_ref_step listed refs) f.service.pipelines,
      has-ext_ref_steps k id listed refs,
      has-extension_steps k id no_wiring f.service.extensions,
    )
