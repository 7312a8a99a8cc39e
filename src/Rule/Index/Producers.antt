-- ===== src/Rule/Index/Producers.antt =====
-- The pipelines that the index keeps for each connector are pipelines of the config.
use otelcol_config_lint.Base.{
  All, All-In, All-append, Bool-cases, In, List, Option, [], inl, inr, nat_eq, none, some,
  string_eq, ◌==◌, ◌∷◌,
}
use otelcol_config_lint.Config.Id.{ComponentId, Kind, id_eq, id_text, kind_eq}
use otelcol_config_lint.Config.File.{Component, File, Pipeline, Ref, each, refs_of}
use otelcol_config_lint.Rule.ExtensionRefs.{ExtensionRef, extension_refs}
use otelcol_config_lint.Rule.Index.{
  mark_used, Wiring, append_at, declarations, ext_ref_step, extension_step, new_index, no_wiring,
  resolve_in, slots, wire_connector, wire_found, wire_pipeline, wire_ref, wire_slot, wiring,
}
use otelcol_config_lint.Rule.Node.{has_expansion}
use otelcol_config_lint.Schema.{Schema}

-- The producers of every connector are pipelines of the list.
module _ (ps : List Pipeline) where
  abbrev pub Closed : (ComponentId → List Pipeline) → Type 0
  Closed producers = (id : ComponentId) → All (λ (q : Pipeline). In q ps) (producers id)

  Closed-append_at :
      (producers : ComponentId → List Pipeline) (id : ComponentId) (p : Pipeline)
      → In p ps
      → Closed producers
      → Closed (append_at producers id p)
  Closed-append_at producers id p i c j = elim (Bool-cases (j == id)) [
    | inl e ↦ rw e (All-append (λ (q : Pipeline). In q ps) (producers j) (p ∷ []) (c j) (i, tt))
    | inr e ↦ rw e (c j)
  ]

  Closed-wire_connector :
      (slot : Kind) (p : Pipeline) (id : ComponentId) (w : Wiring)
      → In p ps
      → Closed w.as_exporter
      → Closed (wire_connector slot p id w).as_exporter
  unfolding wire_connector
  Closed-wire_connector Kind.receiver p id w i c = c
  Closed-wire_connector Kind.processor p id w i c = c
  Closed-wire_connector Kind.exporter p id w i c = Closed-append_at w.as_exporter id p i c
  Closed-wire_connector Kind.extension p id w i c = c
  Closed-wire_connector Kind.connector p id w i c = c

  Closed-wire_found :
      (slot : Kind) (p : Pipeline) (id : ComponentId) (w : Wiring) (o : Option Component)
      → In p ps
      → Closed w.as_exporter
      → Closed (wire_found slot p id w o).as_exporter
  unfolding wire_found
  Closed-wire_found slot p id w none i c = c
  Closed-wire_found slot p id w (some d) i c = elim (Bool-cases (d.kind == Kind.connector)) [
    | inr e ↦ rw e c
    | inl e ↦ rw e (Closed-wire_connector slot p id (mark_used w d.kind id) i c)
  ]

  module _ (declared : Kind → ComponentId → Option Component) where
    Closed-wire_refs :
        (slot : Kind) (p : Pipeline) (w : Wiring) (refs : List Ref)
        → In p ps
        → Closed w.as_exporter
        → Closed (each (wire_ref declared slot p) w refs).as_exporter
    unfolding wire_ref
    Closed-wire_refs slot p w [] i c = c
    Closed-wire_refs slot p w (r ∷ rs) i c =
        Closed-wire_refs slot p (wire_ref declared slot p w r) rs i
          (Closed-wire_found slot p r.id w (resolve_in declared slot r.id) i c)

    Closed-wire_slots :
        (p : Pipeline) (w : Wiring) (ss : List Kind)
        → In p ps
        → Closed w.as_exporter
        → Closed (each (wire_slot declared p) w ss).as_exporter
    unfolding wire_slot
    Closed-wire_slots p w [] i c = c
    Closed-wire_slots p w (s ∷ ss) i c =
        Closed-wire_slots p (wire_slot declared p w s) ss i
          (Closed-wire_refs s p w (refs_of p s) i c)

    Closed-wire_pipelines :
        (w : Wiring) (qs : List Pipeline)
        → All (λ (q : Pipeline). In q ps) qs
        → Closed w.as_exporter
        → Closed (each (wire_pipeline declared) w qs).as_exporter
    unfolding wire_pipeline
    Closed-wire_pipelines w [] i c = c
    Closed-wire_pipelines w (q ∷ qs) i c =
        Closed-wire_pipelines (wire_pipeline declared w q) qs i.1
          (Closed-wire_slots q w slots i.0 c)

  Closed-extension_steps :
      (w : Wiring) (refs : List Ref)
      → Closed w.as_exporter
      → Closed (each extension_step w refs).as_exporter
  unfolding extension_step
  Closed-extension_steps w [] c = c
  Closed-extension_steps w (r ∷ rs) c =
      Closed-extension_steps (extension_step w r) rs
        (elim (Bool-cases (has_expansion (id_text r.id))) [ inl e ↦ rw e c | inr e ↦ rw e c ])

  Closed-ext_ref_steps :
      (w : Wiring) (refs : List ExtensionRef)
      → Closed w.as_exporter
      → Closed (each ext_ref_step w refs).as_exporter
  unfolding ext_ref_step
  Closed-ext_ref_steps w [] c = c
  Closed-ext_ref_steps w (r ∷ rs) c = Closed-ext_ref_steps (ext_ref_step w r) rs c

pub new_index-Closed :
    (f : File) (sch : Option Schema) → Closed f.service.pipelines (new_index f sch).as_exporter
unfolding new_index wiring
new_index-Closed f sch =
    let ps = f.service.pipelines in
    let refs = extension_refs f sch in
    let listed = each extension_step no_wiring f.service.extensions in
    Closed-wire_pipelines ps (declarations f) (each ext_ref_step listed refs) ps
      (All-In (λ (q : Pipeline). In q ps) ps (λ q i. i))
      (Closed-ext_ref_steps ps listed refs
        (Closed-extension_steps ps no_wiring f.service.extensions (λ _. tt)))
