-- ===== src/Rule/References/Undefined.antt =====
-- Which references undefined-reference reports.
use otelcol_config_lint.Base.{
  In-append_right, In-append_left, inr, inl, In-for_each_if, In-append_cases, append_if,
  In-for_each, List, for_each, In, Option, true, ◌↔◌, ◌≡◌, ◌⊎◌,
}
use otelcol_config_lint.Config.Id.{Kind, id_eq, kind_eq}
use otelcol_config_lint.Config.File.{File, Pipeline, Ref, refs_of}
use otelcol_config_lint.Rule.Context.{Context, Finding, context_of}
use otelcol_config_lint.Rule.Index.{slots}
use otelcol_config_lint.Rule.References.{
  extension_is_undefined, slot_is_undefined, undefined_extension_finding, undefined_reference,
  undefined_slot_finding,
}
use otelcol_config_lint.Schema.{Schema}
use otelcol_config_lint.Rule.References.Meant.{
  IsUndefinedExtension, IsUndefinedSlot, extension_is_undefined_iff, slot_is_undefined_iff,
}

-- What the loops report, over what the two guards say.
In-extensions_iff :
    (ctx : Context) (φ : Finding)
    → In φ (
        for_each ctx.file.service.extensions (λ (ref : Ref).
          append_if (extension_is_undefined ctx.index ref) (undefined_extension_finding ctx ref)))
      ↔ ((r : Ref) × In r ctx.file.service.extensions
          × (extension_is_undefined ctx.index r ≡ true)
          × (φ ≡ undefined_extension_finding ctx r))
In-extensions_iff ctx φ =
    In-for_each_if φ ctx.file.service.extensions (extension_is_undefined ctx.index)
      (undefined_extension_finding ctx)

slot_findings : Context → Pipeline → Kind → List Finding
slot_findings ctx p slot = for_each (refs_of p slot) (λ (ref : Ref).
    append_if (slot_is_undefined ctx.index slot ref) (undefined_slot_finding ctx p slot ref))

In-slots_iff :
    (ctx : Context) (φ : Finding)
    → In φ (
        for_each ctx.file.service.pipelines
          (λ (p : Pipeline). for_each slots (slot_findings ctx p)))
      ↔ ((p : Pipeline) × In p ctx.file.service.pipelines
          × (slot : Kind) × In slot slots
          × (r : Ref) × In r (refs_of p slot)
          × (slot_is_undefined ctx.index slot r ≡ true)
          × (φ ≡ undefined_slot_finding ctx p slot r))
unfolding slot_findings
In-slots_iff ctx φ =
    let pipelines =
      In-for_each φ ctx.file.service.pipelines
        (λ (p : Pipeline). for_each slots (slot_findings ctx p)) in
    let loop = λ (p : Pipeline). In-for_each φ slots (slot_findings ctx p) in
    let innermost = λ (p : Pipeline) (slot : Kind).
      In-for_each_if φ (refs_of p slot) (slot_is_undefined ctx.index slot)
        (undefined_slot_finding ctx p slot) in
    (
      (λ m.
          let (p, i, j) = pipelines.0 m in
          let (slot, k, l) = (loop p).0 j in
          let (r, at, u, e) = (innermost p slot).0 l in (p, i, slot, k, r, at, u, e)),
      (λ m.
          let (p, i, slot, k, r, at, u, e) = m in
          pipelines.1 (p, i, (loop p).1 (slot, k, (innermost p slot).1 (r, at, u, e)))),
    )

-- undefined-reference reports a finding exactly for the entries of service.extensions and the
-- pipelines' references that are no expansions and that nothing can be meant by: no component of the
-- section of their kind, and for receivers and exporters none of the connectors, has the identifier,
-- and none of these sections is an expansion.
pub undefined_reference_iff :
    (f : File) (sch : Option Schema) (φ : Finding)
    → In φ (undefined_reference (context_of f sch)) ↔ (
        ((r : Ref) × IsUndefinedExtension f r
          × (φ ≡ undefined_extension_finding (context_of f sch) r))
        ⊎ ((p : Pipeline) × (slot : Kind) × (r : Ref) × IsUndefinedSlot f p slot r
            × (φ ≡ undefined_slot_finding (context_of f sch) p slot r)))
unfolding undefined_reference slot_findings
undefined_reference_iff f sch φ =
    let ctx = context_of f sch in
    let first = for_each f.service.extensions (λ (ref : Ref).
      append_if (extension_is_undefined ctx.index ref) (undefined_extension_finding ctx ref)) in
    let second =
      for_each f.service.pipelines (λ (p : Pipeline). for_each slots (slot_findings ctx p)) in
    (
      (λ m. elim (In-append_cases φ first second m) [
        | inl l ↦
            let (r, i, u, e) = (In-extensions_iff ctx φ).0 l in
            inl (r, (i, (extension_is_undefined_iff f sch r).0 u), e)
        | inr l ↦
            let (p, i, slot, k, r, at, u, e) = (In-slots_iff ctx φ).0 l in
            inr (p, slot, r, (i, k, at, (slot_is_undefined_iff f sch slot r).0 u), e)
      ]),
      (λ m. elim m [
        | inl l ↦
            let (r, (i, u), e) = l in
            In-append_left φ first second
              ((In-extensions_iff ctx φ).1 (r, i, (extension_is_undefined_iff f sch r).1 u, e))
        | inr l ↦
            let (p, slot, r, (i, k, at, u), e) = l in
            In-append_right φ first second (
              (In-slots_iff ctx φ).1
                (p, i, slot, k, r, at, (slot_is_undefined_iff f sch slot r).1 u, e))
      ]),
    )
