-- ===== src/Rule/Usage/Reported.antt =====
-- Which declarations unused-component reports.
use otelcol_config_lint.Base.{
  is_nil, ◌∙◌, sym, arith, In-append_if, not, append_if, In-for_each, [], Bool-cases, List, In,
  Option, false, inl, inr, none, refl, some, ◌↔◌, ◌≡◌,
}
use otelcol_config_lint.Config.Id.{Kind, kinds}
use otelcol_config_lint.Config.File.{Component, File, Section}
use otelcol_config_lint.Rule.Context.{context_of, Finding}
use otelcol_config_lint.Rule.Index.{Index, has_dynamic, is_used, new_index}
use otelcol_config_lint.Rule.Index.Used.{is_used-new_index, is_referenced}
use otelcol_config_lint.Rule.Usage.{unused_component, unused_finding, unused_of}
use otelcol_config_lint.Schema.{Schema}

-- The declarations under a kind's section.
abbrev pub components_of : Option Section → List Component
components_of none = []
components_of (some sec) = sec.components

-- A declaration of the config that nothing references, where no reference to its kind is an
-- expansion.
abbrev pub IsUnused : File → Option Schema → Kind → Component → Type 0
IsUnused f sch k c =
    In c (components_of (f.sections k))
    × (has_dynamic (new_index f sch) k ≡ false)
    × (is_referenced f sch k c.id ≡ false)

In-kinds : (k : Kind) → In k kinds
In-kinds Kind.receiver = inl refl
In-kinds Kind.processor = inr (inl refl)
In-kinds Kind.exporter = inr (inr (inl refl))
In-kinds Kind.extension = inr (inr (inr (inl refl)))
In-kinds Kind.connector = inr (inr (inr (inr (inl refl))))

-- What a round reports, over the section's declarations.
abbrev UnusedIn : Index → Kind → Option Section → Finding → Component → Type 0
UnusedIn idx k o φ c =
    In c (components_of o)
    × (has_dynamic idx k ≡ false)
    × (is_used idx k c.id ≡ false)
    × (φ ≡ unused_finding k c)

unused_of_iff :
    (idx : Index) (k : Kind) (o : Option Section) (φ : Finding)
    → In φ (unused_of idx k o) ↔ ((c : Component) × UnusedIn idx k o φ c)
unfolding unused_of
unused_of_iff idx k none φ = ((λ m. absurd m), (λ m. let (c, (i, d, u, same)) = m in absurd i))
unused_of_iff idx k (some sec) φ = elim (Bool-cases (has_dynamic idx k)) [
  | inl e ↦ rw e ((λ m. absurd m), (λ m. let (c, (i, d, u, same)) = m in absurd (cc (d))))
  | inr e ↦ rw e (
      let loop =
        In-for_each φ sec.components
          (λ (c : Component). append_if (not (is_used idx k c.id)) (unused_finding k c)) in
      (
        (λ m.
            let (c, i, j) = loop.0 m in
            let there = (In-append_if φ (not (is_used idx k c.id)) (unused_finding k c)).0 j in
            (c, (i, refl, ground (arith, there.0), there.1))),
        (λ m.
            let (c, (i, d, u, same)) = m in
            loop.1 (
              c,
              i,
              (In-append_if φ (not (is_used idx k c.id)) (unused_finding k c)).1
                  (ground (arith, u), same),
            )),
      ))
]

-- unused-component reports a finding for a declaration exactly when the config has a service block,
-- nothing in the config references the declaration and no reference to its kind is an expansion;
-- and it reports nothing else.
pub unused_component_iff :
    (f : File) (sch : Option Schema) (φ : Finding)
    → In φ (unused_component (context_of f sch)) ↔ (
        (is_nil f.service.node ≡ false)
        × ((k : Kind) × (c : Component) × IsUnused f sch k c × (φ ≡ unused_finding k c)))
unfolding unused_component
unused_component_iff f sch φ =
    let idx = new_index f sch in
    let loop = In-for_each φ kinds (λ (k : Kind). unused_of idx k (f.sections k)) in
    elim (Bool-cases (is_nil f.service.node)) [
      | inl e ↦ rw e ((λ m. absurd m), (λ m. absurd (cc (m.0))))
      | inr e ↦ rw e (
        (λ m.
            let (k, i, j) = loop.0 m in
            let (c, (at, d, u, same)) = (unused_of_iff idx k (f.sections k) φ).0 j in
            (refl, (k, c, (at, d, sym (is_used-new_index f sch k c.id) ∙ u), same))),
        (λ m.
            let (present, (k, c, (at, d, u), same)) = m in
            loop.1 (
              k,
              In-kinds k,
              (unused_of_iff idx k (f.sections k) φ).1
                  (c, (at, d, is_used-new_index f sch k c.id ∙ u, same)),
            )),
      )
    ]
