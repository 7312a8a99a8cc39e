-- ===== src/Rule/References/Meant.antt =====
-- What a reference may mean, and when the guards of undefined-reference find nothing.
use otelcol_config_lint.Rule.Node.{has_expansion, is_expansion}
use otelcol_config_lint.Base.{
  ◌∙◌, All, Bool, Bool-cases, Option-cases, [], ◌∷◌, ◌==◌, ◌&&◌, ◌||◌, not, some, refl, sym, beq→eq,
  if◌then◌else◌, inr, inl, List, In, Option, arith, false, is_nil, none, true, ◌↔◌, ◌≡◌,
}
use mathlib.Core.Path.{subst}
use otelcol_config_lint.Config.Id.{ComponentId, Kind, id_eq, id_text, kind_eq}
use otelcol_config_lint.Config.File.{Component, Section, File, Pipeline, Ref, refs_of}
use otelcol_config_lint.Rule.Index.{
  accepts_connectors, declarations, declared_in, has_dynamic_declarations, new_index, resolve_in,
  resolve_ref, section_is_expansion, slots,
}
use otelcol_config_lint.Rule.References.{extension_is_undefined, slot_is_undefined}
use otelcol_config_lint.Schema.{Schema}

-- The section of a kind that is written out, where the file has it.
abbrev pub IsStatic : Option Section → Type 0
IsStatic none = Unit
IsStatic (some sec) = is_expansion (some sec.node) ≡ false

-- No component of the section has the identifier.
abbrev pub Lacks : ComponentId → Option Section → Type 0
Lacks id none = Unit
Lacks id (some sec) = All (λ (c : Component). (c.id == id) ≡ false) sec.components

-- The kinds whose declarations a reference may mean: the slot's own, and connectors, which receive in
-- one pipeline and export in another.
abbrev pub may_mean : Kind → Kind → Bool
may_mean slot k =
    k == slot || k == Kind.connector && (slot == Kind.receiver || slot == Kind.exporter)

-- A reference that is no expansion, and of which neither a declaration that is written out nor one that
-- an expansion may supply can be meant.
abbrev pub IsUndefined : File → Kind → Ref → Type 0
IsUndefined f slot r =
    (has_expansion (id_text r.id) ≡ false)
    × ((k : Kind) → may_mean slot k ≡ true → IsStatic (f.sections k) × Lacks r.id (f.sections k))

abbrev pub IsUndefinedExtension : File → Ref → Type 0
IsUndefinedExtension f r = In r f.service.extensions × IsUndefined f Kind.extension r

abbrev pub IsUndefinedSlot : File → Pipeline → Kind → Ref → Type 0
IsUndefinedSlot f p slot r =
    In p f.service.pipelines × In slot slots × In r (refs_of p slot) × IsUndefined f slot r

is_nil_iff {ℓ} : {A : Type ℓ} (o : Option A) → (is_nil o ≡ true) ↔ (o ≡ none)
is_nil_iff o = ground arith

declared_in-none :
    (cs : List Component) (id : ComponentId)
    → (declared_in cs id ≡ none) ↔ All (λ (c : Component). (c.id == id) ≡ false) cs
unfolding declared_in
declared_in-none [] id = ((λ _. tt), (λ _. refl))
declared_in-none (c ∷ cs) id =
    let later = declared_in-none cs id in
    elim (Option-cases (declared_in cs id)) [
      | inl e ↦ elim (Bool-cases (c.id == id)) [
        | inl q ↦ rw (e, q) ((λ h. absurd (cc (h))), (λ h. absurd (cc (h.0))))
        | inr q ↦ rw (e, q) ((λ _. (refl, later.0 e)), (λ _. refl))
      ]
      | inr (d, e) ↦
          rw e
            ((λ h. absurd (cc (h))), (λ h. let nothing = later.1 h.1 in absurd (cc (nothing, e))))
    ]

-- A kind whose section is written out and lacks the identifier.
abbrev Free : File → Kind → ComponentId → Type 0
Free f k id = IsStatic (f.sections k) × Lacks id (f.sections k)

-- The section's guard and the declarations, together.
abbrev is_free : File → Option Schema → Kind → ComponentId → Bool
is_free f sch k id = not (section_is_expansion (new_index f sch) k) && is_nil (declarations f k id)

is_free_iff :
    (f : File) (sch : Option Schema) (k : Kind) (id : ComponentId)
    → (is_free f sch k id ≡ true) ↔ Free f k id
unfolding section_is_expansion declarations new_index
is_free_iff f sch k id = elim (Option-cases (f.sections k)) [
  | inl e ↦ rw (e, declarations) ((λ _. (tt, tt)), (λ _. refl))
  | inr (sec, e) ↦
      let inside = declared_in-none sec.components id in
      rw (e, declarations)
        (
          (λ h. (ground (arith, h), inside.0 (ground (arith, h)))),
          (λ h. ground (arith, h.0, inside.1 h.1)),
        )
]

-- What the slot asks: its own kind, and connectors where it accepts them.
every_kind_meant_iff :
    (f : File) (sch : Option Schema) (slot : Kind) (id : ComponentId)
    → ((is_free f sch slot id
          && (not (slot == Kind.receiver || slot == Kind.exporter)
              || is_free f sch Kind.connector id))
        ≡ true)
      ↔ ((k : Kind) → may_mean slot k ≡ true → Free f k id)
every_kind_meant_iff f sch slot id =
    let own = is_free_iff f sch slot id in
    let linked = is_free_iff f sch Kind.connector id in
    (
      (λ h k m. elim (Bool-cases (k == slot)) [
        | inl e ↦ subst (λ j. Free f j id) (sym (beq→eq k slot e)) (own.0 (and_left _ _ h))
        | inr e ↦
            let conn : (k == Kind.connector) ≡ true = ground (arith, m, e) in
            subst (λ j. Free f j id) (sym (beq→eq k Kind.connector conn))
              (linked.0 (ground (arith, h, m, e)))
      ]),
      (λ h.
          let mine = own.1 (h slot (same_slot slot)) in
          elim (Bool-cases (slot == Kind.receiver || slot == Kind.exporter)) [
            | inl a ↦
                let theirs = linked.1 (h Kind.connector (ground (arith, a))) in
                ground (arith, mine, theirs)
            | inr a ↦ ground (arith, mine, a)
          ]),
    )
  where
    and_left : (a b : Bool) → (a && b) ≡ true → a ≡ true
    and_left true b h = refl
    and_left false b h = h

    same_slot : (j : Kind) → may_mean j j ≡ true
    same_slot Kind.receiver = refl
    same_slot Kind.processor = refl
    same_slot Kind.exporter = refl
    same_slot Kind.connector = refl
    same_slot Kind.extension = refl

guards :
    (a s t accepts : Bool) (own linked : Option Component)
    → (not (a || (s || accepts && t))
        && is_nil (
            if a
            then none
            else elim own [ some c ↦ some c | none ↦ if accepts then linked else none ]))
      ≡ (not a && ((not s && is_nil own) && (not accepts || (not t && is_nil linked))))
guards a s t accepts none linked = ground arith
guards a s t accepts (some c) linked = ground arith

expanded :
    (a : Bool) (free : Bool) (P : Type 0)
    → ((free ≡ true) ↔ P)
    → ((not a && free) ≡ true) ↔ ((a ≡ false) × P)
expanded true free P h = ((λ e. absurd (cc (e))), (λ q. absurd (cc (q.0))))
expanded false free P h = ((λ e. (refl, h.0 e)), (λ q. h.1 q.1))

along : (b c : Bool) (P : Type 0) → b ≡ c → ((c ≡ true) ↔ P) → (b ≡ true) ↔ P
along b c P e h = ((λ t. h.0 (sym e ∙ t)), (λ q. e ∙ h.1 q))

pub slot_is_undefined_iff :
    (f : File) (sch : Option Schema) (slot : Kind) (r : Ref)
    → (slot_is_undefined (new_index f sch) slot r ≡ true) ↔ IsUndefined f slot r
unfolding slot_is_undefined has_dynamic_declarations resolve_ref resolve_in accepts_connectors
    new_index
slot_is_undefined_iff f sch slot r =
    let a = has_expansion (id_text r.id) in
    let free =
      is_free f sch slot r.id
      && (not (slot == Kind.receiver || slot == Kind.exporter)
          || is_free f sch Kind.connector r.id) in
    along _ (not a && free) _
      (guards a (section_is_expansion (new_index f sch) slot)
        (section_is_expansion (new_index f sch) Kind.connector)
        (slot == Kind.receiver || slot == Kind.exporter) (declarations f slot r.id)
        (declarations f Kind.connector r.id))
      (expanded a free _ (every_kind_meant_iff f sch slot r.id))

extension_guards :
    (a s : Bool) (own : Option Component)
    → (not (a || (s || false)) && is_nil own) ≡ (not a && ((not s && is_nil own) && true))
extension_guards a s own = ground arith

pub extension_is_undefined_iff :
    (f : File) (sch : Option Schema) (r : Ref)
    → (extension_is_undefined (new_index f sch) r ≡ true) ↔ IsUndefined f Kind.extension r
unfolding extension_is_undefined has_dynamic_declarations accepts_connectors new_index
extension_is_undefined_iff f sch r =
    let a = has_expansion (id_text r.id) in
    along _ (not a && (is_free f sch Kind.extension r.id && true)) _
      (extension_guards a (section_is_expansion (new_index f sch) Kind.extension)
        (declarations f Kind.extension r.id))
      (expanded a (is_free f sch Kind.extension r.id && true) _
        (every_kind_meant_iff f sch Kind.extension r.id))
