-- ===== src/Rule/References/Duplicate.antt =====
-- Which references duplicate-reference reports.
use Prim.Native.String.{◌++◌ as str_append}
use otelcol_config_lint.Base.{
  append_if, Bool, Bool-cases, List, [], arith, ap, contains_func, false, if◌then◌else◌, inl, inr,
  map, not, refl, some, true, ◌&&◌, ◌++◌, ◌==◌, ◌||◌, ◌∷◌, ◌≡◌,
}
use otelcol_config_lint.Config.Id.{id_eq, id_text, section_key, ComponentId, Kind}
use otelcol_config_lint.Config.File.{Pipeline, Ref}
use otelcol_config_lint.Diag.{Severity}
use otelcol_config_lint.Rule.Context.{Finding}
use otelcol_config_lint.Rule.Node.{has_expansion}
use otelcol_config_lint.Rule.References.{duplicate_finding, duplicates_of}
use otelcol_config_lint.Rule.Words.{quote}
use otelcol_config_lint.Sets.{has, insert_one}
use otelcol_config_lint.Sets.Laws.{has-insert_one}

abbrev is_plain : Ref → Bool
is_plain r = not (has_expansion (id_text r.id))

-- A reference that is no expansion, and ahead of which the same identifier stands in a reference that
-- is none either.
abbrev pub is_repeat : List Ref → Ref → Bool
is_repeat ahead r = is_plain r && contains_func ahead (λ (q : Ref). is_plain q && q.id == r.id)

-- The references that repeat one ahead of them, in order; the first list is what stands ahead.
abbrev pub repeats : List Ref → List Ref → List Ref
repeats ahead [] = []
repeats ahead (r ∷ rs) =
    let later = repeats (ahead ++ r ∷ []) rs in if is_repeat ahead r then r ∷ later else later

-- What is to be said of such a reference: at its node and path, with its name, the pipeline and slot.
abbrev pub listed_twice : Pipeline → Kind → Ref → Finding
listed_twice p slot r = record {
  node = some r.node;
  path = r.path;
  message =
      str_append (quote (id_text r.id))
        (str_append " is listed twice in " (str_append p.key (str_append "." (section_key slot))));
  hint = "";
  docs = "";
  severity = Severity.unset;
}

-- The identifiers seen are those of the references ahead.
abbrev Agree : List ComponentId → List Ref → Type 0
Agree seen ahead =
    (id : ComponentId) → has seen id ≡ contains_func ahead (λ (q : Ref). is_plain q && q.id == id)

contains_func-snoc :
    (p : Ref → Bool) (xs : List Ref) (x : Ref)
    → contains_func (xs ++ x ∷ []) p ≡ (contains_func xs p || p x)
contains_func-snoc p [] x = ground arith
contains_func-snoc p (y ∷ ys) x = ground (arith, contains_func-snoc p ys x)

Agree-skip :
    (seen : List ComponentId) (ahead : List Ref) (r : Ref)
    → is_plain r ≡ false
    → Agree seen ahead
    → Agree seen (ahead ++ r ∷ [])
Agree-skip seen ahead r e h id =
    ground (arith, h id, e, contains_func-snoc (λ (q : Ref). is_plain q && q.id == id) ahead r)

Agree-insert :
    (seen : List ComponentId) (ahead : List Ref) (r : Ref)
    → is_plain r ≡ true
    → Agree seen ahead
    → Agree (insert_one seen r.id) (ahead ++ r ∷ [])
Agree-insert seen ahead r e h id = ground (
  arith,
  h id,
  e,
  contains_func-snoc (λ (q : Ref). is_plain q && q.id == id) ahead r,
  has-insert_one seen r.id id,
)

reported :
    (p : Pipeline) (slot : Kind) (r : Ref) (a b : Bool) (φs : List Finding) (later : List Ref)
    → a ≡ b
    → φs ≡ map (listed_twice p slot) later
    → append_if a (duplicate_finding p slot r) ++ φs
      ≡ map (listed_twice p slot) (if b then r ∷ later else later)
reported p slot r true true φs later e h = ap (λ l. listed_twice p slot r ∷ l) h
reported p slot r false false φs later e h = h
reported p slot r true false φs later e h = absurd (cc (e))
reported p slot r false true φs later e h = absurd (cc (e))

duplicates_of-repeats :
    (p : Pipeline) (slot : Kind) (seen : List ComponentId) (ahead refs : List Ref)
    → Agree seen ahead
    → duplicates_of p slot seen refs ≡ map (listed_twice p slot) (repeats ahead refs)
unfolding duplicates_of insert_one
duplicates_of-repeats p slot seen ahead [] h = refl
duplicates_of-repeats p slot seen ahead (r ∷ rs) h =
    elim (Bool-cases (has_expansion (id_text r.id))) [
      | inl e ↦ rw e (
          duplicates_of-repeats p slot seen (ahead ++ r ∷ []) rs
            (Agree-skip seen ahead r (ap not e) h))
      | inr e ↦
          let later =
            duplicates_of-repeats p slot (insert_one seen r.id) (ahead ++ r ∷ []) rs
              (Agree-insert seen ahead r (ap not e) h) in
          rw e (
            reported p slot r (has seen r.id)
              (contains_func ahead (λ (q : Ref). is_plain q && q.id == r.id)) _
              (repeats (ahead ++ r ∷ []) rs) (h r.id) later)
    ]

-- In one slot of a pipeline, duplicate-reference reports exactly the references that repeat an
-- identifier ahead of them, in order and each at its own node and path, with its name, the pipeline
-- and the slot; references that are expansions neither count nor are reported.
pub duplicates_of_slot :
    (p : Pipeline) (slot : Kind) (refs : List Ref)
    → duplicates_of p slot [] refs ≡ map (listed_twice p slot) (repeats [] refs)
duplicates_of_slot p slot refs = duplicates_of-repeats p slot [] [] refs (λ id. refl)
