-- ===== src/Rule/Upstream/Fuel.antt =====
-- The fuel of `UpstreamCovered` is enough: every step past the map settles one more visit.
use otelcol_config_lint.Base.{
  List-cases, contains_func, zero, Option-cases, ◌&&◌, suc, ◌||◌, ◌∙◌, sym, All, Bool, Bool-cases,
  In, List, Option, String, [], ap, arith, eq_iff, false, if◌then◌else◌, inl, inr, is_nil, length,
  nat_eq, none, refl, some, string_eq, true, ℕ, ◌*◌, ◌+◌, ◌<◌, ◌==◌, ◌∷◌, ◌≡◌, ◌≤◌,
}
use otelcol_config_lint.Config.Id.{Kind, ComponentId, id_eq, kind_eq}
use otelcol_config_lint.Config.File.{Component, File, Pipeline, Ref}
use otelcol_config_lint.Rule.Index.{resolve_ref, has_dynamic, new_index, Index}
use otelcol_config_lint.Rule.Index.Producers.{new_index-Closed}
use otelcol_config_lint.Rule.Upstream.{
  no_ingress, has_processor, receivers_covered, receiver_covered, enter, walk, upstream_covered,
  Memo, Visit, Walked, producers_covered, remember, remembered, same_visit, walked,
}
use otelcol_config_lint.Schema.{Schema}

abbrev visit_of : Pipeline → Bool → Visit
visit_of p covered = record { pipeline = p.key; covered = covered }

abbrev visits : List Pipeline → List Visit
visits [] = []
visits (p ∷ ps) = visit_of p true ∷ visit_of p false ∷ visits ps

-- How many of the visits the map does not know.
abbrev open_visits : List Visit → Memo → ℕ
open_visits [] m = 0
open_visits (v ∷ vs) m = (if is_nil (remembered m v) then 1 else 0) + open_visits vs m

length-visits : (ps : List Pipeline) → length (visits ps) ≡ 2 * length ps
length-visits [] = omega arith
length-visits (p ∷ ps) = omega (arith, length-visits ps)

open_visits-length : (vs : List Visit) (m : Memo) → open_visits vs m ≤ length vs
open_visits-length [] m = omega arith
open_visits-length (v ∷ vs) m = ground (arith, open_visits-length vs m)

In-visits : (p : Pipeline) (c : Bool) (ps : List Pipeline) → In p ps → In (visit_of p c) (visits ps)
In-visits p true (q ∷ ps) (inl e) = inl (ap (λ x. visit_of x true) e)
In-visits p false (q ∷ ps) (inl e) = inr (inl (ap (λ x. visit_of x false) e))
In-visits p c (q ∷ ps) (inr i) = inr (inr (In-visits p c ps i))
In-visits p c [] i = absurd i

same_visit_self : (v : Visit) → same_visit v v ≡ true
same_visit_self v = ground (arith, eq_iff v.pipeline v.pipeline)

open_visits-remember :
    (vs : List Visit) (v : Visit) (b : Bool) (m : Memo)
    → open_visits vs (remember v b m) ≤ open_visits vs m
open_visits-remember [] v b m = omega arith
open_visits-remember (u ∷ vs) v b m = ground (arith, open_visits-remember vs v b m)

open_visits-fresh :
    (vs : List Visit) (v : Visit) (b : Bool) (m : Memo)
    → In v vs
    → remembered m v ≡ none
    → open_visits vs (remember v b m) < open_visits vs m
open_visits-fresh [] v b m i h = absurd i
open_visits-fresh (u ∷ vs) v b m (inl e) h =
    let same : same_visit v u ≡ true = sym (ap (same_visit v) e) ∙ same_visit_self v in
    let unknown : remembered m u ≡ none = sym (ap (remembered m) e) ∙ h in
    rw (same, unknown) (omega (arith, open_visits-remember vs v b m))
open_visits-fresh (u ∷ vs) v b m (inr i) h = ground (arith, open_visits-fresh vs v b m i h)

module _ (idx : Index) (processors connectors : List String) (ps : List Pipeline) where
  abbrev left : Memo → ℕ
  left m = open_visits (visits ps) m

  -- A walk that answers, and forgets nothing.
  Settles : Option Walked → Memo → Type 0
  Settles o m = (w : Walked) × (o ≡ some w) × (left w.memo ≤ left m)

  Total : ℕ → (Pipeline → Bool → Memo → Option Walked) → Type 0
  Total n step =
      (p : Pipeline) (c : Bool) (m : Memo) → In p ps → left m < n → Settles (step p c m) m

  Settles-walked : (b : Bool) (m : Memo) → Settles (walked b m) m
  unfolding Settles
  Settles-walked b m = (record { answer = b; memo = m }, refl, omega arith)

  module _ (n : ℕ) (step : Pipeline → Bool → Memo → Option Walked) (total : Total n step) where
    producers-Settles :
        (p : Pipeline) (c : Bool) (qs : List Pipeline) (m : Memo)
        → All (λ (q : Pipeline). In q ps) qs
        → left m < n
        → Settles (producers_covered idx processors connectors step p c qs m) m
    unfolding producers_covered Settles Total
    producers-Settles p c [] m i l = Settles-walked true m
    producers-Settles p c (q ∷ qs) m i l = elim (Bool-cases (q.signal == p.signal)) [
      | inr e ↦ rw e (Settles-walked false m)
      | inl e ↦
          let (w, s, below) = total q c m i.0 l in
          elim (Bool-cases w.answer) [
            | inr a ↦ (w, rw (e, s, a) refl, below)
            | inl a ↦
                let (u, t, further) =
                  producers-Settles p c qs w.memo i.1 (omega (arith, below, l)) in
                (u, rw (e, s, a) t, omega (arith, below, further))
          ]
    ]

    module _
        (closed : (id : ComponentId) → All (λ (q : Pipeline). In q ps) (idx.as_exporter id)) where
      receiver-Settles :
          (p : Pipeline) (c : Bool) (o : Option Component) (m : Memo)
          → left m < n
          → Settles (receiver_covered idx processors connectors step p c o m) m
      unfolding receiver_covered
      receiver-Settles p c none m l = Settles-walked false m
      receiver-Settles p c (some comp) m l =
          let wired =
            comp.kind == Kind.connector && contains_func connectors (λ t. t == comp.id.type) in
          elim (Bool-cases (comp.kind == Kind.receiver && c)) [
            | inl e ↦ rw e (Settles-walked true m)
            | inr e ↦ elim (Bool-cases wired) [
              | inr f ↦ rw (e, f) (Settles-walked false m)
              | inl f ↦ elim (List-cases (idx.as_exporter comp.id)) [
                | inl list ↦ rw (e, f, list) (Settles-walked false m)
                | inr found ↦
                    let (q, qs, list) = found in
                    rw (e, f, list)
                      (producers-Settles p c (q ∷ qs) m (rw list at (closed comp.id)) l)
              ]
            ]
          ]

      receivers-Settles :
          (p : Pipeline) (c : Bool) (refs : List Ref) (m : Memo)
          → left m < n
          → Settles (receivers_covered idx processors connectors step p c refs m) m
      unfolding receivers_covered Settles
      receivers-Settles p c [] m l = Settles-walked true m
      receivers-Settles p c (ref ∷ rest) m l =
          let (w, s, below) = receiver-Settles p c (resolve_ref idx Kind.receiver ref.id) m l in
          elim (Bool-cases w.answer) [
            | inr a ↦ (w, rw (s, a, receivers_covered) refl, below)
            | inl a ↦
                let (u, t, further) = receivers-Settles p c rest w.memo (omega (arith, below, l)) in
                (u, rw (s, a, receivers_covered) t, omega (arith, below, further))
          ]

      -- A step past the map takes a visit that is still open.
      enter-Settles :
          (p : Pipeline) (c : Bool) (m : Memo)
          → In p ps
          → remembered m (visit_of p c) ≡ none
          → left m < n + 1
          → Settles (enter idx processors connectors step p c m) m
      unfolding enter Settles
      enter-Settles p c m i unknown l =
          let v = visit_of p c in
          let begun = remember v false m in
          let wanted = c || has_processor idx processors p in
          let fewer = open_visits-fresh (visits ps) v false m (In-visits p c ps i) unknown in
          elim (Bool-cases (no_ingress p)) [
            | inl e ↦ (record { answer = false; memo = begun }, rw e refl, omega (arith, fewer))
            | inr e ↦
                let (w, s, below) =
                  receivers-Settles p wanted p.receivers begun (omega (arith, fewer, l)) in
                elim (Bool-cases w.answer) [
                  | inr a ↦ (w, rw (e, s, a) refl, omega (arith, fewer, below))
                  | inl a ↦ (
                    record { answer = true; memo = remember v true w.memo },
                    rw (e, s, a) refl,
                    omega (arith, fewer, below, open_visits-remember (visits ps) v true w.memo),
                  )
                ]
          ]

  module _
      (closed : (id : ComponentId) → All (λ (q : Pipeline). In q ps) (idx.as_exporter id)) where
    walk-Settles : (fuel : ℕ) → Total fuel (walk idx processors connectors fuel)
    unfolding walk Total Settles
    walk-Settles zero p c m i l = absurd (omega (arith, l))
    walk-Settles (suc fuel) p c m i l = elim (Option-cases (remembered m (visit_of p c))) [
      | inl unknown ↦
          let (w, s, below) =
            enter-Settles fuel (walk idx processors connectors fuel) (walk-Settles fuel) closed p c
              m i unknown (omega (arith, l)) in
          (w, rw (unknown, walk) s, below)
      | inr known ↦ (record { answer = known.0; memo = m }, rw (known.1, walk) refl, omega arith)
    ]

-- `UpstreamCovered` returns for every pipeline of a config: the fuel that the model gives its walk
-- is enough, whatever cycles the connectors form.
pub upstream_covered_total :
    (f : File) (sch : Option Schema) (processors connectors : List String) (p : Pipeline)
    → In p f.service.pipelines
    → (b : Bool) × (upstream_covered (new_index f sch) processors connectors p ≡ some b)
unfolding upstream_covered new_index Settles Total
upstream_covered_total f sch processors connectors p i =
    let idx = new_index f sch in
    let ps = f.service.pipelines in
    elim (Bool-cases (has_dynamic idx Kind.exporter)) [
      | inl e ↦ (false, rw e refl)
      | inr e ↦
          let (w, s, below) =
            walk-Settles idx processors connectors ps (new_index-Closed f sch) (2 * length ps + 1) p
              false [] i (omega (arith, open_visits-length (visits ps) [], length-visits ps)) in
          (w.answer, rw (e, s) refl)
    ]
