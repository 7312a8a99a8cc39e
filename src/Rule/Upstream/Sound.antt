-- ===== src/Rule/Upstream/Sound.antt =====
-- What a positive answer of `UpstreamCovered` proves.
use mathlib.Core.Path.{subst}
use otelcol_config_lint.Base.{
  zero, ◌∙◌, suc, ℕ, List-cases, refl, ◌&&◌, beq→eq, Option-cases, All, ap, none, eq_iff, arith,
  inr, inl, Bool-cases, Option, In, Bool, List, String, [], contains_func, false, nat_eq, some,
  string_eq, true, ◌==◌, ◌||◌, ◌∷◌, ◌≡◌,
}
use otelcol_config_lint.Config.Id.{kind_beq_iff, ComponentId, Kind, id_eq, kind_eq}
use otelcol_config_lint.Config.File.{Component, Pipeline, Ref}
use otelcol_config_lint.Rule.Index.{Index, resolve_ref}
use otelcol_config_lint.Rule.Upstream.Covered.{
  through, producer, ingress, entered, IsCovered, ProducersCovered, ReceiversCovered, no_more,
  no_other,
}
use otelcol_config_lint.Rule.Upstream.{
  enter, walk, receivers_covered, receiver_covered, producers_covered, walked, same_visit,
  remembered, remember, Visit, Walked, Memo, has_processor, no_ingress,
}

abbrev pub visit_of : Pipeline → Bool → Visit
visit_of p covered = record { pipeline = p.key; covered = covered }

module _ (idx : Index) (processors connectors : List String) (ps : List Pipeline) where
  abbrev Covered : Pipeline → Bool → Type 0
  Covered p c = IsCovered idx processors connectors p c

  -- Whatever the map remembers as covered is covered.
  Trusted : Memo → Type 0
  Trusted m =
      (p : Pipeline) (c : Bool) → In p ps → remembered m (visit_of p c) ≡ some true → Covered p c

  -- What a walk promises.
  Promise : Walked → Type 0 → Type 0
  Promise w Goal = Trusted w.memo × (w.answer ≡ true → Goal)

  Sound : (Pipeline → Bool → Memo → Option Walked) → Type 0
  Sound step =
      (p : Pipeline) (c : Bool) (m : Memo) (w : Walked)
      → In p ps
      → Trusted m
      → step p c m ≡ some w
      → Promise w (Covered p c)

  Trusted-false : (v : Visit) (m : Memo) → Trusted m → Trusted (remember v false m)
  unfolding Trusted
  Trusted-false v m t p c i h = elim (Bool-cases (same_visit v (visit_of p c))) [
    | inl e ↦ absurd (cc (rw e at h))
    | inr e ↦ t p c i (rw e at h)
  ]

  module _ (unique : (p q : Pipeline) → In p ps → In q ps → p.key ≡ q.key → p ≡ q) where
    Trusted-true :
        (p : Pipeline) (c : Bool) (m : Memo)
        → In p ps
        → Covered p c
        → Trusted m
        → Trusted (remember (visit_of p c) true m)
    unfolding Trusted
    Trusted-true p c m i covered t q d j h =
        elim (Bool-cases (same_visit (visit_of p c) (visit_of q d))) [
          | inl e ↦
              let same : p ≡ q = unique p q i j (ground (arith, e, eq_iff p.key q.key)) in
              let flag : c ≡ d = ground (arith, e) in
              subst (λ x. Covered q x) flag (subst (λ x. Covered x c) same covered)
          | inr e ↦ t q d j (rw e at h)
        ]

  abbrev unwrap : Walked → Option Walked → Walked
  unwrap w none = w
  unwrap w (some v) = v

  Promise-some : (v w : Walked) (G : Type 0) → some v ≡ some w → Promise v G → Promise w G
  Promise-some v w G h q = subst (λ x. Promise x G) (ap (unwrap w) h) q

  Promise-fail :
      (m : Memo) (w : Walked) (G : Type 0) → walked false m ≡ some w → Trusted m → Promise w G
  unfolding Promise
  Promise-fail m w G h t =
      Promise-some (record { answer = false; memo = m }) w G h (t, λ e. absurd (cc (e)))

  Promise-fine :
      (m : Memo) (w : Walked) (G : Type 0) → walked true m ≡ some w → Trusted m → G → Promise w G
  unfolding Promise
  Promise-fine m w G h t g = Promise-some (record { answer = true; memo = m }) w G h (t, λ e. g)

  module _ (step : Pipeline → Bool → Memo → Option Walked) (sound : Sound step) where
    producers_sound :
        (p : Pipeline) (c : Bool) (qs : List Pipeline) (m : Memo) (w : Walked)
        → All (λ (q : Pipeline). In q ps) qs
        → Trusted m
        → producers_covered idx processors connectors step p c qs m ≡ some w
        → Promise w (ProducersCovered idx processors connectors p c qs)
    unfolding producers_covered Sound Promise
    producers_sound p c [] m w i t h =
        Promise-fine m w (ProducersCovered idx processors connectors p c []) h t (no_other p c)
    producers_sound p c (q ∷ qs) m w i t h =
        let G = ProducersCovered idx processors connectors p c (q ∷ qs) in
        elim (Bool-cases (q.signal == p.signal)) [
          | inr e ↦ Promise-fail m w G (rw (e, producers_covered) at h) t
          | inl e ↦ elim (Option-cases (step q c m)) [
            | inl s ↦ absurd (cc (rw (e, s, producers_covered) at h))
            | inr s ↦
                let (v, found) = s in
                let first = sound q c m v i.0 t found in
                elim (Bool-cases v.answer) [
                  | inr a ↦
                      Promise-fail v.memo w G (rw (e, found, a, producers_covered) at h) first.0
                  | inl a ↦
                      let rest =
                        producers_sound p c qs v.memo w i.1 first.0
                          (rw (e, found, a, producers_covered) at h) in
                      (
                        rest.0,
                        λ (agreed : w.answer ≡ true).
                            producer p c q qs (beq→eq q.signal p.signal e) (first.1 a)
                              (rest.1 agreed),
                      )
                ]
          ]
        ]

    module _
        (closed : (id : ComponentId) → All (λ (q : Pipeline). In q ps) (idx.as_exporter id)) where
      abbrev Extends : Pipeline → Bool → Ref → Type 0
      Extends p c ref =
          (rest : List Ref)
          → ReceiversCovered idx processors connectors p c rest
          → ReceiversCovered idx processors connectors p c (ref ∷ rest)

      receiver_sound :
          (p : Pipeline) (c : Bool) (ref : Ref) (o : Option Component) (m : Memo) (w : Walked)
          → Trusted m
          → resolve_ref idx Kind.receiver ref.id ≡ o
          → receiver_covered idx processors connectors step p c o m ≡ some w
          → Promise w (Extends p c ref)
      unfolding receiver_covered Promise
      receiver_sound p c ref none m w t r h = Promise-fail m w (Extends p c ref) h t
      receiver_sound p c ref (some comp) m w t r h =
          let wired =
            comp.kind == Kind.connector && contains_func connectors (λ t. t == comp.id.type) in
          elim (Bool-cases (comp.kind == Kind.receiver && c)) [
            | inl e ↦ Promise-fine m w (Extends p c ref) (rw (e, receiver_covered) at h) t (λ rest.
                ingress p c ref rest comp r
                  (ground (arith, e, kind_beq_iff comp.kind Kind.receiver)) (ground (arith, e)))
            | inr e ↦ elim (Bool-cases wired) [
              | inr f ↦ Promise-fail m w (Extends p c ref) (rw (e, f, receiver_covered) at h) t
              | inl f ↦ elim (List-cases (idx.as_exporter comp.id)) [
                | inl l ↦ Promise-fail m w (Extends p c ref) (rw (e, f, l, receiver_covered) at h) t
                | inr l ↦
                    let (q, qs, list) = l in
                    let below =
                      producers_sound p c (q ∷ qs) m w (rw list at (closed comp.id)) t
                        (rw (e, f, list, receiver_covered) at h) in
                    (
                      below.0,
                      λ (agreed : w.answer ≡ true) (rest : List Ref).
                          through p c ref rest comp q qs r
                            (ground (arith, f, kind_beq_iff comp.kind Kind.connector))
                            (ground (arith, f)) list (below.1 agreed),
                    )
              ]
            ]
          ]

      receivers_sound :
          (p : Pipeline) (c : Bool) (refs : List Ref) (m : Memo) (w : Walked)
          → Trusted m
          → receivers_covered idx processors connectors step p c refs m ≡ some w
          → Promise w (ReceiversCovered idx processors connectors p c refs)
      unfolding receivers_covered Promise
      receivers_sound p c [] m w t h =
          Promise-fine m w (ReceiversCovered idx processors connectors p c []) h t (no_more p c)
      receivers_sound p c (ref ∷ rest) m w t h =
          let G = ReceiversCovered idx processors connectors p c (ref ∷ rest) in
          let o = resolve_ref idx Kind.receiver ref.id in
          elim (Option-cases (receiver_covered idx processors connectors step p c o m)) [
            | inl s ↦ absurd (cc (rw (s, receivers_covered) at h))
            | inr s ↦
                let (v, found) = s in
                let first = receiver_sound p c ref o m v t refl found in
                elim (Bool-cases v.answer) [
                  | inr a ↦ Promise-fail v.memo w G (rw (found, a, receivers_covered) at h) first.0
                  | inl a ↦
                      let others =
                        receivers_sound p c rest v.memo w first.0
                          (rw (found, a, receivers_covered) at h) in
                      (others.0, λ (agreed : w.answer ≡ true). first.1 a rest (others.1 agreed))
                ]
          ]

      module _ (unique : (p q : Pipeline) → In p ps → In q ps → p.key ≡ q.key → p ≡ q) where
        enter_sound :
            (p : Pipeline) (c : Bool) (m : Memo) (w : Walked)
            → In p ps
            → Trusted m
            → enter idx processors connectors step p c m ≡ some w
            → Promise w (Covered p c)
        unfolding enter Promise
        enter_sound p c m w i t h =
            let v = visit_of p c in
            let begun = remember v false m in
            let clean = Trusted-false v m t in
            let wanted = c || has_processor idx processors p in
            elim (Bool-cases (no_ingress p)) [
              | inl e ↦ Promise-fail begun w (Covered p c) (rw (e, enter) at h) clean
              | inr e ↦
                  elim (Option-cases
                    (receivers_covered idx processors connectors step p wanted p.receivers begun)) [
                      | inl s ↦ absurd (cc (rw (e, s, enter) at h))
                      | inr s ↦
                          let (u, found) = s in
                          let ways = receivers_sound p wanted p.receivers begun u clean found in
                          elim (Bool-cases u.answer) [
                            | inr a ↦
                                Promise-fail u.memo w (Covered p c) (rw (e, found, a, enter) at h)
                                  ways.0
                            | inl a ↦
                                let done = entered p c e (ways.1 a) in
                                Promise-fine (remember v true u.memo) w (Covered p c)
                                  (rw (e, found, a, enter) at h)
                                  (Trusted-true unique p c u.memo i done ways.0) done
                          ]
                    ]
            ]

  module _ (closed : (id : ComponentId) → All (λ (q : Pipeline). In q ps) (idx.as_exporter id))
      (unique : (p q : Pipeline) → In p ps → In q ps → p.key ≡ q.key → p ≡ q) where
    walk-Sound : (fuel : ℕ) → Sound (walk idx processors connectors fuel)
    unfolding walk Sound Promise Trusted
    walk-Sound zero p c m w i t h = absurd (cc (h))
    walk-Sound (suc fuel) p c m w i t h = elim (Option-cases (remembered m (visit_of p c))) [
      | inl s ↦
          enter_sound (walk idx processors connectors fuel) (walk-Sound fuel) closed unique p c m w
            i t (rw (s, walk) at h)
      | inr s ↦
          let (b, found) = s in
          Promise-some (record { answer = b; memo = m }) w (Covered p c) (rw (found, walk) at h)
            (t, λ agreed. t p c i (found ∙ ap some agreed))
    ]

    -- A walk that starts with an empty map.
    pub walk-IsCovered :
        (fuel : ℕ) (p : Pipeline) (w : Walked)
        → In p ps
        → walk idx processors connectors fuel p false [] ≡ some w
        → w.answer ≡ true
        → IsCovered idx processors connectors p false
    unfolding Sound Promise Trusted
    walk-IsCovered fuel p w i h agreed =
        (walk-Sound fuel p false [] w i (λ q c j e. absurd (cc (e))) h).1 agreed
