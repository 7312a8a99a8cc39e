-- ===== src/Rule/Upstream.antt =====
-- pkg/rule/upstream.go: whether every way into a pipeline passes through a processor of some types.
pub mod Covered
pub mod Sound
pub mod Wired
pub mod Fuel
use otelcol_config_lint.Base.{
  Bool, List, Option, String, [], contains_func, false, if◌then◌else◌, length, nat_eq, none, not,
  some, string_eq, suc, true, zero, ℕ, ◌&&◌, ◌*◌, ◌+◌, ◌==◌, ◌||◌, ◌∷◌,
}
use otelcol_config_lint.Config.Id.{Kind, connector, exporter, id_eq, kind_eq, processor, receiver}
use otelcol_config_lint.Config.File.{Component, File, Pipeline, Ref, Service}
use otelcol_config_lint.Rule.Index.{Index, has_dynamic, resolve_ref}
use otelcol_config_lint.Rule.Node.{is_expansion}

-- `visit`
pub record Visit : Type 0 where
  pub pipeline : String
  pub covered : Bool

abbrev pub same_visit : Visit → Visit → Bool
same_visit a b = a.pipeline == b.pipeline && (if a.covered then b.covered else not b.covered)

-- The map `memo`: the last write of a key stands first.
pub record Answer : Type 0 where
  pub visit : Visit
  pub result : Bool

abbrev pub Memo : Type 0
Memo = List Answer

abbrev pub remembered : Memo → Visit → Option Bool
remembered [] v = none
remembered (a ∷ m) v = if same_visit a.visit v then some a.result else remembered m v

abbrev pub remember : Visit → Bool → Memo → Memo
remember v b m = record { visit = v; result = b } ∷ m

-- What a walk gives: its answer and the map after it; `none` where the fuel is out.
pub record Walked : Type 0 where
  pub answer : Bool
  pub memo : Memo

abbrev pub walked : Bool → Memo → Option Walked
walked b m = some (record { answer = b; memo = m })

abbrev pub is_wanted : List String → Option Component → Bool
is_wanted types none = false
is_wanted types (some c) = contains_func types (λ t. t == c.id.type)

-- `hasProcessor`
unfoldable pub has_processor : Index → List String → Pipeline → Bool
has_processor idx types p =
    contains_func p.processors
      (λ (ref : Ref). is_wanted types (resolve_ref idx Kind.processor ref.id))

abbrev pub no_ingress : Pipeline → Bool
no_ingress p = length p.receivers == 0 || is_expansion p.receivers_node

abbrev pub settle : Visit → Option Walked → Option Walked
settle v none = none
settle v (some w) = if w.answer then walked true (remember v true w.memo) else some w

abbrev answer_of : Option Walked → Option Bool
answer_of none = none
answer_of (some w) = some w.answer

module _ (idx : Index) (processors connectors : List String) where
  -- the call of ContainsFunc: true where no producer fails
  pub producers_covered :
      (Pipeline → Bool → Memo → Option Walked)
      → Pipeline
      → Bool
      → List Pipeline
      → Memo
      → Option Walked
  producers_covered step current covered [] m = walked true m
  producers_covered step current covered (q ∷ qs) m =
      if not (q.signal == current.signal) then walked false m else elim (step q covered m) [
        | none ↦ none
        | some w ↦ if w.answer then producers_covered step current covered qs w.memo else some w
      ]

  -- one round of the loop over the receivers, without the next ones
  pub receiver_covered :
      (Pipeline → Bool → Memo → Option Walked)
      → Pipeline
      → Bool
      → Option Component
      → Memo
      → Option Walked
  unfolding producers_covered
  receiver_covered step current covered none m = walked false m
  receiver_covered step current covered (some c) m =
      if c.kind == Kind.receiver && covered
      then walked true m
      else if not (c.kind == Kind.connector && contains_func connectors (λ t. t == c.id.type))
      then walked false m
      else elim (idx.as_exporter c.id) [
        | [] ↦ walked false m
        | q ∷ qs ↦ producers_covered step current covered (q ∷ qs) m
      ]

  pub receivers_covered :
      (Pipeline → Bool → Memo → Option Walked) → Pipeline → Bool → List Ref → Memo → Option Walked
  unfolding receiver_covered
  receivers_covered step current covered [] m = walked true m
  receivers_covered step current covered (ref ∷ rest) m =
      elim (receiver_covered step current covered (resolve_ref idx Kind.receiver ref.id) m) [
        | none ↦ none
        | some w ↦ if w.answer then receivers_covered step current covered rest w.memo else some w
      ]

  -- `walk` past the look into the map
  pub enter : (Pipeline → Bool → Memo → Option Walked) → Pipeline → Bool → Memo → Option Walked
  unfolding receivers_covered has_processor
  enter step p covered m =
      let v : Visit = record { pipeline = p.key; covered = covered } in
      let entered = remember v false m in
      if no_ingress p
      then walked false entered
      else settle v
          (receivers_covered step p (covered || has_processor idx processors p) p.receivers entered)

  unfoldable pub walk : ℕ → Pipeline → Bool → Memo → Option Walked
  unfolding enter
  walk zero p covered m = none
  walk (suc fuel) p covered m =
      elim (remembered m (record { pipeline = p.key; covered = covered })) [
        | some b ↦ walked b m
        | none ↦ enter (walk fuel) p covered m
      ]

  -- `UpstreamCovered`: two visits of each pipeline at most, and one step to look into the map
  unfoldable pub upstream_covered : Pipeline → Option Bool
  unfolding walk
  upstream_covered p =
      if has_dynamic idx Kind.exporter
      then some false
      else answer_of (walk (2 * length idx.file.service.pipelines + 1) p false [])
