-- ===== src/Rule/Upstream/Covered.antt =====
-- What it means that every way into a pipeline passes a processor, as a relation.
use otelcol_config_lint.Base.{
  Bool, List, String, [], contains_func, false, nat_eq, some, string_eq, true, ◌==◌, ◌||◌, ◌∷◌, ◌≡◌,
}
use otelcol_config_lint.Config.Id.{Kind}
use otelcol_config_lint.Config.File.{Component, Pipeline, Ref}
use otelcol_config_lint.Rule.Index.{Index, resolve_ref}
use otelcol_config_lint.Rule.Upstream.{has_processor, no_ingress}

module _ (idx : Index) (processors connectors : List String) where
  -- Every way into the pipeline passes a wanted processor, or has passed one behind it already
  -- where the flag says so. The derivation is finite: it follows no cycle.
  mutual
    pub data IsCovered : Pipeline → Bool → Type 0 where
      entered :
          (p : Pipeline) (covered : Bool)
          → no_ingress p ≡ false
          → ReceiversCovered p (covered || has_processor idx processors p) p.receivers
          → IsCovered p covered

    pub data ReceiversCovered : Pipeline → Bool → List Ref → Type 0 where
      no_more : (p : Pipeline) (covered : Bool) → ReceiversCovered p covered []
      ingress :
          (p : Pipeline) (covered : Bool) (ref : Ref) (rest : List Ref) (c : Component)
          → resolve_ref idx Kind.receiver ref.id ≡ some c
          → c.kind ≡ Kind.receiver
          → covered ≡ true
          → ReceiversCovered p covered rest
          → ReceiversCovered p covered (ref ∷ rest)
      through :
          (p : Pipeline) (covered : Bool) (ref : Ref) (rest : List Ref) (c : Component)
          (q : Pipeline) (qs : List Pipeline)
          → resolve_ref idx Kind.receiver ref.id ≡ some c
          → c.kind ≡ Kind.connector
          → contains_func connectors (λ t. t == c.id.type) ≡ true
          → idx.as_exporter c.id ≡ q ∷ qs
          → ProducersCovered p covered (q ∷ qs)
          → ReceiversCovered p covered rest
          → ReceiversCovered p covered (ref ∷ rest)

    pub data ProducersCovered : Pipeline → Bool → List Pipeline → Type 0 where
      no_other : (p : Pipeline) (covered : Bool) → ProducersCovered p covered []
      producer :
          (p : Pipeline) (covered : Bool) (q : Pipeline) (qs : List Pipeline)
          → q.signal ≡ p.signal
          → IsCovered q covered
          → ProducersCovered p covered qs
          → ProducersCovered p covered (q ∷ qs)
