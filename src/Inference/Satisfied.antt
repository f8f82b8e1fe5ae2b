-- ===== src/Inference/Satisfied.antt =====
-- When a constraint holds.
use mix_t.Base.{true, ◌≡◌}
use mix_t.Labels.Order.{LabelOrder}
use mix_t.Labels.Meaning.{Env, meaning}
use mix_t.Inference.Constraints.{MustFlowTo}

module _ {C : Type 0} ⦃o : LabelOrder C⦄ (env : Env C) where
  abbrev pub Satisfied : MustFlowTo C → Type 0
  Satisfied c = o.flows_to (meaning env c.high) (meaning env c.low) ≡ true
