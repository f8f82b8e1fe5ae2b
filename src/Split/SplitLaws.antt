-- ===== src/Split/SplitLaws.antt =====
-- A transaction that is split into phases (split_computation of transactions/mtl/split_phase.hpp).
use mix_t.Base.{◌≡◌, some, >>=-eq-some, List}
use mix_t.Labels.Order.{LabelOrder}
use mix_t.Labels.Term.{Label}
use mix_t.Ast.{Statement}
use mix_t.Ast.Collect.{LabelSets, collect_labels}
use mix_t.Split.Named.{easy_processing_pass}
use mix_t.Split.Api.{BindingLists, VariableBinding}
use mix_t.Split.TypeSets.{TypeSets}
use mix_t.Split.Computation.{Prephase, concrete_labels, split_computation}
use mix_t.Split.SupplyLaws.{InOrder, split_at_labels-InOrder}

module _ {C : Type 0} ⦃o : LabelOrder C⦄ (m : BindingLists C) (sets : TypeSets C)
    (label_sets : LabelSets C) (sorted : List (Label C) → List (Label C)) where
  -- In a transaction that splits, every phase requires only variables and loops that the
  -- transaction is given or an earlier phase provides.
  pub split_computation-InOrder :
      (s : Statement C) (bindings : List (VariableBinding C)) (phases : List (Prephase C))
      → split_computation m sets label_sets sorted s bindings ≡ some phases
      → InOrder sets bindings phases
  unfolding split_computation
  split_computation-InOrder s bindings phases h =
      let (a, e, u) = >>=-eq-some (easy_processing_pass s) _ h in
      let (labels, f, v) =
        >>=-eq-some (concrete_labels (sorted (collect_labels label_sets s))) _ u in
      split_at_labels-InOrder m sets a labels bindings phases v
