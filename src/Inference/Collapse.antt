-- ===== src/Inference/Collapse.antt =====
-- Minima are taken out of the constraints, and constraints of a label with itself are dropped
-- (collapse_constraints to minimize_constraints in transactions/mtl/label_inference.hpp).
use mix_t.Base.{Option, none, some, List, [], ◌∷◌, ◌++◌, String, if◌then◌else◌, ◌>>=◌}
use mix_t.Labels.Order.{LabelOrder}
use mix_t.Labels.Term.{Label, concrete, temp_label, label_min_of, is_same_label}
use mix_t.Inference.Constraints.{MustFlowTo, must_flow_to}

module _ {C : Type 0} ⦃o : LabelOrder C⦄ where
  -- pick_min_match on what find_concrete_label found; `none` is mutils::mismatch.
  unfoldable pub pick_min_match : Option C → Option C → Option C
  pick_min_match none b = b
  pick_min_match a none = a
  pick_min_match (some a) (some b) = if o.flows_to b a then some a else some b

  -- The static_assert that the result is no mutils::mismatch.
  abbrev pub matched : Option C → Option (Option C)
  matched none = none
  matched (some c) = some (some c)

  -- find_concrete_label. The outer `none` is its static_assert: a minimum holds no concrete label.
  unfoldable pub find_concrete_label : Label C → Option (Option C)
  unfolding pick_min_match
  find_concrete_label (concrete c) = some (some c)
  find_concrete_label (temp_label s d) = some none
  find_concrete_label (label_min_of l r) = do
    a ← find_concrete_label l
    b ← find_concrete_label r
    matched (pick_min_match a b)

  -- `pick_min_match(to{}, find_concrete_label(to{}))`: a minimum gives way to the concrete label
  -- found in it, and another label stays.
  unfoldable pub collapse_to : Label C → Option (Label C)
  collapse_to (concrete c) = some (concrete c)
  collapse_to (temp_label s d) = some (temp_label s d)
  collapse_to (label_min_of l r) = do
    found ← find_concrete_label (label_min_of l r)
    c ← found
    some (concrete c)

  -- collapse_constraints for one constraint: a minimum on the left is split.
  unfoldable pub collapse_one : Label C → Label C → String → Option (List (MustFlowTo C))
  collapse_one (label_min_of l r) to why = do
    cl ← collapse_one l to why
    cr ← collapse_one r to why
    some (cl ++ cr)
  collapse_one (concrete c) to why = do
    to' ← collapse_to to
    some (must_flow_to (concrete c) to' why ∷ [])
  collapse_one (temp_label s d) to why = do
    to' ← collapse_to to
    some (must_flow_to (temp_label s d) to' why ∷ [])

  unfoldable pub collapse_constraints : List (MustFlowTo C) → Option (List (MustFlowTo C))
  collapse_constraints [] = some []
  collapse_constraints (c ∷ cs) = do
    c' ← collapse_one c.high c.low c.why
    cs' ← collapse_constraints cs
    some (c' ++ cs')

  unfoldable pub remove_reflexive_constraints : List (MustFlowTo C) → List (MustFlowTo C)
  remove_reflexive_constraints [] = []
  remove_reflexive_constraints (c ∷ cs) =
      if is_same_label c.high c.low
      then remove_reflexive_constraints cs
      else c ∷ remove_reflexive_constraints cs
