-- ===== src/Inference/Solve.antt =====
-- The solver of label inference: replace_all_less_than, infer_labels_helper1 and infer_labels
-- (transactions/mtl/label_inference.hpp). Sorting and duplicate removal on type lists belong to the
-- mutils submodule, and are parameters.
use mix_t.Base.{
  ℕ, zero, suc, Bool, true, false, ◌≡◌, ◌↔◌, Option, none, some, List, [], ◌∷◌, length, ltb, Elem,
  if◌then◌else◌, ◌>>=◌,
}
use mix_t.Labels.Order.{LabelOrder}
use mix_t.Labels.Term.{Label, concrete, temp_label, label_min_of, is_same_label}
use mix_t.Ast.{Statement}
use mix_t.Ast.Collect.{LabelSets, collect_labels}
use mix_t.Inference.Constraints.{MustFlowTo, must_flow_to, collect_statement}
use mix_t.Inference.Replace.{replace_statement}
use mix_t.Inference.Collapse.{collapse_constraints, remove_reflexive_constraints}

-- less_than on two temporary labels.
abbrev pub less_than_temp : ℕ → ℕ → ℕ → ℕ → Bool
less_than_temp l1 l2 r1 r2 = if ltb l1 r1 then true else ltb l2 r2

module _ {C : Type 0} ⦃o : LabelOrder C⦄ where
  -- less_than. Collapsed constraints hold no minimum, which has no flows_to.
  unfoldable pub less_than : Label C → Label C → Option Bool
  less_than (temp_label l1 l2) (temp_label r1 r2) = some (less_than_temp l1 l2 r1 r2)
  less_than l (temp_label l1 l2) = some true
  less_than (temp_label l1 l2) l = some false
  less_than (concrete a) (concrete b) = some (o.flows_to b a)
  less_than _ _ = none

  abbrev pub is_temp_label : Label C → Bool
  is_temp_label (temp_label s d) = true
  is_temp_label (concrete _) = false
  is_temp_label (label_min_of _ _) = false

  -- must_flow_to::lte, the order that the constraints are sorted by.
  unfoldable pub lte : MustFlowTo C → MustFlowTo C → Option Bool
  lte a b =
      if is_temp_label a.high
      then (if is_temp_label b.high then less_than a.low b.low else some false)
      else if is_temp_label b.high
      then some true
      else do first ← less_than a.high b.high; if first then some true else less_than a.low b.low

  -- The second constraint belongs in front of the first one, and not the other way round.
  abbrev pub IsInverted : MustFlowTo C → MustFlowTo C → Type 0
  IsInverted a b = (lte a b ≡ some false) × (lte b a ≡ some true)

  -- No neighbours are inverted.
  abbrev pub IsPlaced : List (MustFlowTo C) → Type 0
  IsPlaced [] = Unit
  IsPlaced (a ∷ []) = Unit
  IsPlaced (a ∷ (b ∷ cs)) = ¬ IsInverted a b × IsPlaced (b ∷ cs)

-- What the solver uses of mutils: typelist::sort over lte, and typeset::add, which drops
-- duplicates.
pub record TypeLists (C : Type 0) ⦃o : LabelOrder C⦄ : Type 0 where
  pub sort : List (MustFlowTo C) → List (MustFlowTo C)
  pub add_all : List (MustFlowTo C) → List (MustFlowTo C)
  pub sort-Elem : (c : MustFlowTo C) (cs : List (MustFlowTo C)) → Elem c (sort cs) ↔ Elem c cs
  pub length-sort : (cs : List (MustFlowTo C)) → length (sort cs) ≡ length cs
  pub sort-IsPlaced : (cs : List (MustFlowTo C)) → IsPlaced (sort cs)
  pub add_all-Elem : (c : MustFlowTo C) (cs : List (MustFlowTo C)) → Elem c (add_all cs) ↔ Elem c cs

module _ {C : Type 0} ⦃o : LabelOrder C⦄ where
  -- `std::conditional_t<std::is_same<oldl, high>::value, newl, high>`.
  abbrev pub substitute_label : Label C → Label C → Label C → Label C
  substitute_label newl oldl l = if is_same_label oldl l then newl else l

  abbrev pub substitute_one : Label C → Label C → MustFlowTo C → MustFlowTo C
  substitute_one newl oldl c =
      must_flow_to (substitute_label newl oldl c.high) (substitute_label newl oldl c.low) c.why

  abbrev pub substitute : Label C → Label C → List (MustFlowTo C) → List (MustFlowTo C)
  substitute newl oldl [] = []
  substitute newl oldl (c ∷ cs) = substitute_one newl oldl c ∷ substitute newl oldl cs

-- What replace_all_less_than returns: the tree and the constraints that are left.
abbrev pub Solved : Type 0 → Type 0
Solved C = Statement C × List (MustFlowTo C)

module _ {C : Type 0} ⦃o : LabelOrder C⦄ (m : TypeLists C) where
  unfoldable pub minimize_constraints : List (MustFlowTo C) → List (MustFlowTo C)
  minimize_constraints cs = remove_reflexive_constraints (m.add_all cs)

  abbrev pub keep : MustFlowTo C → Solved C → Solved C
  keep c (s, cs) = (s, minimize_constraints (c ∷ cs))

  -- The overloads of replace_all_less_than for a first constraint from the label whose turn it is,
  -- by its right side. `rest` is the recursive call.
  unfoldable pub replace_from_label :
      (Statement C → List (MustFlowTo C) → Option (Solved C))
      → C
      → Statement C
      → MustFlowTo C
      → List (MustFlowTo C)
      → Label C
      → Option (Solved C)
  replace_from_label rest label s c cs (temp_label to1 to2) = do
    new_ast ← replace_statement to1 to2 label s
    intermediate ← rest new_ast (m.sort (substitute (concrete label) (temp_label to1 to2) cs))
    some (keep (must_flow_to (concrete label) (concrete label) "this seems wrong") intermediate)
  replace_from_label rest label s c cs (concrete to) = do
    intermediate ← rest s cs
    if o.flows_to label to then some (keep c intermediate) else none
  replace_from_label rest label s c cs (label_min_of l r) = none

  -- replace_all_less_than<ast, label>. `none` is a flow violation, or a tree or a constraint for
  -- which it does not compile, or the end of the fuel.
  unfoldable pub replace_all_less_than :
      ℕ → C → Statement C → List (MustFlowTo C) → Option (Solved C)
  replace_all_less_than zero label s cs = none
  replace_all_less_than (suc f) label s [] = some (s, [])
  replace_all_less_than (suc f) label s (c ∷ cs) = elim (is_same_label c.high (concrete label)) [
    | true ↦ replace_from_label (replace_all_less_than f label) label s c cs c.low
    | false ↦ do intermediate ← replace_all_less_than f label s cs; some (keep c intermediate)
  ]

  -- infer_labels_helper1: each concrete label has its turn.
  unfoldable pub infer_labels_helper1 :
      List C → Statement C → List (MustFlowTo C) → Option (Solved C)
  infer_labels_helper1 [] s cs = some (s, cs)
  infer_labels_helper1 (label1 ∷ labels) s cs = do
    pair ← replace_all_less_than (suc (length cs)) label1 s (m.sort cs)
    infer_labels_helper1 labels pair.0 pair.1

  -- The constraints that infer_labels starts from.
  unfoldable pub initial_constraints : Statement C → Option (List (MustFlowTo C))
  initial_constraints s = do
    collected ← collect_statement (concrete o.top) s
    collapsed ← collapse_constraints collected
    some (minimize_constraints collapsed)

  -- infer_labels. sort_labels is as_sorted_list of mutils, by label_lte.
  unfoldable pub infer_labels :
      LabelSets C → (List (Label C) → List C) → Statement C → Option (Statement C)
  infer_labels sets sort_labels s = do
    constraints ← initial_constraints s
    solved ← infer_labels_helper1 (sort_labels (collect_labels sets s)) s constraints
    some solved.0
