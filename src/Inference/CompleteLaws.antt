-- ===== src/Inference/CompleteLaws.antt =====
-- When the solver succeeds (infer_labels_helper1 and infer_labels in transactions/mtl/label_inference.hpp).
use mix_t.Base.{
  suc, String, sym, ◌∙◌, some-inj, >>=-eq-some, ◌≡◌, ◌↔◌, refl, some, List, [], ◌∷◌, length, All,
  arith,
}
use mix_t.Labels.Order.{LabelOrder}
use mix_t.Labels.Term.{Label, concrete, temp_label, label_min_of}
use mix_t.Labels.Meaning.{Env, meaning}
use mix_t.Ast.{Statement}
use mix_t.Ast.Collect.{LabelSets, collect_labels}
use mix_t.Ast.Surface.{IsSurfaceStatement, relabel_statement}
use mix_t.Inference.Constraints.{MustFlowTo, must_flow_to}
use mix_t.Inference.Satisfied.{Satisfied}
use mix_t.Inference.Flow.{FlowsStatement}
use mix_t.Inference.ReplaceLaws.{known}
use mix_t.Inference.CollapseLaws.{IsSimple}
use mix_t.Inference.Solve.{
  TypeLists, Solved, infer_labels_helper1, initial_constraints, infer_labels,
}
use mix_t.Inference.Turn.{IsKnownHigh, sort_All}
use mix_t.Inference.TurnLaws.{replace_all_less_than-IsTurn}
use mix_t.Inference.Between.{IsAscending, IsBetween, between-IsPrepared, turn-IsBetween}
use mix_t.Inference.SolveLaws.{
  initial_constraints_lem, all_top, IsOpenSatisfied, helper1-IsRun, Satisfied-of_open,
  start-IsBetween,
}
use mix_t.Inference.Raised.{IsTrusted, raised, raised-IsHigh, All-raised}
use mix_t.Inference.Complete.{replace_all_less_than-Succeeds}

module _ {C : Type 0} ⦃o : LabelOrder C⦄ where
  module _ (m : TypeLists C) (labels : List C) where
    -- For each label in turn the assignment is raised to it.
    turns_succeed :
        (past todo : List C) (s : Statement C) (cs : List (MustFlowTo C)) (env : Env C)
        → IsBetween labels past todo s cs
        → All (Satisfied env) cs
        → (r : Solved C) × (infer_labels_helper1 m todo s cs ≡ some r)
    unfolding infer_labels_helper1
    turns_succeed past [] s cs env b sat = ((s, cs), refl)
    turns_succeed past (l ∷ todo) s cs env b sat =
        let p = between-IsPrepared labels past todo l s cs b m in
        let above =
          All-raised l env (m.sort cs) p.simple p.ready (sort_All m (Satisfied env) cs sat) in
        let n = m.length-sort cs in
        let (pair, e, left) =
          replace_all_less_than-Succeeds m l (raised l env) (raised-IsHigh l env) (suc (length cs))
            s (m.sort cs) p (omega arith) above in
        let t = replace_all_less_than-IsTurn m l (suc (length cs)) s (m.sort cs) pair p e in
        let (r, f) =
          turns_succeed (l ∷ past) todo pair.0 pair.1 (raised l env)
            (turn-IsBetween labels past todo l s cs b m pair t) left in
        (r, rw (e, f) refl)

  -- Every temporary label at top satisfies what is left open.
  top-IsOpenSatisfied :
      (h l : Label C) (w : String)
      → IsSimple (must_flow_to h l w)
      → IsOpenSatisfied all_top (must_flow_to h l w)
  unfolding meaning
  top-IsOpenSatisfied (concrete k) l w s = tt
  top-IsOpenSatisfied (temp_label x y) l w s = o.top_flows (meaning all_top l)
  top-IsOpenSatisfied (label_min_of _ _) l w s = absurd s.0

  All-IsOpenSatisfied :
      (cs : List (MustFlowTo C)) → All IsSimple cs → All (IsOpenSatisfied all_top) cs
  All-IsOpenSatisfied [] s = tt
  All-IsOpenSatisfied (c ∷ cs) s =
      (top-IsOpenSatisfied c.high c.low c.why s.0, All-IsOpenSatisfied cs s.1)

  -- On the constraints of a surface tree, given labels in ascending order that hold every concrete
  -- left side but top, the solver succeeds exactly when some assignment of concrete labels to the
  -- temporary ones satisfies the constraints.
  infer_labels_helper1_iff :
      (m : TypeLists C) (labels : List C) (s : Statement C) (cs : List (MustFlowTo C))
      → IsAscending labels
      → IsSurfaceStatement s
      → initial_constraints m s ≡ some cs
      → All (IsKnownHigh labels) cs
      → ((r : Solved C) × (infer_labels_helper1 m labels s cs ≡ some r))
        ↔ ((env : Env C) × All (Satisfied env) cs)
  infer_labels_helper1_iff m labels s cs ascending surface h known_high =
      let b = start-IsBetween m labels s cs ascending surface h known_high in
      (
        λ x.
            let run = helper1-IsRun m labels [] labels s cs x.0 b x.1 in
            (
              run.σ all_top,
              run.satisfied all_top (
                  Satisfied-of_open m labels all_top x.0.1 run.settled run.known_high
                    (All-IsOpenSatisfied x.0.1 run.simple)),
            ),
        λ y. turns_succeed m labels [] labels s cs y.0 b y.1,
      )

  -- On a surface tree whose constraints collapse, and whose sorted labels are in ascending order and
  -- hold every concrete left side but top, infer_labels returns a tree exactly when some assignment
  -- of concrete labels to the temporary ones satisfies the constraints.
  pub infer_labels_iff :
      (m : TypeLists C) (sets : LabelSets C) (sort_labels : List (Label C) → List C)
      (s : Statement C) (cs : List (MustFlowTo C))
      → IsAscending (sort_labels (collect_labels sets s))
      → IsSurfaceStatement s
      → initial_constraints m s ≡ some cs
      → All (IsKnownHigh (sort_labels (collect_labels sets s))) cs
      → ((s' : Statement C) × (infer_labels m sets sort_labels s ≡ some s'))
        ↔ ((env : Env C) × All (Satisfied env) cs)
  unfolding infer_labels
  infer_labels_iff m sets sort_labels s cs ascending surface h known_high =
      let labels = sort_labels (collect_labels sets s) in
      let (to, from) = infer_labels_helper1_iff m labels s cs ascending surface h known_high in
      (
        λ x.
            let (cs', p, q) = >>=-eq-some (initial_constraints m s) _ x.1 in
            let (r, u, v) = >>=-eq-some (infer_labels_helper1 m labels s cs') _ q in
            let same : cs' ≡ cs = some-inj _ _ (sym p ∙ h) in to (r, rw (← same) u),
        λ y. let (r, e) = from y in (r.0, rw (h, e) refl),
      )

  -- On a surface tree whose constraints collapse, and whose sorted labels are in ascending order and
  -- hold every concrete left side but top: where infer_labels returns a tree, it has the labels of
  -- an assignment that satisfies the constraints and under which the given tree obeys the flow
  -- discipline from the top, with top for the temporary labels that are left in it; and each label
  -- of that assignment flows to the one of any other that satisfies the constraints.
  pub infer_labels_best :
      (m : TypeLists C) (sets : LabelSets C) (sort_labels : List (Label C) → List C)
      (s s' : Statement C) (cs : List (MustFlowTo C))
      → IsAscending (sort_labels (collect_labels sets s))
      → IsSurfaceStatement s
      → initial_constraints m s ≡ some cs
      → All (IsKnownHigh (sort_labels (collect_labels sets s))) cs
      → infer_labels m sets sort_labels s ≡ some s'
      → (best : Env C) × All (Satisfied best) cs
        × FlowsStatement best o.top s
        × (relabel_statement (known all_top) s' ≡ relabel_statement (known best) s)
        × ((env : Env C) → All (Satisfied env) cs → IsTrusted best env)
  unfolding infer_labels
  infer_labels_best m sets sort_labels s s' cs ascending surface h known_high solved =
      let labels = sort_labels (collect_labels sets s) in
      let (cs', p, q) = >>=-eq-some (initial_constraints m s) _ solved in
      let (r, u, v) = >>=-eq-some (infer_labels_helper1 m labels s cs') _ q in
      let same : cs' ≡ cs = some-inj _ _ (sym p ∙ h) in
      let b = start-IsBetween m labels s cs ascending surface h known_high in
      let run = helper1-IsRun m labels [] labels s cs r b (rw (← same) u) in
      let sat = run.satisfied all_top (
        Satisfied-of_open m labels all_top r.1 run.settled run.known_high
          (All-IsOpenSatisfied r.1 run.simple)) in
      (
        run.σ all_top,
        sat,
        initial_constraints_lem m s cs h (run.σ all_top) sat,
        rw (← some-inj _ _ v) (run.tree all_top),
        run.lowest,
      )
