-- ===== src/Inference/SolveLaws.antt =====
-- Label inference is sound: the labels that it finds obey the flow discipline
-- (infer_labels_helper1 and infer_labels in transactions/mtl/label_inference.hpp).
use mix_t.Base.{
  String, true, ◌≡◌, ◌≢◌, inl, inr, refl, sym, ◌∙◌, some, List, [], ◌∷◌, length, suc, All, All-Elem,
  All-of_Elem, Elem, >>=-eq-some, some-inj,
}
use mix_t.Labels.Order.{LabelOrder}
use mix_t.Labels.Term.{Label, concrete, temp_label, label_min_of}
use mix_t.Labels.Meaning.{Env, meaning}
use mix_t.Ast.{Statement}
use mix_t.Ast.Surface.{IsSurfaceStatement, relabel_statement}
use mix_t.Inference.Constraints.{MustFlowTo, must_flow_to, collect_statement}
use mix_t.Inference.Satisfied.{Satisfied}
use mix_t.Inference.Flow.{FlowsStatement}
use mix_t.Inference.FlowLaws.{collect_statement_iff}
use mix_t.Inference.ReplaceLaws.{known}
use mix_t.Inference.Collapse.{collapse_constraints}
use mix_t.Inference.CollapseLaws.{IsSimple, collapse_constraints_lem}
use mix_t.Inference.Solve.{
  TypeLists, Solved, minimize_constraints, replace_all_less_than, infer_labels_helper1,
  initial_constraints,
}
use mix_t.Inference.Turn.{
  IsSettled, SettledLow, IsKnownHigh, minimize_All, minimize-Satisfied, of_sort_All,
}
use mix_t.Inference.TurnLaws.{replace_all_less_than-IsTurn}
use mix_t.Inference.Between.{IsAscending, IsBetween, between-IsPrepared, turn-IsBetween}
use mix_t.Inference.Raised.{IsTrusted, raised, raised-IsHigh, raised-IsTrusted}
use mix_t.Inference.Complete.{turn-raised}

module _ {C : Type 0} ⦃o : LabelOrder C⦄ where
  abbrev OpenLabels : Env C → Label C → MustFlowTo C → Type 0
  OpenLabels env (concrete _) c = Unit
  OpenLabels env (temp_label _ _) c = Satisfied env c
  OpenLabels env (label_min_of _ _) c = Satisfied env c

  -- The constraint holds, or its left side is a concrete label.
  abbrev pub IsOpenSatisfied : Env C → MustFlowTo C → Type 0
  IsOpenSatisfied env c = OpenLabels env c.high c

  -- Every temporary label at top.
  abbrev pub all_top : Env C
  all_top i j = o.top

  -- What the turns achieve together.
  pub record IsRun (labels : List C) (s : Statement C) (cs : List (MustFlowTo C)) (r : Solved C)
      : Type 0 where
    pub σ : Env C → Env C
    pub satisfied : (env : Env C) → All (Satisfied env) r.1 → All (Satisfied (σ env)) cs
    pub tree :
        (env : Env C) → relabel_statement (known env) r.0 ≡ relabel_statement (known (σ env)) s
    pub simple : All IsSimple r.1
    pub surface : IsSurfaceStatement r.0
    pub settled : All (λ l. All (IsSettled l) r.1) labels
    pub known_high : All (IsKnownHigh labels) r.1
    pub lowest : (env : Env C) → All (Satisfied env) cs → IsTrusted (σ all_top) env

  module _ (m : TypeLists C) (labels : List C) where
    pub helper1-IsRun :
        (past todo : List C) (s : Statement C) (cs : List (MustFlowTo C)) (r : Solved C)
        → IsBetween labels past todo s cs
        → infer_labels_helper1 m todo s cs ≡ some r
        → IsRun labels s cs r
    unfolding infer_labels_helper1
    helper1-IsRun past [] s cs r b h = rw (sym (some-inj _ r h)) (record {
      σ = λ env. env;
      satisfied = λ env sat. sat;
      tree = λ env. refl;
      simple = b.simple;
      surface = b.surface;
      settled =
          All-of_Elem (λ l. All (IsSettled l) cs) labels
            (λ l mem. elim (b.covers l mem) [
              | inl old ↦ All-Elem (λ x. All (IsSettled x) cs) past l b.settled old
              | inr none_left ↦ absurd none_left
            ]);
      known_high = b.known_high;
      lowest = λ env sat i j. o.top_flows (env i j);
    })
    helper1-IsRun past (l ∷ todo) s cs r b h =
        let (pair, p, q) =
          >>=-eq-some (replace_all_less_than m (suc (length cs)) l s (m.sort cs)) _ h in
        let ready = between-IsPrepared labels past todo l s cs b m in
        let t = replace_all_less_than-IsTurn m l (suc (length cs)) s (m.sort cs) pair ready p in
        let rest =
          helper1-IsRun (l ∷ past) todo pair.0 pair.1 r
            (turn-IsBetween labels past todo l s cs b m pair t) q in
        record {
          σ = λ env. t.σ (rest.σ env);
          satisfied = λ env sat.
              of_sort_All m (Satisfied (t.σ (rest.σ env))) cs
                (t.satisfied (rest.σ env) (rest.satisfied env sat));
          tree = λ env. rest.tree env ∙ t.tree (rest.σ env);
          simple = rest.simple;
          surface = rest.surface;
          settled = rest.settled;
          known_high = rest.known_high;
          lowest = λ env sat i j.
              let (above, left) = turn-raised m l env s cs pair ready sat p in
              o.flows_trans _ (raised l env i j) _
                (t.lowest (raised l env) (rest.σ all_top) (raised-IsHigh l env) above
                  (rest.lowest (raised l env) left) i j)
                (raised-IsTrusted l env i j);
        }

    -- What is left of the constraints holds once the open ones do.
    pub Satisfied-of_open :
        (env : Env C) (cs : List (MustFlowTo C))
        → All (λ l. All (IsSettled l) cs) labels
        → All (IsKnownHigh labels) cs
        → All (IsOpenSatisfied env) cs
        → All (Satisfied env) cs
    unfolding meaning
    Satisfied-of_open env cs settled known_high open_ones =
        All-of_Elem (Satisfied env) cs (λ c mem. one c.high c.low c.why mem)
      where
        flow_of_settled :
            (k : C) (low : Label C) → SettledLow k low → o.flows_to k (meaning env low) ≡ true
        flow_of_settled k (concrete x) h = h
        flow_of_settled k (temp_label _ _) h = absurd h
        flow_of_settled k (label_min_of _ _) h = absurd h

        one :
            (h low : Label C) (w : String)
            → Elem (must_flow_to h low w) cs
            → Satisfied env (must_flow_to h low w)
        one (temp_label x y) low w mem = All-Elem (IsOpenSatisfied env) cs _ open_ones mem
        one (label_min_of x y) low w mem = All-Elem (IsOpenSatisfied env) cs _ open_ones mem
        one (concrete k) low w mem =
            elim (All-Elem (IsKnownHigh labels) cs (must_flow_to (concrete k) low w) known_high
              mem) [
                | inl top ↦ rw top (o.top_flows (meaning env low))
                | inr e ↦ flow_of_settled k low (
                    All-Elem (IsSettled k) cs (must_flow_to (concrete k) low w)
                      (All-Elem (λ l. All (IsSettled l) cs) labels k settled e) mem refl)
              ]

  -- The constraints that infer_labels starts from are simple, and say that the tree obeys the flow
  -- discipline from the top.
  pub initial_constraints_lem :
      (m : TypeLists C) (s : Statement C) (cs : List (MustFlowTo C))
      → initial_constraints m s ≡ some cs
      → ((env : Env C) → All (Satisfied env) cs → FlowsStatement env o.top s)
  unfolding initial_constraints meaning
  initial_constraints_lem m s cs h env sat =
      let (collected, p, q) = >>=-eq-some (collect_statement (concrete o.top) s) _ h in
      let (collapsed, u, v) = >>=-eq-some (collapse_constraints collected) _ q in
      let sat' : All (Satisfied env) (minimize_constraints m collapsed) =
        rw (some-inj _ cs v) sat in
      (collect_statement_iff env (concrete o.top) s collected p).0 (
        (collapse_constraints_lem env collected collapsed u).1
          (minimize-Satisfied m env collapsed sat'))

  initial_constraints-IsSimple :
      (m : TypeLists C) (s : Statement C) (cs : List (MustFlowTo C))
      → initial_constraints m s ≡ some cs
      → All IsSimple cs
  unfolding initial_constraints
  initial_constraints-IsSimple m s cs h =
      let (collected, p, q) = >>=-eq-some (collect_statement (concrete o.top) s) _ h in
      let (collapsed, u, v) = >>=-eq-some (collapse_constraints collected) _ q in
      rw (sym (some-inj _ cs v)) (
        minimize_All m IsSimple collapsed
          (collapse_constraints_lem (λ _ _. o.top) collected collapsed u).0)

  pub start-IsBetween :
      (m : TypeLists C) (labels : List C) (s : Statement C) (cs : List (MustFlowTo C))
      → IsAscending labels
      → IsSurfaceStatement s
      → initial_constraints m s ≡ some cs
      → All (IsKnownHigh labels) cs
      → IsBetween labels [] labels s cs
  start-IsBetween m labels s cs ascending surface h known_high = record {
    simple = initial_constraints-IsSimple m s cs h;
    surface = surface;
    settled = tt;
    known_high = known_high;
    covers = λ l mem. inr mem;
    within = λ l mem. mem;
    ascending = ascending;
    fresh = All-of_Elem (λ l. All (λ d. d ≢ l) []) labels (λ l mem. tt);
  }

  -- Label inference is sound. Where the solver succeeds on the constraints of a tree of the
  -- typechecker, with labels in ascending order among which, but for top, are all concrete left
  -- sides: any assignment for the temporary labels that are left which satisfies the constraints
  -- that are left and come from temporary labels extends to one under which the whole tree obeys
  -- the flow discipline from the top, and the labels of the new tree are those of the old one under it.
  pub infer_labels_sound :
      (m : TypeLists C) (labels : List C) (s : Statement C) (cs : List (MustFlowTo C))
      (r : Solved C) (env : Env C)
      → IsAscending labels
      → IsSurfaceStatement s
      → initial_constraints m s ≡ some cs
      → All (IsKnownHigh labels) cs
      → infer_labels_helper1 m labels s cs ≡ some r
      → All (IsOpenSatisfied env) r.1
      → (env' : Env C) × FlowsStatement env' o.top s
        × (relabel_statement (known env) r.0 ≡ relabel_statement (known env') s)
  infer_labels_sound m labels s cs r env ascending surface h known_high p sat =
      let run =
        helper1-IsRun m labels [] labels s cs r
          (start-IsBetween m labels s cs ascending surface h known_high) p in
      (
        run.σ env,
        initial_constraints_lem m s cs h (run.σ env)
            (run.satisfied env (Satisfied-of_open m labels env r.1 run.settled run.known_high sat)),
        run.tree env,
      )
