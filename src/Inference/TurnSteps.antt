-- ===== src/Inference/TurnSteps.antt =====
-- The constraints that one turn of the solver keeps or replaces (replace_from_label in
-- transactions/mtl/label_inference.hpp).
use mix_t.Base.{
  ℕ, String, true, ◌≡◌, ◌≢◌, ◌⊎◌, inl, inr, sym, ap, ◌∙◌, List, ◌∷◌, All, Elem, Bool-cases, arith,
}
use mix_t.Labels.Order.{LabelOrder}
use mix_t.Labels.Term.{Label, concrete, temp_label, label_min_of}
use mix_t.Labels.Meaning.{Env, meaning}
use mix_t.Labels.Replace.{assign, is_target}
use mix_t.Ast.{Statement}
use mix_t.Ast.Surface.{IsSurfaceStatement, relabel_statement}
use mix_t.Inference.Constraints.{MustFlowTo, must_flow_to}
use mix_t.Inference.Satisfied.{Satisfied}
use mix_t.Inference.ReplaceLaws.{known}
use mix_t.Inference.CollapseLaws.{IsSimple}
use mix_t.Inference.Solve.{TypeLists, Solved, keep, substitute}
use mix_t.Inference.Turn.{
  IsTemp, IsTempHigh, ConcreteFirst, ConcreteFirst-IsPlaced, IsReady, IsSettled, IsKnownHigh,
  substitute-IsSimple, substitute-Satisfied, substitute-IsReady, substitute-IsSettled,
  substitute-IsKnownHigh, minimize_All, minimize-Satisfied, sort_All, of_sort_All,
}
use mix_t.Inference.Raised.{IsHigh, IsTrusted, All-substituted}

module _ {C : Type 0} ⦃o : LabelOrder C⦄ (L : C) where
  -- The state in which a turn of the label `L` may start.
  pub record IsPrepared (s : Statement C) (cs : List (MustFlowTo C)) : Type 0 where
    pub simple : All IsSimple cs
    pub ordered : ConcreteFirst cs
    pub ready : All (IsReady L) cs
    pub surface : IsSurfaceStatement s

  -- What a turn of `L` leads to. `σ` turns an assignment for the temporary labels that are left
  -- into one for those at the start.
  pub record IsTurn (s : Statement C) (cs : List (MustFlowTo C)) (r : Solved C) : Type 0 where
    pub σ : Env C → Env C
    pub satisfied : (env : Env C) → All (Satisfied env) r.1 → All (Satisfied (σ env)) cs
    pub tree :
        (env : Env C) → relabel_statement (known env) r.0 ≡ relabel_statement (known (σ env)) s
    pub assigns : (env : Env C) (i j : ℕ) → (σ env i j ≡ env i j) ⊎ (σ env i j ≡ L)
    pub idle : All IsTempHigh cs → (env : Env C) → σ env ≡ env
    pub surface : IsSurfaceStatement r.0
    pub simple : All IsSimple r.1
    pub settled : All (IsSettled L) r.1
    pub keeps_settled : (l : C) → l ≢ L → All (IsSettled l) cs → All (IsSettled l) r.1
    pub keeps_known :
        (labels : List C)
        → Elem L labels
        → All (IsKnownHigh labels) cs
        → All (IsKnownHigh labels) r.1
    -- What is more trusted than an assignment that satisfies the constraints stays so.
    pub lowest :
        (env x : Env C)
        → IsHigh L env
        → All (Satisfied env) cs
        → IsTrusted x env
        → IsTrusted (σ x) env

module _ {C : Type 0} ⦃o : LabelOrder C⦄ (m : TypeLists C) (L : C) where
  -- A constraint that is kept for later still holds under `σ`.
  kept-Satisfied :
      (h l : Label C) (w : String) (σ : Env C → Env C)
      → IsSimple (must_flow_to h l w)
      → IsReady L (must_flow_to h l w)
      → ((env : Env C) (i j : ℕ) → (σ env i j ≡ env i j) ⊎ (σ env i j ≡ L))
      → (IsTemp h → (env : Env C) → σ env ≡ env)
      → (env : Env C) → Satisfied env (must_flow_to h l w)
      → Satisfied (σ env) (must_flow_to h l w)
  unfolding meaning
  kept-Satisfied (concrete k) (concrete k') w σ s r a i env h = h
  kept-Satisfied (concrete k) (temp_label x y) w σ s r a i env h = elim (a env x y) [
    | inl e ↦ rw e h
    | inr e ↦ rw e r
  ]
  kept-Satisfied (concrete k) (label_min_of _ _) w σ s r a i env h = absurd s.1
  kept-Satisfied (temp_label x y) l w σ s r a i env h = rw (i tt env) h
  kept-Satisfied (label_min_of _ _) l w σ s r a i env h = absurd s.0

  pub IsSettled-flow :
      (k : C) (w : String)
      → o.flows_to L k ≡ true
      → IsSettled L (must_flow_to (concrete L) (concrete k) w)
  IsSettled-flow k w h = λ _. h

  pub IsSettled-other :
      (h l : Label C) (w : String) → h ≢ concrete L → IsSettled L (must_flow_to h l w)
  IsSettled-other (concrete k) l w ne = λ e. absurd (ne (ap concrete e))
  IsSettled-other (temp_label a b) l w ne = tt
  IsSettled-other (label_min_of a b) l w ne = tt

  -- A constraint at the front that is kept behind what the rest of the turn leaves.
  pub IsTurn-keep :
      (h l : Label C) (w : String) (s : Statement C) (cs : List (MustFlowTo C)) (r : Solved C)
      → IsPrepared L s (must_flow_to h l w ∷ cs)
      → IsSettled L (must_flow_to h l w)
      → IsTurn L s cs r
      → IsTurn L s (must_flow_to h l w ∷ cs) (keep m (must_flow_to h l w) r)
  IsTurn-keep h l w s cs r p settled t = record {
    σ = t.σ;
    satisfied = λ env sat.
        let both = minimize-Satisfied m env (must_flow_to h l w ∷ r.1) sat in
        (
          kept-Satisfied h l w t.σ p.simple.0 p.ready.0 t.assigns
              (λ temp. t.idle (p.ordered.0 temp)) env both.0,
          t.satisfied env both.1,
        );
    tree = t.tree;
    assigns = t.assigns;
    idle = λ temps. t.idle temps.1;
    surface = t.surface;
    simple = minimize_All m IsSimple (must_flow_to h l w ∷ r.1) (p.simple.0, t.simple);
    settled = minimize_All m (IsSettled L) (must_flow_to h l w ∷ r.1) (settled, t.settled);
    keeps_settled = λ k ne all.
        minimize_All m (IsSettled k) (must_flow_to h l w ∷ r.1) (all.0, t.keeps_settled k ne all.1);
    keeps_known = λ labels mem all.
        minimize_All m (IsKnownHigh labels) (must_flow_to h l w ∷ r.1)
          (all.0, t.keeps_known labels mem all.1);
    lowest = λ env x high sat trusted. t.lowest env x high sat.1 trusted;
  }

  pub rest-IsPrepared :
      (s : Statement C) (c : MustFlowTo C) (cs : List (MustFlowTo C))
      → IsPrepared L s (c ∷ cs)
      → IsPrepared L s cs
  rest-IsPrepared s c cs p = record {
    simple = p.simple.1;
    ordered = p.ordered.1;
    ready = p.ready.1;
    surface = p.surface;
  }

  pub substituted-IsPrepared :
      (a b : ℕ) (s s' : Statement C) (c : MustFlowTo C) (cs : List (MustFlowTo C))
      → IsPrepared L s (c ∷ cs)
      → IsSurfaceStatement s'
      → IsPrepared L s' (m.sort (substitute (concrete L) (temp_label a b) cs))
  substituted-IsPrepared a b s s' c cs p surf =
      let ks = substitute (concrete L) (temp_label a b) cs in
      let simple = sort_All m IsSimple ks (substitute-IsSimple L a b cs p.simple.1) in
      record {
        simple = simple;
        ordered = ConcreteFirst-IsPlaced (m.sort ks) simple (m.sort-IsPlaced ks);
        ready = sort_All m (IsReady L) ks (substitute-IsReady L a b cs p.ready.1);
        surface = surf;
      }

  -- A constraint to a temporary label, which becomes `L`.
  pub IsTurn-substitute :
      (a b : ℕ) (w : String) (s s' : Statement C) (cs : List (MustFlowTo C)) (r : Solved C)
      → IsPrepared L s (must_flow_to (concrete L) (temp_label a b) w ∷ cs)
      → ((env : Env C)
          → relabel_statement (known env) s' ≡ relabel_statement (known (assign a b L env)) s)
      → IsTurn L s' (m.sort (substitute (concrete L) (temp_label a b) cs)) r
      → IsTurn L s
          (must_flow_to (concrete L) (temp_label a b) w ∷ cs)
          (keep m (must_flow_to (concrete L) (concrete L) "this seems wrong") r)
  unfolding meaning
  IsTurn-substitute a b w s s' cs r p same t =
      let ks = substitute (concrete L) (temp_label a b) cs in
      let trivial : MustFlowTo C = must_flow_to (concrete L) (concrete L) "this seems wrong" in
      record {
        σ = λ env. assign a b L (t.σ env);
        satisfied = λ env sat. (
          ground (arith, o.flows_refl L),
          substitute-Satisfied L a b (t.σ env) cs p.simple.1 (
              of_sort_All m (Satisfied (t.σ env)) ks
                (t.satisfied env (minimize-Satisfied m env (trivial ∷ r.1) sat).1)),
        );
        tree = λ env. t.tree env ∙ same (t.σ env);
        assigns = λ env i j. elim (Bool-cases (is_target a b i j)) [
          | inl e ↦ inr (rw e)
          | inr e ↦ rw e (t.assigns env i j)
        ];
        idle = λ temps. absurd temps.0;
        surface = t.surface;
        simple = minimize_All m IsSimple (trivial ∷ r.1) ((tt, tt), t.simple);
        settled =
            minimize_All m (IsSettled L) (trivial ∷ r.1)
              (IsSettled-flow L "" (o.flows_refl L), t.settled);
        keeps_settled = λ k ne all. minimize_All m (IsSettled k) (trivial ∷ r.1) (
          λ e. absurd (ne (sym e)),
          t.keeps_settled k ne
              (sort_All m (IsSettled k) ks (substitute-IsSettled L a b k cs ne all.1)),
        );
        keeps_known = λ labels mem all. minimize_All m (IsKnownHigh labels) (trivial ∷ r.1) (
          inr mem,
          t.keeps_known labels mem (
              sort_All m (IsKnownHigh labels) ks
                (substitute-IsKnownHigh L a b labels cs mem all.1)),
        );
        lowest = λ env x high sat trusted i j. elim (Bool-cases (is_target a b i j)) [
          | inl e ↦
              let f : a ≡ i = ground arith in let g : b ≡ j = ground arith in rw (e, ← f, ← g) sat.0
          | inr e ↦ rw e (
              t.lowest env x high
                (sort_All m (Satisfied env) ks (
                  All-substituted L env a b cs (o.flows_antisym (env a b) L (high a b) sat.0)
                    p.simple.1 sat.1))
                trusted i j)
        ];
      }
