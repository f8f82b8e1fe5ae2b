-- ===== src/Inference/Complete.antt =====
-- One turn of the solver over constraints that can be satisfied (replace_all_less_than in
-- transactions/mtl/label_inference.hpp).
use mix_t.Base.{
  some-inj, ℕ, zero, suc, ◌<◌, true, ◌≡◌, refl, sym, ◌∙◌, some, List, [], ◌∷◌, length, All, arith,
  Option, Bool-cases, inl, inr,
}
use mix_t.Labels.Order.{LabelOrder}
use mix_t.Labels.Term.{Label, concrete, temp_label, label_min_of, is_same_label}
use mix_t.Labels.Meaning.{Env, meaning, is_same_label_iff}
use mix_t.Ast.{Statement}
use mix_t.Inference.Constraints.{MustFlowTo, must_flow_to}
use mix_t.Inference.Satisfied.{Satisfied}
use mix_t.Inference.ReplaceLaws.{replace_statement_lem}
use mix_t.Inference.CollapseLaws.{IsSimpleLabel}
use mix_t.Inference.Solve.{
  TypeLists, Solved, keep, substitute, replace_from_label, replace_all_less_than,
}
use mix_t.Inference.SolveFuel.{length-substitute}
use mix_t.Inference.Turn.{minimize_All, sort_All}
use mix_t.Inference.TurnSteps.{IsPrepared, rest-IsPrepared, substituted-IsPrepared}
use mix_t.Inference.Raised.{IsHigh, All-substituted, All-raised, raised, raised-IsHigh}

module _ {C : Type 0} ⦃o : LabelOrder C⦄ (m : TypeLists C) (L : C) (env : Env C)
    (high : IsHigh L env) where
  -- A run that succeeds, and leaves constraints that the assignment satisfies.
  abbrev Succeeds : Option (Solved C) → Type 0
  Succeeds result = (r : Solved C) × (result ≡ some r) × All (Satisfied env) r.1

  keep-Succeeds :
      (c : MustFlowTo C) (r : Solved C)
      → Satisfied env c
      → All (Satisfied env) r.1
      → All (Satisfied env) (keep m c r).1
  keep-Succeeds c r h sat = minimize_All m (Satisfied env) (c ∷ r.1) (h, sat)

  from_label-Succeeds :
      (run : Statement C → List (MustFlowTo C) → Option (Solved C)) (low : Label C)
      (s : Statement C) (c : MustFlowTo C) (cs : List (MustFlowTo C))
      → ((s' : Statement C) (ks : List (MustFlowTo C))
          → IsPrepared L s' ks
          → length ks ≡ length cs
          → All (Satisfied env) ks
          → Succeeds (run s' ks))
      → IsPrepared L s (c ∷ cs)
      → IsSimpleLabel low
      → o.flows_to L (meaning env low) ≡ true
      → Satisfied env c
      → All (Satisfied env) cs
      → Succeeds (replace_from_label m run L s c cs low)
  unfolding replace_from_label meaning
  from_label-Succeeds run (label_min_of _ _) s c cs ih p simple flows h sat = absurd simple
  from_label-Succeeds run (concrete k) s c cs ih p simple flows h sat =
      let (r, e, left) = ih s cs (rest-IsPrepared m L s c cs p) refl sat in
      (keep m c r, rw (e, flows) refl, keep-Succeeds c r h left)
  from_label-Succeeds run (temp_label a b) s c cs ih p simple flows h sat =
      let (s', q, surf, _, same) = replace_statement_lem a b L s p.surface in
      let is_l = o.flows_antisym (env a b) L (high a b) flows in
      let ks = substitute (concrete L) (temp_label a b) cs in
      let (r, e, left) =
        ih s' (m.sort ks) (substituted-IsPrepared m L a b s s' c cs p surf)
          (m.length-sort ks ∙ length-substitute m L (concrete L) (temp_label a b) cs)
          (sort_All m (Satisfied env) ks (All-substituted L env a b cs is_l p.simple.1 sat)) in
      let trivial = must_flow_to (concrete L) (concrete L) "this seems wrong" in
      (keep m trivial r, rw (q, e) refl, keep-Succeeds trivial r (o.flows_refl L) left)

  -- A turn succeeds on constraints that such an assignment satisfies.
  pub replace_all_less_than-Succeeds :
      (f : ℕ) (s : Statement C) (cs : List (MustFlowTo C))
      → IsPrepared L s cs
      → length cs < f
      → All (Satisfied env) cs
      → Succeeds (replace_all_less_than m f L s cs)
  unfolding replace_all_less_than meaning
  replace_all_less_than-Succeeds zero s cs p n sat = absurd (omega arith)
  replace_all_less_than-Succeeds (suc f) s [] p n sat = ((s, []), refl, tt)
  replace_all_less_than-Succeeds (suc f) s (c ∷ cs) p n sat =
      elim (Bool-cases (is_same_label c.high (concrete L))) [
        | inl e ↦
            let same = (is_same_label_iff c.high (concrete L)).0 e in
            rw (e, replace_all_less_than)
              (from_label-Succeeds (replace_all_less_than m f L) c.low s c cs
                (λ s' ks p' l sat'. replace_all_less_than-Succeeds f s' ks p' (omega arith) sat') p
                p.simple.0.1 (rw same at sat.0) sat.0 sat.1)
        | inr e ↦
            let (r, q, left) =
              replace_all_less_than-Succeeds f s cs (rest-IsPrepared m L s c cs p) (omega arith)
                sat.1 in
            (keep m c r, rw (e, replace_all_less_than, q) refl, keep-Succeeds c r sat.0 left)
      ]

module _ {C : Type 0} ⦃o : LabelOrder C⦄ (m : TypeLists C) (L : C) (env : Env C) where
  -- The constraints that a turn leaves are satisfied by the raised assignment.
  pub turn-raised :
      (s : Statement C) (cs : List (MustFlowTo C)) (r : Solved C)
      → IsPrepared L s (m.sort cs)
      → All (Satisfied env) cs
      → replace_all_less_than m (suc (length cs)) L s (m.sort cs) ≡ some r
      → All (Satisfied (raised L env)) (m.sort cs) × All (Satisfied (raised L env)) r.1
  turn-raised s cs r p sat e =
      let above =
        All-raised L env (m.sort cs) p.simple p.ready (sort_All m (Satisfied env) cs sat) in
      let n = m.length-sort cs in
      let (r', e', left) =
        replace_all_less_than-Succeeds m L (raised L env) (raised-IsHigh L env) (suc (length cs)) s
          (m.sort cs) p (omega arith) above in
      let same : r' ≡ r = some-inj _ _ (sym e' ∙ e) in (above, rw (← same) left)
