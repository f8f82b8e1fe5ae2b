-- ===== src/Inference/TurnLaws.antt =====
-- What one turn of the solver achieves (replace_all_less_than in
-- transactions/mtl/label_inference.hpp).
use mix_t.Base.{
  ℕ, zero, suc, String, false, ◌≡◌, ◌≢◌, inl, inr, refl, sym, subst, ◌∙◌, Option, none, some, List,
  [], ◌∷◌, Bool-cases, >>=-eq-some, some-inj,
}
use mix_t.Labels.Order.{LabelOrder}
use mix_t.Labels.Term.{Label, concrete, temp_label, label_min_of, is_same_label}
use mix_t.Labels.Meaning.{is_same_label_iff}
use mix_t.Ast.{Statement}
use mix_t.Inference.Constraints.{MustFlowTo, must_flow_to}
use mix_t.Inference.ReplaceLaws.{replace_statement_lem}
use mix_t.Inference.Replace.{replace_statement}
use mix_t.Inference.Solve.{
  TypeLists, Solved, keep, substitute, replace_from_label, replace_all_less_than,
}
use mix_t.Inference.TurnSteps.{
  IsPrepared, IsTurn, IsSettled-flow, IsSettled-other, IsTurn-keep, rest-IsPrepared,
  substituted-IsPrepared, IsTurn-substitute,
}

module _ {C : Type 0} ⦃o : LabelOrder C⦄ (m : TypeLists C) (L : C) where
  -- A turn on every prepared state.
  abbrev Turns : (Statement C → List (MustFlowTo C) → Option (Solved C)) → Type 0
  Turns run =
      (s : Statement C) (cs : List (MustFlowTo C)) (r : Solved C)
      → IsPrepared L s cs
      → run s cs ≡ some r
      → IsTurn L s cs r

  IsTurn-from_label :
      (run : Statement C → List (MustFlowTo C) → Option (Solved C)) (low : Label C) (w : String)
      (s : Statement C) (cs : List (MustFlowTo C)) (r : Solved C)
      → Turns run
      → IsPrepared L s (must_flow_to (concrete L) low w ∷ cs)
      → replace_from_label m run L s (must_flow_to (concrete L) low w) cs low ≡ some r
      → IsTurn L s (must_flow_to (concrete L) low w ∷ cs) r
  unfolding replace_from_label
  IsTurn-from_label run (temp_label a b) w s cs r ih p h =
      let (s', q, surf, _, same) = replace_statement_lem a b L s p.surface in
      let (s'', e, f) = >>=-eq-some (replace_statement a b L s) _ h in
      let sorted = m.sort (substitute (concrete L) (temp_label a b) cs) in
      let (t, u, v) = >>=-eq-some (run s'' sorted) _ f in
      let s''-eq : s'' ≡ s' = some-inj s'' s' (sym e ∙ q) in
      let u' : run s' sorted ≡ some t = rw (← s''-eq) u in
      rw (sym (some-inj _ r v)) (
        IsTurn-substitute m L a b w s s' cs t p same
          (ih s' sorted t (substituted-IsPrepared m L a b s s' _ cs p surf) u'))
  IsTurn-from_label run (concrete k) w s cs r ih p h =
      let (t, u, v) = >>=-eq-some (run s cs) _ h in
      elim (Bool-cases (o.flows_to L k)) [
        | inl e ↦
            let v' : some (keep m (must_flow_to (concrete L) (concrete k) w) t) ≡ some r =
              rw e at v in
            rw (sym (some-inj _ r v')) (
              IsTurn-keep m L (concrete L) (concrete k) w s cs t p (IsSettled-flow m L k w e)
                (ih s cs t (rest-IsPrepared m L s _ cs p) u))
        | inr e ↦ let v' : none ≡ some r = rw e at v in cc
      ]
  IsTurn-from_label run (label_min_of _ _) w s cs r ih p h = cc

  not_same : (l : Label C) → is_same_label l (concrete L) ≡ false → l ≢ concrete L
  not_same l e same = let e' = (is_same_label_iff l (concrete L)).1 same in cc

  IsTurn-first :
      (run : Statement C → List (MustFlowTo C) → Option (Solved C)) (high low : Label C)
      (w : String) (s : Statement C) (cs : List (MustFlowTo C)) (r : Solved C)
      → Turns run
      → high ≡ concrete L
      → IsPrepared L s (must_flow_to high low w ∷ cs)
      → replace_from_label m run L s (must_flow_to high low w) cs low ≡ some r
      → IsTurn L s (must_flow_to high low w ∷ cs) r
  IsTurn-first run high low w s cs r ih e =
      subst
        (λ hh.
          IsPrepared L s (must_flow_to hh low w ∷ cs)
          → replace_from_label m run L s (must_flow_to hh low w) cs low ≡ some r
          → IsTurn L s (must_flow_to hh low w ∷ cs) r)
        (sym e) (IsTurn-from_label run low w s cs r ih)

  -- Where it succeeds, replace_all_less_than has made a turn.
  pub replace_all_less_than-IsTurn : (f : ℕ) → Turns (replace_all_less_than m f L)
  unfolding replace_all_less_than
  replace_all_less_than-IsTurn zero s cs r p h = cc
  replace_all_less_than-IsTurn (suc f) s [] r p h = rw (sym (some-inj _ r h)) (record {
    σ = λ env. env;
    satisfied = λ env sat. tt;
    tree = λ env. refl;
    assigns = λ env i j. inl refl;
    idle = λ _ env. refl;
    surface = p.surface;
    simple = tt;
    settled = tt;
    keeps_settled = λ _ _ _. tt;
    keeps_known = λ _ _ _. tt;
    lowest = λ env x high sat trusted. trusted;
  })
  replace_all_less_than-IsTurn (suc f) s (c ∷ cs) r p h =
      let run = replace_all_less_than m f L in
      elim (Bool-cases (is_same_label c.high (concrete L))) [
        | inl e ↦
            IsTurn-first run c.high c.low c.why s cs r (replace_all_less_than-IsTurn f)
              ((is_same_label_iff c.high (concrete L)).0 e) p (rw (e, replace_all_less_than) at h)
        | inr e ↦
            let (t, u, v) =
              >>=-eq-some (run s cs) (λ i. some (keep m c i))
                (rw (e, replace_all_less_than) at h) in
            rw (sym (some-inj _ r v)) (
              IsTurn-keep m L c.high c.low c.why s cs t p
                (IsSettled-other m L c.high c.low c.why (not_same c.high e))
                (replace_all_less_than-IsTurn f s cs t (rest-IsPrepared m L s c cs p) u))
      ]
