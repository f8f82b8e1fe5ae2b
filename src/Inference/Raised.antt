-- ===== src/Inference/Raised.antt =====
-- Assignments that stand at or above the label whose turn it is, which a turn of the solver need not
-- change (transactions/mtl/label_inference.hpp).
use mix_t.Base.{
  ℕ, String, ap₂, true, false, ◌≡◌, refl, sym, ◌∙◌, List, [], ◌∷◌, All, arith, Bool-cases, inl, inr,
  ◌&&◌, ◌==◌, if◌then◌else◌,
}
use mix_t.Labels.Order.{LabelOrder}
use mix_t.Labels.Term.{Label, concrete, temp_label, label_min_of}
use mix_t.Labels.Meaning.{Env, meaning}
use mix_t.Inference.Constraints.{MustFlowTo, must_flow_to}
use mix_t.Inference.Satisfied.{Satisfied}
use mix_t.Inference.CollapseLaws.{IsSimple, IsSimpleLabel}
use mix_t.Inference.Solve.{substitute_label, substitute}
use mix_t.Inference.Turn.{IsReady}

module _ {C : Type 0} ⦃o : LabelOrder C⦄ where
  -- Every temporary label stands for one that flows to `L`.
  abbrev pub IsHigh : C → Env C → Type 0
  IsHigh L env = (i j : ℕ) → o.flows_to (env i j) L ≡ true

  -- Each label of the first assignment flows to that of the second one.
  abbrev pub IsTrusted : Env C → Env C → Type 0
  IsTrusted x env = (i j : ℕ) → o.flows_to (x i j) (env i j) ≡ true

  -- `L` where an assignment has a label that does not flow to it.
  abbrev pub raised : C → Env C → Env C
  raised L env i j = if o.flows_to (env i j) L then env i j else L

  pub raised-IsHigh : (L : C) (env : Env C) → IsHigh L (raised L env)
  raised-IsHigh L env i j = elim (Bool-cases (o.flows_to (env i j) L)) [
    | inl e ↦ rw (e, e) refl
    | inr e ↦ rw e (o.flows_refl L)
  ]

  from_above : (L a : C) → o.flows_to a L ≡ false → o.flows_to L a ≡ true
  from_above L a e = elim (o.flows_total L a) [ inl h ↦ h | inr h ↦ absurd cc ]

  pub raised-IsTrusted : (L : C) (env : Env C) → IsTrusted (raised L env) env
  raised-IsTrusted L env i j = elim (Bool-cases (o.flows_to (env i j) L)) [
    | inl e ↦ rw e (o.flows_refl (env i j))
    | inr e ↦ rw e (from_above L (env i j) e)
  ]

  Satisfied-raised :
      (L : C) (env : Env C) (h l : Label C) (w : String)
      → IsSimple (must_flow_to h l w)
      → IsReady L (must_flow_to h l w)
      → Satisfied env (must_flow_to h l w)
      → Satisfied (raised L env) (must_flow_to h l w)
  unfolding meaning
  Satisfied-raised L env (concrete k) (concrete k') w s r h = h
  Satisfied-raised L env (concrete k) (temp_label x y) w s r h =
      elim (Bool-cases (o.flows_to (env x y) L)) [ inl e ↦ rw e h | inr e ↦ rw e r ]
  Satisfied-raised L env (temp_label x y) (concrete k) w s r h =
      elim (Bool-cases (o.flows_to (env x y) L)) [
        | inl e ↦ rw e h
        | inr e ↦ rw e (o.flows_trans L (env x y) k (from_above L _ e) h)
      ]
  Satisfied-raised L env (temp_label x y) (temp_label u v) w s r h =
      elim (Bool-cases (o.flows_to (env x y) L)) [
        | inl e ↦ elim (Bool-cases (o.flows_to (env u v) L)) [
          | inl f ↦ rw (e, f) h
          | inr f ↦ rw (e, f) e
        ]
        | inr e ↦ elim (Bool-cases (o.flows_to (env u v) L)) [
          | inl f ↦ rw (e, f) (o.flows_trans L (env x y) (env u v) (from_above L _ e) h)
          | inr f ↦ rw (e, f) (o.flows_refl L)
        ]
      ]
  Satisfied-raised L env (label_min_of _ _) l w s r h = absurd s.0
  Satisfied-raised L env (concrete _) (label_min_of _ _) w s r h = absurd s.1
  Satisfied-raised L env (temp_label _ _) (label_min_of _ _) w s r h = absurd s.1

  -- Raising an assignment to the label whose turn it is keeps the constraints satisfied.
  pub All-raised :
      (L : C) (env : Env C) (cs : List (MustFlowTo C))
      → All IsSimple cs
      → All (IsReady L) cs
      → All (Satisfied env) cs
      → All (Satisfied (raised L env)) cs
  All-raised L env [] s r h = tt
  All-raised L env (c ∷ cs) s r h =
      (Satisfied-raised L env c.high c.low c.why s.0 r.0 h.0, All-raised L env cs s.1 r.1 h.1)

  -- A temporary label that stands for `L` may be replaced by it.
  meaning-substitute :
      (L : C) (env : Env C) (a b : ℕ) (l : Label C)
      → env a b ≡ L
      → IsSimpleLabel l
      → meaning env (substitute_label (concrete L) (temp_label a b) l) ≡ meaning env l
  unfolding meaning
  meaning-substitute L env a b (concrete k) e s = refl
  meaning-substitute L env a b (label_min_of _ _) e s = absurd s
  meaning-substitute L env a b (temp_label x y) e s = elim (Bool-cases (a == x && b == y)) [
    | inl same ↦
        let p : a ≡ x = ground arith in
        let q : b ≡ y = ground arith in rw same (sym e ∙ ap₂ env p q)
    | inr other ↦ rw other refl
  ]

  pub All-substituted :
      (L : C) (env : Env C) (a b : ℕ) (cs : List (MustFlowTo C))
      → env a b ≡ L
      → All IsSimple cs
      → All (Satisfied env) cs
      → All (Satisfied env) (substitute (concrete L) (temp_label a b) cs)
  All-substituted L env a b [] e s h = tt
  All-substituted L env a b (c ∷ cs) e s h = (
    rw (meaning-substitute L env a b c.high e s.0.0, meaning-substitute L env a b c.low e s.0.1)
        h.0,
    All-substituted L env a b cs e s.1 h.1,
  )
