-- ===== src/Inference/Turn.antt =====
-- The turn of one concrete label in the solver: what it needs of the constraints, and what it
-- leaves (replace_all_less_than in transactions/mtl/label_inference.hpp).
use mix_t.Base.{
  ℕ, String, ◌&&◌, ◌==◌, true, ◌≡◌, ◌≢◌, ◌⊎◌, inl, inr, refl, sym, List, [], ◌∷◌, All, All-mono,
  Elem, Bool-cases, arith,
}
use mix_t.Labels.Order.{LabelOrder}
use mix_t.Labels.Term.{Label, concrete, temp_label, label_min_of, is_same_label}
use mix_t.Labels.Meaning.{Env, meaning}
use mix_t.Labels.Replace.{assign}
use mix_t.Inference.Constraints.{MustFlowTo, must_flow_to}
use mix_t.Inference.Satisfied.{Satisfied}
use mix_t.Inference.Collapse.{remove_reflexive_constraints}
use mix_t.Inference.CollapseLaws.{IsSimpleLabel, IsSimple, remove_reflexive_iff}
use mix_t.Inference.Solve.{
  lte, IsInverted, IsPlaced, TypeLists, minimize_constraints, substitute_label, substitute_one,
  substitute,
}

module _ {C : Type 0} where
  abbrev pub IsTemp : Label C → Type 0
  IsTemp (temp_label s d) = Unit
  IsTemp (concrete k) = ⊥
  IsTemp (label_min_of a b) = ⊥

  -- The left side is a temporary label.
  abbrev pub IsTempHigh : MustFlowTo C → Type 0
  IsTempHigh c = IsTemp c.high

  -- Behind a temporary label on the left there are only such.
  abbrev pub ConcreteFirst : List (MustFlowTo C) → Type 0
  ConcreteFirst [] = Unit
  ConcreteFirst (c ∷ cs) = (IsTempHigh c → All IsTempHigh cs) × ConcreteFirst cs

module _ {C : Type 0} ⦃o : LabelOrder C⦄ where
  abbrev ReadyLabels : C → Label C → Label C → Type 0
  ReadyLabels l (concrete h) (temp_label _ _) = o.flows_to h l ≡ true
  ReadyLabels l (concrete h) (concrete _) = Unit
  ReadyLabels l (concrete h) (label_min_of _ _) = Unit
  ReadyLabels l (temp_label _ _) low = Unit
  ReadyLabels l (label_min_of _ _) low = Unit

  -- A concrete label that has still to flow to a temporary one flows to the label whose turn it is.
  abbrev pub IsReady : C → MustFlowTo C → Type 0
  IsReady l c = ReadyLabels l c.high c.low

  abbrev pub SettledLow : C → Label C → Type 0
  SettledLow l (concrete k) = o.flows_to l k ≡ true
  SettledLow l (temp_label _ _) = ⊥
  SettledLow l (label_min_of _ _) = ⊥

  abbrev SettledLabels : C → Label C → Label C → Type 0
  SettledLabels l (concrete h) low = h ≡ l → SettledLow l low
  SettledLabels l (temp_label _ _) low = Unit
  SettledLabels l (label_min_of _ _) low = Unit

  -- A constraint from the concrete label `l` is to a concrete label that it flows to.
  abbrev pub IsSettled : C → MustFlowTo C → Type 0
  IsSettled l c = SettledLabels l c.high c.low

  -- A concrete label on the left is top or one of the labels.
  abbrev HighLabel : List C → Label C → Type 0
  HighLabel labels (concrete h) = (h ≡ o.top) ⊎ Elem h labels
  HighLabel labels (temp_label _ _) = Unit
  HighLabel labels (label_min_of _ _) = Unit

  abbrev pub IsKnownHigh : List C → MustFlowTo C → Type 0
  IsKnownHigh labels c = HighLabel labels c.high

  placed-IsTemp :
      (h1 l1 h2 l2 : Label C) (w1 w2 : String)
      → IsSimpleLabel h1
      → IsSimpleLabel h2
      → ¬ IsInverted (must_flow_to h1 l1 w1) (must_flow_to h2 l2 w2)
      → IsTemp h1
      → IsTemp h2
  unfolding lte
  placed-IsTemp (temp_label a b) l1 (temp_label c d) l2 w1 w2 s1 s2 p t = tt
  placed-IsTemp (temp_label a b) l1 (concrete k) l2 w1 w2 s1 s2 p t = absurd (p (refl, refl))
  placed-IsTemp (temp_label a b) l1 (label_min_of x y) l2 w1 w2 s1 s2 p t = absurd s2
  placed-IsTemp (concrete k) l1 h2 l2 w1 w2 s1 s2 p t = absurd t
  placed-IsTemp (label_min_of x y) l1 h2 l2 w1 w2 s1 s2 p t = absurd t

  -- Sorting puts the temporary left sides last.
  pub ConcreteFirst-IsPlaced :
      (cs : List (MustFlowTo C)) → All IsSimple cs → IsPlaced cs → ConcreteFirst cs
  ConcreteFirst-IsPlaced [] s p = tt
  ConcreteFirst-IsPlaced (a ∷ []) s p = (λ _. tt, tt)
  ConcreteFirst-IsPlaced (a ∷ (b ∷ cs)) s p =
      let rest = ConcreteFirst-IsPlaced (b ∷ cs) s.1 p.1 in
      (
        λ t.
            let t' = placed-IsTemp a.high a.low b.high b.low a.why b.why s.0.0 s.1.0.0 p.0 t in
            (t', rest.0 t'),
        rest,
      )

  module _ (L : C) (a b : ℕ) where
    abbrev sub : Label C → Label C
    sub l = substitute_label (concrete L) (temp_label a b) l

    sub_cases : (l : Label C) → (sub l ≡ l) ⊎ (IsTemp l × (sub l ≡ concrete L))
    sub_cases (concrete k) = inl refl
    sub_cases (label_min_of x y) = inl refl
    sub_cases (temp_label s d) = elim (Bool-cases (a == s && b == d)) [
      | inl e ↦ inr (tt, rw e)
      | inr e ↦ inl (rw e)
    ]

    meaning-sub :
        (env : Env C) (l : Label C)
        → IsSimpleLabel l
        → meaning env (sub l) ≡ meaning (assign a b L env) l
    unfolding meaning
    meaning-sub env (concrete k) s = refl
    meaning-sub env (label_min_of x y) s = absurd s
    meaning-sub env (temp_label s d) h = ground arith

    abbrev subs : List (MustFlowTo C) → List (MustFlowTo C)
    subs cs = substitute (concrete L) (temp_label a b) cs

    All-substitute :
        (P Q : MustFlowTo C → Type 0)
        → ((c : MustFlowTo C) → P c → Q (substitute_one (concrete L) (temp_label a b) c))
        → (cs : List (MustFlowTo C)) → All P cs
        → All Q (subs cs)
    All-substitute P Q f [] h = tt
    All-substitute P Q f (c ∷ cs) h = (f c h.0, All-substitute P Q f cs h.1)

    sub-IsSimpleLabel : (l : Label C) → IsSimpleLabel l → IsSimpleLabel (sub l)
    sub-IsSimpleLabel l s = elim (sub_cases l) [ inl e ↦ rw e s | inr (t, e) ↦ rw e tt ]

    pub substitute-IsSimple : (cs : List (MustFlowTo C)) → All IsSimple cs → All IsSimple (subs cs)
    substitute-IsSimple =
        All-substitute IsSimple IsSimple
          (λ c s. (sub-IsSimpleLabel c.high s.0, sub-IsSimpleLabel c.low s.1))

    pub substitute-Satisfied :
        (env : Env C) (cs : List (MustFlowTo C))
        → All IsSimple cs
        → All (Satisfied env) (subs cs)
        → All (Satisfied (assign a b L env)) cs
    substitute-Satisfied env [] s h = tt
    substitute-Satisfied env (c ∷ cs) s h = (
      rw (← meaning-sub env c.high s.0.0, ← meaning-sub env c.low s.0.1) h.0,
      substitute-Satisfied env cs s.1 h.1,
    )

    ready_self : (l : Label C) → ReadyLabels L (concrete L) l
    ready_self (temp_label s d) = o.flows_refl L
    ready_self (concrete k) = tt
    ready_self (label_min_of x y) = tt

    sub_ready : (h l : Label C) → ReadyLabels L h l → ReadyLabels L (sub h) (sub l)
    sub_ready (concrete k) l r = elim (sub_cases l) [ inl e ↦ rw e r | inr (t, e) ↦ rw e tt ]
    sub_ready (temp_label s d) l r = elim (sub_cases (temp_label s d)) [
      | inl e ↦ rw e tt
      | inr (t, e) ↦ rw e (ready_self (sub l))
    ]
    sub_ready (label_min_of x y) l r = tt

    pub substitute-IsReady :
        (cs : List (MustFlowTo C)) → All (IsReady L) cs → All (IsReady L) (subs cs)
    substitute-IsReady = All-substitute (IsReady L) (IsReady L) (λ c r. sub_ready c.high c.low r)

    sub-SettledLow : (l : C) (low : Label C) → SettledLow l low → SettledLow l (sub low)
    sub-SettledLow l (concrete k) h = h
    sub-SettledLow l (temp_label s d) h = absurd h
    sub-SettledLow l (label_min_of x y) h = absurd h

    sub_settled :
        (l : C) (h low : Label C)
        → l ≢ L
        → SettledLabels l h low
        → SettledLabels l (sub h) (sub low)
    sub_settled l (concrete k) low ne r = λ e. sub-SettledLow l low (r e)
    sub_settled l (temp_label s d) low ne r = elim (sub_cases (temp_label s d)) [
      | inl e ↦ rw e tt
      | inr (t, e) ↦ rw e (λ same. absurd (ne (sym same)))
    ]
    sub_settled l (label_min_of x y) low ne r = tt

    pub substitute-IsSettled :
        (l : C) (cs : List (MustFlowTo C))
        → l ≢ L
        → All (IsSettled l) cs
        → All (IsSettled l) (subs cs)
    substitute-IsSettled l cs ne =
        All-substitute (IsSettled l) (IsSettled l) (λ c r. sub_settled l c.high c.low ne r) cs

    sub_high :
        (labels : List C) (h : Label C)
        → Elem L labels
        → HighLabel labels h
        → HighLabel labels (sub h)
    sub_high labels h mem r = elim (sub_cases h) [ inl e ↦ rw e r | inr (t, e) ↦ rw e (inr mem) ]

    pub substitute-IsKnownHigh :
        (labels : List C) (cs : List (MustFlowTo C))
        → Elem L labels
        → All (IsKnownHigh labels) cs
        → All (IsKnownHigh labels) (subs cs)
    substitute-IsKnownHigh labels cs mem =
        All-substitute (IsKnownHigh labels) (IsKnownHigh labels)
          (λ c r. sub_high labels c.high mem r) cs

  module _ (m : TypeLists C) where
    remove_reflexive_All :
        (P : MustFlowTo C → Type 0) (cs : List (MustFlowTo C))
        → All P cs
        → All P (remove_reflexive_constraints cs)
    unfolding remove_reflexive_constraints
    remove_reflexive_All P [] h = tt
    remove_reflexive_All P (c ∷ cs) h = elim (Bool-cases (is_same_label c.high c.low)) [
      | inl e ↦ rw e (remove_reflexive_All P cs h.1)
      | inr e ↦ rw e (h.0, remove_reflexive_All P cs h.1)
    ]

    pub minimize_All :
        (P : MustFlowTo C → Type 0) (cs : List (MustFlowTo C))
        → All P cs
        → All P (minimize_constraints m cs)
    unfolding minimize_constraints
    minimize_All P cs h =
        remove_reflexive_All P (m.add_all cs)
          (All-mono P cs (m.add_all cs) (λ c. (m.add_all-Elem c cs).0) h)

    pub minimize-Satisfied :
        (env : Env C) (cs : List (MustFlowTo C))
        → All (Satisfied env) (minimize_constraints m cs)
        → All (Satisfied env) cs
    unfolding minimize_constraints
    minimize-Satisfied env cs h =
        All-mono (Satisfied env) (m.add_all cs) cs (λ c. (m.add_all-Elem c cs).1)
          ((remove_reflexive_iff env (m.add_all cs)).0 h)

    pub sort_All :
        (P : MustFlowTo C → Type 0) (cs : List (MustFlowTo C)) → All P cs → All P (m.sort cs)
    sort_All P cs = All-mono P cs (m.sort cs) (λ c. (m.sort-Elem c cs).0)

    pub of_sort_All :
        (P : MustFlowTo C → Type 0) (cs : List (MustFlowTo C)) → All P (m.sort cs) → All P cs
    of_sort_All P cs = All-mono P (m.sort cs) cs (λ c. (m.sort-Elem c cs).1)
