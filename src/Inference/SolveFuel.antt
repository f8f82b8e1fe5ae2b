-- ===== src/Inference/SolveFuel.antt =====
-- The fuel of the solver: more than one unit for each constraint changes nothing
-- (replace_all_less_than in transactions/mtl/label_inference.hpp).
use mix_t.Base.{
  ℕ, zero, suc, ◌<◌, ◌≡◌, refl, ap, ◌∙◌, Option, some, List, [], ◌∷◌, length, arith, Bool-cases,
  inl, inr, ◌>>=◌,
}
use mix_t.Labels.Order.{LabelOrder}
use mix_t.Labels.Term.{Label, concrete, temp_label, label_min_of, is_same_label}
use mix_t.Ast.{Statement}
use mix_t.Inference.Constraints.{MustFlowTo}
use mix_t.Inference.Replace.{replace_statement}
use mix_t.Inference.Solve.{
  TypeLists, Solved, keep, substitute, replace_from_label, replace_all_less_than,
}

bind_ext :
    {A B : Type 0} (m : Option A) (f g : A → Option B)
    → ((a : A) → f a ≡ g a)
    → (m >>= f) ≡ (m >>= g)
bind_ext m f g h = elim m as (λ x. (x >>= f) ≡ (x >>= g)) [ Option.none ↦ refl | some a ↦ h a ]

module _ {C : Type 0} ⦃o : LabelOrder C⦄ (m : TypeLists C) (L : C) where
  pub length-substitute :
      (a b : Label C) (cs : List (MustFlowTo C)) → length (substitute a b cs) ≡ length cs
  length-substitute a b [] = refl
  length-substitute a b (c ∷ cs) = ap suc (length-substitute a b cs)

  -- Two recursive calls that agree on lists as long as the rest.
  from_label_ext :
      (run run' : Statement C → List (MustFlowTo C) → Option (Solved C)) (low : Label C)
      (s : Statement C) (c : MustFlowTo C) (cs : List (MustFlowTo C))
      → ((s' : Statement C) (ks : List (MustFlowTo C))
          → length ks ≡ length cs
          → run s' ks ≡ run' s' ks)
      → replace_from_label m run L s c cs low ≡ replace_from_label m run' L s c cs low
  unfolding replace_from_label
  from_label_ext run run' (temp_label a b) s c cs h =
      bind_ext (replace_statement a b L s) _ _ (λ s'. rw (
        h s' (m.sort (substitute (concrete L) (temp_label a b) cs)) (
          m.length-sort (substitute (concrete L) (temp_label a b) cs)
          ∙ length-substitute (concrete L) (temp_label a b) cs)))
  from_label_ext run run' (concrete k) s c cs h = rw (h s cs refl)
  from_label_ext run run' (label_min_of _ _) s c cs h = refl

  agree :
      (f g : ℕ) (s : Statement C) (cs : List (MustFlowTo C))
      → length cs < f
      → length cs < g
      → replace_all_less_than m f L s cs ≡ replace_all_less_than m g L s cs
  unfolding replace_all_less_than
  agree zero g s cs p q = absurd (omega arith)
  agree (suc f) zero s cs p q = absurd (omega arith)
  agree (suc f) (suc g) s [] p q = refl
  agree (suc f) (suc g) s (c ∷ cs) p q = elim (Bool-cases (is_same_label c.high (concrete L))) [
    | inl e ↦
        rw (e, replace_all_less_than)
          (from_label_ext (replace_all_less_than m f L) (replace_all_less_than m g L) c.low s c cs
            (λ s' ks same. agree f g s' ks (omega arith) (omega arith)))
    | inr e ↦
        rw (e, replace_all_less_than)
          (ap (λ r. r >>= λ i. some (keep m c i)) (agree f g s cs (omega arith) (omega arith)))
  ]

  -- With more fuel than constraints, replace_all_less_than does not run out of it: it returns what
  -- it returns with any other such fuel.
  pub replace_all_less_than_fuel :
      (f : ℕ) (s : Statement C) (cs : List (MustFlowTo C))
      → length cs < f
      → replace_all_less_than m f L s cs ≡ replace_all_less_than m (suc (length cs)) L s cs
  replace_all_less_than_fuel f s cs p = agree f (suc (length cs)) s cs p (omega arith)
