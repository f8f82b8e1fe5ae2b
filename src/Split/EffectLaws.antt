-- ===== src/Split/EffectLaws.antt =====
-- The tree of a phase does what the program does at the phase's label
-- (transactions/mtl/split_phase.hpp).
use mathlib.Core.List.{append-nil, append_assoc}
use mix_t.Base.{
  Bool, true, false, ◌≡◌, refl, sym, ap₂, ◌∙◌, some, some-inj, >>=-eq-some, List, ◌++◌, arith,
}
use mix_t.Labels.Order.{LabelOrder}
use mix_t.Labels.Term.{Label, concrete, temp_label, label_min_of}
use mix_t.Ast.{
  Expression, var_reference, field_reference, constant, bin_op, generate_tombstone, is_valid,
  endorse, operation, Args, no_args, arg,
}
use mix_t.Split.Tree.{
  SplitExpression, SplitArgs, SplitStatement, SplitSequence, sequence, done, next,
}
use mix_t.Split.Api.{BindingLists, PhaseApi, combined_api, ExtractedPhase}
use mix_t.Split.Collapse.{append_sequence, collapse}
use mix_t.Split.CollapseLaws.{flat, flat_sequence, collapse_lem}
use mix_t.Split.Placement.{Placement, here, elsewhere, overload, place, are_equivalent}
use mix_t.Split.CollectExpression.{collect_phase_expression, collect_phase_args, reference_requires}
use mix_t.Split.Effects.{Guard, erased, erased_args, effects, effects_sequence, is_at, may_enter}

module _ {C : Type 0} where
  effects-append :
      (g : List (Guard C)) (xs ys : SplitSequence C)
      → effects_sequence g (append_sequence xs ys) ≡ effects_sequence g xs ++ effects_sequence g ys
  effects-append g done ys = refl
  effects-append g (next s xs) ys =
      rw (effects-append g xs ys)
        (sym (append_assoc (effects g s) (effects_sequence g xs) (effects_sequence g ys)))

  mutual
    pub effects-flat :
        (g : List (Guard C)) (s : SplitStatement C) → effects_sequence g (flat s) ≡ effects g s
    effects-flat g (sequence ss) = effects-flat_sequence g ss
    effects-flat g s = append-nil (effects g s)

    effects-flat_sequence :
        (g : List (Guard C)) (ss : SplitSequence C)
        → effects_sequence g (flat_sequence ss) ≡ effects_sequence g ss
    effects-flat_sequence g done = refl
    effects-flat_sequence g (next s ss) =
        effects-append g (flat s) (flat_sequence ss)
        ∙ ap₂ (λ a b. a ++ b) (effects-flat g s) (effects-flat_sequence g ss)

  pub effects-collapse :
      (g : List (Guard C)) (ss : SplitSequence C) → effects g (collapse ss) ≡ effects_sequence g ss
  effects-collapse g ss = rw (collapse_lem ss) (effects-flat_sequence g ss)

module _ {C : Type 0} ⦃o : LabelOrder C⦄ (l : C) where
  -- What a placement says of the label.
  abbrev pub Placed : Label C → Placement C → Type 0
  Placed l2 here = (is_at l l2 ≡ true) × (may_enter l l2 ≡ true)
  Placed l2 (elsewhere k) = (is_at l l2 ≡ false) × (may_enter l l2 ≡ o.flows_to k l)

  overload-Placed :
      (k : C) (same e : Bool) (p : Placement C)
      → o.is_same k l ≡ same
      → overload same e k ≡ some p
      → Placed (concrete k) p
  overload-Placed k true e p s h =
      rw (sym (some-inj _ _ h)) (s, rw ((o.is_same_iff k l).0 s) (o.flows_refl l))
  overload-Placed k false true p s h = cc
  overload-Placed k false false p s h = rw (sym (some-inj _ _ h)) (s, refl)

  pub place-Placed : (l2 : Label C) (p : Placement C) → place l l2 ≡ some p → Placed l2 p
  unfolding place
  place-Placed (concrete k) p h =
      let (e, _, v) = >>=-eq-some (are_equivalent l k) _ h in
      overload-Placed k (o.is_same k l) e p refl v
  place-Placed (temp_label s d) p h = cc
  place-Placed (label_min_of a b) p h = cc

module _ {C : Type 0} ⦃o : LabelOrder C⦄ (m : BindingLists C) (l : C) where
  mutual
    unfolding collect_phase_expression collect_phase_args

    pub collect_phase_expression-erased :
        (old : PhaseApi C) (e : Expression C) (x : ExtractedPhase C (SplitExpression C))
        → collect_phase_expression m l old e ≡ some x
        → x.ast ≡ erased e
    collect_phase_expression-erased old (var_reference l2 y v) x h =
        let (reqs, _, k) = >>=-eq-some (reference_requires m l old l2 y v) _ h in
        rw (sym (some-inj _ _ k)) refl
    collect_phase_expression-erased old (field_reference l2 y s f) x h =
        let (pre, e, k) = >>=-eq-some (collect_phase_expression m l old s) _ h in
        rw (sym (some-inj _ _ k), collect_phase_expression-erased old s pre e) refl
    collect_phase_expression-erased old (constant i) x h = rw (sym (some-inj _ _ h)) refl
    collect_phase_expression-erased old (bin_op l2 y op L R) x h =
        let (left, e, k) = >>=-eq-some (collect_phase_expression m l old L) _ h in
        let (right, f, v) = >>=-eq-some (collect_phase_expression m l old R) _ k in
        rw
          (
            sym (some-inj _ _ v),
            collect_phase_expression-erased old L left e,
            collect_phase_expression-erased old R right f,
          )
          refl
    collect_phase_expression-erased old (generate_tombstone l2) x h = ground arith
    collect_phase_expression-erased old (is_valid l2 s) x h =
        let (pre, e, k) = >>=-eq-some (collect_phase_expression m l old s) _ h in
        rw (sym (some-inj _ _ k), collect_phase_expression-erased old s pre e) refl
    collect_phase_expression-erased old (endorse l2 y s) x h = cc
    collect_phase_expression-erased old (operation l2 y n s args) x h =
        let (hndl, e, k) = >>=-eq-some (collect_phase_expression m l old s) _ h in
        let (rest, f, v) = >>=-eq-some (collect_phase_args m l old hndl.api args) _ k in
        rw
          (
            sym (some-inj _ _ v),
            collect_phase_expression-erased old s hndl e,
            collect_phase_args-erased old hndl.api args rest f,
          )
          refl

    pub collect_phase_args-erased :
        (old api : PhaseApi C) (es : Args C) (x : ExtractedPhase C (SplitArgs C))
        → collect_phase_args m l old api es ≡ some x
        → x.ast ≡ erased_args es
    collect_phase_args-erased old api no_args x h = rw (sym (some-inj _ _ h)) refl
    collect_phase_args-erased old api (arg s es) x h =
        let (first, e, k) = >>=-eq-some (collect_phase_expression m l old s) _ h in
        let (rest, f, v) =
          >>=-eq-some (collect_phase_args m l old (combined_api api first.api) es) _ k in
        rw
          (
            sym (some-inj _ _ v),
            collect_phase_expression-erased old s first e,
            collect_phase_args-erased old (combined_api api first.api) es rest f,
          )
          refl
