-- ===== src/Split/Isolation.antt =====
-- The other statements do what the program does at the phase's label
-- (transactions/mtl/split_phase.hpp).
use mix_t.Base.{
  String, Bool, true, false, ◌≡◌, refl, sym, ap₂, Option, some, some-inj, >>=-eq-some, List, [],
  ◌∷◌, ◌++◌, ◌||◌,
}
use mix_t.Labels.Order.{LabelOrder}
use mix_t.Labels.Term.{Label}
use mix_t.Ast.{Yield, Expression, Args}
use mix_t.Split.NamedTree.{LoopName}
use mix_t.Split.Tree.{SplitExpression, SplitStatement}
use mix_t.Split.Api.{BindingLists, PhaseApi, while_binding}
use mix_t.Split.Placement.{Placement, here, elsewhere, is_builtin}
use mix_t.Split.CollectExpression.{collect_phase_expression, collect_phase_args}
use mix_t.Split.CollectPhase.{
  Extracted, refresh, assignment_phase, base_var, expression_phase, operation_phase, operation_ast,
  while_phase, for_each_phase, when_known, if_phase, merge_returns, increment_phase, skip,
}
use mix_t.Split.Effects.{
  Guard, Effect, Action, effect, in_then, in_else, in_while, in_for_each, loop_guard, erased,
  erased_args, effects, is_at, may_enter, when, assigned, operated,
}
use mix_t.Split.EffectLaws.{Placed, collect_phase_expression-erased, collect_phase_args-erased}
use mix_t.Split.LetEffects.{Does, Does-some, effects-refresh, effects-two}

module _ {C : Type 0} ⦃o : LabelOrder C⦄ (m : BindingLists C) (l : C) where
  operation_ast-effects :
      (g : List (Guard C)) (builtin : Bool) (s s' : SplitStatement C) (h : SplitExpression C)
      → operation_ast m l builtin s h ≡ some s'
      → effects g s' ≡ effects g s
  operation_ast-effects g true s s' h k = rw (sym (some-inj _ _ k)) refl
  operation_ast-effects g false s s' h k =
      let (r, e, v) = >>=-eq-some (refresh h) _ k in
      rw (sym (some-inj _ _ v)) (effects-two g s r (effects-refresh g h r e))

  pub operation_phase-Does :
      (g : List (Guard C)) (l2 : Label C) (p : Placement C) (old : PhaseApi C) (n : String)
      (h : Expression C) (args : Args C)
      → Placed l l2 p
      → Does g
          (operation_phase m l p old n h args)
          (when l (is_at l l2) (effect g (operated n (erased h) (erased_args args)) ∷ []))
  unfolding operation_phase
  operation_phase-Does g l2 here old n h args at x k =
      let (hndl, e, u) = >>=-eq-some (collect_phase_expression m l old h) _ k in
      let (rest, f, v) = >>=-eq-some (collect_phase_args m l old hndl.api args) _ u in
      let (ast, i, w) =
        >>=-eq-some
          (operation_ast m l (is_builtin n) (SplitStatement.operation_statement n hndl.ast rest.ast)
            hndl.ast)
          _ v in
      rw
        (
          sym (some-inj _ _ w),
          at.0,
          operation_ast-effects g (is_builtin n) _ ast hndl.ast i,
          collect_phase_expression-erased m l old h hndl e,
          collect_phase_args-erased m l old hndl.api args rest f,
        )
        refl
  operation_phase-Does g l2 (elsewhere k) old n h args at x e =
      rw at.0 (Does-some g (skip old) [] refl x e)

  increment_phase-effects :
      (g : List (Guard C)) (behind : Bool) (old : PhaseApi C) (v : String)
      → effects g (increment_phase m l behind old v).ast ≡ []
  increment_phase-effects g true old v = refl
  increment_phase-effects g false old v = refl

  pub assignment_phase-Does :
      (g : List (Guard C)) (l2 : Label C) (p : Placement C) (old : PhaseApi C) (v e : Expression C)
      → Placed l l2 p
      → Does g
          (assignment_phase m l p old v e)
          (when l (is_at l l2) (effect g (assigned (erased v) (erased e)) ∷ []))
  unfolding assignment_phase
  assignment_phase-Does g l2 here old v e at x k =
      let (var, a, u) = >>=-eq-some (collect_phase_expression m l old v) _ k in
      let (expr, b, w) = >>=-eq-some (collect_phase_expression m l old e) _ u in
      rw
        (
          sym (some-inj _ _ w),
          at.0,
          collect_phase_expression-erased m l old v var a,
          collect_phase_expression-erased m l old e expr b,
        )
        refl
  assignment_phase-Does g l2 (elsewhere k) old v e at x h =
      let (base, a, u) = >>=-eq-some (base_var v) _ h in
      rw (sym (some-inj _ _ u), at.0) (increment_phase-effects g (o.flows_to k l) old base)

  -- A node with one expression does what it does at its own label.
  pub expression_phase-Does :
      (g : List (Guard C)) (l2 : Label C) (p : Placement C) (old : PhaseApi C) (e : Expression C)
      (returns : Option (Yield C)) (node : SplitExpression C → SplitStatement C)
      (action : SplitExpression C → Action C)
      → Placed l l2 p
      → ((s : SplitExpression C) → effects g (node s) ≡ effect g (action s) ∷ [])
      → Does g
          (expression_phase m l p old e returns node)
          (when l (is_at l l2) (effect g (action (erased e)) ∷ []))
  expression_phase-Does g l2 here old e returns node action at does x k =
      let (var, a, u) = >>=-eq-some (collect_phase_expression m l old e) _ k in
      rw (sym (some-inj _ _ u), at.0, sym (collect_phase_expression-erased m l old e var a))
        (does var.ast)
  expression_phase-Does g l2 (elsewhere k) old e returns node action at does x h =
      rw at.0 (Does-some g (skip old) [] refl x h)

  when_known-same : (known : Bool) (y x : Extracted C) → when_known m l known y ≡ some x → y ≡ x
  when_known-same true y x h = some-inj _ _ h
  when_known-same false y x h = cc

  for_each_phase-Does :
      (g : List (Guard C)) (enter : Bool) (old : PhaseApi C) (n : LoopName)
      (body : Option (Extracted C)) (E : List (Effect C))
      → Does (in_for_each n ∷ g) body E
      → Does g (for_each_phase m l enter old n body) (when l enter E)
  for_each_phase-Does g false old n body E does x h = Does-some g (skip old) [] refl x h
  for_each_phase-Does g true old n body E does x h =
      let (bod, a, u) = >>=-eq-some body _ h in
      rw
        (sym (
          when_known-same
            (m.contained (while_binding n) old.provides
              || m.contained (while_binding n) old.inherits)
            _ x u))
        (does bod a)

  pub while_phase-Does :
      (g : List (Guard C)) (l2 : Label C) (p : Placement C) (old : PhaseApi C) (c : Expression C)
      (n : LoopName) (body : Option (Extracted C)) (E : List (Effect C))
      → Placed l l2 p
      → Does (loop_guard l l2 c n ∷ g) body E
      → Does g (while_phase m l p old c n body) (when l (may_enter l l2) E)
  unfolding while_phase
  while_phase-Does g l2 here old c n body E at does x h =
      let (cond, a, u) = >>=-eq-some (collect_phase_expression m l old c) _ h in
      let (bod, b, w) = >>=-eq-some body _ u in
      let inner : effects (in_while cond.ast n ∷ g) bod.ast ≡ E =
        rw (collect_phase_expression-erased m l old c cond a) (rw at.0 at (does bod b)) in
      rw (sym (some-inj _ _ w), at.1) inner
  while_phase-Does g l2 (elsewhere k) old c n body E at does x h =
      rw at.1 (for_each_phase-Does g (o.flows_to k l) old n body E (rw at.0 at does) x h)

  pub if_phase-Does :
      (g : List (Guard C)) (enter : Bool) (old : PhaseApi C) (c : Expression C)
      (t e : Option (Extracted C)) (E F : List (Effect C))
      → Does (in_then (erased c) ∷ g) t E
      → Does (in_else (erased c) ∷ g) e F
      → Does g (if_phase m l enter old c t e) (when l enter (E ++ F))
  unfolding if_phase
  if_phase-Does g false old c t e E F dt de x h = Does-some g (skip old) [] refl x h
  if_phase-Does g true old c t e E F dt de x h =
      let (cond, a, u) = >>=-eq-some (collect_phase_expression m l old c) _ h in
      let (tp, b, v) = >>=-eq-some t _ u in
      let (ep, d, w) = >>=-eq-some e _ v in
      let (returns, _, z) = >>=-eq-some (merge_returns tp.returns ep.returns) _ w in
      rw (sym (some-inj _ _ z), collect_phase_expression-erased m l old c cond a)
        (ap₂ (λ p q. p ++ q) (dt tp b) (de ep d))
