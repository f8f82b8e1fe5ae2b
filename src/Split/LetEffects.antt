-- ===== src/Split/LetEffects.antt =====
-- Binding a variable is done at the label of the let (transactions/mtl/split_phase.hpp).
use mathlib.Core.List.{append-nil}
use mix_t.Base.{
  String, Bool, true, false, ◌≡◌, refl, sym, ◌∙◌, Option, some, some-inj, >>=-eq-some, ◌>>=◌, List,
  [], ◌∷◌, ◌++◌,
}
use mix_t.Labels.Order.{LabelOrder}
use mix_t.Labels.Term.{Label}
use mix_t.Ast.{
  Yield, plain, handle, Expression, var_reference, field_reference, constant, bin_op,
  generate_tombstone, is_valid, endorse, operation, Binding, binding,
}
use mix_t.Inference.Constraints.{yield_of}
use mix_t.Split.Tree.{SplitExpression, SplitStatement, SplitBinding}
use mix_t.Split.Api.{
  BindingLists, PhaseApi, combined_api, ExtractedPhase, handle_type, binding_super,
}
use mix_t.Split.Placement.{Placement, here, elsewhere, must_flow_down}
use mix_t.Split.CollectExpression.{collect_phase_expression, let_binding, let_remote_binding}
use mix_t.Split.CollectPhase.{
  Extracted, let_phase, let_ast_if_operation, bound_expr, refresh, two, let_remote_phase, rebound,
  remote_requires, bound_var,
}
use mix_t.Split.Effects.{
  Guard, Effect, effect, effects, is_at, when, source_bound, source_bound_remote, bound_by,
  bound_remote_by,
}
use mix_t.Split.EffectLaws.{Placed, collect_phase_expression-erased}

module _ {C : Type 0} where
  -- Whatever the result is, it has these effects.
  abbrev pub Does : List (Guard C) → Option (Extracted C) → List (Effect C) → Type 0
  Does g r E = (x : Extracted C) → r ≡ some x → effects g x.ast ≡ E

  pub Does-some :
      (g : List (Guard C)) (y : Extracted C) (E : List (Effect C))
      → effects g y.ast ≡ E
      → Does g (some y) E
  Does-some g y E e x h = rw (sym (some-inj _ _ h)) e

  pub effects-refresh :
      (g : List (Guard C)) (h : SplitExpression C) (s : SplitStatement C)
      → refresh h ≡ some s
      → effects g s ≡ []
  effects-refresh g (SplitExpression.var_reference (handle k t) v) s h =
      rw (sym (some-inj _ _ h)) refl
  effects-refresh g (SplitExpression.var_reference (plain t) v) s h = cc
  effects-refresh g (SplitExpression.field_reference y e f) s h = cc
  effects-refresh g (SplitExpression.constant i) s h = cc
  effects-refresh g (SplitExpression.bin_op y op a b) s h = cc
  effects-refresh g SplitExpression.generate_tombstone s h = cc
  effects-refresh g (SplitExpression.is_valid e) s h = cc
  effects-refresh g (SplitExpression.operation y n e args) s h = cc

  pub effects-two :
      (g : List (Guard C)) (s refreshed : SplitStatement C)
      → effects g refreshed ≡ []
      → effects g (two s refreshed) ≡ effects g s
  effects-two g s r h = rw h (append-nil (effects g s))

module _ {C : Type 0} ⦃o : LabelOrder C⦄ (m : BindingLists C) (l : C) where
  refreshed-effects :
      (g : List (Guard C)) (old : PhaseApi C) (s s' : SplitStatement C) (h : Expression C)
      → (collect_phase_expression m l old h >>= λ hndl.
          refresh hndl.ast >>= λ refreshed. some (two s refreshed))
        ≡ some s'
      → effects g s' ≡ effects g s
  refreshed-effects g old s s' h k =
      let (hndl, _, u) = >>=-eq-some (collect_phase_expression m l old h) _ k in
      let (r, e, v) = >>=-eq-some (refresh hndl.ast) _ u in
      rw (sym (some-inj _ _ v)) (effects-two g s r (effects-refresh g hndl.ast r e))

  let_ast-effects :
      (g : List (Guard C)) (old : PhaseApi C) (s s' : SplitStatement C) (e : Expression C)
      → let_ast_if_operation m l old s e ≡ some s'
      → effects g s' ≡ effects g s
  let_ast-effects g old s s' (operation l2 y n h args) k = refreshed-effects g old s s' h k
  let_ast-effects g old s s' (var_reference l2 y v) k = rw (sym (some-inj _ _ k)) refl
  let_ast-effects g old s s' (field_reference l2 y e f) k = rw (sym (some-inj _ _ k)) refl
  let_ast-effects g old s s' (constant i) k = rw (sym (some-inj _ _ k)) refl
  let_ast-effects g old s s' (bin_op l2 y op a b) k = rw (sym (some-inj _ _ k)) refl
  let_ast-effects g old s s' (generate_tombstone l2) k = rw (sym (some-inj _ _ k)) refl
  let_ast-effects g old s s' (is_valid l2 e) k = rw (sym (some-inj _ _ k)) refl
  let_ast-effects g old s s' (endorse l2 y e) k = rw (sym (some-inj _ _ k)) refl

  let_binding-bound :
      (old : PhaseApi C) (b : Binding C) (x : ExtractedPhase C (SplitBinding C))
      → let_binding m l old b ≡ some x
      → bound_by x.ast ≡ source_bound b
  unfolding let_binding
  let_binding-bound old (binding l2 y v e) x h =
      let (low, _, u) = >>=-eq-some (must_flow_down l l2) _ h in
      let (p, f, w) = >>=-eq-some (collect_phase_expression m l old e) _ u in
      rw (sym (some-inj _ _ w), collect_phase_expression-erased m l old e p f) refl

  let_remote_binding-bound :
      (old : PhaseApi C) (b : Binding C) (x : ExtractedPhase C (SplitBinding C))
      → let_remote_binding m l old b ≡ some x
      → bound_remote_by x.ast ≡ source_bound_remote b
  unfolding let_remote_binding
  let_remote_binding-bound old (binding l2 y v e) x h =
      let (low, _, u) = >>=-eq-some (must_flow_down l l2) _ h in
      let (obj, _, u2) = >>=-eq-some (handle_type (yield_of e)) _ u in
      let (p, f, w) = >>=-eq-some (collect_phase_expression m l old e) _ u2 in
      rw (sym (some-inj _ _ w), collect_phase_expression-erased m l old e p f) refl

  pub let_phase-Does :
      (g : List (Guard C)) (l2 : Label C) (p : Placement C) (old : PhaseApi C) (b : Binding C)
      (body : PhaseApi C → Option (Extracted C)) (E : List (Effect C))
      → Placed l l2 p
      → ((api : PhaseApi C) → Does g (body api) E)
      → Does g
          (let_phase m l p old b body)
          (when l (is_at l l2) (effect g (source_bound b) ∷ []) ++ E)
  unfolding let_phase
  let_phase-Does g l2 here old b body E at does x h =
      let (bound, e, u) = >>=-eq-some (let_binding m l old b) _ h in
      let (bod, f, v) = >>=-eq-some (body (combined_api bound.api old)) _ u in
      let (ast, k, w) =
        >>=-eq-some
          (let_ast_if_operation m l old (SplitStatement.let_in bound.ast bod.ast) (bound_expr b)) _
          v in
      rw
        (
          sym (some-inj _ _ w),
          let_ast-effects g old _ ast (bound_expr b) k,
          at.0,
          let_binding-bound old b bound e,
          does (combined_api bound.api old) bod f,
        )
        refl
  let_phase-Does g l2 (elsewhere k) old b body E at does x h =
      let (bod, f, v) = >>=-eq-some (body old) _ h in
      rw (sym (some-inj _ _ v), at.0) (append-nil _ ∙ does old bod f)

  rebound-Does :
      (g : List (Guard C)) (behind : Bool) (old : PhaseApi C) (v : String) (y : Yield C)
      (body : Extracted C)
      → Does g (rebound m l behind old v y body) (effects g body.ast)
  unfolding rebound
  rebound-Does g false old v y body x h = Does-some g body (effects g body.ast) refl x h
  rebound-Does g true old v y body x h =
      let (reqs, _, u) = >>=-eq-some (remote_requires m l (binding_super v y) old) _ h in
      rw (sym (some-inj _ _ u)) (append-nil _)

  pub let_remote_phase-Does :
      (g : List (Guard C)) (l2 : Label C) (p : Placement C) (old : PhaseApi C) (b : Binding C)
      (body : PhaseApi C → Option (Extracted C)) (E : List (Effect C))
      → Placed l l2 p
      → ((api : PhaseApi C) → Does g (body api) E)
      → Does g
          (let_remote_phase m l p old b body)
          (when l (is_at l l2) (effect g (source_bound_remote b) ∷ []) ++ E)
  unfolding let_remote_phase
  let_remote_phase-Does g l2 here old b body E at does x h =
      let (bound, e, u) = >>=-eq-some (let_remote_binding m l old b) _ h in
      let (bod, f, v) = >>=-eq-some (body (combined_api old bound.api)) _ u in
      rw
        (
          sym (some-inj _ _ v),
          at.0,
          let_remote_binding-bound old b bound e,
          does (combined_api old bound.api) bod f,
        )
        refl
  let_remote_phase-Does g l2 (elsewhere k) old b body E at does x h =
      let (bod, f, v) = >>=-eq-some (body old) _ h in
      let (object, _, u) = >>=-eq-some (handle_type (yield_of (bound_expr b))) _ v in
      rw at.0 (rebound-Does g (o.flows_to k l) old (bound_var b) object bod x u ∙ does old bod f)
