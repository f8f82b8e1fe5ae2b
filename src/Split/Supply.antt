-- ===== src/Split/Supply.antt =====
-- What a phase requires, an earlier phase provides (transactions/mtl/split_phase.hpp).
use mix_t.Base.{
  String, Bool, true, false, ◌≡◌, refl, sym, Option, some, some-inj, >>=-eq-some, List, [], ◌∷◌,
  All, All-append, All-Elem, Elem, subst, ◌||◌,
}
use mix_t.Labels.Order.{LabelOrder}
use mix_t.Ast.{Yield, Expression, Args, Binding}
use mix_t.Inference.Constraints.{yield_of}
use mix_t.Split.NamedTree.{LoopName}
use mix_t.Split.Tree.{SplitExpression, SplitStatement}
use mix_t.Split.Api.{
  BindingLists, PhaseApi, combined_api, VariableBinding, while_binding, binding_super, handle_type,
}
use mix_t.Split.Placement.{Placement, here, elsewhere, is_builtin}
use mix_t.Split.CollectExpression.{
  collect_phase_expression, collect_phase_args, let_binding, let_remote_binding,
}
use mix_t.Split.CollectPhase.{
  Extracted, let_phase, let_ast_if_operation, bound_expr, bound_var, let_remote_phase, rebound,
  remote_requires, assignment_phase, base_var, increment_phase, expression_phase, operation_phase,
  operation_ast, while_phase, for_each_phase, when_known, if_phase, merge_returns,
}
use mix_t.Split.Requires.{
  Supplied, Supplied-combined, IsVariable, requires_by-Elem, collect_phase_expression-Api,
  collect_phase_args-Api, let_binding-Api, let_remote_binding-Api,
}

module _ {C : Type 0} where
  -- Whatever the result is, it requires only what is inherited.
  abbrev pub Fits : List (VariableBinding C) → Option (Extracted C) → Type 0
  Fits xs r = (x : Extracted C) → r ≡ some x → Supplied xs x.api

  -- Only variables are provided around the statement.
  abbrev pub OnlyVariables : PhaseApi C → Type 0
  OnlyVariables api = All IsVariable api.provides

  not_a_loop :
      (n : LoopName) (xs : List (VariableBinding C))
      → All IsVariable xs
      → ¬ Elem (while_binding n) xs
  not_a_loop n xs all e = All-Elem IsVariable xs (while_binding n) all e

module _ {C : Type 0} ⦃o : LabelOrder C⦄ (m : BindingLists C) (l : C) where
  pub let_phase-Fits :
      (p : Placement C) (old : PhaseApi C) (b : Binding C)
      (body : PhaseApi C → Option (Extracted C))
      → OnlyVariables old
      → ((api : PhaseApi C) → OnlyVariables api → Fits api.inherits (body api))
      → Fits old.inherits (let_phase m l p old b body)
  unfolding let_phase
  let_phase-Fits here old b body vars fits x h =
      let (bound, e, u) = >>=-eq-some (let_binding m l old b) _ h in
      let (bod, f, v) = >>=-eq-some (body (combined_api bound.api old)) _ u in
      let (ast, _, w) =
        >>=-eq-some
          (let_ast_if_operation m l old (SplitStatement.let_in bound.ast bod.ast) (bound_expr b)) _
          v in
      let (supplied, variables) = let_binding-Api m l old b bound e in
      let inner =
        fits (combined_api bound.api old)
          ((All-append IsVariable bound.api.provides old.provides).1 (variables, vars)) bod f in
      rw (sym (some-inj _ _ w)) (
        Supplied-combined old.inherits bound.api bod.api supplied
          (subst (λ xs. Supplied xs bod.api) supplied.1 inner))
  let_phase-Fits (elsewhere k) old b body vars fits x h =
      let (bod, f, v) = >>=-eq-some (body old) _ h in
      rw (sym (some-inj _ _ v)) (fits old vars bod f)

  rebound-Fits :
      (behind : Bool) (old : PhaseApi C) (v : String) (y : Yield C) (body : Extracted C)
      → Supplied old.inherits body.api
      → Fits old.inherits (rebound m l behind old v y body)
  unfolding rebound remote_requires
  rebound-Fits false old v y body s x h = rw (sym (some-inj _ _ h)) s
  rebound-Fits true old v y body s x h =
      let (reqs, e, u) = >>=-eq-some (remote_requires m l (binding_super v y) old) _ h in
      rw (sym (some-inj _ _ u)) (
        (All-append (λ c. Elem c old.inherits) body.api.requires reqs).1 (
          s.0,
          requires_by-Elem m l (m.contains_subtype (binding_super v y) old.provides) true
              (binding_super v y) old.inherits reqs e,
        ),
        s.1,
      )

  pub let_remote_phase-Fits :
      (p : Placement C) (old : PhaseApi C) (b : Binding C)
      (body : PhaseApi C → Option (Extracted C))
      → OnlyVariables old
      → ((api : PhaseApi C) → OnlyVariables api → Fits api.inherits (body api))
      → Fits old.inherits (let_remote_phase m l p old b body)
  unfolding let_remote_phase
  let_remote_phase-Fits here old b body vars fits x h =
      let (bound, e, u) = >>=-eq-some (let_remote_binding m l old b) _ h in
      let (bod, f, v) = >>=-eq-some (body (combined_api old bound.api)) _ u in
      let (supplied, variables) = let_remote_binding-Api m l old b bound e in
      rw (sym (some-inj _ _ v)) (
        Supplied-combined old.inherits bound.api bod.api supplied (
          fits (combined_api old bound.api)
            ((All-append IsVariable old.provides bound.api.provides).1 (vars, variables)) bod f))
  let_remote_phase-Fits (elsewhere k) old b body vars fits x h =
      let (bod, f, v) = >>=-eq-some (body old) _ h in
      let (object, _, u) = >>=-eq-some (handle_type (yield_of (bound_expr b))) _ v in
      rebound-Fits (o.flows_to k l) old (bound_var b) object bod (fits old vars bod f) x u

  pub operation_phase-Fits :
      (p : Placement C) (old : PhaseApi C) (n : String) (h : Expression C) (args : Args C)
      → Fits old.inherits (operation_phase m l p old n h args)
  unfolding operation_phase
  operation_phase-Fits here old n h args x k =
      let (hndl, e, u) = >>=-eq-some (collect_phase_expression m l old h) _ k in
      let (rest, f, v) = >>=-eq-some (collect_phase_args m l old hndl.api args) _ u in
      let (ast, i, w) =
        >>=-eq-some
          (operation_ast m l (is_builtin n) (SplitStatement.operation_statement n hndl.ast rest.ast)
            hndl.ast)
          _ v in
      rw (sym (some-inj _ _ w))
        (collect_phase_args-Api m l old hndl.api args rest
          (collect_phase_expression-Api m l old h hndl e) f).0
  operation_phase-Fits (elsewhere k) old n h args x e = rw (sym (some-inj _ _ e)) (tt, refl)

  increment_phase-Supplied :
      (behind : Bool) (old : PhaseApi C) (v : String)
      → Supplied old.inherits (increment_phase m l behind old v).api
  increment_phase-Supplied true old v = (tt, refl)
  increment_phase-Supplied false old v = (tt, refl)

  pub assignment_phase-Fits :
      (p : Placement C) (old : PhaseApi C) (v e : Expression C)
      → Fits old.inherits (assignment_phase m l p old v e)
  unfolding assignment_phase
  assignment_phase-Fits here old v e x k =
      let (var, a, u) = >>=-eq-some (collect_phase_expression m l old v) _ k in
      let (expr, b, w) = >>=-eq-some (collect_phase_expression m l old e) _ u in
      rw (sym (some-inj _ _ w)) (
        Supplied-combined old.inherits var.api expr.api
          (collect_phase_expression-Api m l old v var a).0
          (collect_phase_expression-Api m l old e expr b).0)
  assignment_phase-Fits (elsewhere k) old v e x h =
      let (base, a, u) = >>=-eq-some (base_var v) _ h in
      rw (sym (some-inj _ _ u)) (increment_phase-Supplied (o.flows_to k l) old base)

  pub expression_phase-Fits :
      (p : Placement C) (old : PhaseApi C) (e : Expression C) (returns : Option (Yield C))
      (node : SplitExpression C → SplitStatement C)
      → Fits old.inherits (expression_phase m l p old e returns node)
  expression_phase-Fits here old e returns node x k =
      let (var, a, u) = >>=-eq-some (collect_phase_expression m l old e) _ k in
      rw (sym (some-inj _ _ u)) (collect_phase_expression-Api m l old e var a).0
  expression_phase-Fits (elsewhere k) old e returns node x h = rw (sym (some-inj _ _ h)) (tt, refl)

  known_by :
      (old : PhaseApi C) (n : LoopName) (y x : Extracted C) (own inherited : Bool)
      → OnlyVariables old
      → m.contained (while_binding n) old.provides ≡ own
      → m.contained (while_binding n) old.inherits ≡ inherited
      → when_known m l (own || inherited) y ≡ some x
      → (y ≡ x) × Elem (while_binding n) old.inherits
  known_by old n y x true inherited vars p q h =
      absurd (not_a_loop n old.provides vars (m.contained-Elem (while_binding n) old.provides p))
  known_by old n y x false true vars p q h =
      (some-inj _ _ h, m.contained-Elem (while_binding n) old.inherits q)
  known_by old n y x false false vars p q h = cc

  -- A loop that is known and not provided here is inherited.
  known_loop :
      (old : PhaseApi C) (n : LoopName) (y x : Extracted C)
      → OnlyVariables old
      → when_known m l
          (m.contained (while_binding n) old.provides || m.contained (while_binding n) old.inherits)
          y
        ≡ some x
      → (y ≡ x) × Elem (while_binding n) old.inherits
  known_loop old n y x vars h =
      known_by old n y x (m.contained (while_binding n) old.provides)
        (m.contained (while_binding n) old.inherits) vars refl refl h

  for_each_phase-Fits :
      (enter : Bool) (old : PhaseApi C) (n : LoopName) (body : Option (Extracted C))
      → OnlyVariables old
      → Fits old.inherits body
      → Fits old.inherits (for_each_phase m l enter old n body)
  for_each_phase-Fits false old n body vars fits x h = rw (sym (some-inj _ _ h)) (tt, refl)
  for_each_phase-Fits true old n body vars fits x h =
      let (bod, a, u) = >>=-eq-some body _ h in
      let (same, inherited) = known_loop old n _ x vars u in
      rw (sym same) (
        (All-append (λ c. Elem c old.inherits) bod.api.requires (while_binding n ∷ [])).1
            ((fits bod a).0, (inherited, tt)),
        (fits bod a).1,
      )

  pub while_phase-Fits :
      (p : Placement C) (old : PhaseApi C) (c : Expression C) (n : LoopName)
      (body : Option (Extracted C))
      → OnlyVariables old
      → Fits old.inherits body
      → Fits old.inherits (while_phase m l p old c n body)
  unfolding while_phase
  while_phase-Fits here old c n body vars fits x h =
      let (cond, a, u) = >>=-eq-some (collect_phase_expression m l old c) _ h in
      let (bod, b, w) = >>=-eq-some body _ u in
      rw (sym (some-inj _ _ w)) (
        Supplied-combined old.inherits cond.api bod.api
          (collect_phase_expression-Api m l old c cond a).0 (fits bod b))
  while_phase-Fits (elsewhere k) old c n body vars fits x h =
      for_each_phase-Fits (o.flows_to k l) old n body vars fits x h

  pub if_phase-Fits :
      (enter : Bool) (old : PhaseApi C) (c : Expression C) (t e : Option (Extracted C))
      → Fits old.inherits t
      → Fits old.inherits e
      → Fits old.inherits (if_phase m l enter old c t e)
  unfolding if_phase
  if_phase-Fits false old c t e ft fe x h = rw (sym (some-inj _ _ h)) (tt, refl)
  if_phase-Fits true old c t e ft fe x h =
      let (cond, a, u) = >>=-eq-some (collect_phase_expression m l old c) _ h in
      let (tp, b, v) = >>=-eq-some t _ u in
      let (ep, d, w) = >>=-eq-some e _ v in
      let (returns, _, z) = >>=-eq-some (merge_returns tp.returns ep.returns) _ w in
      rw (sym (some-inj _ _ z)) (
        Supplied-combined old.inherits (combined_api cond.api tp.api) ep.api
          (Supplied-combined old.inherits cond.api tp.api
            (collect_phase_expression-Api m l old c cond a).0 (ft tp b))
          (fe ep d))
