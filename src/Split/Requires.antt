-- ===== src/Split/Requires.antt =====
-- What a phase requires, it inherits (transactions/mtl/split_phase.hpp).
use mix_t.Base.{
  String, Bool, true, false, ◌≡◌, refl, sym, ap₂, none, some, some-inj, >>=-eq-some, List, [], ◌++◌,
  All, All-append, Elem, if◌then◌else◌,
}
use mix_t.Labels.Order.{LabelOrder}
use mix_t.Labels.Term.{Label, concrete, is_same_label}
use mix_t.Ast.{
  Yield, Expression, var_reference, field_reference, constant, bin_op, generate_tombstone, is_valid,
  endorse, operation, Args, no_args, arg, Binding, binding,
}
use mix_t.Inference.Constraints.{yield_of}
use mix_t.Split.Tree.{SplitExpression, SplitArgs, SplitBinding}
use mix_t.Split.Api.{
  BindingLists, BindingSuper, binding_super, PhaseApi, combined_api, ExtractedPhase,
  VariableBinding, type_binding, while_binding, handle_type,
}
use mix_t.Split.Placement.{flows_up, must_flow_down, is_builtin}
use mix_t.Split.CollectExpression.{
  found_requires, requires_by, needed_requires, reference_by, reference_requires,
  collect_phase_expression, collect_phase_args, let_binding, let_remote_binding,
}

module _ {C : Type 0} where
  -- An api that requires only what it inherits, which is what `inherited` says.
  abbrev pub Supplied : List (VariableBinding C) → PhaseApi C → Type 0
  Supplied inherited api = All (λ b. Elem b inherited) api.requires × (api.inherits ≡ inherited)

  -- Bindings of variables, not of loops.
  abbrev pub IsVariable : VariableBinding C → Type 0
  IsVariable (type_binding x y l location) = Unit
  IsVariable (while_binding n) = ⊥

  pub Supplied-combined :
      (xs : List (VariableBinding C)) (a b : PhaseApi C)
      → Supplied xs a
      → Supplied xs b
      → Supplied xs (combined_api a b)
  Supplied-combined xs a b p q =
      ((All-append (λ c. Elem c xs) a.requires b.requires).1 (p.0, q.0), p.1)

  -- The api of an expression, which provides nothing.
  abbrev pub ExpressionApi : List (VariableBinding C) → PhaseApi C → Type 0
  ExpressionApi xs api = Supplied xs api × (api.provides ≡ [])

  ExpressionApi-combined :
      (xs : List (VariableBinding C)) (a b : PhaseApi C)
      → ExpressionApi xs a
      → ExpressionApi xs b
      → ExpressionApi xs (combined_api a b)
  ExpressionApi-combined xs a b p q =
      (Supplied-combined xs a b p.0 q.0, ap₂ (λ u v. u ++ v) p.1 q.1)

module _ {C : Type 0} ⦃o : LabelOrder C⦄ (m : BindingLists C) (l : C) where
  found_requires-Elem :
      (s : BindingSuper C) (xs reqs : List (VariableBinding C))
      → found_requires m l s xs ≡ some reqs
      → All (λ b. Elem b xs) reqs
  unfolding found_requires
  found_requires-Elem s xs reqs h =
      let (b, e, v) = >>=-eq-some (m.find_subtype s xs) _ h in
      rw (sym (some-inj _ _ v)) ((m.find-Elem s xs b e).0, tt)

  pub requires_by-Elem :
      (own inherited : Bool) (s : BindingSuper C) (xs reqs : List (VariableBinding C))
      → requires_by m l own inherited s xs ≡ some reqs
      → All (λ b. Elem b xs) reqs
  requires_by-Elem true inherited s xs reqs h = rw (sym (some-inj _ _ h)) tt
  requires_by-Elem false true s xs reqs h = found_requires-Elem s xs reqs h
  requires_by-Elem false false s xs reqs h = cc

  if-some : {A : Type 0} (b : Bool) (x y : A) → (if b then some x else none) ≡ some y → x ≡ y
  if-some true x y h = some-inj _ _ h
  if-some false x y h = cc

  reference_by-Elem :
      (builtin : Bool) (old : PhaseApi C) (l2 : Label C) (y : Yield C) (v : String)
      (reqs : List (VariableBinding C))
      → reference_by m l builtin old l2 y v ≡ some reqs
      → All (λ b. Elem b old.inherits) reqs
  unfolding needed_requires
  reference_by-Elem true old l2 y v reqs h = rw (sym (some-inj _ _ h)) tt
  reference_by-Elem false old l2 y v reqs h =
      let (flows, _, u) = >>=-eq-some (flows_up l l2) _ h in
      let (rs, e, w) = >>=-eq-some (needed_requires m l (binding_super v y) old) _ u in
      rw (sym (if-some flows rs reqs w)) (
        requires_by-Elem (m.contains_subtype (binding_super v y) old.provides)
          (m.contains_subtype (binding_super v y) old.inherits) (binding_super v y) old.inherits rs
          e)

  mutual
    unfolding collect_phase_expression collect_phase_args reference_requires

    pub collect_phase_expression-Api :
        (old : PhaseApi C) (e : Expression C) (x : ExtractedPhase C (SplitExpression C))
        → collect_phase_expression m l old e ≡ some x
        → ExpressionApi old.inherits x.api
    collect_phase_expression-Api old (var_reference l2 y v) x h =
        let (reqs, e, k) = >>=-eq-some (reference_requires m l old l2 y v) _ h in
        rw (sym (some-inj _ _ k)) ((reference_by-Elem (is_builtin v) old l2 y v reqs e, refl), refl)
    collect_phase_expression-Api old (field_reference l2 y s f) x h =
        let (pre, e, k) = >>=-eq-some (collect_phase_expression m l old s) _ h in
        rw (sym (some-inj _ _ k)) (collect_phase_expression-Api old s pre e)
    collect_phase_expression-Api old (constant i) x h = rw (sym (some-inj _ _ h)) ((tt, refl), refl)
    collect_phase_expression-Api old (bin_op l2 y op L R) x h =
        let (left, e, k) = >>=-eq-some (collect_phase_expression m l old L) _ h in
        let (right, f, v) = >>=-eq-some (collect_phase_expression m l old R) _ k in
        rw (sym (some-inj _ _ v)) (
          ExpressionApi-combined old.inherits left.api right.api
            (collect_phase_expression-Api old L left e)
            (collect_phase_expression-Api old R right f))
    collect_phase_expression-Api old (generate_tombstone l2) x h =
        rw (sym (if-some (is_same_label l2 (concrete o.top)) _ _ h)) ((tt, refl), refl)
    collect_phase_expression-Api old (is_valid l2 s) x h =
        let (pre, e, k) = >>=-eq-some (collect_phase_expression m l old s) _ h in
        rw (sym (some-inj _ _ k)) (collect_phase_expression-Api old s pre e)
    collect_phase_expression-Api old (endorse l2 y s) x h = cc
    collect_phase_expression-Api old (operation l2 y n s args) x h =
        let (hndl, e, k) = >>=-eq-some (collect_phase_expression m l old s) _ h in
        let (rest, f, v) = >>=-eq-some (collect_phase_args m l old hndl.api args) _ k in
        rw (sym (some-inj _ _ v)) (
          collect_phase_args-Api old hndl.api args rest (collect_phase_expression-Api old s hndl e)
            f)

    pub collect_phase_args-Api :
        (old api : PhaseApi C) (es : Args C) (x : ExtractedPhase C (SplitArgs C))
        → ExpressionApi old.inherits api
        → collect_phase_args m l old api es ≡ some x
        → ExpressionApi old.inherits x.api
    collect_phase_args-Api old api no_args x p h = rw (sym (some-inj _ _ h)) p
    collect_phase_args-Api old api (arg s es) x p h =
        let (first, e, k) = >>=-eq-some (collect_phase_expression m l old s) _ h in
        let (rest, f, v) =
          >>=-eq-some (collect_phase_args m l old (combined_api api first.api) es) _ k in
        rw (sym (some-inj _ _ v)) (
          collect_phase_args-Api old (combined_api api first.api) es rest
            (ExpressionApi-combined old.inherits api first.api p
              (collect_phase_expression-Api old s first e))
            f)

  -- A let binds a variable.
  pub let_binding-Api :
      (old : PhaseApi C) (b : Binding C) (x : ExtractedPhase C (SplitBinding C))
      → let_binding m l old b ≡ some x
      → Supplied old.inherits x.api × All IsVariable x.api.provides
  unfolding let_binding
  let_binding-Api old (binding l2 y v e) x h =
      let (low, _, u) = >>=-eq-some (must_flow_down l l2) _ h in
      let (p, f, w) = >>=-eq-some (collect_phase_expression m l old e) _ u in
      let (supplied, none_provided) = collect_phase_expression-Api old e p f in
      rw (sym (some-inj _ _ w)) (supplied, rw none_provided (tt, tt))

  pub let_remote_binding-Api :
      (old : PhaseApi C) (b : Binding C) (x : ExtractedPhase C (SplitBinding C))
      → let_remote_binding m l old b ≡ some x
      → Supplied old.inherits x.api × All IsVariable x.api.provides
  unfolding let_remote_binding
  let_remote_binding-Api old (binding l2 y v e) x h =
      let (low, _, u) = >>=-eq-some (must_flow_down l l2) _ h in
      let (object, _, u2) = >>=-eq-some (handle_type (yield_of e)) _ u in
      let (p, f, w) = >>=-eq-some (collect_phase_expression m l old e) _ u2 in
      let (supplied, none_provided) = collect_phase_expression-Api old e p f in
      rw (sym (some-inj _ _ w)) (supplied, rw none_provided (tt, tt))
