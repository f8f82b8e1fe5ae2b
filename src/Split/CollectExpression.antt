-- ===== src/Split/CollectExpression.antt =====
-- collect_phase on expressions, arguments and bindings (transactions/mtl/split_phase.hpp). `none`
-- is a failed static_assert, or a node that no overload takes.
use mix_t.Base.{String, Bool, true, false, Option, none, some, [], List, ◌∷◌, if◌then◌else◌, ◌>>=◌}
use mix_t.Labels.Order.{LabelOrder}
use mix_t.Labels.Term.{Label, concrete, is_same_label}
use mix_t.Ast.{
  Yield, Expression, var_reference, field_reference, constant, bin_op, generate_tombstone, is_valid,
  endorse, operation, Args, no_args, arg, Binding, binding,
}
use mix_t.Inference.Constraints.{yield_of}
use mix_t.Split.Tree.{SplitExpression, SplitArgs, SplitBinding}
use mix_t.Split.Api.{
  type_binding, local, remote, BindingSuper, binding_super, BindingLists, VariableBinding, PhaseApi,
  handle_type, phase_api, add_provides, combined_api, ExtractedPhase, extracted_phase,
}
use mix_t.Split.Placement.{is_builtin, flows_up, must_flow_down}

module _ {C : Type 0} where
  -- The api of a node that needs nothing.
  abbrev pub nothing_needed : PhaseApi C → PhaseApi C
  nothing_needed old = phase_api [] [] old.inherits

module _ {C : Type 0} ⦃o : LabelOrder C⦄ (m : BindingLists C) (l : C) where
  -- A list of the one binding that an earlier phase provides.
  unfoldable pub found_requires :
      BindingSuper C → List (VariableBinding C) → Option (List (VariableBinding C))
  found_requires needed inherited = do b ← m.find_subtype needed inherited; some (b ∷ [])

  -- By whether the phase itself provides the binding, and whether it may be looked for in the
  -- inherited ones.
  abbrev pub requires_by :
      Bool → Bool → BindingSuper C → List (VariableBinding C) → Option (List (VariableBinding C))
  requires_by true _ needed inherited = some []
  requires_by false true needed inherited = found_requires needed inherited
  requires_by false false needed inherited = none

  unfoldable pub needed_requires : BindingSuper C → PhaseApi C → Option (List (VariableBinding C))
  needed_requires needed old =
      requires_by (m.contains_subtype needed old.provides) (m.contains_subtype needed old.inherits)
        needed old.inherits

  -- What the overloads of collect_phase for a VarReference require, by whether it is a builtin.
  abbrev pub reference_by :
      Bool → PhaseApi C → Label C → Yield C → String → Option (List (VariableBinding C))
  reference_by true old label2 y v = some []
  reference_by false old label2 y v = do
    flows ← flows_up l label2
    reqs ← needed_requires (binding_super v y) old
    if flows then some reqs else none

  unfoldable pub reference_requires :
      PhaseApi C → Label C → Yield C → String → Option (List (VariableBinding C))
  reference_requires old label2 y v = reference_by (is_builtin v) old label2 y v

  unfoldable mutual
    pub collect_phase_expression :
        PhaseApi C → Expression C → Option (ExtractedPhase C (SplitExpression C))
    collect_phase_expression old (var_reference label2 y v) = do
      reqs ← reference_requires old label2 y v
      some (
          extracted_phase (phase_api reqs [] old.inherits) none (SplitExpression.var_reference y v))
    collect_phase_expression old (field_reference label2 y s f) = do
      pre ← collect_phase_expression old s
      some (extracted_phase pre.api none (SplitExpression.field_reference y pre.ast f))
    collect_phase_expression old (constant i) =
        some (extracted_phase (nothing_needed old) none (SplitExpression.constant i))
    collect_phase_expression old (bin_op label2 y op L R) = do
      left ← collect_phase_expression old L
      right ← collect_phase_expression old R
      some (
          extracted_phase (combined_api left.api right.api) none
            (SplitExpression.bin_op y op left.ast right.ast))
    collect_phase_expression old (generate_tombstone label2) =
        if is_same_label label2 (concrete o.top)
        then some (extracted_phase (nothing_needed old) none SplitExpression.generate_tombstone)
        else none
    collect_phase_expression old (is_valid label2 h) = do
      hndl_post ← collect_phase_expression old h
      some (extracted_phase hndl_post.api none (SplitExpression.is_valid hndl_post.ast))
    collect_phase_expression old (endorse label2 y h) = none
    collect_phase_expression old (operation label2 y n h args) = do
      new_hndl ← collect_phase_expression old h
      new_args ← collect_phase_args old new_hndl.api args
      some (
          extracted_phase new_args.api none
            (SplitExpression.operation y n new_hndl.ast new_args.ast))

    -- The arguments, their apis combined with that of the handle from the left.
    pub collect_phase_args :
        PhaseApi C → PhaseApi C → Args C → Option (ExtractedPhase C (SplitArgs C))
    collect_phase_args old api no_args = some (extracted_phase api none SplitArgs.no_args)
    collect_phase_args old api (arg e es) = do
      first ← collect_phase_expression old e
      rest ← collect_phase_args old (combined_api api first.api) es
      some (extracted_phase rest.api none (SplitArgs.arg first.ast rest.ast))

  unfoldable pub let_binding : PhaseApi C → Binding C → Option (ExtractedPhase C (SplitBinding C))
  let_binding old (binding label2 y v e) = do
    low ← must_flow_down l label2
    processed_expr ← collect_phase_expression old e
    some (
        extracted_phase (add_provides processed_expr.api (type_binding v y label2 local)) none
          (SplitBinding.binding low y v processed_expr.ast))

  -- A remote binding is of the expression's type, which must be a handle.
  unfoldable pub let_remote_binding :
      PhaseApi C → Binding C → Option (ExtractedPhase C (SplitBinding C))
  let_remote_binding old (binding label2 y v e) = do
    low ← must_flow_down l label2
    object ← handle_type (yield_of e)
    processed_expr ← collect_phase_expression old e
    some (
        extracted_phase
          (add_provides processed_expr.api (type_binding v (yield_of e) label2 remote)) none
          (SplitBinding.binding low y v processed_expr.ast))
