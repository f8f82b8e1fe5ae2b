-- ===== src/Split/LetPhase.antt =====
-- collect_phase on the statements that bind a variable, and what the statements share
-- (transactions/mtl/split_phase.hpp).
use mix_t.Base.{String, Bool, true, false, Option, none, some, [], List, if◌then◌else◌, ◌>>=◌}
use mix_t.Labels.Order.{LabelOrder}
use mix_t.Ast.{
  Yield, handle, Expression, var_reference, field_reference, operation, Binding, binding,
}
use mix_t.Inference.Constraints.{is_same_yield, yield_of}
use mix_t.Split.Tree.{SplitExpression, SplitStatement, SplitSequence}
use mix_t.Split.Api.{
  VariableBinding, BindingLists, BindingSuper, binding_super, PhaseApi, handle_type, phase_api,
  combined_api, ExtractedPhase, extracted_phase,
}
use mix_t.Split.Placement.{Placement, here, elsewhere}
use mix_t.Split.CollectExpression.{
  nothing_needed, collect_phase_expression, let_binding, let_remote_binding, requires_by,
}

abbrev pub Extracted : Type 0 → Type 0
Extracted C = ExtractedPhase C (SplitStatement C)

module _ {C : Type 0} where
  -- `Statement<Sequence<s1, s2>>`.
  abbrev pub two : SplitStatement C → SplitStatement C → SplitStatement C
  two s1 s2 =
      SplitStatement.sequence (SplitSequence.next s1 (SplitSequence.next s2 SplitSequence.done))

  -- `Statement<Sequence<>>`, for a statement that another phase runs.
  abbrev pub skip : PhaseApi C → Extracted C
  skip old = extracted_phase (nothing_needed old) none (SplitStatement.sequence SplitSequence.done)

  -- RefreshRemoteOccurance is only defined at a variable that holds a handle.
  abbrev pub refresh : SplitExpression C → Option (SplitStatement C)
  refresh (SplitExpression.var_reference (handle h t) v) =
      some (SplitStatement.refresh_remote_occurance h t v)
  refresh _ = none

  -- typecheck_phase::base_var.
  abbrev pub base_var : Expression C → Option String
  base_var (var_reference l y v) = some v
  base_var (field_reference l y s f) = base_var s
  base_var _ = none

  abbrev pub bound_var : Binding C → String
  bound_var (binding l y v e) = v

  abbrev pub bound_expr : Binding C → Expression C
  bound_expr (binding l y v e) = e

module _ {C : Type 0} ⦃o : LabelOrder C⦄ where
  -- The type that two statements return, if at least one of them returns none or both the same.
  abbrev pub merge_returns : Option (Yield C) → Option (Yield C) → Option (Option (Yield C))
  merge_returns none rest = some rest
  merge_returns (some a) none = some (some a)
  merge_returns (some a) (some b) = if is_same_yield a b then some (some a) else none

module _ {C : Type 0} ⦃o : LabelOrder C⦄ (m : BindingLists C) (l : C) where
  -- Behind a let of an operation's result, the handle is refreshed.
  abbrev pub let_ast_if_operation :
      PhaseApi C → SplitStatement C → Expression C → Option (SplitStatement C)
  let_ast_if_operation old basic_ast (operation l2 y n h args) = do
    hndl ← collect_phase_expression m l old h
    refreshed ← refresh hndl.ast
    some (two basic_ast refreshed)
  let_ast_if_operation old basic_ast _ = some basic_ast

  -- A Let, from the result of the body under an api.
  unfoldable pub let_phase :
      Placement C
      → PhaseApi C
      → Binding C
      → (PhaseApi C → Option (Extracted C))
      → Option (Extracted C)
  let_phase here old b collect_body = do
    bound ← let_binding m l old b
    body ← collect_body (combined_api bound.api old)
    ast ← let_ast_if_operation old (SplitStatement.let_in bound.ast body.ast) (bound_expr b)
    some (extracted_phase (combined_api bound.api body.api) body.returns ast)
  let_phase (elsewhere l2) old b collect_body = do
    new_body ← collect_body old
    some (
        extracted_phase new_body.api new_body.returns
          (two (SplitStatement.increment_occurance (bound_var b)) new_body.ast))

  -- The binding of a remote variable that an earlier phase has bound.
  unfoldable pub remote_requires : BindingSuper C → PhaseApi C → Option (List (VariableBinding C))
  remote_requires needed old =
      requires_by m l (m.contains_subtype needed old.provides) true needed old.inherits

  -- Whether this phase is behind the one that binds the variable, or before it.
  unfoldable pub rebound : Bool → PhaseApi C → String → Yield C → Extracted C → Option (Extracted C)
  rebound false old v object new_body = some new_body
  rebound true old v object new_body = do
    reqs ← remote_requires (binding_super v object) old
    some (
        extracted_phase (combined_api new_body.api (phase_api reqs [] old.inherits))
          new_body.returns (two (SplitStatement.increment_remote_occurance v) new_body.ast))

  unfoldable pub let_remote_phase :
      Placement C
      → PhaseApi C
      → Binding C
      → (PhaseApi C → Option (Extracted C))
      → Option (Extracted C)
  let_remote_phase here old b collect_body = do
    bound ← let_remote_binding m l old b
    body ← collect_body (combined_api old bound.api)
    some (
        extracted_phase (combined_api bound.api body.api) body.returns
          (SplitStatement.let_remote bound.ast body.ast))
  let_remote_phase (elsewhere l2) old b collect_body = do
    new_body ← collect_body old
    object ← handle_type (yield_of (bound_expr b))
    rebound (o.flows_to l2 l) old (bound_var b) object new_body
