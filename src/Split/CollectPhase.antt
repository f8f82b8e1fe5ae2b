-- ===== src/Split/CollectPhase.antt =====
-- collect_phase on statements: the part of a tree that one phase runs
-- (transactions/mtl/split_phase.hpp).
unfoldable pub use mix_t.Split.LetPhase.{
  Extracted, two, skip, refresh, base_var, bound_var, bound_expr, merge_returns,
  let_ast_if_operation, let_phase, remote_requires, rebound, let_remote_phase,
}
use mix_t.Base.{String, Bool, true, false, ◌||◌, Option, none, some, ◌>>=◌}
use mix_t.Labels.Order.{LabelOrder}
use mix_t.Labels.Term.{concrete}
use mix_t.Ast.{Yield, Expression, Args}
use mix_t.Inference.Constraints.{yield_of}
use mix_t.Split.NamedTree.{
  LoopName, NamedStatement, let_in, let_remote, assignment, return, write_tombstone,
  accompany_write, if_else, while, operation_statement, sequence, NamedSequence, done, next,
}
use mix_t.Split.Tree.{SplitExpression, SplitStatement, SplitSequence}
use mix_t.Split.Api.{
  while_binding, BindingLists, PhaseApi, add_provides, add_requires, combined_api, ExtractedPhase,
  extracted_phase,
}
use mix_t.Split.Collapse.{collapse}
use mix_t.Split.Placement.{Placement, here, elsewhere, place, flows_up, is_builtin}
use mix_t.Split.CollectExpression.{nothing_needed, collect_phase_expression, collect_phase_args}

module _ {C : Type 0} ⦃o : LabelOrder C⦄ (m : BindingLists C) (l : C) where
  -- A builtin operation changes no remote object, so nothing is refreshed behind it.
  abbrev pub operation_ast : Bool → SplitStatement C → SplitExpression C → Option (SplitStatement C)
  operation_ast true oper h = some oper
  operation_ast false oper h = do refreshed ← refresh h; some (two oper refreshed)

  unfoldable pub operation_phase :
      Placement C → PhaseApi C → String → Expression C → Args C → Option (Extracted C)
  operation_phase here old n h args = do
    new_hndl ← collect_phase_expression m l old h
    new_args ← collect_phase_args m l old new_hndl.api args
    ast ←
        operation_ast (is_builtin n)
          (SplitStatement.operation_statement n new_hndl.ast new_args.ast) new_hndl.ast
    some (extracted_phase new_args.api none ast)
  operation_phase (elsewhere l2) old n h args = some (skip old)

  -- Whether this phase is behind the one that assigns: only then may it use the variable.
  abbrev pub increment_phase : Bool → PhaseApi C → String → Extracted C
  increment_phase true old base =
      extracted_phase (nothing_needed old) none (SplitStatement.increment_occurance base)
  increment_phase false old base = skip old

  unfoldable pub assignment_phase :
      Placement C → PhaseApi C → Expression C → Expression C → Option (Extracted C)
  assignment_phase here old v e = do
    var ← collect_phase_expression m l old v
    expr ← collect_phase_expression m l old e
    some (
        extracted_phase (combined_api var.api expr.api) none
          (SplitStatement.assignment var.ast expr.ast))
  assignment_phase (elsewhere l2) old v e = do
    base ← base_var v
    some (increment_phase (o.flows_to l2 l) old base)

  -- A node with one expression: AccompanyWrite, WriteTombstone and Return.
  abbrev pub expression_phase :
      Placement C
      → PhaseApi C
      → Expression C
      → Option (Yield C)
      → (SplitExpression C → SplitStatement C)
      → Option (Extracted C)
  expression_phase here old e returns node = do
    var ← collect_phase_expression m l old e
    some (extracted_phase var.api returns (node var.ast))
  expression_phase (elsewhere l2) old e returns node = some (skip old)

  -- The static_assert that the loop's binding is known.
  abbrev pub when_known : Bool → Extracted C → Option (Extracted C)
  when_known true x = some x
  when_known false x = none

  -- A phase that the condition flows to repeats the body as often as the phase of the condition has.
  abbrev pub for_each_phase :
      Bool → PhaseApi C → LoopName → Option (Extracted C) → Option (Extracted C)
  for_each_phase true old name collected_body = do
    body ← collected_body
    when_known
        (m.contained (while_binding name) old.provides
          || m.contained (while_binding name) old.inherits)
        (extracted_phase (add_requires body.api (while_binding name)) body.returns
          (SplitStatement.for_each body.ast name))
  for_each_phase false old name collected_body = some (skip old)

  unfoldable pub while_phase :
      Placement C
      → PhaseApi C
      → Expression C
      → LoopName
      → Option (Extracted C)
      → Option (Extracted C)
  while_phase here old cond name collected_body = do
    condition ← collect_phase_expression m l old cond
    body ← collected_body
    some (
        extracted_phase (add_provides (combined_api condition.api body.api) (while_binding name))
          body.returns (SplitStatement.while condition.ast body.ast name))
  while_phase (elsewhere l2) old cond name collected_body =
      for_each_phase (o.flows_to l2 l) old name collected_body

  unfoldable pub if_phase :
      Bool
      → PhaseApi C
      → Expression C
      → Option (Extracted C)
      → Option (Extracted C)
      → Option (Extracted C)
  if_phase true old cond collected_then collected_els = do
    condition ← collect_phase_expression m l old cond
    then_phase ← collected_then
    els_phase ← collected_els
    returns ← merge_returns then_phase.returns els_phase.returns
    some (
        extracted_phase (combined_api (combined_api condition.api then_phase.api) els_phase.api)
          returns (SplitStatement.if_else condition.ast then_phase.ast els_phase.ast))
  if_phase false old cond collected_then collected_els = some (skip old)

  unfoldable mutual
    pub collect_phase : PhaseApi C → NamedStatement C → Option (Extracted C)
    collect_phase old (let_in label2 b body) = do
      p ← place l label2
      let_phase m l p old b (λ api. collect_phase api body)
    collect_phase old (let_remote label2 b body) = do
      p ← place l label2
      let_remote_phase m l p old b (λ api. collect_phase api body)
    collect_phase old (assignment label2 v e) = do p ← place l label2; assignment_phase p old v e
    collect_phase old (return e) = do
      p ← place l (concrete o.bottom)
      expression_phase p old e (some (yield_of e)) SplitStatement.return
    collect_phase old (write_tombstone label2 e) = do
      p ← place l label2
      expression_phase p old e none SplitStatement.write_tombstone
    collect_phase old (accompany_write label2 e) = do
      p ← place l label2
      expression_phase p old e none SplitStatement.accompany_write
    collect_phase old (if_else label2 c t e) = do
      flows ← flows_up l label2
      if_phase flows old c (collect_phase old t) (collect_phase old e)
    collect_phase old (while label2 c body name) = do
      p ← place l label2
      while_phase p old c name (collect_phase old body)
    collect_phase old (operation_statement label2 n h args) = do
      p ← place l label2
      operation_phase p old n h args
    collect_phase old (sequence label2 ss) = do
      processed ← collect_phase_sequence old ss
      some (extracted_phase processed.api processed.returns (collapse processed.ast))

    -- build_seq1 and build_seq2: every statement is collected under the same api.
    pub collect_phase_sequence :
        PhaseApi C → NamedSequence C → Option (ExtractedPhase C (SplitSequence C))
    collect_phase_sequence old done =
        some (extracted_phase (nothing_needed old) none SplitSequence.done)
    collect_phase_sequence old (next s ss) = do
      first ← collect_phase old s
      rest ← collect_phase_sequence old ss
      returns ← merge_returns first.returns rest.returns
      some (
          extracted_phase (combined_api first.api rest.api) returns
            (SplitSequence.next first.ast rest.ast))
