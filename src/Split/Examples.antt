-- ===== src/Split/Examples.antt =====
-- The split of a small transaction (transactions/mtl/split_phase.hpp).
use mix_t.Base.{◌≡◌, refl, some, none, false, true, [], ◌∷◌, All, pos}
use mix_t.Labels.Pgsql.{PgsqlLabel, top, strong, causal, pgsql_labels}
use mix_t.Labels.Term.{resolved_label_min, resolve, can_resolve}
use mix_t.Ast.{
  Expression, plain, constant, bin_op, plus, greater, binding, Statement, sequence, done, next,
  while, if_else,
}
use mix_t.Ast.Collect.{collect_labels}
use mix_t.Ast.Examples.{appended}
use mix_t.Split.NamedTree.{NamedStatement, NamedSequence}
use mix_t.Split.Named.{
  next_char, loop_name, easy_processing, easy_processing_stmt, easy_processing_pass,
}
use mix_t.Split.NamedLaws.{
  unnamed, relabelled, OnlyTopReturns, easy_processing_pass_lem, loop_names_collide,
}
use mix_t.Split.Tree.{SplitStatement, SplitSequence}
use mix_t.Split.Api.{while_binding, PhaseApi, phase_api}
use mix_t.Split.CollectPhase.{Extracted}
use mix_t.Split.Collapse.{collapse}
use mix_t.Split.Computation.{split_computation, split_at_labels}
use mix_t.Labels.Order.{max_of, min_of}
use mix_t.Ast.Collect.{
  collect_labels_expression, collect_labels_args, collect_labels_binding, collect_labels_sequence,
}
use mix_t.Split.Placement.{are_equivalent, place, is_builtin}
use mix_t.Split.CollectExpression.{
  found_requires, needed_requires, reference_requires, collect_phase_expression, collect_phase_args,
  let_binding, let_remote_binding,
}
use mix_t.Split.CollectPhase.{
  let_phase, remote_requires, rebound, let_remote_phase, operation_phase, assignment_phase,
  while_phase, if_phase, collect_phase, collect_phase_sequence,
}
use mix_t.Split.Collapse.{
  collapse1, collapse1_sequence, is_empty_sequence, count_sequence, count_sequences,
}
use mix_t.Split.RemoveUnused.{
  remove_unused_phase, remove_unused, remove_unused_each, kept_if_required, contains_var_of_name,
  get_binding2,
}
use mix_t.Split.RemoveEmpties.{
  clear_expression, clear_args, clear_binding, clear_empty_statements, clear_each,
}
use mix_t.Split.Computation.{
  labels_in_descending_order, edited_phase, final_phase, without_names, without_names2,
}
use mix_t.Split.SupplyLaws.{InOrder}
use mix_t.Split.SplitLaws.{split_computation-InOrder}
use mix_t.Split.Effects.{effects}
use mix_t.Split.CollapseLaws.{flat_sequence, collapse_lem}
use mix_t.Split.PruneLaws.{remove_unused-effects, clear_empty_statements-effects}
use mix_t.Labels.Pgsql.{is_same, flows_to}
use mix_t.Split.Completeness.{Guarded, RunsAll, split_at_labels-RunsAll}
use mix_t.Split.TestSets.{test_lists, test_sets, test_sorted}
use mix_t.Split.Sample.{
  int_var, at_strong, at_causal, counting, the_loop, x_binding, y_binding, split_var, causal_body,
  phases,
}

split_counting :
    split_computation test_lists test_sets appended test_sorted counting [] ≡ some phases
unfolding split_computation easy_processing_pass easy_processing easy_processing_stmt next_char
    resolved_label_min resolve collect_labels collect_labels_expression collect_labels_args
    collect_labels_binding collect_labels_sequence split_at_labels labels_in_descending_order max_of
    min_of are_equivalent place is_builtin found_requires needed_requires reference_requires
    collect_phase_expression collect_phase_args let_binding let_remote_binding let_phase
    remote_requires rebound let_remote_phase operation_phase assignment_phase while_phase if_phase
    collect_phase collect_phase_sequence collapse collapse1 collapse1_sequence is_empty_sequence
    count_sequence count_sequences remove_unused_phase remove_unused remove_unused_each
    kept_if_required contains_var_of_name get_binding2 clear_expression clear_args clear_binding
    clear_empty_statements clear_each edited_phase final_phase without_names without_names2
split_counting = refl

split_computation-InOrder_example : InOrder test_sets [] phases
split_computation-InOrder_example =
    split_computation-InOrder test_lists test_sets appended test_sorted counting [] phases
      split_counting

abbrev named_counting : NamedStatement PgsqlLabel
named_counting =
    NamedStatement.let_in at_strong (binding at_strong (plain "int") "x" (constant (pos 3))) (
      NamedStatement.sequence at_strong (
        NamedSequence.next
          (NamedStatement.while at_strong
            (bin_op at_strong (plain "bool") greater (int_var strong "x") (constant (pos 0)))
            (NamedStatement.let_in at_causal
              (binding at_causal (plain "int") "y" (int_var strong "x"))
              (NamedStatement.sequence at_causal (
                NamedSequence.next
                  (NamedStatement.assignment at_causal (int_var causal "y")
                    (bin_op at_causal (plain "int") plus (int_var causal "y") (int_var strong "x")))
                  NamedSequence.done)))
            the_loop)
          NamedSequence.done))

name_counting : easy_processing_pass counting ≡ some named_counting
unfolding resolved_label_min resolve min_of can_resolve easy_processing_pass easy_processing
    easy_processing_stmt next_char
name_counting = refl

easy_processing_pass_lem_example :
    (unnamed named_counting ≡ relabelled counting) × OnlyTopReturns counting
easy_processing_pass_lem_example = easy_processing_pass_lem counting named_counting name_counting

-- `{ if (x > 0) { while (x > 0) { } }; while (x > 0) { } }`.
abbrev positive : Expression PgsqlLabel
positive = bin_op at_strong (plain "bool") greater (int_var strong "x") (constant (pos 0))

abbrev empty : Statement PgsqlLabel
empty = sequence at_strong done

abbrev named_empty : NamedStatement PgsqlLabel
named_empty = NamedStatement.sequence at_strong NamedSequence.done

empty_at_3 : easy_processing 3 2 false empty ≡ some named_empty
unfolding easy_processing easy_processing_stmt next_char
empty_at_3 = refl

empty_at_2 : easy_processing 2 1 false empty ≡ some named_empty
unfolding easy_processing easy_processing_stmt next_char
empty_at_2 = refl

loop_names_collide_example :
    easy_processing_pass (
      sequence at_strong (
        next
          (if_else at_strong positive
            (sequence at_strong (next (while at_strong positive empty) done))
            empty)
          (next (while at_strong positive empty) done)))
    ≡ some (
        NamedStatement.sequence at_strong (
          NamedSequence.next
            (NamedStatement.if_else at_strong positive
              (NamedStatement.sequence at_strong (
                NamedSequence.next
                  (NamedStatement.while at_strong positive named_empty (loop_name 3 1))
                  NamedSequence.done))
              named_empty)
            (NamedSequence.next
              (NamedStatement.while at_strong positive named_empty (loop_name 3 1))
              NamedSequence.done)))
loop_names_collide_example =
    loop_names_collide at_strong at_strong at_strong at_strong at_strong positive positive positive
      empty empty empty named_empty named_empty named_empty empty_at_3 empty_at_3 empty_at_2

-- What the causal phase collects where `x` and the loop are inherited.
abbrev inherited_api : PhaseApi PgsqlLabel
inherited_api = phase_api [] [] (x_binding ∷ while_binding the_loop ∷ [])

abbrev collected_tree : SplitStatement PgsqlLabel
collected_tree = SplitStatement.sequence (
    SplitSequence.next (SplitStatement.increment_occurance "x") (
      SplitSequence.next
        (SplitStatement.sequence
          (SplitSequence.next (SplitStatement.for_each causal_body the_loop) SplitSequence.done))
        SplitSequence.done))

abbrev collected : Extracted PgsqlLabel
collected = record {
  api =
      phase_api (x_binding ∷ x_binding ∷ while_binding the_loop ∷ []) (y_binding ∷ [])
        (x_binding ∷ while_binding the_loop ∷ []);
  returns = none;
  ast = collected_tree;
}

-- `{ { } { x++; if (c) { } else { z++ }; return x } }`.
abbrev nested : SplitSequence PgsqlLabel
nested = SplitSequence.next (SplitStatement.sequence SplitSequence.done) (
    SplitSequence.next
      (SplitStatement.sequence (
        SplitSequence.next (SplitStatement.increment_occurance "x") (
          SplitSequence.next
            (SplitStatement.if_else (split_var "c") (SplitStatement.sequence SplitSequence.done)
              (SplitStatement.increment_occurance "z"))
            (SplitSequence.next (SplitStatement.return (split_var "x")) SplitSequence.done))))
      SplitSequence.done)

collapse_lem_example : collapse nested ≡ SplitStatement.sequence (flat_sequence nested)
collapse_lem_example = collapse_lem nested

remove_unused-effects_example :
    effects [] (remove_unused test_sets (x_binding ∷ []) (SplitStatement.sequence nested))
    ≡ effects [] (SplitStatement.sequence nested)
remove_unused-effects_example =
    remove_unused-effects test_sets (x_binding ∷ []) (SplitStatement.sequence nested) []

clear_empty_statements-effects_example :
    effects [] (clear_empty_statements test_sets (SplitStatement.sequence nested)).ast
    ≡ effects [] (SplitStatement.sequence nested)
clear_empty_statements-effects_example =
    clear_empty_statements-effects test_sets (SplitStatement.sequence nested) []

split_named :
    split_at_labels test_lists test_sets named_counting [] (top ∷ strong ∷ causal ∷ [])
    ≡ some phases
unfolding split_at_labels labels_in_descending_order max_of min_of are_equivalent place is_builtin
    found_requires needed_requires reference_requires collect_phase_expression collect_phase_args
    let_binding let_remote_binding let_phase remote_requires rebound let_remote_phase
    operation_phase assignment_phase while_phase if_phase collect_phase collect_phase_sequence
    collapse collapse1 collapse1_sequence is_empty_sequence count_sequence count_sequences
    remove_unused_phase remove_unused remove_unused_each kept_if_required contains_var_of_name
    get_binding2 clear_expression clear_args clear_binding clear_empty_statements clear_each
    edited_phase final_phase without_names without_names2
split_named = refl

-- A strong condition flows wherever a causal effect is.
strong_flows : (l : PgsqlLabel) → is_same causal l ≡ true → flows_to strong l ≡ true
strong_flows PgsqlLabel.causal h = refl
strong_flows PgsqlLabel.strong h = refl
strong_flows PgsqlLabel.bottom h = refl
strong_flows PgsqlLabel.top h = cc

named_counting-Guarded : (l : PgsqlLabel) → Guarded l [] named_counting
named_counting-Guarded l = (((tt, tt), (strong_flows l, (strong_flows l, tt))), tt)

split_at_labels-RunsAll_example : All (RunsAll test_lists test_sets named_counting) phases
split_at_labels-RunsAll_example =
    split_at_labels-RunsAll test_lists test_sets named_counting (top ∷ strong ∷ causal ∷ []) []
      phases named_counting-Guarded split_named
