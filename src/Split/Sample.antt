-- ===== src/Split/Sample.antt =====
-- A small transaction and its phases (transactions/mtl/split_phase.hpp).
use mix_t.Base.{String, none, List, [], ◌∷◌, pos}
use mix_t.Labels.Pgsql.{PgsqlLabel, top, strong, causal, pgsql_labels}
use mix_t.Labels.Term.{Label, concrete}
use mix_t.Ast.{
  Expression, plain, var_reference, constant, bin_op, plus, greater, binding, Statement, let_in,
  assignment, sequence, done, next, while,
}
use mix_t.Split.NamedTree.{LoopName}
use mix_t.Split.Named.{loop_name}
use mix_t.Split.Tree.{SplitExpression, SplitBinding, SplitStatement, SplitSequence}
use mix_t.Split.Api.{VariableBinding, type_binding, while_binding, local}
use mix_t.Split.Computation.{Prephase}

abbrev pub int_var : PgsqlLabel → String → Expression PgsqlLabel
int_var l v = var_reference (concrete l) (plain "int") v

abbrev pub at_strong : Label PgsqlLabel
at_strong = concrete strong

abbrev pub at_causal : Label PgsqlLabel
at_causal = concrete causal

-- `let strong x = 3 in { while (x > 0) { let causal y = x in { y = y + x } } }`.
abbrev pub counting : Statement PgsqlLabel
counting = let_in at_strong (binding at_strong (plain "int") "x" (constant (pos 3))) (
    sequence at_strong (
      next
        (while at_strong
          (bin_op at_strong (plain "bool") greater (int_var strong "x") (constant (pos 0)))
          (let_in at_causal (binding at_causal (plain "int") "y" (int_var strong "x")) (
            sequence at_causal (
              next
                (assignment at_causal (int_var causal "y")
                  (bin_op at_causal (plain "int") plus (int_var causal "y") (int_var strong "x")))
                done))))
        done))

abbrev pub the_loop : LoopName
the_loop = loop_name 2 1

abbrev pub x_binding : VariableBinding PgsqlLabel
x_binding = type_binding "x" (plain "int") at_strong local

abbrev pub y_binding : VariableBinding PgsqlLabel
y_binding = type_binding "y" (plain "int") at_causal local

abbrev pub split_var : String → SplitExpression PgsqlLabel
split_var v = SplitExpression.var_reference (plain "int") v

abbrev pub strong_tree : SplitStatement PgsqlLabel
strong_tree =
    SplitStatement.let_in
      (SplitBinding.binding strong (plain "int") "x" (SplitExpression.constant (pos 3)))
      (SplitStatement.sequence (
        SplitSequence.next
          (SplitStatement.while
            (SplitExpression.bin_op (plain "bool") greater (split_var "x")
              (SplitExpression.constant (pos 0)))
            (SplitStatement.sequence SplitSequence.done) the_loop)
          SplitSequence.done))

abbrev pub causal_body : SplitStatement PgsqlLabel
causal_body =
    SplitStatement.let_in (SplitBinding.binding causal (plain "int") "y" (split_var "x")) (
      SplitStatement.sequence (
        SplitSequence.next
          (SplitStatement.assignment (split_var "y")
            (SplitExpression.bin_op (plain "int") plus (split_var "y") (split_var "x")))
          SplitSequence.done))

abbrev pub causal_tree : SplitStatement PgsqlLabel
causal_tree = SplitStatement.sequence (
    SplitSequence.next (SplitStatement.increment_occurance "x")
      (SplitSequence.next (SplitStatement.for_each causal_body the_loop) SplitSequence.done))

-- At top nothing runs; the strong phase binds `x` and counts the loop; the causal phase repeats the
-- body as often.
abbrev pub phases : List (Prephase PgsqlLabel)
phases =
    record {
      level = top;
      returns = none;
      ast = SplitStatement.sequence SplitSequence.done;
      provides = [];
      inherits = [];
      requirements = [];
    }
    ∷ record {
      level = strong;
      returns = none;
      ast = strong_tree;
      provides = x_binding ∷ while_binding the_loop ∷ [];
      inherits = [];
      requirements = [];
    }
    ∷ record {
      level = causal;
      returns = none;
      ast = causal_tree;
      provides = y_binding ∷ [];
      inherits = x_binding ∷ while_binding the_loop ∷ [];
      requirements = while_binding the_loop ∷ x_binding ∷ x_binding ∷ [];
    }
    ∷ []
