-- ===== src/Flatten/Examples.antt =====
-- Tests of flattening on a small program, and its theorems at that program.
use mix_t.Base.{
  ℕ, ◌+◌, pos, ltb, if◌then◌else◌, Option, none, some, some-inj, sym, [], ◌∷◌, ◌≡◌, refl, arith,
}
use mix_t.Ast.{Operator, plus, less}
use mix_t.Split.Named.{next_char}
use mix_t.Flatten.Tree.{
  Name, true_name, false_name, anorm, remote_bound_tmp, while_name, Expression, field_reference,
  field_pointer_reference, dereference, var_reference, constant, bin_op, no_args, arg, Statement,
  let_in, let_remote, operation_statement, assignment, if_else, while, sequence, done, next,
  contains_fieldpointer_ref,
}
use mix_t.Flatten.RemoveLayer.{remove_layer, remove_args}
use mix_t.Flatten.FlattenExprs.{is_flat, operation_to_statement, flatten_exprs}
use mix_t.Flatten.DesugarWhile.{desugar_while, desugar_sequence, flatten_expressions}
use mix_t.Flatten.Hoisting.{layers, layers_args}
use mix_t.Flatten.Flat.{IsFlat}
use mix_t.Flatten.Flat.Flattened.{flatten_expressions-IsFlat}
use mix_t.Flatten.Room.{remotes}
use mix_t.Flatten.Room.Fits.{Returns}
use mix_t.Flatten.Room.Desugared.{flatten_expressions_total}
use mix_t.Flatten.Meaning.Flattened.{IsDeclared}
use mix_t.Flatten.Meaning.Scope.{NamesOfStatement}
use mix_t.Flatten.Meaning.{
  run_sequence, perform, eval_args, Objects, same_name, Slot, copy, State, run, eval, assign,
}
use mix_t.Flatten.Meaning.Source.{flatten_expressions-meaning}
use text.Mathlib.Text.{◌==◌ as str_eq}

-- The names p and x.
abbrev p_name : Name
p_name = 112 ∷ []

abbrev x_name : Name
x_name = 120 ∷ []

abbrev p : Expression ℕ
p = var_reference p_name

abbrev x : Expression ℕ
x = var_reference x_name

-- while (p->n < x) p->n = p->n + 1
abbrev count_up : Statement ℕ
count_up = while (bin_op less (field_pointer_reference p "n") x) (
    assignment (field_pointer_reference p "n")
      (bin_op plus (field_pointer_reference p "n") (constant (pos 1))))

-- *p.log(p->n, x)
abbrev log_call : Statement ℕ
log_call =
    operation_statement "log" (dereference p) (arg (field_pointer_reference p "n") (arg x no_args))
      []

-- *p.log(x + 1, x)
abbrev next_call : Statement ℕ
next_call =
    operation_statement "log" (dereference p)
      (arg (bin_op plus x (constant (pos 1))) (arg x no_args)) []

-- The loop, and the call behind it.
abbrev count_and_call : Statement ℕ
count_and_call = sequence (next count_up (next next_call done))

abbrev count_up_loop : Statement ℕ
count_up_loop = let_in (while_name 1 1) (var_reference (true_name)) (
    while (var_reference (while_name 1 1)) (
      if_else (bin_op less (field_pointer_reference p "n") x)
        (assignment (field_pointer_reference p "n")
          (bin_op plus (field_pointer_reference p "n") (constant (pos 1))))
        (assignment (var_reference (while_name 1 1)) (var_reference (false_name)))))

abbrev count_up_flat : Statement ℕ
count_up_flat = let_in (while_name 1 1) (var_reference (true_name)) (
    while (var_reference (while_name 1 1)) (
      let_remote (remote_bound_tmp 1 3) p (
        let_in (anorm 1 5) (field_reference (var_reference (remote_bound_tmp 1 3)) "n") (
          let_in (anorm 1 7) (bin_op less (var_reference (anorm 1 5)) x) (
            if_else (var_reference (anorm 1 7))
              (let_remote (remote_bound_tmp 1 10) p (
                let_in (anorm 1 12) (field_reference (var_reference (remote_bound_tmp 1 10)) "n") (
                  let_in (anorm 1 14) (constant (pos 1)) (
                    let_in (anorm 1 16)
                      (bin_op plus (var_reference (anorm 1 12)) (var_reference (anorm 1 14)))
                      (let_remote (remote_bound_tmp 1 18) p (
                        assignment (field_reference (var_reference (remote_bound_tmp 1 18)) "n")
                          (var_reference (anorm 1 16))))))))
              (assignment (var_reference (while_name 1 1)) (var_reference (false_name))))))))

abbrev count_and_call_flat : Statement ℕ
count_and_call_flat = sequence (
    next count_up_flat (
      next
        (let_remote (remote_bound_tmp 2 1) p (
          let_in (anorm 3 2) (constant (pos 1)) (
            let_in (anorm 3 4) (bin_op plus x (var_reference (anorm 3 2))) (
              operation_statement "log" (var_reference (remote_bound_tmp 2 1)) no_args
                (anorm 3 4 ∷ x_name ∷ [])))))
        done))

desugar_while-count_up : desugar_while 1 1 count_up ≡ some count_up_loop
unfolding desugar_while desugar_sequence next_char
desugar_while-count_up = refl

flatten_expressions-count_up : flatten_expressions 126 count_up ≡ some count_up_flat
unfolding flatten_expressions desugar_while desugar_sequence flatten_exprs remove_layer remove_args
    is_flat operation_to_statement next_char contains_fieldpointer_ref
flatten_expressions-count_up = refl

flatten_expressions-count_and_call :
    flatten_expressions 126 count_and_call ≡ some count_and_call_flat
unfolding flatten_expressions desugar_while desugar_sequence flatten_exprs remove_layer remove_args
    is_flat operation_to_statement next_char contains_fieldpointer_ref
flatten_expressions-count_and_call = refl

-- The handle and the first argument go in front of the call; the variable moves behind them.
flatten_expressions-log_call :
    flatten_expressions 126 log_call
    ≡ some (
        let_remote (remote_bound_tmp 1 1) p (
          let_remote (remote_bound_tmp 2 2) p (
            let_in (anorm 2 4) (field_reference (var_reference (remote_bound_tmp 2 2)) "n") (
              operation_statement "log"
                (var_reference (remote_bound_tmp 1 1))
                no_args
                (anorm 2 4 ∷ x_name ∷ [])))))
unfolding flatten_expressions desugar_while desugar_sequence flatten_exprs remove_layer remove_args
    is_flat operation_to_statement next_char contains_fieldpointer_ref
flatten_expressions-log_call = refl

cell_apply : Operator → ℕ → ℕ → Option ℕ
cell_apply less a b = if ltb a b then some 1 else some 0
cell_apply _ a b = some (a + b)

-- Values and a store that are numbers: there is one object, and it is its only field.
abbrev one_cell : Objects ℕ ℕ
one_cell = record {
  truth = λ v. ltb 0 v;
  literal = λ i. 1;
  apply = cell_apply;
  field = λ v f. some v;
  set_field = λ old f v. some v;
  read = λ m h. some m;
  write = λ m h v. some v;
  validity = λ m h. some 1;
  act = λ m n h es. some (if str_eq n "size" then m else m + 1, m);
  is_query = λ n. str_eq n "size";
  query_keeps = λ n q m x vs r e. rw (sym (some-inj _ _ e), q) refl;
}

abbrev first_env : Name → Option (Slot ℕ)
first_env n =
    if same_name n x_name
    then some (copy 3)
    else if same_name n true_name
    then some (copy 1)
    else some (copy 0)

-- The object holds `n`.
abbrev holding : ℕ → State ℕ ℕ
holding n = record { store = n; env = first_env; result = none }

p_name-IsDeclared : IsDeclared p_name
p_name-IsDeclared q d = (λ e. cc, λ e. cc, λ e. cc)

x_name-IsDeclared : IsDeclared x_name
x_name-IsDeclared q d = (λ e. cc, λ e. cc, λ e. cc)

count_up-IsDeclared : NamesOfStatement IsDeclared count_up
count_up-IsDeclared =
    ((p_name-IsDeclared, x_name-IsDeclared), (p_name-IsDeclared, (p_name-IsDeclared, tt)))

next_call-IsDeclared : NamesOfStatement IsDeclared next_call
next_call-IsDeclared = (p_name-IsDeclared, ((x_name-IsDeclared, tt), (x_name-IsDeclared, tt)), tt)

run-count_up : run one_cell 4 count_up (holding 0) ≡ some (holding 3)
unfolding run eval assign cell_apply
run-count_up = refl

-- The call adds one to the object.
run-count_and_call : run one_cell 4 count_and_call (holding 0) ≡ some (holding 4)
unfolding run run_sequence perform eval eval_args assign cell_apply
run-count_and_call = refl

-- Three rounds are too few.
run-count_up_short : run one_cell 3 count_up (holding 0) ≡ none
unfolding run eval assign cell_apply
run-count_up_short = refl

flatten_expressions-meaning_example :
    run one_cell 5 count_and_call_flat (holding 0) ≡ some (holding 4)
flatten_expressions-meaning_example =
    flatten_expressions-meaning one_cell 4 126 count_and_call count_and_call_flat (holding 0)
      (holding 4) (count_up-IsDeclared, (next_call-IsDeclared, tt)) ((tt, (tt, tt)), (tt, (tt, tt)))
      (1, 0, refl, refl, refl, refl) flatten_expressions-count_and_call run-count_and_call

flatten_expressions-IsFlat_example : IsFlat count_up_flat
flatten_expressions-IsFlat_example =
    flatten_expressions-IsFlat 126 count_up count_up_flat flatten_expressions-count_up

flatten_expressions_total_example : Returns (flatten_expressions 126 count_and_call)
unfolding layers layers_args is_flat remotes
flatten_expressions_total_example =
    flatten_expressions_total count_and_call (tt, (omega arith, tt)) (omega arith)
