-- ===== src/Inference/Examples.antt =====
-- Label inference on a small transaction (transactions/mtl/label_inference.hpp,
-- transactions/mtl/replace_label.hpp).
use mix_t.Base.{
  Bool, false, ◌||◌, if◌then◌else◌, pos, suc, length, true, ◌≡◌, ◌↔◌, inl, inr, refl, some, List,
  [], ◌∷◌, All, arith,
}
use mix_t.Labels.Pgsql.{PgsqlLabel, bottom, top, strong, causal, pgsql_labels}
use mix_t.Labels.Term.{Label, is_same_label, concrete, temp_label, label_min_of}
use mix_t.Labels.Meaning.{Env, meaning}
use mix_t.Labels.Replace.{label_replace}
use mix_t.Ast.{
  plain, var_reference, constant, binding, Statement, let_in, assignment, if_else, sequence, done,
}
use mix_t.Ast.Collect.{collect_labels, collect_labels_binding, collect_labels_expression}
use mix_t.Ast.Examples.{appended}
use mix_t.Ast.Surface.{IsSurfaceStatement, relabel_statement}
use mix_t.Inference.Constraints.{
  MustFlowTo, must_flow_to, collect_expression, collect_binding, collect_statement,
  collect_sequence, with_yield,
}
use mix_t.Inference.Satisfied.{Satisfied}
use mix_t.Inference.Flow.{FlowsStatement}
use mix_t.Inference.FlowLaws.{collect_statement_iff}
use mix_t.Inference.Replace.{
  replace_expression, replace_binding, replace_statement, replace_sequence,
}
use mix_t.Inference.ReplaceLaws.{known, ReplacesStatement, replace_statement_lem}
use mix_t.Inference.Collapse.{
  collapse_constraints, collapse_one, collapse_to, remove_reflexive_constraints,
}
use mix_t.Inference.CollapseLaws.{IsSimple, collapse_constraints_sound}
use mix_t.Inference.Solve.{
  infer_labels, Solved, initial_constraints, minimize_constraints, infer_labels_helper1,
  replace_all_less_than, replace_from_label, less_than, lte,
}
use mix_t.Inference.SolveLaws.{all_top, infer_labels_sound}
use mix_t.Inference.CompleteLaws.{infer_labels_iff, infer_labels_best}
use mix_t.Inference.Turn.{IsKnownHigh}
use mix_t.Inference.Between.{IsAscending}
use mix_t.Inference.Raised.{IsTrusted}
use mix_t.Inference.SolveFuel.{replace_all_less_than_fuel}
use mix_t.Inference.Preference.{less_than_both}
use mix_t.Inference.Lists.{insertion_lists}

-- `var x = a in if (x) { y = 3 } else {}`, where `a` is strong and `y` is causal.
abbrev program : Statement PgsqlLabel
program =
    let_in (temp_label 1 1)
      (binding (temp_label 1 2) (plain "int") "x"
        (var_reference (concrete strong) (plain "int") "a"))
      (if_else (temp_label 1 2) (var_reference (temp_label 1 2) (plain "int") "x")
        (assignment (temp_label 1 3) (var_reference (concrete causal) (plain "int") "y")
          (constant (pos 3)))
        (sequence (temp_label 1 4) done))

abbrev collected : List (MustFlowTo PgsqlLabel)
collected =
    must_flow_to (concrete strong) (temp_label 1 2) "bound expression"
    ∷ must_flow_to (concrete top) (temp_label 1 2) "bound expression, pc"
    ∷ must_flow_to (concrete top) (concrete causal) "assignment"
    ∷ must_flow_to (label_min_of (concrete top) (temp_label 1 2)) (concrete causal) "assignment, pc"
    ∷ []

abbrev constraints : List (MustFlowTo PgsqlLabel)
constraints =
    must_flow_to (concrete strong) (temp_label 1 2) "bound expression"
    ∷ must_flow_to (concrete top) (temp_label 1 2) "bound expression, pc"
    ∷ must_flow_to (concrete top) (concrete causal) "assignment"
    ∷ must_flow_to (concrete top) (concrete causal) "assignment, pc"
    ∷ must_flow_to (temp_label 1 2) (concrete causal) "assignment, pc"
    ∷ []

abbrev solved : Solved PgsqlLabel
solved = (
  let_in (temp_label 1 1)
      (binding (concrete strong) (plain "int") "x"
        (var_reference (concrete strong) (plain "int") "a"))
      (if_else (concrete strong) (var_reference (concrete strong) (plain "int") "x")
        (assignment (temp_label 1 3) (var_reference (concrete causal) (plain "int") "y")
          (constant (pos 3)))
        (sequence (temp_label 1 4) done)),
  must_flow_to (concrete top) (concrete strong) "bound expression, pc"
      ∷ must_flow_to (concrete top) (concrete causal) "assignment"
      ∷ must_flow_to (concrete top) (concrete causal) "assignment, pc"
      ∷ must_flow_to (concrete strong) (concrete causal) "assignment, pc"
      ∷ [],
)

abbrev all_strong : Env PgsqlLabel
all_strong s d = strong

program_surface : IsSurfaceStatement program
program_surface = (tt, (tt, tt), (tt, tt, (tt, tt, tt), (tt, tt)))

program-collected : collect_statement (concrete top) program ≡ some collected
unfolding collect_statement collect_binding with_yield collect_expression collect_sequence
program-collected = refl

collected_collapsed : collapse_constraints collected ≡ some constraints
unfolding collapse_constraints collapse_one collapse_to
collected_collapsed = refl

program-constraints : initial_constraints insertion_lists program ≡ some constraints
unfolding initial_constraints minimize_constraints remove_reflexive_constraints
program-constraints = rw (program-collected, collected_collapsed) refl

program-solved :
    infer_labels_helper1 insertion_lists (causal ∷ strong ∷ []) program constraints ≡ some solved
unfolding infer_labels_helper1 replace_all_less_than replace_from_label minimize_constraints
    remove_reflexive_constraints replace_statement replace_binding replace_expression
    replace_sequence label_replace lte less_than
program-solved = refl

infer_labels_sound_example :
    (env' : Env PgsqlLabel) × FlowsStatement env' top program
    × (relabel_statement (known all_strong) solved.0 ≡ relabel_statement (known env') program)
infer_labels_sound_example =
    infer_labels_sound insertion_lists (causal ∷ strong ∷ []) program constraints solved all_strong
      (((refl, ground arith), tt), (tt, tt)) program_surface program-constraints
      (inr (inr (inl refl)), (inl refl, (inl refl, (inl refl, (tt, tt))))) program-solved
      (tt, (tt, (tt, (tt, tt))))

abbrev occurs : PgsqlLabel → List (Label PgsqlLabel) → Bool
occurs l [] = false
occurs l (x ∷ xs) = is_same_label (concrete l) x || occurs l xs

abbrev occurring : List PgsqlLabel → List (Label PgsqlLabel) → List PgsqlLabel
occurring [] found = []
occurring (l ∷ ls) found =
    let rest = occurring ls found in if occurs l found then l ∷ rest else rest

-- The labels found, the least trusted first.
abbrev sorted : List (Label PgsqlLabel) → List PgsqlLabel
sorted found = occurring (bottom ∷ causal ∷ strong ∷ top ∷ []) found

program-sorted : sorted (collect_labels appended program) ≡ causal ∷ strong ∷ top ∷ []
unfolding collect_labels collect_labels_binding collect_labels_expression
program-sorted = refl

program-IsAscending : IsAscending (sorted (collect_labels appended program))
program-IsAscending =
    (rw program-sorted (
      (((refl, ground arith), ((refl, ground arith), tt)), (((refl, ground arith), tt), (tt, tt)))))

program-IsKnownHigh : All (IsKnownHigh (sorted (collect_labels appended program))) constraints
program-IsKnownHigh =
    (rw program-sorted (inr (inr (inl refl)), (inl refl, (inl refl, (inl refl, (tt, tt))))))

program-inferred : infer_labels insertion_lists appended sorted program ≡ some solved.0
unfolding infer_labels infer_labels_helper1 replace_all_less_than replace_from_label
    minimize_constraints remove_reflexive_constraints replace_statement replace_binding
    replace_expression replace_sequence label_replace lte less_than
program-inferred = rw (program-constraints, program-sorted) refl

infer_labels_best_example :
    (best : Env PgsqlLabel) × All (Satisfied best) constraints
    × FlowsStatement best top program
    × (relabel_statement (known all_top) solved.0 ≡ relabel_statement (known best) program)
    × ((env : Env PgsqlLabel) → All (Satisfied env) constraints → IsTrusted best env)
infer_labels_best_example =
    infer_labels_best insertion_lists appended sorted program solved.0 constraints
      program-IsAscending program_surface program-constraints program-IsKnownHigh program-inferred

infer_labels_iff_example :
    ((s' : Statement PgsqlLabel) × (infer_labels insertion_lists appended sorted program ≡ some s'))
    ↔ ((env : Env PgsqlLabel) × All (Satisfied env) constraints)
infer_labels_iff_example =
    infer_labels_iff insertion_lists appended sorted program constraints program-IsAscending
      program_surface program-constraints program-IsKnownHigh

collect_statement_iff_example :
    All (Satisfied all_strong) collected
    ↔ FlowsStatement all_strong (meaning all_strong (concrete top)) program
collect_statement_iff_example =
    collect_statement_iff all_strong (concrete top) program collected program-collected

replace_statement_lem_example : ReplacesStatement 1 2 strong program
replace_statement_lem_example = replace_statement_lem 1 2 strong program program_surface

collapse_constraints_sound_example : All IsSimple constraints × All (Satisfied all_strong) collected
unfolding meaning
collapse_constraints_sound_example =
    collapse_constraints_sound all_strong collected constraints collected_collapsed
      (refl, (refl, (refl, (refl, (refl, tt)))))

replace_all_less_than_fuel_example :
    replace_all_less_than insertion_lists 9 strong program constraints
    ≡ replace_all_less_than insertion_lists (suc (length constraints)) strong program constraints
replace_all_less_than_fuel_example =
    replace_all_less_than_fuel insertion_lists strong 9 program constraints (omega arith)

less_than_both_example :
    (less_than {C = PgsqlLabel} (temp_label 1 3) (temp_label 2 2) ≡ some true)
    × (less_than {C = PgsqlLabel} (temp_label 2 2) (temp_label 1 3) ≡ some true)
less_than_both_example = less_than_both PgsqlLabel 1 3 2 2 (omega arith) (omega arith)
