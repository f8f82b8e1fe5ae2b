-- ===== src/Split/RemoveUnused.antt =====
-- The Occurance statements of variables that a phase does not require are removed
-- (transactions/mtl/remove_unused.hpp, get_binding2 of transactions/mtl/environments.hpp and
-- transactions/mtl/split_phase_impl_utils.hpp).
use text.Mathlib.Text.{◌==◌ as str_eq}
use mix_t.Base.{String, Bool, Option, none, some, List, map, if◌then◌else◌}
use mix_t.Split.Tree.{
  SplitStatement, let_in, let_remote, assignment, return, write_tombstone, accompany_write,
  increment_occurance, increment_remote_occurance, refresh_remote_occurance, if_else, while,
  for_each, operation_statement, sequence, SplitSequence, done, next,
}
use mix_t.Split.Api.{VariableBinding, type_binding, while_binding}
use mix_t.Split.CollectPhase.{Extracted}
use mix_t.Split.TypeSets.{TypeSets}

module _ {C : Type 0} where
  -- `none` is `mismatch`. No variable has the name of a loop.
  unfoldable pub get_binding2 : String → VariableBinding C → Option (VariableBinding C)
  get_binding2 v (type_binding x y l location) =
      if str_eq v x then some (type_binding x y l location) else none
  get_binding2 v (while_binding n) = none

module _ {C : Type 0} (sets : TypeSets C) where
  unfoldable pub contains_var_of_name : String → List (VariableBinding C) → Bool
  contains_var_of_name v bindings = sets.contains_match (map (get_binding2 v) bindings)

  unfoldable pub kept_if_required :
      String → List (VariableBinding C) → SplitStatement C → SplitStatement C
  kept_if_required v ts s = if contains_var_of_name v ts then s else sequence done

  unfoldable mutual
    pub remove_unused : List (VariableBinding C) → SplitStatement C → SplitStatement C
    remove_unused ts (let_in b s) = let_in b (remove_unused ts s)
    remove_unused ts (let_remote b s) = let_remote b (remove_unused ts s)
    remove_unused ts (operation_statement n h args) = operation_statement n h args
    remove_unused ts (assignment v e) = assignment v e
    remove_unused ts (return e) = return e
    remove_unused ts (accompany_write e) = accompany_write e
    remove_unused ts (write_tombstone e) = write_tombstone e
    remove_unused ts (increment_occurance v) = kept_if_required v ts (increment_occurance v)
    remove_unused ts (increment_remote_occurance v) =
        kept_if_required v ts (increment_remote_occurance v)
    remove_unused ts (refresh_remote_occurance k t v) =
        kept_if_required v ts (refresh_remote_occurance k t v)
    remove_unused ts (if_else c t e) = if_else c (remove_unused ts t) (remove_unused ts e)
    remove_unused ts (while c s n) = while c (remove_unused ts s) n
    remove_unused ts (for_each s n) = for_each (remove_unused ts s) n
    remove_unused ts (sequence ss) = sequence (remove_unused_each ts ss)

    pub remove_unused_each : List (VariableBinding C) → SplitSequence C → SplitSequence C
    remove_unused_each ts done = done
    remove_unused_each ts (next s ss) = next (remove_unused ts s) (remove_unused_each ts ss)

  -- remove_unused on a phase.
  unfoldable pub remove_unused_phase : Extracted C → Extracted C
  remove_unused_phase p = record p { ast = remove_unused (sets.add_all p.api.requires) p.ast }
