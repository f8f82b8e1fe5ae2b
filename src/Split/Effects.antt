-- ===== src/Split/Effects.antt =====
-- What a tree does: the nodes that change a store, the variables of a frame or the result, in the
-- order of the program and each with the branches and loops around it. This is the specification of
-- transactions/mtl/split_phase.hpp: for the whole tree, at one label, and for the tree of a phase.
use mix_t.Base.{if◌then◌else◌, String, Bool, true, false, List, [], ◌∷◌, ◌++◌}
use mix_t.Labels.Order.{LabelOrder}
use mix_t.Labels.Term.{Label, concrete}
use mix_t.Ast.{
  Yield, Expression, var_reference, field_reference, constant, bin_op, generate_tombstone, is_valid,
  endorse, operation, Args, no_args, arg, Binding, binding,
}
use mix_t.Split.NamedTree.{LoopName, NamedStatement, NamedSequence}
use mix_t.Split.Tree.{
  SplitExpression, SplitArgs, SplitBinding, SplitStatement, let_in, let_remote, assignment, return,
  write_tombstone, accompany_write, increment_occurance, increment_remote_occurance,
  refresh_remote_occurance, if_else, while, for_each, operation_statement, sequence, SplitSequence,
  done, next,
}

-- A branch with its condition, a loop with its condition, or a loop that repeats the counted rounds
-- of one with its name.
pub data Guard (C : Type 0) : Type 0 where
  in_then : SplitExpression C → Guard C
  in_else : SplitExpression C → Guard C
  in_while : SplitExpression C → LoopName → Guard C
  in_for_each : LoopName → Guard C

pub data Action (C : Type 0) : Type 0 where
  bound : Yield C → String → SplitExpression C → Action C
  bound_remote : Yield C → String → SplitExpression C → Action C
  assigned : SplitExpression C → SplitExpression C → Action C
  returned : SplitExpression C → Action C
  wrote_tombstone : SplitExpression C → Action C
  accompanied : SplitExpression C → Action C
  operated : String → SplitExpression C → SplitArgs C → Action C

pub record Effect (C : Type 0) : Type 0 where
  pub guards : List (Guard C)
  pub action : Action C

module _ {C : Type 0} where
  abbrev pub effect : List (Guard C) → Action C → Effect C
  effect guards action = record { guards = guards; action = action }

  -- An expression without its labels. An endorsement does not reach the split.
  abbrev mutual
    pub erased : Expression C → SplitExpression C
    erased (var_reference l y v) = SplitExpression.var_reference y v
    erased (field_reference l y s f) = SplitExpression.field_reference y (erased s) f
    erased (constant i) = SplitExpression.constant i
    erased (bin_op l y op L R) = SplitExpression.bin_op y op (erased L) (erased R)
    erased (generate_tombstone l) = SplitExpression.generate_tombstone
    erased (is_valid l h) = SplitExpression.is_valid (erased h)
    erased (endorse l y h) = erased h
    erased (operation l y n h args) = SplitExpression.operation y n (erased h) (erased_args args)

    pub erased_args : Args C → SplitArgs C
    erased_args no_args = SplitArgs.no_args
    erased_args (arg e es) = SplitArgs.arg (erased e) (erased_args es)

  abbrev pub bound_by : SplitBinding C → Action C
  bound_by (SplitBinding.binding l y v e) = bound y v e

  abbrev pub bound_remote_by : SplitBinding C → Action C
  bound_remote_by (SplitBinding.binding l y v e) = bound_remote y v e

  -- The effects of the tree of a phase.
  abbrev mutual
    pub effects : List (Guard C) → SplitStatement C → List (Effect C)
    effects g (let_in b s) = effect g (bound_by b) ∷ effects g s
    effects g (let_remote b s) = effect g (bound_remote_by b) ∷ effects g s
    effects g (assignment v e) = effect g (assigned v e) ∷ []
    effects g (return e) = effect g (returned e) ∷ []
    effects g (write_tombstone e) = effect g (wrote_tombstone e) ∷ []
    effects g (accompany_write e) = effect g (accompanied e) ∷ []
    effects g (increment_occurance v) = []
    effects g (increment_remote_occurance v) = []
    effects g (refresh_remote_occurance k t v) = []
    effects g (if_else c t e) = effects (in_then c ∷ g) t ++ effects (in_else c ∷ g) e
    effects g (while c s n) = effects (in_while c n ∷ g) s
    effects g (for_each s n) = effects (in_for_each n ∷ g) s
    effects g (operation_statement n h args) = effect g (operated n h args) ∷ []
    effects g (sequence ss) = effects_sequence g ss

    pub effects_sequence : List (Guard C) → SplitSequence C → List (Effect C)
    effects_sequence g done = []
    effects_sequence g (next s ss) = effects g s ++ effects_sequence g ss

  abbrev pub source_bound : Binding C → Action C
  source_bound (binding l2 y v e) = bound y v (erased e)

  abbrev pub source_bound_remote : Binding C → Action C
  source_bound_remote (binding l2 y v e) = bound_remote y v (erased e)

module _ {C : Type 0} ⦃o : LabelOrder C⦄ (l : C) where
  -- Whether a node has the label of the phase, or flows to it.
  abbrev pub is_at : Label C → Bool
  is_at (concrete m) = o.is_same m l
  is_at _ = false

  abbrev pub may_enter : Label C → Bool
  may_enter (concrete m) = o.flows_to m l
  may_enter _ = false

  abbrev pub when : Bool → List (Effect C) → List (Effect C)
  when true xs = xs
  when false xs = []

  -- A loop tests its condition at its own label, and its rounds are repeated at another.
  abbrev pub loop_guard : Label C → Expression C → LoopName → Guard C
  loop_guard l2 c n = if is_at l2 then in_while (erased c) n else in_for_each n

  -- The effects of the nodes at label `l`, under the conditions that flow to `l`.
  abbrev mutual
    pub effects_at : List (Guard C) → NamedStatement C → List (Effect C)
    effects_at g (NamedStatement.let_in l2 b s) =
        when (is_at l2) (effect g (source_bound b) ∷ []) ++ effects_at g s
    effects_at g (NamedStatement.let_remote l2 b s) =
        when (is_at l2) (effect g (source_bound_remote b) ∷ []) ++ effects_at g s
    effects_at g (NamedStatement.assignment l2 v e) =
        when (is_at l2) (effect g (assigned (erased v) (erased e)) ∷ [])
    effects_at g (NamedStatement.return e) =
        when (is_at (concrete o.bottom)) (effect g (returned (erased e)) ∷ [])
    effects_at g (NamedStatement.write_tombstone l2 e) =
        when (is_at l2) (effect g (wrote_tombstone (erased e)) ∷ [])
    effects_at g (NamedStatement.accompany_write l2 e) =
        when (is_at l2) (effect g (accompanied (erased e)) ∷ [])
    effects_at g (NamedStatement.if_else l2 c t e) =
        when (may_enter l2)
          (effects_at (in_then (erased c) ∷ g) t ++ effects_at (in_else (erased c) ∷ g) e)
    effects_at g (NamedStatement.while l2 c s n) =
        when (may_enter l2) (effects_at (loop_guard l2 c n ∷ g) s)
    effects_at g (NamedStatement.operation_statement l2 n h args) =
        when (is_at l2) (effect g (operated n (erased h) (erased_args args)) ∷ [])
    effects_at g (NamedStatement.sequence l2 ss) = effects_at_sequence g ss

    pub effects_at_sequence : List (Guard C) → NamedSequence C → List (Effect C)
    effects_at_sequence g NamedSequence.done = []
    effects_at_sequence g (NamedSequence.next s ss) = effects_at g s ++ effects_at_sequence g ss
