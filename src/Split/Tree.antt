-- ===== src/Split/Tree.antt =====
-- The tree of one phase (transactions/mtl/AST_split.hpp). Its nodes carry no label: a phase has
-- one for the whole tree.
use mix_t.Base.{ℤ, String}
use mix_t.Labels.Term.{Label}
use mix_t.Ast.{Yield, Operator}
use mix_t.Split.NamedTree.{LoopName}

mutual
  -- `Expression<y, e>`, a constructor for each `e`.
  pub data SplitExpression (C : Type 0) : Type 0 where
    var_reference : Yield C → String → SplitExpression C
    field_reference : Yield C → SplitExpression C → String → SplitExpression C
    constant : ℤ → SplitExpression C
    bin_op : Yield C → Operator → SplitExpression C → SplitExpression C → SplitExpression C
    generate_tombstone : SplitExpression C
    is_valid : SplitExpression C → SplitExpression C
    operation : Yield C → String → SplitExpression C → SplitArgs C → SplitExpression C

  pub data SplitArgs (C : Type 0) : Type 0 where
    no_args : SplitArgs C
    arg : SplitExpression C → SplitArgs C → SplitArgs C

-- The label is the one that the binding was inferred at.
pub data SplitBinding (C : Type 0) : Type 0 where
  binding : C → Yield C → String → SplitExpression C → SplitBinding C

-- The three Occurance statements keep the count of a variable's writes in step with the phase that
-- makes them. A RefreshRemoteOccurance is of a variable that holds a handle: here the label and the
-- type of the handle, and the variable. The IncrementOccurance of a handle expression is left out: no pass builds it.
mutual
  pub data SplitStatement (C : Type 0) : Type 0 where
    let_in : SplitBinding C → SplitStatement C → SplitStatement C
    let_remote : SplitBinding C → SplitStatement C → SplitStatement C
    assignment : SplitExpression C → SplitExpression C → SplitStatement C
    return : SplitExpression C → SplitStatement C
    write_tombstone : SplitExpression C → SplitStatement C
    accompany_write : SplitExpression C → SplitStatement C
    increment_occurance : String → SplitStatement C
    increment_remote_occurance : String → SplitStatement C
    refresh_remote_occurance : Label C → String → String → SplitStatement C
    if_else : SplitExpression C → SplitStatement C → SplitStatement C → SplitStatement C
    while : SplitExpression C → SplitStatement C → LoopName → SplitStatement C
    for_each : SplitStatement C → LoopName → SplitStatement C
    operation_statement : String → SplitExpression C → SplitArgs C → SplitStatement C
    sequence : SplitSequence C → SplitStatement C

  pub data SplitSequence (C : Type 0) : Type 0 where
    done : SplitSequence C
    next : SplitStatement C → SplitSequence C → SplitSequence C
