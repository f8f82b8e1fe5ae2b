-- ===== src/Split/NamedTree.antt =====
-- The statements of the typecheck phase with a name at each loop, as the split reads them
-- (transactions/mtl/AST_typecheck.hpp, transactions/mtl/name_while.hpp).
use mix_t.Base.{ℕ, String}
use mix_t.Labels.Term.{Label}
use mix_t.Ast.{Expression, Args, Binding}

-- `char... name` of a While: the position of the loop in its sequence, and how deep it stands.
pub record LoopName : Type 0 where
  pub seqnum : ℕ
  pub depth : ℕ

mutual
  pub data NamedStatement (C : Type 0) : Type 0 where
    let_in : Label C → Binding C → NamedStatement C → NamedStatement C
    let_remote : Label C → Binding C → NamedStatement C → NamedStatement C
    assignment : Label C → Expression C → Expression C → NamedStatement C
    return : Expression C → NamedStatement C
    write_tombstone : Label C → Expression C → NamedStatement C
    accompany_write : Label C → Expression C → NamedStatement C
    if_else : Label C → Expression C → NamedStatement C → NamedStatement C → NamedStatement C
    while : Label C → Expression C → NamedStatement C → LoopName → NamedStatement C
    operation_statement : Label C → String → Expression C → Args C → NamedStatement C
    sequence : Label C → NamedSequence C → NamedStatement C

  pub data NamedSequence (C : Type 0) : Type 0 where
    done : NamedSequence C
    next : NamedStatement C → NamedSequence C → NamedSequence C
