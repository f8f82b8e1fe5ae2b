-- ===== src/Ast/Labelled.antt =====
-- The labels that stand in a tree.
use mix_t.Labels.Term.{Label}
use mix_t.Ast.{
  Expression, var_reference, field_reference, constant, bin_op, generate_tombstone, is_valid,
  endorse, operation, Args, no_args, arg, Binding, binding, Statement, let_in, let_remote,
  assignment, return, write_tombstone, accompany_write, if_else, while, operation_statement,
  sequence, Sequence, done, next,
}

-- `P` holds of each label at a node of the tree. The labels inside the types of handles are not
-- the tree's own.
module _ {C : Type 0} (P : Label C → Type 0) where
  abbrev mutual
    pub AllExpression : Expression C → Type 0
    AllExpression (var_reference l y v) = P l
    AllExpression (field_reference l y s f) = P l × AllExpression s
    AllExpression (constant i) = Unit
    AllExpression (bin_op l y op L R) = P l × AllExpression L × AllExpression R
    AllExpression (generate_tombstone l) = P l
    AllExpression (is_valid l h) = P l × AllExpression h
    AllExpression (endorse l y h) = P l × AllExpression h
    AllExpression (operation l y n h args) = P l × AllExpression h × AllArgs args

    pub AllArgs : Args C → Type 0
    AllArgs no_args = Unit
    AllArgs (arg e es) = AllExpression e × AllArgs es

  abbrev pub AllBinding : Binding C → Type 0
  AllBinding (binding l y v e) = P l × AllExpression e

  abbrev mutual
    pub AllStatement : Statement C → Type 0
    AllStatement (let_in l b s) = P l × AllBinding b × AllStatement s
    AllStatement (let_remote l b s) = P l × AllBinding b × AllStatement s
    AllStatement (assignment l v e) = P l × AllExpression v × AllExpression e
    AllStatement (return e) = AllExpression e
    AllStatement (write_tombstone l e) = P l × AllExpression e
    AllStatement (accompany_write l e) = P l × AllExpression e
    AllStatement (if_else l c t e) = P l × AllExpression c × AllStatement t × AllStatement e
    AllStatement (while l c s) = P l × AllExpression c × AllStatement s
    AllStatement (operation_statement l n h args) = P l × AllExpression h × AllArgs args
    AllStatement (sequence l ss) = P l × AllSequence ss

    pub AllSequence : Sequence C → Type 0
    AllSequence done = Unit
    AllSequence (next s ss) = AllStatement s × AllSequence ss
