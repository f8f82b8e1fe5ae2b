-- ===== src/Ast/Surface.antt =====
-- Trees as the typechecker builds them, before tracking, and trees with every label mapped.
use mix_t.Labels.Term.{Label, concrete, temp_label, label_min_of}
use mix_t.Labels.Replace.{IsReduced}
use mix_t.Ast.{
  Expression, var_reference, field_reference, constant, bin_op, generate_tombstone, is_valid,
  endorse, operation, Args, no_args, arg, Binding, binding, Statement, let_in, let_remote,
  assignment, return, write_tombstone, accompany_write, if_else, while, operation_statement,
  sequence, Sequence, done, next,
}

module _ {C : Type 0} where
  abbrev pub IsConcrete : Label C → Type 0
  IsConcrete (concrete _) = Unit
  IsConcrete (temp_label _ _) = ⊥
  IsConcrete (label_min_of _ _) = ⊥

  -- Every label is reduced, endorsements are to concrete labels, and no node is one of those that
  -- tracking inserts.
  abbrev mutual
    pub IsSurfaceExpression : Expression C → Type 0
    IsSurfaceExpression (var_reference l y v) = IsReduced l
    IsSurfaceExpression (field_reference l y s f) = IsReduced l × IsSurfaceExpression s
    IsSurfaceExpression (constant i) = Unit
    IsSurfaceExpression (bin_op l y op L R) =
        IsReduced l × IsSurfaceExpression L × IsSurfaceExpression R
    IsSurfaceExpression (generate_tombstone l) = ⊥
    IsSurfaceExpression (is_valid l h) = IsReduced l × IsSurfaceExpression h
    IsSurfaceExpression (endorse l y h) = IsConcrete l × IsSurfaceExpression h
    IsSurfaceExpression (operation l y n h args) =
        IsReduced l × IsSurfaceExpression h × IsSurfaceArgs args

    pub IsSurfaceArgs : Args C → Type 0
    IsSurfaceArgs no_args = Unit
    IsSurfaceArgs (arg e es) = IsSurfaceExpression e × IsSurfaceArgs es

  abbrev pub IsSurfaceBinding : Binding C → Type 0
  IsSurfaceBinding (binding l y v e) = IsReduced l × IsSurfaceExpression e

  abbrev mutual
    pub IsSurfaceStatement : Statement C → Type 0
    IsSurfaceStatement (let_in l b s) = IsReduced l × IsSurfaceBinding b × IsSurfaceStatement s
    IsSurfaceStatement (let_remote l b s) = IsReduced l × IsSurfaceBinding b × IsSurfaceStatement s
    IsSurfaceStatement (assignment l v e) =
        IsReduced l × IsSurfaceExpression v × IsSurfaceExpression e
    IsSurfaceStatement (return e) = IsSurfaceExpression e
    IsSurfaceStatement (write_tombstone l e) = ⊥
    IsSurfaceStatement (accompany_write l e) = ⊥
    IsSurfaceStatement (if_else l c t e) =
        IsReduced l × IsSurfaceExpression c × IsSurfaceStatement t × IsSurfaceStatement e
    IsSurfaceStatement (while l c s) = IsReduced l × IsSurfaceExpression c × IsSurfaceStatement s
    IsSurfaceStatement (operation_statement l n h args) =
        IsReduced l × IsSurfaceExpression h × IsSurfaceArgs args
    IsSurfaceStatement (sequence l ss) = IsReduced l × IsSurfaceSequence ss

    pub IsSurfaceSequence : Sequence C → Type 0
    IsSurfaceSequence done = Unit
    IsSurfaceSequence (next s ss) = IsSurfaceStatement s × IsSurfaceSequence ss

-- The tree with `f` at each of its labels.
module _ {C : Type 0} (f : Label C → Label C) where
  abbrev mutual
    pub relabel_expression : Expression C → Expression C
    relabel_expression (var_reference l y v) = var_reference (f l) y v
    relabel_expression (field_reference l y s n) = field_reference (f l) y (relabel_expression s) n
    relabel_expression (constant i) = constant i
    relabel_expression (bin_op l y op L R) =
        bin_op (f l) y op (relabel_expression L) (relabel_expression R)
    relabel_expression (generate_tombstone l) = generate_tombstone (f l)
    relabel_expression (is_valid l h) = is_valid (f l) (relabel_expression h)
    relabel_expression (endorse l y h) = endorse (f l) y (relabel_expression h)
    relabel_expression (operation l y n h args) =
        operation (f l) y n (relabel_expression h) (relabel_args args)

    pub relabel_args : Args C → Args C
    relabel_args no_args = no_args
    relabel_args (arg e es) = arg (relabel_expression e) (relabel_args es)

  abbrev pub relabel_binding : Binding C → Binding C
  relabel_binding (binding l y v e) = binding (f l) y v (relabel_expression e)

  abbrev mutual
    pub relabel_statement : Statement C → Statement C
    relabel_statement (let_in l b s) = let_in (f l) (relabel_binding b) (relabel_statement s)
    relabel_statement (let_remote l b s) =
        let_remote (f l) (relabel_binding b) (relabel_statement s)
    relabel_statement (assignment l v e) =
        assignment (f l) (relabel_expression v) (relabel_expression e)
    relabel_statement (return e) = return (relabel_expression e)
    relabel_statement (write_tombstone l e) = write_tombstone (f l) (relabel_expression e)
    relabel_statement (accompany_write l e) = accompany_write (f l) (relabel_expression e)
    relabel_statement (if_else l c t e) =
        if_else (f l) (relabel_expression c) (relabel_statement t) (relabel_statement e)
    relabel_statement (while l c s) = while (f l) (relabel_expression c) (relabel_statement s)
    relabel_statement (operation_statement l n h args) =
        operation_statement (f l) n (relabel_expression h) (relabel_args args)
    relabel_statement (sequence l ss) = sequence (f l) (relabel_sequence ss)

    pub relabel_sequence : Sequence C → Sequence C
    relabel_sequence done = done
    relabel_sequence (next s ss) = next (relabel_statement s) (relabel_sequence ss)
