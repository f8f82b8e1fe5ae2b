-- ===== src/Inference/Replace.antt =====
-- replace_label: a concrete label in place of a temporary one, through a whole tree
-- (transactions/mtl/replace_label.hpp).
use mix_t.Base.{ℕ, Option, none, some, if◌then◌else◌, ◌>>=◌}
use mix_t.Labels.Order.{LabelOrder}
use mix_t.Labels.Term.{Label, is_same_label}
use mix_t.Labels.Replace.{label_replace}
use mix_t.Ast.{
  Expression, var_reference, field_reference, constant, bin_op, generate_tombstone, is_valid,
  endorse, operation, Args, no_args, arg, Binding, binding, Statement, let_in, let_remote,
  assignment, return, write_tombstone, accompany_write, if_else, while, operation_statement,
  sequence, Sequence, done, next,
}

-- `none` is a tree for which replace() does not compile: it has no overload for the nodes that
-- tracking inserts, and it leaves the label inside an Endorse as it is, so that the new
-- expression has no specialisation where its own label changes.
module _ {C : Type 0} ⦃o : LabelOrder C⦄ (target1 target2 : ℕ) (new_label : C) where
  abbrev replaced : Label C → Option (Label C)
  replaced l = label_replace target1 target2 new_label l

  unfoldable mutual
    pub replace_expression : Expression C → Option (Expression C)
    replace_expression (field_reference l y s f) = do
      l' ← replaced l
      s' ← replace_expression s
      some (field_reference l' y s' f)
    replace_expression (var_reference l y v) = do l' ← replaced l; some (var_reference l' y v)
    replace_expression (constant i) = some (constant i)
    replace_expression (bin_op l y op L R) = do
      l' ← replaced l
      L' ← replace_expression L
      R' ← replace_expression R
      some (bin_op l' y op L' R')
    replace_expression (is_valid l h) = do
      l' ← replaced l
      h' ← replace_expression h
      some (is_valid l' h')
    replace_expression (endorse l y h) = do
      l' ← replaced l
      h' ← replace_expression h
      if is_same_label l' l then some (endorse l y h') else none
    replace_expression (operation l y oper_name h args) = do
      l' ← replaced l
      h' ← replace_expression h
      args' ← replace_args args
      some (operation l' y oper_name h' args')
    replace_expression (generate_tombstone l) = none

    pub replace_args : Args C → Option (Args C)
    replace_args no_args = some no_args
    replace_args (arg e es) = do e' ← replace_expression e; es' ← replace_args es; some (arg e' es')

  unfoldable pub replace_binding : Binding C → Option (Binding C)
  replace_binding (binding l y v e) = do
    l' ← replaced l
    e' ← replace_expression e
    some (binding l' y v e')

  unfoldable mutual
    pub replace_statement : Statement C → Option (Statement C)
    replace_statement (operation_statement l oper_name h args) = do
      l' ← replaced l
      h' ← replace_expression h
      args' ← replace_args args
      some (operation_statement l' oper_name h' args')
    replace_statement (assignment l b e) = do
      l' ← replaced l
      b' ← replace_expression b
      e' ← replace_expression e
      some (assignment l' b' e')
    replace_statement (return e) = do e' ← replace_expression e; some (return e')
    replace_statement (let_in l b e) = do
      l' ← replaced l
      b' ← replace_binding b
      e' ← replace_statement e
      some (let_in l' b' e')
    replace_statement (let_remote l b e) = do
      l' ← replaced l
      b' ← replace_binding b
      e' ← replace_statement e
      some (let_remote l' b' e')
    replace_statement (if_else l c t e) = do
      l' ← replaced l
      c' ← replace_expression c
      t' ← replace_statement t
      e' ← replace_statement e
      some (if_else l' c' t' e')
    replace_statement (while l c e) = do
      l' ← replaced l
      c' ← replace_expression c
      e' ← replace_statement e
      some (while l' c' e')
    replace_statement (sequence l seq) = do
      l' ← replaced l
      seq' ← replace_sequence seq
      some (sequence l' seq')
    replace_statement (write_tombstone l e) = none
    replace_statement (accompany_write l e) = none

    pub replace_sequence : Sequence C → Option (Sequence C)
    replace_sequence done = some done
    replace_sequence (next s ss) = do
      s' ← replace_statement s
      ss' ← replace_sequence ss
      some (next s' ss')
