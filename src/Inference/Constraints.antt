-- ===== src/Inference/Constraints.antt =====
-- Flow constraints and their collection from a tree (transactions/mtl/label_inference.hpp).
use mix_t.Base.{
  String, Bool, ◌&&◌, false, Option, none, some, List, [], ◌∷◌, ◌++◌, if◌then◌else◌, ◌>>=◌,
}
use text.Mathlib.Text.{◌==◌ as str_eq}
use mix_t.Labels.Order.{LabelOrder}
use mix_t.Labels.Term.{Label, concrete, label_min_of, is_same_label}
use mix_t.Ast.{
  Yield, plain, handle, Expression, var_reference, field_reference, constant, bin_op,
  generate_tombstone, is_valid, endorse, operation, Args, no_args, arg, Binding, binding, Statement,
  let_in, let_remote, assignment, return, write_tombstone, accompany_write, if_else, while,
  operation_statement, sequence, Sequence, done, next,
}

pub record MustFlowTo (C : Type 0) : Type 0 where
  pub high : Label C
  pub low : Label C
  pub why : String

abbrev pub must_flow_to : {C : Type 0} → Label C → Label C → String → MustFlowTo C
must_flow_to high low why = record { high = high; low = low; why = why }

module _ {C : Type 0} where
  -- `typename Y::label` where `Y` is the type of a handle; another type has no such member.
  abbrev pub handle_label : Yield C → Option (Label C)
  handle_label (plain t) = none
  handle_label (handle l t) = some l

module _ {C : Type 0} ⦃o : LabelOrder C⦄ where
  -- The first two parameters of `Expression<l, y, e>`.
  abbrev pub label_of : Expression C → Label C
  label_of (var_reference l y v) = l
  label_of (field_reference l y s f) = l
  label_of (constant i) = concrete o.top
  label_of (bin_op l y op L R) = l
  label_of (generate_tombstone l) = l
  label_of (is_valid l h) = l
  label_of (endorse l y h) = l
  label_of (operation l y n h args) = l

  abbrev pub yield_of : Expression C → Yield C
  yield_of (var_reference l y v) = y
  yield_of (field_reference l y s f) = y
  yield_of (constant i) = plain "int"
  yield_of (bin_op l y op L R) = y
  yield_of (generate_tombstone l) = plain "Tombstone"
  yield_of (is_valid l h) = plain "bool"
  yield_of (endorse l y h) = y
  yield_of (operation l y n h args) = y

  abbrev pub is_same_yield : Yield C → Yield C → Bool
  is_same_yield (plain s) (plain t) = str_eq s t
  is_same_yield (handle l s) (handle m t) = is_same_label l m && str_eq s t
  is_same_yield _ _ = false

  -- `Expression<le, y, e>` at a binding's own type `y`. Where the specialisation for `e` fixes the
  -- type, another one has no definition.
  unfoldable pub with_yield : Yield C → Expression C → Option (Expression C)
  with_yield y (var_reference l y' v) = some (var_reference l y v)
  with_yield y (field_reference l y' s f) = some (field_reference l y s f)
  with_yield y (operation l y' n h args) = some (operation l y n h args)
  with_yield y (constant i) = if is_same_yield y (plain "int") then some (constant i) else none
  with_yield y (bin_op l y' op L R) = if is_same_yield y y' then some (bin_op l y' op L R) else none
  with_yield y (generate_tombstone l) =
      if is_same_yield y (plain "Tombstone") then some (generate_tombstone l) else none
  with_yield y (is_valid l h) = if is_same_yield y (plain "bool") then some (is_valid l h) else none
  with_yield y (endorse l y' h) = if is_same_yield y y' then some (endorse l y' h) else none

  -- label_min_vararg over the labels of an operation's arguments, from the left.
  abbrev pub min_with_args : Label C → Args C → Label C
  min_with_args l no_args = l
  min_with_args l (arg e es) = min_with_args (label_min_of l (label_of e)) es

  abbrev pub args_flow_to : Label C → Args C → List (MustFlowTo C)
  args_flow_to l no_args = []
  args_flow_to l (arg e es) =
      must_flow_to (label_of e) l "statement_operation, args -> hndl" ∷ args_flow_to l es

  -- _collect_operation_constraints, given what its calls of collect_constraints on the handle and
  -- on the arguments return.
  unfoldable pub collect_operation :
      Label C
      → Expression C
      → Args C
      → (Label C → Option (List (MustFlowTo C)))
      → (Label C → Option (List (MustFlowTo C)))
      → Option (List (MustFlowTo C))
  collect_operation pc h args collect_handle collect_all_args = do
    hl ← handle_label (yield_of h)
    ch ← collect_handle (min_with_args (label_min_of (label_min_of pc (label_of h)) hl) args)
    ca ← collect_all_args (min_with_args (label_min_of (label_min_of pc (label_of h)) hl) args)
    some (
        ch
        ++ ((must_flow_to (label_of h) hl "statement_operation, expr -> hndl"
              ∷ args_flow_to hl args)
            ++ ca))

  -- `none`: collect_constraints does not compile, because a node has no overload (those that
  -- tracking inserts) or because what should be a handle is none.
  unfoldable mutual
    pub collect_expression : Label C → Expression C → Option (List (MustFlowTo C))
    collect_expression pc (field_reference l y s f) = collect_expression pc s
    collect_expression pc (var_reference l y v) = some []
    collect_expression pc (constant i) = some []
    collect_expression pc (bin_op l y op L R) = do
      cl ← collect_expression pc L
      cr ← collect_expression pc R
      some (cl ++ cr)
    collect_expression pc (is_valid l h) = do
      hl ← handle_label (yield_of h)
      ch ← collect_expression (label_min_of (label_min_of pc (label_of h)) hl) h
      some (ch ++ must_flow_to (label_of h) hl "isvalid, expr -> hndl" ∷ [])
    collect_expression pc (endorse l y h) = collect_expression pc h
    collect_expression pc (operation l y n h args) =
        collect_operation pc h args (λ pc'. collect_expression pc' h) (λ pc'. collect_args pc' args)
    collect_expression pc (generate_tombstone l) = none

    pub collect_args : Label C → Args C → Option (List (MustFlowTo C))
    collect_args pc no_args = some []
    collect_args pc (arg e es) = do
      ce ← collect_expression pc e
      ces ← collect_args pc es
      some (ce ++ ces)

  unfoldable pub collect_binding : Label C → Binding C → Option (List (MustFlowTo C))
  collect_binding pc (binding l y v e) = do
    e' ← with_yield y e
    ce ← collect_expression pc e'
    some (
        must_flow_to (label_of e) l "bound expression"
        ∷ must_flow_to pc l "bound expression, pc"
        ∷ ce)

  abbrev pub bound : Binding C → Expression C
  bound (binding l y v e) = e

  unfoldable mutual
    pub collect_statement : Label C → Statement C → Option (List (MustFlowTo C))
    collect_statement pc (assignment l v e) = do
      cv ← collect_expression pc v
      ce ← collect_expression pc e
      some (
          (must_flow_to (label_of e) (label_of v) "assignment"
            ∷ must_flow_to pc (label_of v) "assignment, pc"
            ∷ cv)
          ++ ce)
    collect_statement pc (return e) = collect_expression pc e
    collect_statement pc (let_in l b s) = do
      cb ← collect_binding pc b
      cs ← collect_statement pc s
      some (cb ++ cs)
    collect_statement pc (let_remote l b s) = do
      hl ← handle_label (yield_of (bound b))
      cb ← collect_binding (label_min_of (label_min_of pc (label_of (bound b))) hl) b
      cs ← collect_statement pc s
      some ((cb ++ cs) ++ must_flow_to (label_of (bound b)) hl "let_remote, expr -> hndl" ∷ [])
    collect_statement pc (operation_statement l n h args) =
        collect_operation pc h args (λ pc'. collect_expression pc' h) (λ pc'. collect_args pc' args)
    collect_statement pc (if_else l c t e) = do
      cc ← collect_expression (label_min_of pc l) c
      ct ← collect_statement (label_min_of pc l) t
      ce ← collect_statement (label_min_of pc l) e
      some ((cc ++ ct) ++ ce)
    collect_statement pc (while l c s) = do
      cc ← collect_expression (label_min_of pc l) c
      cs ← collect_statement (label_min_of pc l) s
      some (cc ++ cs)
    collect_statement pc (sequence l ss) = collect_sequence pc ss
    collect_statement pc (write_tombstone l e) = none
    collect_statement pc (accompany_write l e) = none

    pub collect_sequence : Label C → Sequence C → Option (List (MustFlowTo C))
    collect_sequence pc done = some []
    collect_sequence pc (next s ss) = do
      cs ← collect_statement pc s
      css ← collect_sequence pc ss
      some (cs ++ css)
