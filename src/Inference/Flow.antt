-- ===== src/Inference/Flow.antt =====
-- The flow discipline as rules over concrete labels: what a tree must satisfy, under an assignment
-- of concrete labels to its temporary ones. It speaks of levels, not of constraints.
use mix_t.Base.{true, ◌≡◌, Option, none, some}
use mix_t.Labels.Order.{LabelOrder}
use mix_t.Labels.Term.{Label}
use mix_t.Labels.Meaning.{Env, meet, meaning}
use mix_t.Ast.{
  Expression, var_reference, field_reference, constant, bin_op, generate_tombstone, is_valid,
  endorse, operation, Args, no_args, arg, Binding, binding, Statement, let_in, let_remote,
  assignment, return, write_tombstone, accompany_write, if_else, while, operation_statement,
  sequence, Sequence, done, next,
}
use mix_t.Inference.Constraints.{handle_label, label_of, yield_of, bound}

abbrev pub AtHandle : {C : Type 0} → Option (Label C) → (Label C → Type 0) → Type 0
AtHandle none P = ⊥
AtHandle (some l) P = P l

module _ {C : Type 0} ⦃o : LabelOrder C⦄ (env : Env C) where
  abbrev pub level : Expression C → C
  level e = meaning env (label_of e)

  -- Data at the first level may influence data at the second.
  abbrev pub MayFlow : C → C → Type 0
  MayFlow a b = o.flows_to a b ≡ true

  -- The level at which an operation on a handle runs: no higher than its context, its handle, the
  -- object and each of its arguments.
  abbrev pub args_level : C → Args C → C
  args_level pc no_args = pc
  args_level pc (arg e es) = args_level (meet pc (level e)) es

  abbrev pub ArgsMayFlow : Args C → C → Type 0
  ArgsMayFlow no_args l = Unit
  ArgsMayFlow (arg e es) l = MayFlow (level e) l × ArgsMayFlow es l

  -- An operation on a handle, given what the discipline asks of the handle and of the arguments at
  -- the level at which the operation runs.
  abbrev pub FlowsOperation : C → Expression C → Args C → (C → Type 0) → (C → Type 0) → Type 0
  FlowsOperation pc h args OnHandle OnArgs = AtHandle (handle_label (yield_of h)) (λ hl.
      OnHandle (args_level (meet (meet pc (level h)) (meaning env hl)) args)
      × ((MayFlow (level h) (meaning env hl) × ArgsMayFlow args (meaning env hl))
          × OnArgs (args_level (meet (meet pc (level h)) (meaning env hl)) args)))

  -- `FlowsExpression pc e`: `e` obeys the discipline where control flow has depended on data at
  -- `pc`.
  abbrev mutual
    pub FlowsExpression : C → Expression C → Type 0
    FlowsExpression pc (var_reference l y v) = Unit
    FlowsExpression pc (field_reference l y s f) = FlowsExpression pc s
    FlowsExpression pc (constant i) = Unit
    FlowsExpression pc (bin_op l y op L R) = FlowsExpression pc L × FlowsExpression pc R
    FlowsExpression pc (generate_tombstone l) = ⊥
    FlowsExpression pc (is_valid l h) = AtHandle (handle_label (yield_of h)) (λ hl.
        FlowsExpression (meet (meet pc (level h)) (meaning env hl)) h
        × MayFlow (level h) (meaning env hl))
    FlowsExpression pc (endorse l y h) = FlowsExpression pc h
    FlowsExpression pc (operation l y n h args) =
        FlowsOperation pc h args (λ pc'. FlowsExpression pc' h) (λ pc'. FlowsArgs pc' args)

    pub FlowsArgs : C → Args C → Type 0
    FlowsArgs pc no_args = Unit
    FlowsArgs pc (arg e es) = FlowsExpression pc e × FlowsArgs pc es

  -- What is bound, and the context of the binding, may influence the variable.
  abbrev pub FlowsBinding : C → Binding C → Type 0
  FlowsBinding pc (binding l y v e) =
      MayFlow (level e) (meaning env l) × MayFlow pc (meaning env l) × FlowsExpression pc e

  abbrev mutual
    pub FlowsStatement : C → Statement C → Type 0
    FlowsStatement pc (assignment l v e) =
        (MayFlow (level e) (level v) × MayFlow pc (level v) × FlowsExpression pc v)
        × FlowsExpression pc e
    FlowsStatement pc (return e) = FlowsExpression pc e
    FlowsStatement pc (let_in l b s) = FlowsBinding pc b × FlowsStatement pc s
    FlowsStatement pc (let_remote l b s) = AtHandle (handle_label (yield_of (bound b))) (λ hl.
        (FlowsBinding (meet (meet pc (level (bound b))) (meaning env hl)) b × FlowsStatement pc s)
        × MayFlow (level (bound b)) (meaning env hl))
    FlowsStatement pc (operation_statement l n h args) =
        FlowsOperation pc h args (λ pc'. FlowsExpression pc' h) (λ pc'. FlowsArgs pc' args)
    FlowsStatement pc (if_else l c t e) =
        (FlowsExpression (meet pc (meaning env l)) c × FlowsStatement (meet pc (meaning env l)) t)
        × FlowsStatement (meet pc (meaning env l)) e
    FlowsStatement pc (while l c s) =
        FlowsExpression (meet pc (meaning env l)) c × FlowsStatement (meet pc (meaning env l)) s
    FlowsStatement pc (sequence l ss) = FlowsSequence pc ss
    FlowsStatement pc (write_tombstone l e) = ⊥
    FlowsStatement pc (accompany_write l e) = ⊥

    pub FlowsSequence : C → Sequence C → Type 0
    FlowsSequence pc done = Unit
    FlowsSequence pc (next s ss) = FlowsStatement pc s × FlowsSequence pc ss
