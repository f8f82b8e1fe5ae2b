-- ===== src/Inference/FlowLaws.antt =====
-- The collected constraints say exactly what the flow discipline says.
use mix_t.Base.{
  ◌≡◌, ◌↔◌, refl, sym, ◌∙◌, Option, some, List, [], ◌∷◌, ◌++◌, arith, All, All-append_iff,
  >>=-eq-some, some-inj,
}
use mix_t.Labels.Order.{LabelOrder}
use mix_t.Labels.Term.{Label, label_min_of}
use mix_t.Labels.Meaning.{Env, meaning}
use mix_t.Ast.{
  Yield, Expression, var_reference, field_reference, constant, bin_op, generate_tombstone, is_valid,
  endorse, operation, Args, no_args, arg, Binding, binding, Statement, let_in, let_remote,
  assignment, return, write_tombstone, accompany_write, if_else, while, operation_statement,
  sequence, Sequence, done, next,
}
use mix_t.Inference.Constraints.{
  MustFlowTo, must_flow_to, handle_label, label_of, yield_of, bound, with_yield, min_with_args,
  args_flow_to, collect_operation, collect_expression, collect_args, collect_binding,
  collect_statement, collect_sequence,
}
use mix_t.Inference.Flow.{
  AtHandle, args_level, ArgsMayFlow, FlowsOperation, FlowsExpression, FlowsArgs, FlowsBinding,
  FlowsStatement, FlowsSequence,
}
use mix_t.Inference.Satisfied.{Satisfied}

module _ {C : Type 0} ⦃o : LabelOrder C⦄ (env : Env C) where
  meaning-min_with_args :
      (l : Label C) (args : Args C)
      → meaning env (min_with_args l args) ≡ args_level env (meaning env l) args
  unfolding meaning
  meaning-min_with_args l no_args = refl
  meaning-min_with_args l (arg e es) = meaning-min_with_args (label_min_of l (label_of e)) es

  args_flow_to_iff :
      (l : Label C) (args : Args C)
      → All (Satisfied env) (args_flow_to l args) ↔ ArgsMayFlow env args (meaning env l)
  args_flow_to_iff l no_args = (λ h. h, λ h. h)
  args_flow_to_iff l (arg e es) =
      let ih = args_flow_to_iff l es in (λ h. (h.0, ih.0 h.1), λ h. (h.0, ih.1 h.1))

  -- `X` is what the constraints found at `pc` amount to.
  abbrev Amounts : Option (List (MustFlowTo C)) → Type 0 → Type 0
  Amounts r X = (cs : List (MustFlowTo C)) → r ≡ some cs → All (Satisfied env) cs ↔ X

  Amounts-some :
      (cs : List (MustFlowTo C)) {X : Type 0} → (All (Satisfied env) cs ↔ X) → Amounts (some cs) X
  Amounts-some cs f cs' h = rw (sym (some-inj cs cs' h)) f

  collect_operation_iff :
      (pc : Label C) (e : Expression C) (args : Args C)
      (on_handle on_args : Label C → Option (List (MustFlowTo C))) (OnHandle OnArgs : C → Type 0)
      → ((l : Label C) → Amounts (on_handle l) (OnHandle (meaning env l)))
      → ((l : Label C) → Amounts (on_args l) (OnArgs (meaning env l)))
      → Amounts
          (collect_operation pc e args on_handle on_args)
          (FlowsOperation env (meaning env pc) e args OnHandle OnArgs)
  unfolding collect_operation meaning
  collect_operation_iff pc e args on_handle on_args OnHandle OnArgs f g cs h =
      let (hl, p, q) = >>=-eq-some (handle_label (yield_of e)) _ h in
      let at = min_with_args (label_min_of (label_min_of pc (label_of e)) hl) args in
      let (ch, r, s) = >>=-eq-some (on_handle at) _ q in
      let (ca, t, u) = >>=-eq-some (on_args at) _ s in
      let (to, from) = args_flow_to_iff hl args in
      rw
        (p, AtHandle, ← meaning-min_with_args (label_min_of (label_min_of pc (label_of e)) hl) args)
        (Amounts-some _
          (All-append_iff (Satisfied env) ch _ (f at ch r) (
            All-append_iff (Satisfied env)
              (must_flow_to (label_of e) hl "statement_operation, expr -> hndl"
                ∷ args_flow_to hl args)
              ca (λ x. (x.0, to x.1), λ x. (x.0, from x.1)) (g at ca t)))
          cs u)

  mutual
    unfolding collect_expression meaning

    collect_expression_iff :
        (pc : Label C) (e : Expression C)
        → Amounts (collect_expression pc e) (FlowsExpression env (meaning env pc) e)
    collect_expression_iff pc (var_reference l y v) = Amounts-some [] (λ h. h, λ h. h)
    collect_expression_iff pc (constant i) = Amounts-some [] (λ h. h, λ h. h)
    collect_expression_iff pc (field_reference l y s f) = collect_expression_iff pc s
    collect_expression_iff pc (endorse l y h) = collect_expression_iff pc h
    collect_expression_iff pc (generate_tombstone l) = λ cs h. cc
    collect_expression_iff pc (bin_op l y op L R) = λ cs h.
        let (cl, p, q) = >>=-eq-some (collect_expression pc L) _ h in
        let (cr, r, s) = >>=-eq-some (collect_expression pc R) _ q in
        Amounts-some _
          (All-append_iff (Satisfied env) cl cr (collect_expression_iff pc L cl p)
            (collect_expression_iff pc R cr r))
          cs s
    collect_expression_iff pc (is_valid l e) = λ cs h.
        let (hl, p, q) = >>=-eq-some (handle_label (yield_of e)) _ h in
        let (ch, r, s) =
          >>=-eq-some (collect_expression (label_min_of (label_min_of pc (label_of e)) hl) e) _ q in
        rw (p, AtHandle)
          (Amounts-some _
            (All-append_iff (Satisfied env) ch _ (collect_expression_iff _ e ch r)
              (λ x. x.0, λ x. (x, tt)))
            cs s)
    collect_expression_iff pc (operation l y n e args) =
        collect_operation_iff pc e args (λ l'. collect_expression l' e) (λ l'. collect_args l' args)
          (λ c. FlowsExpression env c e) (λ c. FlowsArgs env c args)
          (λ l'. collect_expression_iff l' e) (λ l'. collect_args_iff l' args)

    collect_args_iff :
        (pc : Label C) (es : Args C)
        → Amounts (collect_args pc es) (FlowsArgs env (meaning env pc) es)
    collect_args_iff pc no_args = Amounts-some [] (λ h. h, λ h. h)
    collect_args_iff pc (arg e es) = λ cs h.
        let (cl, p, q) = >>=-eq-some (collect_expression pc e) _ h in
        let (cr, r, s) = >>=-eq-some (collect_args pc es) _ q in
        Amounts-some _
          (All-append_iff (Satisfied env) cl cr (collect_expression_iff pc e cl p)
            (collect_args_iff pc es cr r))
          cs s

  collect-with_yield :
      (pc : Label C) (y : Yield C) (e e' : Expression C)
      → with_yield y e ≡ some e'
      → collect_expression pc e' ≡ collect_expression pc e
  unfolding with_yield collect_expression
  collect-with_yield pc y (var_reference l y' v) e' h = rw (sym (some-inj _ e' h))
  collect-with_yield pc y (field_reference l y' s f) e' h = rw (sym (some-inj _ e' h))
  collect-with_yield pc y (operation l y' n e args) e' h = rw (sym (some-inj _ e' h))
  collect-with_yield pc y (constant i) e' h = ground arith
  collect-with_yield pc y (bin_op l y' op L R) e' h = ground arith
  collect-with_yield pc y (generate_tombstone l) e' h = ground arith
  collect-with_yield pc y (is_valid l e) e' h = ground arith
  collect-with_yield pc y (endorse l y' e) e' h = ground arith

  collect_binding_iff :
      (pc : Label C) (b : Binding C)
      → Amounts (collect_binding pc b) (FlowsBinding env (meaning env pc) b)
  unfolding collect_binding
  collect_binding_iff pc (binding l y v e) cs h =
      let (e', p, q) = >>=-eq-some (with_yield y e) _ h in
      let (ce, r, s) = >>=-eq-some (collect_expression pc e') _ q in
      let (to, from) = collect_expression_iff pc e ce (sym (collect-with_yield pc y e e' p) ∙ r) in
      Amounts-some _ (λ x. (x.0, x.1.0, to x.1.1), λ x. (x.0, (x.1, from x.2))) cs s

  mutual
    unfolding collect_statement meaning

    collect_all :
        (pc : Label C) (s : Statement C)
        → Amounts (collect_statement pc s) (FlowsStatement env (meaning env pc) s)
    collect_all pc (assignment l v e) = λ cs h.
        let (cv, p, q) = >>=-eq-some (collect_expression pc v) _ h in
        let (ce, r, s) = >>=-eq-some (collect_expression pc e) _ q in
        let (to, from) = collect_expression_iff pc v cv p in
        Amounts-some _
          (All-append_iff (Satisfied env)
            (must_flow_to (label_of e) (label_of v) "assignment"
              ∷ must_flow_to pc (label_of v) "assignment, pc"
              ∷ cv)
            ce (λ x. (x.0, x.1.0, to x.1.1), λ x. (x.0, (x.1, from x.2)))
            (collect_expression_iff pc e ce r))
          cs s
    collect_all pc (return e) = collect_expression_iff pc e
    collect_all pc (let_in l b s) = λ cs h.
        let (cb, p, q) = >>=-eq-some (collect_binding pc b) _ h in
        let (ct, r, u) = >>=-eq-some (collect_statement pc s) _ q in
        Amounts-some _
          (All-append_iff (Satisfied env) cb ct (collect_binding_iff pc b cb p)
            (collect_all pc s ct r))
          cs u
    collect_all pc (let_remote l b s) = λ cs h.
        let (hl, m, n) = >>=-eq-some (handle_label (yield_of (bound b))) _ h in
        let at = label_min_of (label_min_of pc (label_of (bound b))) hl in
        let (cb, p, q) = >>=-eq-some (collect_binding at b) _ n in
        let (ct, r, u) = >>=-eq-some (collect_statement pc s) _ q in
        rw (m, AtHandle)
          (Amounts-some _
            (All-append_iff (Satisfied env) (cb ++ ct) _
              (All-append_iff (Satisfied env) cb ct (collect_binding_iff at b cb p)
                (collect_all pc s ct r))
              (λ x. x.0, λ x. (x, tt)))
            cs u)
    collect_all pc (operation_statement l n e args) =
        collect_operation_iff pc e args (λ l'. collect_expression l' e) (λ l'. collect_args l' args)
          (λ c. FlowsExpression env c e) (λ c. FlowsArgs env c args)
          (λ l'. collect_expression_iff l' e) (λ l'. collect_args_iff l' args)
    collect_all pc (if_else l c t e) = λ cs h.
        let (ce, p, q) = >>=-eq-some (collect_expression (label_min_of pc l) c) _ h in
        let (ct, r, u) = >>=-eq-some (collect_statement (label_min_of pc l) t) _ q in
        let (cf, v, w) = >>=-eq-some (collect_statement (label_min_of pc l) e) _ u in
        Amounts-some _
          (All-append_iff (Satisfied env) (ce ++ ct) cf
            (All-append_iff (Satisfied env) ce ct (collect_expression_iff _ c ce p)
              (collect_all _ t ct r))
            (collect_all _ e cf v))
          cs w
    collect_all pc (while l c s) = λ cs h.
        let (ce, p, q) = >>=-eq-some (collect_expression (label_min_of pc l) c) _ h in
        let (ct, r, u) = >>=-eq-some (collect_statement (label_min_of pc l) s) _ q in
        Amounts-some _
          (All-append_iff (Satisfied env) ce ct (collect_expression_iff _ c ce p)
            (collect_all _ s ct r))
          cs u
    collect_all pc (sequence l ss) = collect_all_of pc ss
    collect_all pc (write_tombstone l e) = λ cs h. cc
    collect_all pc (accompany_write l e) = λ cs h. cc

    collect_all_of :
        (pc : Label C) (ss : Sequence C)
        → Amounts (collect_sequence pc ss) (FlowsSequence env (meaning env pc) ss)
    collect_all_of pc done = Amounts-some [] (λ h. h, λ h. h)
    collect_all_of pc (next s ss) = λ cs h.
        let (ct, p, q) = >>=-eq-some (collect_statement pc s) _ h in
        let (cs', r, u) = >>=-eq-some (collect_sequence pc ss) _ q in
        Amounts-some _
          (All-append_iff (Satisfied env) ct cs' (collect_all pc s ct p)
            (collect_all_of pc ss cs' r))
          cs u

  -- Where collect_constraints compiles at a context label, an assignment of concrete labels to the
  -- temporary ones satisfies the collected constraints exactly when the tree obeys the flow
  -- discipline under that assignment.
  pub collect_statement_iff :
      (pc : Label C) (s : Statement C) (cs : List (MustFlowTo C))
      → collect_statement pc s ≡ some cs
      → All (Satisfied env) cs ↔ FlowsStatement env (meaning env pc) s
  collect_statement_iff pc s = collect_all pc s
