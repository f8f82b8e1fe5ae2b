-- ===== src/Inference/ReplaceLaws.antt =====
-- replace() compiles on every tree of the typechecker, removes the temporary label and keeps what
-- the other labels stand for (transactions/mtl/replace_label.hpp).
use mix_t.Base.{ℕ, ◌≡◌, refl, some}
use mix_t.Labels.Order.{LabelOrder}
use mix_t.Labels.Term.{Label, concrete, temp_label, label_min_of}
use mix_t.Labels.Meaning.{Env, meaning}
use mix_t.Labels.Replace.{Avoids, assign, label_replace-concrete, label_replace_lem}
use mix_t.Ast.{
  Expression, var_reference, field_reference, constant, bin_op, generate_tombstone, is_valid,
  endorse, operation, Args, no_args, arg, Binding, binding, Statement, let_in, let_remote,
  assignment, return, write_tombstone, accompany_write, if_else, while, operation_statement,
  sequence, Sequence, done, next,
}
use mix_t.Ast.Labelled.{AllExpression, AllArgs, AllBinding, AllStatement, AllSequence}
use mix_t.Ast.Surface.{
  IsSurfaceExpression, IsSurfaceArgs, IsSurfaceBinding, IsSurfaceStatement, IsSurfaceSequence,
  relabel_expression, relabel_args, relabel_binding, relabel_statement, relabel_sequence,
}
use mix_t.Inference.Replace.{
  replace_expression, replace_args, replace_binding, replace_statement, replace_sequence,
}

module _ {C : Type 0} ⦃o : LabelOrder C⦄ where
  -- Each label as the concrete label that it stands for.
  abbrev pub known : Env C → Label C → Label C
  known env l = concrete (meaning env l)

  module _ (t1 t2 : ℕ) (c : C) where
    abbrev ReplacesExpression : Expression C → Type 0
    ReplacesExpression e =
        (e' : Expression C) × (replace_expression t1 t2 c e ≡ some e')
        × IsSurfaceExpression e'
        × AllExpression (Avoids t1 t2) e'
        × ((env : Env C)
            → relabel_expression (known env) e' ≡ relabel_expression (known (assign t1 t2 c env)) e)

    abbrev ReplacesArgs : Args C → Type 0
    ReplacesArgs e =
        (e' : Args C) × (replace_args t1 t2 c e ≡ some e')
        × IsSurfaceArgs e'
        × AllArgs (Avoids t1 t2) e'
        × ((env : Env C)
            → relabel_args (known env) e' ≡ relabel_args (known (assign t1 t2 c env)) e)

    abbrev ReplacesBinding : Binding C → Type 0
    ReplacesBinding e =
        (e' : Binding C) × (replace_binding t1 t2 c e ≡ some e')
        × IsSurfaceBinding e'
        × AllBinding (Avoids t1 t2) e'
        × ((env : Env C)
            → relabel_binding (known env) e' ≡ relabel_binding (known (assign t1 t2 c env)) e)

    abbrev pub ReplacesStatement : Statement C → Type 0
    ReplacesStatement e =
        (e' : Statement C) × (replace_statement t1 t2 c e ≡ some e')
        × IsSurfaceStatement e'
        × AllStatement (Avoids t1 t2) e'
        × ((env : Env C)
            → relabel_statement (known env) e' ≡ relabel_statement (known (assign t1 t2 c env)) e)

    abbrev ReplacesSequence : Sequence C → Type 0
    ReplacesSequence e =
        (e' : Sequence C) × (replace_sequence t1 t2 c e ≡ some e')
        × IsSurfaceSequence e'
        × AllSequence (Avoids t1 t2) e'
        × ((env : Env C)
            → relabel_sequence (known env) e' ≡ relabel_sequence (known (assign t1 t2 c env)) e)

    mutual
      unfolding replace_expression meaning

      replace_expression_lem : (e : Expression C) → IsSurfaceExpression e → ReplacesExpression e
      replace_expression_lem (var_reference l y v) h =
          let (l', p, p1, p2, p3) = label_replace_lem t1 t2 c l h in
          (var_reference l' y v, rw p, p1, p2, λ env. rw (p3 env))
      replace_expression_lem (field_reference l y s f) h =
          let (l', p, p1, p2, p3) = label_replace_lem t1 t2 c l h.0 in
          let (s', q, q1, q2, q3) = replace_expression_lem s h.1 in
          (field_reference l' y s' f, rw (p, q), (p1, q1), (p2, q2), λ env. rw (p3 env, q3 env))
      replace_expression_lem (constant i) h = (constant i, refl, tt, tt, λ env. refl)
      replace_expression_lem (bin_op l y op L R) h =
          let (l', p, p1, p2, p3) = label_replace_lem t1 t2 c l h.0 in
          let (L', q, q1, q2, q3) = replace_expression_lem L h.1 in
          let (R', r, r1, r2, r3) = replace_expression_lem R h.2 in
          (
            bin_op l' y op L' R',
            rw (p, q, r),
            (p1, q1, r1),
            (p2, q2, r2),
            λ env. rw (p3 env, q3 env, r3 env),
          )
      replace_expression_lem (generate_tombstone l) h = absurd h
      replace_expression_lem (is_valid l e) h =
          let (l', p, p1, p2, p3) = label_replace_lem t1 t2 c l h.0 in
          let (e', q, q1, q2, q3) = replace_expression_lem e h.1 in
          (is_valid l' e', rw (p, q), (p1, q1), (p2, q2), λ env. rw (p3 env, q3 env))
      replace_expression_lem (endorse (concrete k) y e) h =
          let (e', q, q1, q2, q3) = replace_expression_lem e h.1 in
          (
            endorse (concrete k) y e',
            rw (label_replace-concrete t1 t2 c k, q, (o.is_same_iff k k).1 refl),
            (tt, q1),
            (tt, q2),
            λ env. rw (q3 env),
          )
      replace_expression_lem (endorse (temp_label _ _) y e) h = absurd h.0
      replace_expression_lem (endorse (label_min_of _ _) y e) h = absurd h.0
      replace_expression_lem (operation l y n e args) h =
          let (l', p, p1, p2, p3) = label_replace_lem t1 t2 c l h.0 in
          let (e', q, q1, q2, q3) = replace_expression_lem e h.1 in
          let (args', r, r1, r2, r3) = replace_args_lem args h.2 in
          (
            operation l' y n e' args',
            rw (p, q, r),
            (p1, q1, r1),
            (p2, q2, r2),
            λ env. rw (p3 env, q3 env, r3 env),
          )

      replace_args_lem : (es : Args C) → IsSurfaceArgs es → ReplacesArgs es
      replace_args_lem no_args h = (no_args, refl, tt, tt, λ env. refl)
      replace_args_lem (arg e es) h =
          let (e', q, q1, q2, q3) = replace_expression_lem e h.0 in
          let (es', r, r1, r2, r3) = replace_args_lem es h.1 in
          (arg e' es', rw (q, r), (q1, r1), (q2, r2), λ env. rw (q3 env, r3 env))

    replace_binding_lem : (b : Binding C) → IsSurfaceBinding b → ReplacesBinding b
    unfolding replace_binding
    replace_binding_lem (binding l y v e) h =
        let (l', p, p1, p2, p3) = label_replace_lem t1 t2 c l h.0 in
        let (e', q, q1, q2, q3) = replace_expression_lem e h.1 in
        (binding l' y v e', rw (p, q), (p1, q1), (p2, q2), λ env. rw (p3 env, q3 env))

    mutual
      unfolding replace_statement

      replace_all : (s : Statement C) → IsSurfaceStatement s → ReplacesStatement s
      replace_all (let_in l b s) h =
          let (l', p, p1, p2, p3) = label_replace_lem t1 t2 c l h.0 in
          let (b', q, q1, q2, q3) = replace_binding_lem b h.1 in
          let (s', r, r1, r2, r3) = replace_all s h.2 in
          (
            let_in l' b' s',
            rw (p, q, r),
            (p1, q1, r1),
            (p2, q2, r2),
            λ env. rw (p3 env, q3 env, r3 env),
          )
      replace_all (let_remote l b s) h =
          let (l', p, p1, p2, p3) = label_replace_lem t1 t2 c l h.0 in
          let (b', q, q1, q2, q3) = replace_binding_lem b h.1 in
          let (s', r, r1, r2, r3) = replace_all s h.2 in
          (
            let_remote l' b' s',
            rw (p, q, r),
            (p1, q1, r1),
            (p2, q2, r2),
            λ env. rw (p3 env, q3 env, r3 env),
          )
      replace_all (assignment l v e) h =
          let (l', p, p1, p2, p3) = label_replace_lem t1 t2 c l h.0 in
          let (v', q, q1, q2, q3) = replace_expression_lem v h.1 in
          let (e', r, r1, r2, r3) = replace_expression_lem e h.2 in
          (
            assignment l' v' e',
            rw (p, q, r),
            (p1, q1, r1),
            (p2, q2, r2),
            λ env. rw (p3 env, q3 env, r3 env),
          )
      replace_all (return e) h =
          let (e', q, q1, q2, q3) = replace_expression_lem e h in
          (return e', rw q, q1, q2, λ env. rw (q3 env))
      replace_all (write_tombstone l e) h = absurd h
      replace_all (accompany_write l e) h = absurd h
      replace_all (if_else l e s t) h =
          let (l', p, p1, p2, p3) = label_replace_lem t1 t2 c l h.0 in
          let (e', q, q1, q2, q3) = replace_expression_lem e h.1 in
          let (s', r, r1, r2, r3) = replace_all s h.2 in
          let (t', u, u1, u2, u3) = replace_all t h.3 in
          (
            if_else l' e' s' t',
            rw (p, q, r, u),
            (p1, q1, r1, u1),
            (p2, q2, r2, u2),
            λ env. rw (p3 env, q3 env, r3 env, u3 env),
          )
      replace_all (while l e s) h =
          let (l', p, p1, p2, p3) = label_replace_lem t1 t2 c l h.0 in
          let (e', q, q1, q2, q3) = replace_expression_lem e h.1 in
          let (s', r, r1, r2, r3) = replace_all s h.2 in
          (
            while l' e' s',
            rw (p, q, r),
            (p1, q1, r1),
            (p2, q2, r2),
            λ env. rw (p3 env, q3 env, r3 env),
          )
      replace_all (operation_statement l n e args) h =
          let (l', p, p1, p2, p3) = label_replace_lem t1 t2 c l h.0 in
          let (e', q, q1, q2, q3) = replace_expression_lem e h.1 in
          let (args', r, r1, r2, r3) = replace_args_lem args h.2 in
          (
            operation_statement l' n e' args',
            rw (p, q, r),
            (p1, q1, r1),
            (p2, q2, r2),
            λ env. rw (p3 env, q3 env, r3 env),
          )
      replace_all (sequence l ss) h =
          let (l', p, p1, p2, p3) = label_replace_lem t1 t2 c l h.0 in
          let (ss', q, q1, q2, q3) = replace_all_sequence ss h.1 in
          (sequence l' ss', rw (p, q), (p1, q1), (p2, q2), λ env. rw (p3 env, q3 env))

      replace_all_sequence : (ss : Sequence C) → IsSurfaceSequence ss → ReplacesSequence ss
      replace_all_sequence done h = (done, refl, tt, tt, λ env. refl)
      replace_all_sequence (next s ss) h =
          let (s', q, q1, q2, q3) = replace_all s h.0 in
          let (ss', r, r1, r2, r3) = replace_all_sequence ss h.1 in
          (next s' ss', rw (q, r), (q1, r1), (q2, r2), λ env. rw (q3 env, r3 env))

    -- On every tree of the typechecker the replacement of a temporary label by a concrete one
    -- compiles. The new tree is again one of the typechecker's, the temporary label stands nowhere
    -- in it, and whatever the other temporary labels stand for, its labels stand for the same
    -- concrete labels as those of the old tree where the temporary label stands for the new one.
    pub replace_statement_lem : (s : Statement C) → IsSurfaceStatement s → ReplacesStatement s
    replace_statement_lem s h = replace_all s h
