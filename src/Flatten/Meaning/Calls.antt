-- ===== src/Flatten/Meaning/Calls.antt =====
-- Runs of a chain of Lets that ends in a call, for operation_to_statement_f
-- (transactions/mtl/flatten_expressions.hpp).
use mix_t.Base.{
  ℕ, String, Option, none, some, List, ◌>>=◌, >>=-eq-some, some-inj, ◌≡◌, refl, sym, ap, ◌∙◌,
}
use mathlib.Core.Path.{fun_ext}
use mix_t.Flatten.Tree.{
  Name, Expression, var_reference, operation, Args, arg, Statement, let_in, let_remote,
  operation_statement, return, append_var,
}
use mix_t.Flatten.Hoisting.{
  Layer, value, remote, layer_name, bind_layer, IsOneLayer, Hoists, whole, in_handle, moved, in_arg,
}
use mix_t.Flatten.Hoisting.Cases.{Hoists-layers}
use mix_t.Flatten.FlattenExprs.{is_let_remote, operation_to_statement}
use mix_t.Flatten.Flat.{declared_behind-some}
use mix_t.Flatten.Room.Chain.{
  EndsInCall, call, behind_let, behind_remote, Pending, returned, called, flat_let, flat_remote,
  pending_layer, call_layer,
}
use mix_t.Flatten.Meaning.{
  Objects, perform, copy, alias, State, scoped, with_store, look_all, eval, eval_args, run,
}
use mix_t.Flatten.Meaning.Scope.{Names, Avoids, IsOlder, Names-mono}
use mix_t.Flatten.Meaning.Fresh.{layer_name_fresh, layer-Avoids, moved-Names}
use mix_t.Flatten.Meaning.RunWeakening.{run-put}
use mix_t.Flatten.Meaning.Layers.{layer_slot, moved_args, Hoists-eval, Hoists-strict, bind_none}
use mix_t.Flatten.Meaning.Bound.{bound_run}

module _ {C V M : Type 0} (o : Objects V M) (k : ℕ) where
  -- A chain whose call is run as a statement.
  abbrev pub ended_run : (s : Statement C) → EndsInCall s → State V M → Option (State V M)
  ended_run _ (call m n h args vars v) s = run o k (operation_statement n h args vars) s
  ended_run _ (behind_let m e t c) s = eval o s e >>= λ v. scoped m (copy v) (ended_run t c) s
  ended_run _ (behind_remote m e t c) s = eval o s e >>= λ v. scoped m (alias v) (ended_run t c) s

  abbrev pub pending_run : (s : Statement C) → Pending s → State V M → Option (State V M)
  pending_run _ (returned n h args vars) s = run o k (operation_statement n h args vars) s
  pending_run _ (called m n h args vars v f) s = run o k (operation_statement n h args vars) s
  pending_run _ (flat_let m e t f c) s = eval o s e >>= λ v. scoped m (copy v) (pending_run t c) s
  pending_run _ (flat_remote m e t f c) s =
      eval o s e >>= λ v. scoped m (alias v) (pending_run t c) s

  -- operation_to_statement keeps what the chain does.
  pub operation_to_statement-run :
      (s t : Statement C) (c : EndsInCall s)
      → operation_to_statement s ≡ some t
      → run o k t ≡ ended_run s c
  unfolding operation_to_statement run
  operation_to_statement-run _ t (call m n h args vars v) e = rw (sym (some-inj _ _ e)) refl
  operation_to_statement-run _ t (behind_let m e _ (call n p h args vars v)) w =
      let r =
        >>=-eq-some
          (operation_to_statement (let_in n (operation p h args vars) (return (var_reference v))))
          (λ x. some (let_in m e x)) w in
      ap (run o k) (sym (some-inj _ _ r.2))
      ∙ ap (λ f s. eval o s e >>= λ v. scoped m (copy v) f s)
          (operation_to_statement-run
            (let_in n (operation p h args vars) (return (var_reference v))) r.0
            (call n p h args vars v) r.1)
  operation_to_statement-run _ t (behind_let m e _ (behind_let n d s c)) w =
      let r = >>=-eq-some (operation_to_statement (let_in n d s)) (λ x. some (let_in m e x)) w in
      ap (run o k) (sym (some-inj _ _ r.2))
      ∙ ap (λ f s. eval o s e >>= λ v. scoped m (copy v) f s)
          (operation_to_statement-run (let_in n d s) r.0 (behind_let n d s c) r.1)
  operation_to_statement-run _ t (behind_let m e _ (behind_remote n d s c)) w =
      let r =
        >>=-eq-some (operation_to_statement (let_remote n d s)) (λ x. some (let_in m e x))
          (declared_behind-some (is_let_remote s) _ t w) in
      ap (run o k) (sym (some-inj _ _ r.2))
      ∙ ap (λ f s. eval o s e >>= λ v. scoped m (copy v) f s)
          (operation_to_statement-run (let_remote n d s) r.0 (behind_remote n d s c) r.1)
  operation_to_statement-run _ t (behind_remote m e _ (call n p h args vars v)) w =
      let r =
        >>=-eq-some
          (operation_to_statement (let_in n (operation p h args vars) (return (var_reference v))))
          (λ x. some (let_remote m e x)) w in
      ap (run o k) (sym (some-inj _ _ r.2))
      ∙ ap (λ f s. eval o s e >>= λ v. scoped m (alias v) f s)
          (operation_to_statement-run
            (let_in n (operation p h args vars) (return (var_reference v))) r.0
            (call n p h args vars v) r.1)
  operation_to_statement-run _ t (behind_remote m e _ (behind_let n d s c)) w =
      let r =
        >>=-eq-some (operation_to_statement (let_in n d s)) (λ x. some (let_remote m e x)) w in
      ap (run o k) (sym (some-inj _ _ r.2))
      ∙ ap (λ f s. eval o s e >>= λ v. scoped m (alias v) f s)
          (operation_to_statement-run (let_in n d s) r.0 (behind_let n d s c) r.1)
  operation_to_statement-run _ t (behind_remote m e _ (behind_remote n d s c)) w =
      let r =
        >>=-eq-some (operation_to_statement (let_remote n d s)) (λ x. some (let_remote m e x)) w in
      ap (run o k) (sym (some-inj _ _ r.2))
      ∙ ap (λ f s. eval o s e >>= λ v. scoped m (alias v) f s)
          (operation_to_statement-run (let_remote n d s) r.0 (behind_remote n d s c) r.1)

  module _ (seqnum depth : ℕ) where
    pending_layer-run :
        (l : Layer C) (s : Statement C) (h : IsOneLayer l) (p : Pending s) (t : State V M)
        → pending_run (bind_layer seqnum depth l s) (pending_layer seqnum depth l s h p) t
          ≡ (layer_slot o t l >>= λ x. scoped (layer_name seqnum depth l) x (pending_run s p) t)
    unfolding pending_layer
    pending_layer-run (value e) s h p t = at_value (eval o t e)
      where
        at_value :
            (m : Option V)
            → (m >>= λ v. scoped (layer_name seqnum depth (value e)) (copy v) (pending_run s p) t)
              ≡ ((m >>= λ v. some (copy v)) >>= λ x.
                  scoped (layer_name seqnum depth (value e)) x (pending_run s p) t)
        at_value none = refl
        at_value (some v) = refl
    pending_layer-run (remote e) s h p t = at_value (eval o t e)
      where
        at_value :
            (m : Option V)
            → (m >>= λ v. scoped (layer_name seqnum depth (remote e)) (alias v) (pending_run s p) t)
              ≡ ((m >>= λ v. some (alias v)) >>= λ x.
                  scoped (layer_name seqnum depth (remote e)) x (pending_run s p) t)
        at_value none = refl
        at_value (some v) = refl

    -- A call runs the same with a layer of it in front.
    pub call_layer-run :
        (n : String) (h : Expression C) (args : Args C) (vars : List Name) (l : Layer C)
        (e' : Expression C) (r : Hoists seqnum depth (operation n h args vars) l e') (t : State V M)
        → Names (IsOlder seqnum depth) (operation n h args vars)
        → pending_run
            (bind_layer seqnum depth l (return e'))
            (call_layer seqnum depth n h args vars l e' r)
            t
          ≡ run o k (operation_statement n h args vars) t
    unfolding call_layer run eval eval_args
    call_layer-run n h args vars l e' (whole _ f g) t w = refl
    call_layer-run n h args vars l _ (in_handle _ _ _ _ _ h' r) t w =
        pending_layer-run l _ (Hoists-layers seqnum depth h l h' r).0 (returned n h' args vars) t
        ∙ bound_run o seqnum depth l (run o k (operation_statement n h' args vars))
            (run o k (operation_statement n h args vars)) t (layer-Avoids seqnum depth h l h' r w.0)
            (λ y. run-put o (layer_name seqnum depth l) y k (operation_statement n h args vars) (
              Names-mono (IsOlder seqnum depth) (Avoids (layer_name seqnum depth l))
                (layer_name_fresh seqnum depth l) (operation n h args vars) w))
            (λ u x p q. rw (Hoists-eval o seqnum depth u h l h' x p q r) refl)
            (λ u q. rw (Hoists-strict o seqnum depth u h l h' q r) refl)
    call_layer-run n h _ vars l e' (moved _ _ v rest _ _ _ r) t w =
        call_layer-run n h rest (append_var vars v) l e' r t
          (moved-Names (IsOlder seqnum depth) n h v rest vars w)
        ∙ ap (λ f. eval o t h >>= f)
            (fun_ext (λ a.
              moved_args o t vars v rest
                (λ es. perform o t.store n a es >>= λ m. some (with_store m t))))
    call_layer-run n h _ vars l _ (in_arg _ _ a rest _ _ a' c r) t w =
        pending_layer-run l _ (Hoists-layers seqnum depth a l a' r).0
          (returned n h (arg a' rest) vars) t
        ∙ bound_run o seqnum depth l (run o k (operation_statement n h (arg a' rest) vars))
            (run o k (operation_statement n h (arg a rest) vars)) t
            (layer-Avoids seqnum depth a l a' r w.1.0)
            (λ y.
              run-put o (layer_name seqnum depth l) y k (operation_statement n h (arg a rest) vars)
                (Names-mono (IsOlder seqnum depth) (Avoids (layer_name seqnum depth l))
                  (layer_name_fresh seqnum depth l) (operation n h (arg a rest) vars) w))
            (λ u x p q. rw (Hoists-eval o seqnum depth u a l a' x p q r) refl)
            (λ u q.
              rw (Hoists-strict o seqnum depth u a l a' q r)
                (bind_none (eval o u h) _ (λ b. bind_none (look_all o u vars) _ (λ c. refl))))
