-- ===== src/Flatten/Meaning/RunWeakening.antt =====
-- Laws of a run and a name that does not stand in the statement
-- (transactions/mtl/flatten_expressions.hpp).
use mix_t.Base.{
  ℕ, zero, suc, Bool, true, false, Option, none, some, ◌++◌, ◌>>=◌, ◌≡◌, ◌≢◌, refl, ap,
}
use mix_t.Flatten.Tree.{
  Name, Expression, field_reference, field_pointer_reference, dereference, endorse, ensure,
  is_valid, var_reference, constant, bin_op, operation, Statement, let_in, let_remote,
  operation_statement, assignment, return, if_else, while, sequence, Sequence, done, next,
}
use mix_t.Flatten.Meaning.{
  Objects, perform, Slot, copy, alias, State, put, scoped, choose, loop, look_all, eval, eval_args,
  assign_slot, assign, run, run_sequence,
}
use mix_t.Flatten.Meaning.Scope.{Names, NamesOfStatement, NamesOfSequence, Avoids}
use mix_t.Flatten.Meaning.Weakening.{put_comm, env_put_other, look_all-put, eval-put, eval_args-put}

module _ {V M : Type 0} (g : Name) (x : Option (Slot V)) where
  -- The name set in the state that a run ends in.
  abbrev pub keep : Option (State V M) → Option (State V M)
  keep m = m >>= λ t. some (put g x t)

  -- The run gives the same whatever the name stands for.
  abbrev pub IsIndependent : (State V M → Option (State V M)) → Type 0
  IsIndependent f = (s : State V M) → f (put g x s) ≡ keep (f s)

  keep_bind {ℓ} :
      {A : Type ℓ} (m : Option A) (f f' : A → Option (State V M))
      → ((a : A) → f a ≡ keep (f' a))
      → (m >>= f) ≡ keep (m >>= f')
  keep_bind none f f' h = refl
  keep_bind (some a) f f' h = h a

  keep_then :
      (m : Option (State V M)) (f : State V M → Option (State V M))
      → IsIndependent f
      → (keep m >>= f) ≡ keep (m >>= f)
  keep_then none f h = refl
  keep_then (some s) f h = h s

  choose-keep :
      (b : Bool) (m n m' n' : Option (State V M))
      → m ≡ keep m'
      → n ≡ keep n'
      → choose b m n ≡ keep (choose b m' n')
  choose-keep true m n m' n' h k = h
  choose-keep false m n m' n' h k = k

  scoped-put :
      (n : Name) (y : Slot V) (f : State V M → Option (State V M))
      → n ≢ g
      → IsIndependent f
      → IsIndependent (scoped n y f)
  scoped-put n y f h k s =
      rw (put_comm g n x (some y) s h, k (put n (some y) s), env_put_other g n x s h)
        (restored (f (put n (some y) s)))
    where
      restored :
          (m : Option (State V M))
          → (keep m >>= λ t. some (put n (s.env n) t)) ≡ keep (m >>= λ t. some (put n (s.env n) t))
      restored none = refl
      restored (some t) = ap some (put_comm g n x (s.env n) t h)

  loop-put :
      (k : ℕ) (test : State V M → Option Bool) (f : State V M → Option (State V M))
      → ((s : State V M) → test (put g x s) ≡ test s)
      → IsIndependent f
      → IsIndependent (loop k test f)
  loop-put zero test f h i s = refl
  loop-put (suc k) test f h i s = rw (h s) (
      keep_bind (test s) _ _ (λ b.
        choose-keep b _ _ _ _ (rw (i s) (keep_then (f s) (loop k test f) (loop-put k test f h i)))
          refl))

module _ {V M : Type 0} (o : Objects V M) (g : Name) (x : Option (Slot V)) where
  assign_slot-put :
      (s : State V M) (n : Name) (y : Option (Slot V)) (v : V)
      → n ≢ g
      → assign_slot o (put g x s) n y v ≡ keep g x (assign_slot o s n y v)
  assign_slot-put s n none v h = refl
  assign_slot-put s n (some (copy old)) v h = ap some (put_comm g n x (some (copy v)) s h)
  assign_slot-put s n (some (alias a)) v h = keep_bind g x (o.write s.store a v) _ _ (λ m. refl)

module _ {C V M : Type 0} (o : Objects V M) (g : Name) (x : Option (Slot V)) where
  assign-put :
      (s : State V M) (l : Expression C) (v : V)
      → Names (Avoids g) l
      → assign o (put g x s) l v ≡ keep g x (assign o s l v)
  unfolding assign eval
  assign-put s (var_reference n) v h =
      rw (env_put_other g n x s h) (assign_slot-put o g x s n (s.env n) v h)
  assign-put s (field_reference e f) v h = rw (eval-put o g x s e h) (
      keep_bind g x (eval o s e) _ _
        (λ old. keep_bind g x (o.set_field old f v) _ _ (λ new. assign-put s e new h)))
  assign-put s (dereference e) v h =
      rw (eval-put o g x s e h)
        (keep_bind g x (eval o s e) _ _ (λ a. keep_bind g x (o.write s.store a v) _ _ (λ m. refl)))
  assign-put s (field_pointer_reference e f) v h = rw (eval-put o g x s e h) (
      keep_bind g x (eval o s e >>= λ a. o.read s.store a) _ _ (λ old.
        keep_bind g x (o.set_field old f v) _ _ (λ new.
          keep_bind g x (eval o s e) _ _
            (λ a. keep_bind g x (o.write s.store a new) _ _ (λ m. refl)))))
  assign-put s (constant i) v h = refl
  assign-put s (is_valid e) v h = refl
  assign-put s (endorse l e) v h = refl
  assign-put s (ensure l e) v h = refl
  assign-put s (bin_op op L R) v h = refl
  assign-put s (operation n e args vars) v h = refl

  mutual
    unfolding run run_sequence

    -- A run does not see a name that does not stand in the statement, and leaves it alone.
    pub run-put :
        (k : ℕ) (t : Statement C) → NamesOfStatement (Avoids g) t → IsIndependent g x (run o k t)
    run-put k (let_in n e body) h s = rw (eval-put o g x s e h.1) (
        keep_bind g x (eval o s e) _ _
          (λ v. scoped-put g x n (copy v) (run o k body) h.0 (run-put k body h.2) s))
    run-put k (let_remote n e body) h s = rw (eval-put o g x s e h.1) (
        keep_bind g x (eval o s e) _ _
          (λ v. scoped-put g x n (alias v) (run o k body) h.0 (run-put k body h.2) s))
    run-put k (operation_statement n e args vars) h s =
        rw (eval-put o g x s e h.0, look_all-put o g x s vars h.2, eval_args-put o g x s args h.1)
          (keep_bind g x (eval o s e) _ _ (λ a. keep_bind g x (look_all o s vars) _ _ (λ vs.
            keep_bind g x (eval_args o s args) _ _
              (λ es. keep_bind g x (perform o s.store n a (vs ++ es)) _ _ (λ m. refl)))))
    run-put k (assignment l e) h s =
        rw (eval-put o g x s e h.1) (keep_bind g x (eval o s e) _ _ (λ v. assign-put s l v h.0))
    run-put k (return e) h s =
        rw (eval-put o g x s e h) (keep_bind g x (eval o s e) _ _ (λ v. refl))
    run-put k (if_else c t e) h s = rw (eval-put o g x s c h.0) (
        keep_bind g x (eval o s c) _ _
          (λ b. choose-keep g x (o.truth b) _ _ _ _ (run-put k t h.1 s) (run-put k e h.2 s)))
    run-put k (while c body) h s =
        loop-put g x k (λ t. eval o t c >>= λ b. some (o.truth b)) (run o k body)
          (λ t. rw (eval-put o g x t c h.0) refl) (run-put k body h.1) s
    run-put k (sequence ss) h s = run_sequence-put k ss h s

    pub run_sequence-put :
        (k : ℕ) (ss : Sequence C)
        → NamesOfSequence (Avoids g) ss
        → IsIndependent g x (run_sequence o k ss)
    run_sequence-put k done h s = refl
    run_sequence-put k (next t ts) h s =
        rw (run-put k t h.0 s)
          (keep_then g x (run o k t s) (run_sequence o k ts) (run_sequence-put k ts h.1))
