-- ===== src/Flatten/Meaning/Untouched.antt =====
-- Laws of a run and a name that the statement neither binds nor assigns
-- (transactions/mtl/flatten_expressions.hpp).
use mix_t.Base.{
  ℕ, zero, suc, Bool, true, false, Option, none, some, ◌>>=◌, >>=-eq-some, some-inj, ◌≡◌, ◌≢◌, sym,
  ap, ◌∙◌,
}
use mix_t.Flatten.Tree.{
  Name, Expression, field_reference, field_pointer_reference, dereference, endorse, ensure,
  is_valid, var_reference, constant, bin_op, operation, Statement, let_in, let_remote,
  operation_statement, assignment, return, if_else, while, sequence, Sequence, done, next,
}
use mix_t.Flatten.Meaning.{
  Objects, perform, Slot, copy, alias, State, put, with_store, with_result, scoped, choose, loop,
  look_all, eval, eval_args, assign_slot, assign, run, run_sequence,
}
use mix_t.Flatten.Meaning.Weakening.{env_put_other}

module _ {C : Type 0} (n : Name) where
  -- The variable that an assignment changes, where it changes one, is not `n`.
  abbrev pub SparesTarget : Expression C → Type 0
  SparesTarget (var_reference m) = n ≢ m
  SparesTarget (field_reference e f) = SparesTarget e
  SparesTarget _ = Unit

  abbrev mutual
    pub Spares : Statement C → Type 0
    Spares (let_in m e body) = (n ≢ m) × Spares body
    Spares (let_remote m e body) = (n ≢ m) × Spares body
    Spares (operation_statement m h args vars) = Unit
    Spares (assignment l e) = SparesTarget l
    Spares (return e) = Unit
    Spares (if_else c t e) = Spares t × Spares e
    Spares (while c body) = Spares body
    Spares (sequence ss) = SparesSequence ss

    pub SparesSequence : Sequence C → Type 0
    SparesSequence done = Unit
    SparesSequence (next s ss) = Spares s × SparesSequence ss

module _ {V M : Type 0} (n : Name) where
  abbrev pub IsKept : (State V M → Option (State V M)) → Type 0
  IsKept f = (u v : State V M) → f u ≡ some v → v.env n ≡ u.env n

  scoped-IsKept :
      (m : Name) (x : Slot V) (f : State V M → Option (State V M))
      → n ≢ m
      → IsKept f
      → IsKept (scoped m x f)
  scoped-IsKept m x f h i u v e =
      let t = >>=-eq-some (f (put m (some x) u)) (λ t. some (put m (u.env m) t)) e in
      ap (λ y. State.env y n) (sym (some-inj _ _ t.2))
      ∙ env_put_other m n (u.env m) t.0 h
      ∙ i (put m (some x) u) t.0 t.1
      ∙ env_put_other m n (some x) u h

  choose-IsKept :
      (b : Bool) (f g : State V M → Option (State V M))
      → IsKept f
      → IsKept g
      → IsKept (λ u. choose b (f u) (g u))
  choose-IsKept true f g h i = h
  choose-IsKept false f g h i = i

  bind-IsKept :
      (f g : State V M → Option (State V M)) → IsKept f → IsKept g → IsKept (λ u. f u >>= λ t. g t)
  bind-IsKept f g h i u v e = let t = >>=-eq-some (f u) (λ t. g t) e in i t.0 v t.2 ∙ h u t.0 t.1

  loop-IsKept :
      (k : ℕ) (test : State V M → Option Bool) (f : State V M → Option (State V M))
      → IsKept f
      → IsKept (loop k test f)
  loop-IsKept zero test f h u v e = cc
  loop-IsKept (suc k) test f h u v e =
      let b = >>=-eq-some (test u) (λ b. choose b (f u >>= λ t. loop k test f t) (some u)) e in
      choose-IsKept b.0 (λ u. f u >>= λ t. loop k test f t) (λ u. some u)
        (bind-IsKept f (loop k test f) h (loop-IsKept k test f h))
        (λ u v e. ap (λ y. State.env y n) (sym (some-inj _ _ e))) u v b.2

module _ {C V M : Type 0} (o : Objects V M) (n : Name) where
  assign-IsKept : (l : Expression C) (x : V) → SparesTarget n l → IsKept n (λ u. assign o u l x)
  unfolding assign
  assign-IsKept (var_reference m) x h u v e = at_slot (u.env m) e
    where
      at_slot : (y : Option (Slot V)) → assign_slot o u m y x ≡ some v → v.env n ≡ u.env n
      at_slot none e = cc
      at_slot (some (copy old)) e =
          ap (λ y. State.env y n) (sym (some-inj _ _ e)) ∙ env_put_other m n (some (copy x)) u h
      at_slot (some (alias a)) e =
          let m' = >>=-eq-some (o.write u.store a x) (λ m. some (with_store m u)) e in
          ap (λ y. State.env y n) (sym (some-inj _ _ m'.2))
  assign-IsKept (field_reference l f) x h u v e =
      let old = >>=-eq-some (eval o u l) _ e in
      let new = >>=-eq-some (o.set_field old.0 f x) _ old.2 in assign-IsKept l new.0 h u v new.2
  assign-IsKept (dereference l) x h u v e =
      let a = >>=-eq-some (eval o u l) _ e in
      let m = >>=-eq-some (o.write u.store a.0 x) _ a.2 in
      ap (λ y. State.env y n) (sym (some-inj _ _ m.2))
  assign-IsKept (field_pointer_reference l f) x h u v e =
      let old = >>=-eq-some (eval o u l >>= λ a. o.read u.store a) _ e in
      let new = >>=-eq-some (o.set_field old.0 f x) _ old.2 in
      let a = >>=-eq-some (eval o u l) _ new.2 in
      let m = >>=-eq-some (o.write u.store a.0 new.0) _ a.2 in
      ap (λ y. State.env y n) (sym (some-inj _ _ m.2))
  assign-IsKept (constant i) x h u v e = cc
  assign-IsKept (is_valid l) x h u v e = cc
  assign-IsKept (endorse c l) x h u v e = cc
  assign-IsKept (ensure c l) x h u v e = cc
  assign-IsKept (bin_op op L R) x h u v e = cc
  assign-IsKept (operation m a args vars) x h u v e = cc

  mutual
    unfolding run run_sequence

    pub run-IsKept : (k : ℕ) (s : Statement C) → Spares n s → IsKept n (run o k s)
    run-IsKept k (let_in m e body) h u v w =
        let x = >>=-eq-some (eval o u e) (λ x. scoped m (copy x) (run o k body) u) w in
        scoped-IsKept n m (copy x.0) (run o k body) h.0 (run-IsKept k body h.1) u v x.2
    run-IsKept k (let_remote m e body) h u v w =
        let x = >>=-eq-some (eval o u e) (λ x. scoped m (alias x) (run o k body) u) w in
        scoped-IsKept n m (alias x.0) (run o k body) h.0 (run-IsKept k body h.1) u v x.2
    run-IsKept k (operation_statement m a args vars) h u v w =
        let x = >>=-eq-some (eval o u a) _ w in
        let vs = >>=-eq-some (look_all o u vars) _ x.2 in
        let es = >>=-eq-some (eval_args o u args) _ vs.2 in
        let m' = >>=-eq-some (perform o u.store m x.0 _) _ es.2 in
        ap (λ y. State.env y n) (sym (some-inj _ _ m'.2))
    run-IsKept k (assignment l e) h u v w =
        let x = >>=-eq-some (eval o u e) (λ x. assign o u l x) w in assign-IsKept l x.0 h u v x.2
    run-IsKept k (return e) h u v w =
        let x = >>=-eq-some (eval o u e) (λ x. some (with_result x u)) w in
        ap (λ y. State.env y n) (sym (some-inj _ _ x.2))
    run-IsKept k (if_else c t e) h u v w =
        let x = >>=-eq-some (eval o u c) (λ x. choose (o.truth x) (run o k t u) (run o k e u)) w in
        choose-IsKept n (o.truth x.0) (run o k t) (run o k e) (run-IsKept k t h.0)
          (run-IsKept k e h.1) u v x.2
    run-IsKept k (while c body) h u v w =
        loop-IsKept n k (λ t. eval o t c >>= λ b. some (o.truth b)) (run o k body)
          (run-IsKept k body h) u v w
    run-IsKept k (sequence ss) h u v w = run_sequence-IsKept k ss h u v w

    pub run_sequence-IsKept :
        (k : ℕ) (ss : Sequence C) → SparesSequence n ss → IsKept n (run_sequence o k ss)
    run_sequence-IsKept k done h = λ u v w. ap (λ y. State.env y n) (sym (some-inj _ _ w))
    run_sequence-IsKept k (next s ss) h =
        bind-IsKept n (run o k s) (run_sequence o k ss) (run-IsKept k s h.0)
          (run_sequence-IsKept k ss h.1)
