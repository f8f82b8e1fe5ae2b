-- ===== src/Flatten/Meaning/Flattened.antt =====
-- Laws of flatten_exprs and of the whole pass, and the runs of a tree
-- (transactions/mtl/flatten_expressions.hpp).
use mix_t.Base.{
  ◌≢◌, inl, inr, ℕ, zero, suc, Bool, true, false, some, >>=-eq-some, some-inj, ◌≡◌, refl, sym, ap,
  ◌∙◌, String, List,
}
use mix_t.Split.Named.{next_char}
use mix_t.Flatten.Tree.{
  Name, anorm, remote_bound_tmp, while_name, Expression, operation, Args, Statement, let_in,
  let_remote, operation_statement, assignment, return, if_else, while, sequence, Sequence, done,
  next, is_var_reference,
}
use mix_t.Flatten.FlattenExprs.{
  is_flat, flatten_operation, flatten_sequence, flatten_step, flatten_exprs,
}
use mix_t.Flatten.DesugarWhile.{desugar_while, desugar_sequence, flatten_expressions}
use mix_t.Flatten.Meaning.{Objects, run}
use mix_t.Flatten.Meaning.Fresh.{while_name-IsOlder, true_name-IsOlder, false_name-IsOlder}
use mix_t.Flatten.Meaning.Scope.{Names, NamesOfStatement, NamesOfSequence, IsOlder, Names-mono}
use mix_t.Flatten.Meaning.CallChains.{flatten_operation-run}
use mix_t.Flatten.Meaning.Helpers.{LoopsOnVariables, LoopsOnVariablesSequence, RunsAs}
use mix_t.Flatten.Meaning.Overloads.{
  KeepsRuns, flatten_let-RunsAs, flatten_let_remote-RunsAs, flatten_while-RunsAs,
  flatten_return-RunsAs, flatten_assignment-RunsAs, flatten_if-RunsAs, flatten_sequence-run,
}

module _ {C V M : Type 0} (o : Objects V M) (k : ℕ) where
  flatten_operation-RunsAs :
      (b : Bool) (fuel seqnum depth : ℕ) (n : String) (x : Expression C) (args : Args C)
      (vars : List Name)
      → Names (IsOlder seqnum depth) (operation n x args vars)
      → RunsAs o k
          (operation_statement n x args vars)
          (flatten_operation (flatten_exprs fuel) seqnum depth b n x args vars)
  flatten_operation-RunsAs true fuel seqnum depth n x args vars m t h =
      ap (run o k) (sym (some-inj _ _ h))
  flatten_operation-RunsAs false fuel seqnum depth n x args vars m t h =
      flatten_operation-run o k fuel seqnum depth n x args vars t h m

  flatten_step-RunsAs :
      (fuel : ℕ)
      → KeepsRuns {C = C} o k (flatten_exprs fuel)
      → KeepsRuns {C = C} o k (flatten_step (flatten_exprs fuel))
  unfolding run
  flatten_step-RunsAs fuel ih seqnum depth (let_in n e body) m v t h =
      flatten_let-RunsAs o k (flatten_exprs fuel) ih seqnum depth (is_flat e) n e body refl m v t h
  flatten_step-RunsAs fuel ih seqnum depth (let_remote n e body) m v t h =
      flatten_let_remote-RunsAs o k (flatten_exprs fuel) ih seqnum depth (is_var_reference e) n e
        body refl m v t h
  flatten_step-RunsAs fuel ih seqnum depth (operation_statement n x args vars) m v t h =
      flatten_operation-RunsAs (is_flat (operation n x args vars)) fuel seqnum depth n x args vars m
        t h
  flatten_step-RunsAs fuel ih seqnum depth (assignment l e) m v t h =
      flatten_assignment-RunsAs o k (flatten_exprs fuel) ih seqnum depth (is_var_reference e) l e
        refl m t h
  flatten_step-RunsAs fuel ih seqnum depth (return e) m v t h =
      flatten_return-RunsAs o k (flatten_exprs fuel) ih seqnum depth (is_var_reference e) e refl m t
        h
  flatten_step-RunsAs fuel ih seqnum depth (if_else c a b) m v t h =
      flatten_if-RunsAs o k (flatten_exprs fuel) ih seqnum depth (is_var_reference c) c a b refl m v
        t h
  flatten_step-RunsAs fuel ih seqnum depth (while c body) m v t h =
      flatten_while-RunsAs o k (flatten_exprs fuel) ih seqnum depth (is_var_reference c) c body refl
        m v t h
  flatten_step-RunsAs fuel ih seqnum depth (sequence ss) m v t h =
      let r = >>=-eq-some (flatten_sequence (flatten_exprs fuel) seqnum depth ss) _ h in
      ap (run o k) (sym (some-inj _ _ r.2))
      ∙ flatten_sequence-run o k (flatten_exprs fuel) ih seqnum depth ss r.0 m v r.1

  -- flatten_exprs keeps what a tree does, where its generated names come from earlier positions and
  -- its loops are on variables.
  pub flatten_exprs-run : (fuel : ℕ) → KeepsRuns {C = C} o k (flatten_exprs fuel)
  unfolding flatten_exprs
  flatten_exprs-run zero seqnum depth s m v t h = cc
  flatten_exprs-run (suc fuel) seqnum depth s m v t h =
      flatten_step-RunsAs fuel (flatten_exprs-run fuel) seqnum depth s m v t h

-- A name that is spelled like none that the pass generates: nothing in the source keeps a program
-- from declaring anorm11, which is anorm at the characters 49 and 49.
abbrev pub IsDeclared : Name → Type 0
IsDeclared n = (q d : ℕ) → (n ≢ anorm q d) × (n ≢ remote_bound_tmp q d) × (n ≢ while_name q d)

declared-IsOlder : (seqnum depth : ℕ) (n : Name) → IsDeclared n → IsOlder seqnum depth n
declared-IsOlder seqnum depth n h q d (inl e) = absurd ((h q d).0 e)
declared-IsOlder seqnum depth n h q d (inr e) = absurd ((h q d).1 e)

module _ {C : Type 0} where
  Names-IsOlder : (e : Expression C) → Names IsDeclared e → Names (IsOlder 1 1) e
  Names-IsOlder e h = Names-mono IsDeclared (IsOlder 1 1) (declared-IsOlder 1 1) e h

  operation-IsOlder :
      (n : String) (x : Expression C) (args : Args C) (vars : List Name)
      → Names IsDeclared (operation n x args vars)
      → Names (IsOlder 1 1) (operation n x args vars)
  operation-IsOlder n x args vars h = Names-IsOlder (operation n x args vars) h

  mutual
    unfolding desugar_while desugar_sequence

    -- Desugaring generates no name of flattening, and leaves loops on variables only.
    pub desugar_while_shape :
        (seqnum depth : ℕ) (s t : Statement C)
        → NamesOfStatement IsDeclared s
        → desugar_while seqnum depth s ≡ some t
        → NamesOfStatement (IsOlder 1 1) t × LoopsOnVariables t
    desugar_while_shape seqnum depth (let_in n e body) t m h =
        let d = >>=-eq-some (next_char depth) _ h in
        let b = >>=-eq-some (desugar_while seqnum d.0 body) _ d.2 in
        let r = desugar_while_shape seqnum d.0 body b.0 m.2 b.1 in
        rw (sym (some-inj _ _ b.2)) ((declared-IsOlder 1 1 n m.0, Names-IsOlder e m.1, r.0), r.1)
    desugar_while_shape seqnum depth (let_remote n e body) t m h =
        let d = >>=-eq-some (next_char depth) _ h in
        let b = >>=-eq-some (desugar_while seqnum d.0 body) _ d.2 in
        let r = desugar_while_shape seqnum d.0 body b.0 m.2 b.1 in
        rw (sym (some-inj _ _ b.2)) ((declared-IsOlder 1 1 n m.0, Names-IsOlder e m.1, r.0), r.1)
    desugar_while_shape seqnum depth (operation_statement n x args vars) t m h =
        rw (sym (some-inj _ _ h)) (operation-IsOlder n x args vars m, tt)
    desugar_while_shape seqnum depth (assignment l e) t m h =
        rw (sym (some-inj _ _ h)) ((Names-IsOlder l m.0, Names-IsOlder e m.1), tt)
    desugar_while_shape seqnum depth (return e) t m h =
        rw (sym (some-inj _ _ h)) (Names-IsOlder e m, tt)
    desugar_while_shape seqnum depth (if_else c a b) t m h =
        let d = >>=-eq-some (next_char depth) _ h in
        let a' = >>=-eq-some (desugar_while seqnum d.0 a) _ d.2 in
        let q = >>=-eq-some (next_char seqnum) _ a'.2 in
        let b' = >>=-eq-some (desugar_while q.0 d.0 b) _ q.2 in
        let x = desugar_while_shape seqnum d.0 a a'.0 m.1 a'.1 in
        let y = desugar_while_shape q.0 d.0 b b'.0 m.2 b'.1 in
        rw (sym (some-inj _ _ b'.2)) ((Names-IsOlder c m.0, x.0, y.0), (x.1, y.1))
    desugar_while_shape seqnum depth (while c body) t m h =
        let d = >>=-eq-some (next_char depth) _ h in
        let b = >>=-eq-some (desugar_while seqnum d.0 body) _ d.2 in
        let r = desugar_while_shape seqnum d.0 body b.0 m.1 b.1 in
        rw (sym (some-inj _ _ b.2)) (
          (
            while_name-IsOlder seqnum depth 1 1,
            true_name-IsOlder 1 1,
            (
              while_name-IsOlder seqnum depth 1 1,
              (
                Names-IsOlder c m.0,
                r.0,
                (while_name-IsOlder seqnum depth 1 1, false_name-IsOlder 1 1),
              ),
            ),
          ),
          (refl, (r.1, tt)),
        )
    desugar_while_shape seqnum depth (sequence ss) t m h =
        let r = >>=-eq-some (desugar_sequence seqnum depth ss) _ h in
        rw (sym (some-inj _ _ r.2)) (desugar_sequence_shape seqnum depth ss r.0 m r.1)

    pub desugar_sequence_shape :
        (seqnum depth : ℕ) (ss ts : Sequence C)
        → NamesOfSequence IsDeclared ss
        → desugar_sequence seqnum depth ss ≡ some ts
        → NamesOfSequence (IsOlder 1 1) ts × LoopsOnVariablesSequence ts
    desugar_sequence_shape seqnum depth done ts m h = rw (sym (some-inj _ _ h)) (tt, tt)
    desugar_sequence_shape seqnum depth (next s ss) ts m h =
        let s' = >>=-eq-some (desugar_while seqnum depth s) _ h in
        let q = >>=-eq-some (next_char seqnum) _ s'.2 in
        let ss' = >>=-eq-some (desugar_sequence q.0 depth ss) _ q.2 in
        let x = desugar_while_shape seqnum depth s s'.0 m.0 s'.1 in
        let y = desugar_sequence_shape q.0 depth ss ss'.0 m.1 ss'.1 in
        rw (sym (some-inj _ _ ss'.2)) ((x.0, y.0), (x.1, y.1))

  -- A program whose names are all its own is flattened to a tree that runs as the desugared program
  -- does, from every state, whatever the objects and the operations are, and however many rounds
  -- the loops have.
  pub flatten_expressions-run :
      {V M : Type 0} (o : Objects V M) (k fuel : ℕ) (s d t : Statement C)
      → NamesOfStatement IsDeclared s
      → desugar_while 1 1 s ≡ some d
      → flatten_expressions fuel s ≡ some t
      → run o k t ≡ run o k d
  unfolding flatten_expressions
  flatten_expressions-run o k fuel s d t m e h =
      let r = desugar_while_shape 1 1 s d m e in
      flatten_exprs-run o k fuel 1 1 d r.0 r.1 t (rw e at h)
