-- ===== src/Flatten/Meaning/Source.antt =====
-- Laws of desugar_while and of the whole pass, and the runs of a program
-- (transactions/mtl/flatten_expressions.hpp).
use mix_t.Base.{ℕ, suc, Bool, true, false, Option, some, >>=-eq-some, some-inj, ◌≡◌, ◌≢◌, sym}
use mix_t.Split.Named.{next_char}
use mix_t.Flatten.Tree.{
  Name, true_name, false_name, Statement, let_in, let_remote, operation_statement, assignment,
  return, if_else, while, sequence, Sequence, done, next,
}
use mix_t.Flatten.DesugarWhile.{desugar_while, desugar_sequence, flatten_expressions}
use mix_t.Flatten.Meaning.{
  Objects, Slot, copy, alias, State, put, scoped, choose, eval, run, run_sequence,
}
use mix_t.Flatten.Meaning.Scope.{NamesOfStatement, NamesOfSequence}
use mix_t.Flatten.Meaning.Untouched.{SparesSequence}
use mix_t.Flatten.Meaning.Flattened.{IsDeclared, flatten_expressions-run}
use mix_t.Flatten.Meaning.Loops.{
  SparesTruth, HasTruth, DoesAs, put-HasTruth, run-HasTruth, loop_on-DoesAs,
}

module _ {V M : Type 0} (o : Objects V M) where
  scoped-DoesAs :
      (n : Name) (x : Slot V) (f g : State V M → Option (State V M))
      → true_name ≢ n
      → false_name ≢ n
      → DoesAs o f g
      → DoesAs o (scoped n x f) (scoped n x g)
  scoped-DoesAs n x f g p q h u v t e =
      let r = >>=-eq-some (f (put n (some x) u)) (λ s. some (put n (u.env n) s)) e in
      rw (h (put n (some x) u) r.0 (put-HasTruth o n (some x) u p q t) r.1) r.2

  choose-DoesAs :
      (b : Bool) (f g f' g' : State V M → Option (State V M))
      → DoesAs o f f'
      → DoesAs o g g'
      → DoesAs o (λ u. choose b (f u) (g u)) (λ u. choose b (f' u) (g' u))
  choose-DoesAs true f g f' g' h i = h
  choose-DoesAs false f g f' g' h i = i

module _ {C V M : Type 0} (o : Objects V M) (k : ℕ) where
  mutual
    unfolding run run_sequence desugar_while desugar_sequence

    desugar_while-DoesAs :
        (seqnum depth : ℕ) (s t : Statement C)
        → NamesOfStatement IsDeclared s
        → SparesTruth s
        → desugar_while seqnum depth s ≡ some t
        → DoesAs o (run o k s) (run o (suc k) t)
    desugar_while-DoesAs seqnum depth (let_in n e body) t m h w u v i j =
        let d = >>=-eq-some (next_char depth) _ w in
        let b = >>=-eq-some (desugar_while seqnum d.0 body) _ d.2 in
        let ih = desugar_while-DoesAs seqnum d.0 body b.0 m.2 (h.0.1, h.1.1) b.1 in
        let x = >>=-eq-some (eval o u e) (λ x. scoped n (copy x) (run o k body) u) j in
        rw (sym (some-inj _ _ b.2), x.1)
          (scoped-DoesAs o n (copy x.0) (run o k body) (run o (suc k) b.0) h.0.0 h.1.0 ih u v i x.2)
    desugar_while-DoesAs seqnum depth (let_remote n e body) t m h w u v i j =
        let d = >>=-eq-some (next_char depth) _ w in
        let b = >>=-eq-some (desugar_while seqnum d.0 body) _ d.2 in
        let ih = desugar_while-DoesAs seqnum d.0 body b.0 m.2 (h.0.1, h.1.1) b.1 in
        let x = >>=-eq-some (eval o u e) (λ x. scoped n (alias x) (run o k body) u) j in
        rw (sym (some-inj _ _ b.2), x.1)
          (scoped-DoesAs o n (alias x.0) (run o k body) (run o (suc k) b.0) h.0.0 h.1.0 ih u v i
            x.2)
    desugar_while-DoesAs seqnum depth (operation_statement n x args vars) t m h w u v i j =
        rw (sym (some-inj _ _ w)) j
    desugar_while-DoesAs seqnum depth (assignment l e) t m h w u v i j = rw (sym (some-inj _ _ w)) j
    desugar_while-DoesAs seqnum depth (return e) t m h w u v i j = rw (sym (some-inj _ _ w)) j
    desugar_while-DoesAs seqnum depth (if_else c a b) t m h w u v i j =
        let d = >>=-eq-some (next_char depth) _ w in
        let a' = >>=-eq-some (desugar_while seqnum d.0 a) _ d.2 in
        let q = >>=-eq-some (next_char seqnum) _ a'.2 in
        let b' = >>=-eq-some (desugar_while q.0 d.0 b) _ q.2 in
        let x = >>=-eq-some (eval o u c) (λ x. choose (o.truth x) (run o k a u) (run o k b u)) j in
        rw (sym (some-inj _ _ b'.2), x.1)
          (choose-DoesAs o (o.truth x.0) (run o k a) (run o k b) (run o (suc k) a'.0)
            (run o (suc k) b'.0) (desugar_while-DoesAs seqnum d.0 a a'.0 m.1 (h.0.0, h.1.0) a'.1)
            (desugar_while-DoesAs q.0 d.0 b b'.0 m.2 (h.0.1, h.1.1) b'.1) u v i x.2)
    desugar_while-DoesAs seqnum depth (while c body) t m h w u v i j =
        let d = >>=-eq-some (next_char depth) _ w in
        let b = >>=-eq-some (desugar_while seqnum d.0 body) _ d.2 in
        rw (sym (some-inj _ _ b.2)) (
          loop_on-DoesAs o k seqnum depth c body b.0 m h
            (desugar_while-DoesAs seqnum d.0 body b.0 m.1 h b.1) u v i j)
    desugar_while-DoesAs seqnum depth (sequence ss) t m h w u v i j =
        let r = >>=-eq-some (desugar_sequence seqnum depth ss) _ w in
        rw (sym (some-inj _ _ r.2))
          (desugar_sequence-DoesAs seqnum depth ss r.0 m h.0 h.1 r.1 u v i j)

    desugar_sequence-DoesAs :
        (seqnum depth : ℕ) (ss ts : Sequence C)
        → NamesOfSequence IsDeclared ss
        → SparesSequence (true_name) ss
        → SparesSequence (false_name) ss
        → desugar_sequence seqnum depth ss ≡ some ts
        → DoesAs o (run_sequence o k ss) (run_sequence o (suc k) ts)
    desugar_sequence-DoesAs seqnum depth done ts m p q w u v i j = rw (sym (some-inj _ _ w)) j
    desugar_sequence-DoesAs seqnum depth (next s ss) ts m p q w u v i j =
        let s' = >>=-eq-some (desugar_while seqnum depth s) _ w in
        let a = >>=-eq-some (next_char seqnum) _ s'.2 in
        let ss' = >>=-eq-some (desugar_sequence a.0 depth ss) _ a.2 in
        let x = >>=-eq-some (run o k s u) (λ x. run_sequence o k ss x) j in
        rw
          (
            sym (some-inj _ _ ss'.2),
            desugar_while-DoesAs seqnum depth s s'.0 m.0 (p.0, q.0) s'.1 u x.0 i x.1,
          )
          (desugar_sequence-DoesAs a.0 depth ss ss'.0 m.1 p.1 q.1 ss'.1 x.0 v
            (run-HasTruth o k s u x.0 (p.0, q.0) x.1 i) x.2)

  -- Where a program runs to an end within `k` rounds of each loop, and the operations that its
  -- expressions apply on the way change no store, the flattened program runs to the same end within
  -- one round more. None of the program's names is spelled like one that flattening generates; the
  -- names true and false hold such values at the start, and the program neither binds nor assigns
  -- them.
  pub flatten_expressions-meaning :
      (fuel : ℕ) (s t : Statement C) (u v : State V M)
      → NamesOfStatement IsDeclared s
      → SparesTruth s
      → HasTruth o u
      → flatten_expressions fuel s ≡ some t
      → run o k s u ≡ some v
      → run o (suc k) t u ≡ some v
  unfolding flatten_expressions
  flatten_expressions-meaning fuel s t u v m h i e r =
      let d = >>=-eq-some (desugar_while 1 1 s) _ e in
      rw (flatten_expressions-run o (suc k) fuel s d.0 t m d.1 e)
        (desugar_while-DoesAs 1 1 s d.0 m h d.1 u v i r)
