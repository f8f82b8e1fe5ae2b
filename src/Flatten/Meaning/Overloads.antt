-- ===== src/Flatten/Meaning/Overloads.antt =====
-- Laws of the overloads of _flatten_exprs and the runs of a tree
-- (transactions/mtl/flatten_expressions.hpp).
use mix_t.Base.{
  ℕ, ◌+◌, Bool, true, false, Option, some, ◌>>=◌, >>=-eq-some, some-inj, ◌≡◌, refl, sym, ap, ap₂,
  ◌∙◌,
}
use mathlib.Core.Path.{fun_ext}
use mix_t.Split.Named.{next_char}
use mix_t.Flatten.Tree.{
  Name, Expression, Statement, let_in, let_remote, assignment, return, if_else, while, Sequence,
  done, next, is_var_reference, contains_fieldpointer_ref,
}
use mix_t.Flatten.FlattenExprs.{
  is_flat, flatten_let, flatten_let_remote, flatten_target, flatten_assignment, flatten_return,
  flatten_while, flatten_if, flatten_sequence,
}
use mix_t.Flatten.Room.Fits.{no_variable, no_variable_target}
use mix_t.Flatten.Meaning.{
  Objects, copy, alias, scoped, choose, loop, eval, assign, run, run_sequence, with_result,
}
use mix_t.Flatten.Meaning.Scope.{
  Names, NamesOfStatement, NamesOfSequence, IsOlder, Names-mono, NamesOfStatement-mono,
  NamesOfSequence-mono,
}
use mix_t.Flatten.Meaning.Fresh.{later_depth, later_seqnum}
use mix_t.Flatten.Meaning.Layers.{bind_none}
use mix_t.Flatten.Meaning.Targets.{Hoists-assign, Hoists-assign_strict}
use mix_t.Flatten.Meaning.Steps.{next_char-eq-some}
use mix_t.Flatten.Meaning.Helpers.{
  LoopsOnVariables, LoopsOnVariablesSequence, RunsAs, helper-RunsAs, first-RunsAs, around-RunsAs,
}

module _ {C V M : Type 0} (o : Objects V M) (k : ℕ) where
  -- flatten_exprs on less fuel, at every position.
  abbrev pub KeepsRuns : (ℕ → ℕ → Statement C → Option (Statement C)) → Type 0
  KeepsRuns rec =
      (seqnum depth : ℕ) (s : Statement C)
      → NamesOfStatement (IsOlder seqnum depth) s
      → LoopsOnVariables s
      → RunsAs o k s (rec seqnum depth s)

  module _ (rec : ℕ → ℕ → Statement C → Option (Statement C)) (ih : KeepsRuns rec)
      (seqnum depth : ℕ) where
    deeper_Names :
        (e : Expression C) → Names (IsOlder seqnum depth) e → Names (IsOlder seqnum (depth + 1)) e
    deeper_Names e n =
        Names-mono (IsOlder seqnum depth) (IsOlder seqnum (depth + 1)) (later_depth seqnum depth) e
          n

    deeper_NamesOfStatement :
        (s : Statement C)
        → NamesOfStatement (IsOlder seqnum depth) s
        → NamesOfStatement (IsOlder seqnum (depth + 1)) s
    deeper_NamesOfStatement s n =
        NamesOfStatement-mono (IsOlder seqnum depth) (IsOlder seqnum (depth + 1))
          (later_depth seqnum depth) s n

    pub flatten_let-RunsAs :
        (b : Bool) (n : Name) (e : Expression C) (body : Statement C)
        → is_flat e ≡ b
        → NamesOfStatement (IsOlder seqnum depth) (let_in n e body)
        → LoopsOnVariables body
        → RunsAs o k (let_in n e body) (flatten_let rec seqnum depth b n e body)
    unfolding run
    flatten_let-RunsAs true n e body w m v =
        around-RunsAs o k rec ih seqnum depth (let_in n e)
          (λ s t q. ap (λ f u. eval o u e >>= λ x. scoped n (copy x) f u) q) body m.2 v
    flatten_let-RunsAs false n e body w m v =
        first-RunsAs o k rec ih seqnum depth (λ new. let_in n new body) e
          (λ x u. scoped n (copy x) (run o k body) u) (λ e' u. refl) (no_variable e w) m m.1
          (λ e' p. (later_depth seqnum depth n m.0, p, deeper_NamesOfStatement body m.2)) (λ e'. v)

    pub flatten_let_remote-RunsAs :
        (b : Bool) (n : Name) (e : Expression C) (body : Statement C)
        → is_var_reference e ≡ b
        → NamesOfStatement (IsOlder seqnum depth) (let_remote n e body)
        → LoopsOnVariables body
        → RunsAs o k (let_remote n e body) (flatten_let_remote rec seqnum depth b n e body)
    unfolding run
    flatten_let_remote-RunsAs true n e body w m v =
        around-RunsAs o k rec ih seqnum depth (let_remote n e)
          (λ s t q. ap (λ f u. eval o u e >>= λ x. scoped n (alias x) f u) q) body m.2 v
    flatten_let_remote-RunsAs false n e body w m v =
        first-RunsAs o k rec ih seqnum depth (λ new. let_remote n new body) e
          (λ x u. scoped n (alias x) (run o k body) u) (λ e' u. refl) w m m.1
          (λ e' p. (later_depth seqnum depth n m.0, p, deeper_NamesOfStatement body m.2)) (λ e'. v)

    pub flatten_while-RunsAs :
        (b : Bool) (c : Expression C) (body : Statement C)
        → is_var_reference c ≡ b
        → NamesOfStatement (IsOlder seqnum depth) (while c body)
        → LoopsOnVariables (while c body)
        → RunsAs o k (while c body) (flatten_while rec seqnum depth b c body)
    unfolding run
    flatten_while-RunsAs true c body w m v =
        around-RunsAs o k rec ih seqnum depth (while c)
          (λ s t q. ap (λ f. loop k (λ u. eval o u c >>= λ b. some (o.truth b)) f) q) body m.1 v.1
    flatten_while-RunsAs false c body w m v = let (p, _) = v in cc

    pub flatten_return-RunsAs :
        (b : Bool) (e : Expression C)
        → is_var_reference e ≡ b
        → NamesOfStatement (IsOlder seqnum depth) (return e)
        → RunsAs o k (return e) (flatten_return rec seqnum depth b e)
    unfolding run
    flatten_return-RunsAs true e w m t h = ap (run o k) (sym (some-inj _ _ h))
    flatten_return-RunsAs false e w m t h =
        first-RunsAs o k rec ih seqnum depth (λ new. return new) e (λ x u. some (with_result x u))
          (λ e' u. refl) w m m (λ e' p. p) (λ e'. tt) t h

    pub flatten_target-RunsAs :
        (b : Bool) (l e : Expression C)
        → contains_fieldpointer_ref l ≡ some b
        → NamesOfStatement (IsOlder seqnum depth) (assignment l e)
        → RunsAs o k (assignment l e) (flatten_target rec seqnum depth b l e)
    unfolding run
    flatten_target-RunsAs false l e w m t h = ap (run o k) (sym (some-inj _ _ h))
    flatten_target-RunsAs true l e w m t h =
        helper-RunsAs o k rec ih seqnum depth (λ new. assignment new e) l (no_variable_target l w) m
          m.0 (λ l' p. (p, deeper_Names e m.1)) (λ l'. tt)
          (λ u y l' x p q r.
            ap (λ f. eval o u e >>= f)
              (fun_ext (λ v. Hoists-assign o seqnum depth u l y l' x v w p q r)))
          (λ u y l' q r.
            bind_none (eval o u e) _ (λ v. Hoists-assign_strict o seqnum depth u l y l' v w q r))
          t h

    pub flatten_assignment-RunsAs :
        (b : Bool) (l e : Expression C)
        → is_var_reference e ≡ b
        → NamesOfStatement (IsOlder seqnum depth) (assignment l e)
        → RunsAs o k (assignment l e) (flatten_assignment rec seqnum depth b l e)
    unfolding run
    flatten_assignment-RunsAs true l e w m t h =
        let b =
          >>=-eq-some (contains_fieldpointer_ref l) (λ b. flatten_target rec seqnum depth b l e)
            h in
        flatten_target-RunsAs b.0 l e b.1 m t b.2
    flatten_assignment-RunsAs false l e w m t h =
        first-RunsAs o k rec ih seqnum depth (λ new. assignment l new) e (λ x u. assign o u l x)
          (λ e' u. refl) w m m.1 (λ e' p. (deeper_Names l m.0, p)) (λ e'. tt) t h

    pub flatten_if-RunsAs :
        (b : Bool) (c : Expression C) (t e : Statement C)
        → is_var_reference c ≡ b
        → NamesOfStatement (IsOlder seqnum depth) (if_else c t e)
        → LoopsOnVariables (if_else c t e)
        → RunsAs o k (if_else c t e) (flatten_if rec seqnum depth b c t e)
    unfolding run
    flatten_if-RunsAs true c t e w m v s h =
        let d = >>=-eq-some (next_char depth) _ h in
        let t' = >>=-eq-some (rec seqnum d.0 t) _ d.2 in
        let q = >>=-eq-some (next_char seqnum) _ t'.2 in
        let e' = >>=-eq-some (rec q.0 d.0 e) _ q.2 in
        let a =
          ih seqnum (depth + 1) t (deeper_NamesOfStatement t m.1) v.0 t'.0
            (rw (next_char-eq-some depth d.0 d.1) t'.1) in
        let b =
          ih (seqnum + 1) (depth + 1) e
            (NamesOfStatement-mono (IsOlder seqnum (depth + 1)) (IsOlder (seqnum + 1) (depth + 1))
              (later_seqnum seqnum (depth + 1)) e (deeper_NamesOfStatement e m.2))
            v.1 e'.0
            (rw (next_char-eq-some depth d.0 d.1, next_char-eq-some seqnum q.0 q.1) e'.1) in
        ap (run o k) (sym (some-inj _ _ e'.2))
        ∙ ap₂ (λ f g u. eval o u c >>= λ x. choose (o.truth x) (f u) (g u)) a b
    flatten_if-RunsAs false c t e w m v s h =
        first-RunsAs o k rec ih seqnum depth (λ new. if_else new t e) c
          (λ x u. choose (o.truth x) (run o k t u) (run o k e u)) (λ e' u. refl) w m m.0
          (λ c' p. (p, deeper_NamesOfStatement t m.1, deeper_NamesOfStatement e m.2)) (λ c'. v) s h

  module _ (rec : ℕ → ℕ → Statement C → Option (Statement C)) (ih : KeepsRuns rec) where
    pub flatten_sequence-run :
        (seqnum depth : ℕ) (ss ts : Sequence C)
        → NamesOfSequence (IsOlder seqnum depth) ss
        → LoopsOnVariablesSequence ss
        → flatten_sequence rec seqnum depth ss ≡ some ts
        → run_sequence o k ts ≡ run_sequence o k ss
    unfolding run_sequence
    flatten_sequence-run seqnum depth done ts m v h = ap (run_sequence o k) (sym (some-inj _ _ h))
    flatten_sequence-run seqnum depth (next s ss) ts m v h =
        let s' = >>=-eq-some (rec seqnum depth s) _ h in
        let q = >>=-eq-some (next_char seqnum) _ s'.2 in
        let ss' = >>=-eq-some (flatten_sequence rec q.0 depth ss) _ q.2 in
        ap (run_sequence o k) (sym (some-inj _ _ ss'.2))
        ∙ ap₂ (λ f g u. f u >>= λ u'. g u') (ih seqnum depth s m.0 v.0 s'.0 s'.1)
            (flatten_sequence-run (seqnum + 1) depth ss ss'.0
              (NamesOfSequence-mono (IsOlder seqnum depth) (IsOlder (seqnum + 1) depth)
                (later_seqnum seqnum depth) ss m.1)
              v.1 (rw (next_char-eq-some seqnum q.0 q.1) ss'.1))
