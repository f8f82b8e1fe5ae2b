-- ===== src/Flatten/Meaning/Loops.antt =====
-- Laws of the desugared loop and its runs (transactions/mtl/flatten_expressions.hpp).
use mix_t.Base.{
  ℕ, zero, suc, Bool, true, false, Bool-cases, inl, inr, Option, some, ◌>>=◌, >>=-eq-some, some-inj,
  ◌≡◌, ◌≢◌, refl, sym, ap, ◌∙◌,
}
use mix_t.Flatten.Tree.{
  Name, true_name, false_name, while_name, Expression, var_reference, Statement, assignment,
  if_else, while,
}
use mix_t.Flatten.DesugarWhile.{loop_on}
use mix_t.Flatten.Meaning.{Objects, Slot, copy, State, put, choose, loop, eval, assign, run}
use mix_t.Flatten.Meaning.Scope.{NamesOfStatement, NamesOfStatement-mono, Avoids}
use mix_t.Flatten.Meaning.Weakening.{put_twice, put_same, env_put, env_put_other, eval-put}
use mix_t.Flatten.Meaning.RunWeakening.{keep, run-put}
use mix_t.Flatten.Meaning.Untouched.{Spares, run-IsKept}
use mix_t.Flatten.Meaning.Flattened.{IsDeclared}

-- The names that the desugared loop reads.
abbrev pub SparesTruth : {C : Type 0} → Statement C → Type 0
SparesTruth s = Spares (true_name) s × Spares (false_name) s

declared-Avoids : (q d : ℕ) (n : Name) → IsDeclared n → Avoids (while_name q d) n
declared-Avoids q d n h e = (h q d).2 e

module _ {V M : Type 0} (o : Objects V M) where
  -- The two names hold copies of values that conditions take as true and as false.
  abbrev pub HasTruth : State V M → Type 0
  HasTruth u =
      (t : V) × (f : V) × (u.env (true_name) ≡ some (copy t))
      × (u.env (false_name) ≡ some (copy f))
      × (o.truth t ≡ true)
      × (o.truth f ≡ false)

  same-HasTruth :
      (u v : State V M)
      → v.env (true_name) ≡ u.env (true_name)
      → v.env (false_name) ≡ u.env (false_name)
      → HasTruth u
      → HasTruth v
  same-HasTruth u v p q h = (h.0, h.1, p ∙ h.2, q ∙ h.3, h.4, h.5)

  pub put-HasTruth :
      (n : Name) (x : Option (Slot V)) (u : State V M)
      → true_name ≢ n
      → false_name ≢ n
      → HasTruth u
      → HasTruth (put n x u)
  put-HasTruth n x u p q =
      same-HasTruth u (put n x u) (env_put_other n (true_name) x u p)
        (env_put_other n (false_name) x u q)

module _ {V M : Type 0} (o : Objects V M) where
  -- Where the first comes to an end, the second comes to the same end.
  abbrev pub DoesAs : (State V M → Option (State V M)) → (State V M → Option (State V M)) → Type 0
  DoesAs f g = (u v : State V M) → HasTruth o u → f u ≡ some v → g u ≡ some v

module _ {C V M : Type 0} (o : Objects V M) (k : ℕ) where
  pub run-HasTruth :
      (s : Statement C) (u v : State V M)
      → SparesTruth s
      → run o k s u ≡ some v
      → HasTruth o u
      → HasTruth o v
  run-HasTruth s u v h e =
      same-HasTruth o u v (run-IsKept o (true_name) k s h.0 u v e)
        (run-IsKept o (false_name) k s h.1 u v e)

  module _ (seqnum depth : ℕ) (c : Expression C) (body body' : Statement C)
      (m : NamesOfStatement IsDeclared (while c body)) (h : SparesTruth body)
      (ih : DoesAs o (run o k body) (run o (suc k) body')) where
    abbrev w : Name
    w = while_name seqnum depth

    abbrev round : State V M → Option (State V M)
    round =
        run o (suc k) (if_else c body' (assignment (var_reference w) (var_reference (false_name))))

    abbrev at : V → State V M → State V M
    at x u = put w (some (copy x)) u

    while-Avoids : NamesOfStatement (Avoids w) (while c body)
    while-Avoids =
        NamesOfStatement-mono IsDeclared (Avoids w) (declared-Avoids seqnum depth) (while c body) m

    at-HasTruth : (x : V) (u : State V M) → HasTruth o u → HasTruth o (at x u)
    at-HasTruth x u = put-HasTruth o w (some (copy x)) u (λ e. cc) (λ e. cc)

    round-true :
        (u u' : State V M) (x b : V)
        → HasTruth o u
        → eval o u c ≡ some b
        → o.truth b ≡ true
        → run o k body u ≡ some u'
        → round (at x u) ≡ some (at x u')
    unfolding run
    round-true u u' x b t e f r =
        rw (eval-put o w (some (copy x)) u c while-Avoids.0, e, f)
          (ih (at x u) (at x u') (at-HasTruth x u t)
            (rw (run-put o w (some (copy x)) k body while-Avoids.1 u, r) refl))

    round-false :
        (u : State V M) (x b : V) (t : HasTruth o u)
        → eval o u c ≡ some b
        → o.truth b ≡ false
        → round (at x u) ≡ some (at t.1 u)
    unfolding run eval assign at-HasTruth put-HasTruth same-HasTruth
    round-false u x b t e f =
        rw
          (
            eval-put o w (some (copy x)) u c while-Avoids.0,
            e,
            f,
            (at-HasTruth x u t).3,
            env_put w (some (copy x)) u,
          )
          (ap some (put_twice w (some (copy t.1)) (some (copy x)) u))

    abbrev test : Expression C → State V M → Option Bool
    test e t = eval o t e >>= λ b. some (o.truth b)

    -- As many rounds and one more, in which the loop's variable becomes false.
    rounds :
        (n : ℕ) (u v : State V M) (x : V)
        → HasTruth o u
        → o.truth x ≡ true
        → loop n (test c) (run o k body) u ≡ some v
        → (y : V) × (loop (suc n) (test (var_reference w)) round (at x u) ≡ some (at y v))
    unfolding eval
    rounds zero u v x t f e = cc
    rounds (suc n) u v x t f e =
        let b =
          >>=-eq-some (test c u)
            (λ b. choose b (run o k body u >>= λ s. loop n (test c) (run o k body) s) (some u)) e in
        let a = >>=-eq-some (eval o u c) (λ b. some (o.truth b)) b.1 in
        let q = some-inj _ _ a.2 in
        elim (Bool-cases (o.truth a.0)) [
          | inl g ↦
              let r =
                >>=-eq-some (run o k body u) (λ s. loop n (test c) (run o k body) s)
                  (rw (sym q, g) at b.2) in
              let ih' = rounds n r.0 v x (run-HasTruth body u r.0 h r.1 t) f r.2 in
              (ih'.0, rw (env_put w (some (copy x)) u, f, round-true u r.0 x a.0 t a.1 g r.1) ih'.1)
          | inr g ↦ (
            t.1,
            rw
                (
                  env_put w (some (copy x)) u,
                  f,
                  round-false u x a.0 t a.1 g,
                  env_put w (some (copy t.1)) u,
                  t.5,
                )
                (ap (λ y. some (at t.1 y)) (some-inj _ _ (rw (sym q, g) at b.2))),
          )
        ]

    -- The desugared loop does as the loop.
    pub loop_on-DoesAs : DoesAs o (run o k (while c body)) (run o (suc k) (loop_on w c body'))
    unfolding run eval
    loop_on-DoesAs u v t e =
        let r = rounds k u v t.0 t t.4 e in
        let kept = some-inj _ _ (
          sym e
          ∙ ap (run o k (while c body)) (sym (put_same w u))
          ∙ run-put o w (u.env w) k (while c body) while-Avoids u
          ∙ ap (keep w (u.env w)) e) in
        rw (t.2, r.1) (ap some (put_twice w (u.env w) (some (copy r.0)) v ∙ sym kept))
