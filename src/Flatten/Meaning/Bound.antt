-- ===== src/Flatten/Meaning/Bound.antt =====
-- Laws of a run of a statement with a layer in front of it
-- (transactions/mtl/flatten_expressions.hpp).
use mix_t.Base.{ℕ, Option, none, some, ◌>>=◌, ◌≡◌, refl, sym, ap, ◌∙◌}
use mix_t.Flatten.Tree.{Name, Statement}
use mix_t.Flatten.Hoisting.{Layer, value, remote, layer_name, bind_layer}
use mix_t.Flatten.Meaning.{Objects, Slot, copy, alias, State, put, scoped, eval, run}
use mix_t.Flatten.Meaning.Scope.{NamesOfLayer, NamesOfStatement, Avoids}
use mix_t.Flatten.Meaning.Weakening.{put_twice, put_same, env_put, eval-put}
use mix_t.Flatten.Meaning.RunWeakening.{keep, IsIndependent, run-put}
use mix_t.Flatten.Meaning.Layers.{layer_slot}

module _ {V M : Type 0} (g : Name) where
  -- What a name stands for is the same after a run that leaves the name alone.
  scoped_independent :
      (x : Slot V) (f : State V M → Option (State V M)) (s : State V M)
      → ((y : Option (Slot V)) → IsIndependent g y f)
      → scoped g x f s ≡ f s
  scoped_independent x f s h =
      rw (h (some x) s) (twice (f s)) ∙ sym (h (s.env g) s) ∙ ap f (put_same g s)
    where
      twice :
          (m : Option (State V M))
          → (keep g (some x) m >>= λ t. some (put g (s.env g) t)) ≡ keep g (s.env g) m
      twice none = refl
      twice (some t) = ap some (put_twice g (s.env g) (some x) t)

module _ {C V M : Type 0} (o : Objects V M) (seqnum depth : ℕ) where
  -- A run `f'` in the scope of a layer, as the run `f` that it does the same as there.
  pub bound_run :
      (l : Layer C) (f' f : State V M → Option (State V M)) (s : State V M)
      → NamesOfLayer (Avoids (layer_name seqnum depth l)) l
      → ((y : Option (Slot V)) → IsIndependent (layer_name seqnum depth l) y f)
      → ((t : State V M) (x : Slot V)
          → t.env (layer_name seqnum depth l) ≡ some x
          → layer_slot o t l ≡ some x
          → f' t ≡ f t)
      → ((t : State V M) → layer_slot o t l ≡ none → f t ≡ none)
      → (layer_slot o s l >>= λ x. scoped (layer_name seqnum depth l) x f' s) ≡ f s
  bound_run l f' f s n i same strict = at_slot (layer_slot o s l) refl
    where
      slot_put :
          (l : Layer C) (g : Name) (y : Option (Slot V))
          → NamesOfLayer (Avoids g) l
          → layer_slot o (put g y s) l ≡ layer_slot o s l
      slot_put (value e) g y n = rw (eval-put o g y s e n) refl
      slot_put (remote e) g y n = rw (eval-put o g y s e n) refl

      at_slot :
          (m : Option (Slot V))
          → layer_slot o s l ≡ m
          → (m >>= λ x. scoped (layer_name seqnum depth l) x f' s) ≡ f s
      at_slot none h = sym (strict s h)
      at_slot (some x) h =
          ap
            (λ m. m >>= λ t.
              some (put (layer_name seqnum depth l) (s.env (layer_name seqnum depth l)) t))
            (same (put (layer_name seqnum depth l) (some x) s) x
              (env_put (layer_name seqnum depth l) (some x) s)
              (slot_put l (layer_name seqnum depth l) (some x) n ∙ h))
          ∙ scoped_independent (layer_name seqnum depth l) x f s i

  run-bind_layer :
      (k : ℕ) (l : Layer C) (t : Statement C) (s : State V M)
      → run o k (bind_layer seqnum depth l t) s
        ≡ (layer_slot o s l >>= λ x. scoped (layer_name seqnum depth l) x (run o k t) s)
  unfolding run
  run-bind_layer k (value e) t s = at_value (eval o s e)
    where
      at_value :
          (m : Option V)
          → (m >>= λ v. scoped (layer_name seqnum depth (value e)) (copy v) (run o k t) s) ≡ (
              (m >>= λ v. some (copy v)) >>= λ x.
              scoped (layer_name seqnum depth (value e)) x (run o k t) s)
      at_value none = refl
      at_value (some v) = refl
  run-bind_layer k (remote e) t s = at_value (eval o s e)
    where
      at_value :
          (m : Option V)
          → (m >>= λ v. scoped (layer_name seqnum depth (remote e)) (alias v) (run o k t) s) ≡ (
              (m >>= λ v. some (alias v)) >>= λ x.
              scoped (layer_name seqnum depth (remote e)) x (run o k t) s)
      at_value none = refl
      at_value (some v) = refl

  -- A statement `t'` in the scope of a layer runs as the statement `t` that it does the same as
  -- there, where the layer's name stands nowhere in `t`.
  pub run-bind_layer_same :
      (k : ℕ) (l : Layer C) (t' t : Statement C) (s : State V M)
      → NamesOfLayer (Avoids (layer_name seqnum depth l)) l
      → NamesOfStatement (Avoids (layer_name seqnum depth l)) t
      → ((u : State V M) (x : Slot V)
          → u.env (layer_name seqnum depth l) ≡ some x
          → layer_slot o u l ≡ some x
          → run o k t' u ≡ run o k t u)
      → ((u : State V M) → layer_slot o u l ≡ none → run o k t u ≡ none)
      → run o k (bind_layer seqnum depth l t') s ≡ run o k t s
  run-bind_layer_same k l t' t s n m same strict =
      run-bind_layer k l t' s
      ∙ bound_run l (run o k t') (run o k t) s n
          (λ y. run-put o (layer_name seqnum depth l) y k t m) same strict
