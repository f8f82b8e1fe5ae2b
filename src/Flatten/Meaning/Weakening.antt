-- ===== src/Flatten/Meaning/Weakening.antt =====
-- Laws of the value of an expression and a name that does not stand in it
-- (transactions/mtl/flatten_expressions.hpp).
use mix_t.Base.{false, Bool-cases, Option, List, [], ◌∷◌, All, ◌≡◌, ◌≢◌, refl, ap, inl, inr}
use mathlib.Core.Path.{fun_ext}
use mix_t.Flatten.Tree.{
  Name, Expression, field_reference, field_pointer_reference, dereference, endorse, ensure,
  is_valid, var_reference, constant, bin_op, operation, Args, no_args, arg,
}
use mix_t.Flatten.Meaning.{Objects, Slot, State, same_name, set_env, put, look_all, eval, eval_args}
use mix_t.Flatten.Meaning.Scope.{Names, NamesOfArgs, Avoids}
use mix_t.Flatten.Meaning.Fresh.{same_name-true, same_name_refl}

pub other_name : (m n : Name) → m ≢ n → same_name m n ≡ false
other_name m n h = elim (Bool-cases (same_name m n)) [
  | inl e ↦ absurd (h (same_name-true m n e))
  | inr e ↦ e
]

module _ {V : Type 0} where
  -- Two different names can be set in either order.
  set_env_comm :
      (g n : Name) (x y : Option (Slot V)) (env : Name → Option (Slot V))
      → n ≢ g
      → set_env n y (set_env g x env) ≡ set_env g x (set_env n y env)
  set_env_comm g n x y env h = fun_ext at_name
    where
      at_name : (m : Name) → set_env n y (set_env g x env) m ≡ set_env g x (set_env n y env) m
      at_name m = elim (Bool-cases (same_name m n)) [
        | inl e ↦ rw (same_name-true m n e, same_name_refl n, other_name n g h) refl
        | inr e ↦ rw (e) refl
      ]

  set_env_twice :
      (g : Name) (x y : Option (Slot V)) (env : Name → Option (Slot V))
      → set_env g x (set_env g y env) ≡ set_env g x env
  set_env_twice g x y env = fun_ext at_name
    where
      at_name : (m : Name) → set_env g x (set_env g y env) m ≡ set_env g x env m
      at_name m = elim (Bool-cases (same_name m g)) [ inl e ↦ rw e refl | inr e ↦ rw e refl ]

  set_env_same : (g : Name) (env : Name → Option (Slot V)) → set_env g (env g) env ≡ env
  set_env_same g env = fun_ext at_name
    where
      at_name : (m : Name) → set_env g (env g) env m ≡ env m
      at_name m = elim (Bool-cases (same_name m g)) [
        | inl e ↦ rw (same_name-true m g e, same_name_refl g) refl
        | inr e ↦ rw e refl
      ]

module _ {V M : Type 0} where
  abbrev pub with_env : State V M → (Name → Option (Slot V)) → State V M
  with_env s env = record { store = s.store; env = env; result = s.result }

  pub put_comm :
      (g n : Name) (x y : Option (Slot V)) (s : State V M)
      → n ≢ g
      → put n y (put g x s) ≡ put g x (put n y s)
  put_comm g n x y s h = ap (with_env s) (set_env_comm g n x y s.env h)

  pub put_twice :
      (g : Name) (x y : Option (Slot V)) (s : State V M) → put g x (put g y s) ≡ put g x s
  put_twice g x y s = ap (with_env s) (set_env_twice g x y s.env)

  pub put_same : (g : Name) (s : State V M) → put g (s.env g) s ≡ s
  put_same g s = ap (with_env s) (set_env_same g s.env)

  pub env_put_other :
      (g n : Name) (x : Option (Slot V)) (s : State V M) → n ≢ g → (put g x s).env n ≡ s.env n
  env_put_other g n x s h = rw (other_name n g h) refl

  pub env_put : (g : Name) (x : Option (Slot V)) (s : State V M) → (put g x s).env g ≡ x
  env_put g x s = rw (same_name_refl g) refl

module _ {V M : Type 0} (o : Objects V M) (g : Name) (x : Option (Slot V)) where
  pub look_all-put :
      (s : State V M) (vs : List Name)
      → All (Avoids g) vs
      → look_all o (put g x s) vs ≡ look_all o s vs
  look_all-put s [] h = refl
  look_all-put s (v ∷ vs) h = rw (env_put_other g v x s h.0, look_all-put s vs h.1) refl

module _ {C V M : Type 0} (o : Objects V M) (g : Name) (x : Option (Slot V)) where
  mutual
    unfolding eval eval_args

    pub eval-put :
        (s : State V M) (e : Expression C) → Names (Avoids g) e → eval o (put g x s) e ≡ eval o s e
    eval-put s (var_reference v) h = rw (env_put_other g v x s h) refl
    eval-put s (constant i) h = refl
    eval-put s (field_reference e f) h = rw (eval-put s e h) refl
    eval-put s (field_pointer_reference e f) h = rw (eval-put s e h) refl
    eval-put s (dereference e) h = rw (eval-put s e h) refl
    eval-put s (is_valid e) h = rw (eval-put s e h) refl
    eval-put s (endorse l e) h = eval-put s e h
    eval-put s (ensure l e) h = eval-put s e h
    eval-put s (bin_op op L R) h = rw (eval-put s L h.0, eval-put s R h.1) refl
    eval-put s (operation n e args vars) h =
        rw (eval-put s e h.0, eval_args-put s args h.1, look_all-put o g x s vars h.2) refl

    pub eval_args-put :
        (s : State V M) (args : Args C)
        → NamesOfArgs (Avoids g) args
        → eval_args o (put g x s) args ≡ eval_args o s args
    eval_args-put s no_args h = refl
    eval_args-put s (arg e es) h = rw (eval-put s e h.0, eval_args-put s es h.1) refl
