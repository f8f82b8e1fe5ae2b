-- ===== src/Flatten/Meaning/Layers.antt =====
-- Laws of the value of an expression and of its layers
-- (transactions/mtl/flatten_expressions.hpp).
use mix_t.Base.{
  ℕ, Option, none, some, List, [], ◌∷◌, ◌++◌, ◌>>=◌, >>=-eq-some, some-inj, ◌≡◌, refl, sym, ap, ◌∙◌,
}
use mathlib.Core.Path.{fun_ext}
use mathlib.Core.List.{append_assoc}
use mix_t.Flatten.Tree.{
  Name, Expression, field_reference, dereference, var_reference, operation, Args, arg, append_var,
}
use mix_t.Flatten.Hoisting.{
  Layer, value, remote, layer_name, Hoists, whole, whole_remote, arrow, in_field, in_dereference,
  in_is_valid, in_endorse, in_ensure, in_left, in_right, in_handle, moved, in_arg,
}
use mix_t.Flatten.Meaning.{
  Objects, invoke, Slot, copy, alias, State, look, look_all, eval, eval_args,
}

-- A computation whose second part fails, fails.
pub bind_none {ℓ κ} :
    {A : Type ℓ} {B : Type κ} (m : Option A) (f : A → Option B)
    → ((a : A) → f a ≡ none)
    → (m >>= f) ≡ none
bind_none none f h = refl
bind_none (some a) f h = h a

module _ {V M : Type 0} (o : Objects V M) where
  look_all-append :
      (s : State V M) (vs : List Name) (v : Name)
      → look_all o s (append_var vs v)
        ≡ (look_all o s vs >>= λ xs. look o s v >>= λ x. some (xs ++ x ∷ []))
  look_all-append s [] v = one (look o s v)
    where
      one :
          (m : Option V)
          → (m >>= λ x. some [] >>= λ xs. some (x ∷ xs)) ≡ (m >>= λ x. some ([] ++ x ∷ []))
      one none = refl
      one (some x) = refl
  look_all-append s (w ∷ vs) v =
      rw (look_all-append s vs v) (more (look o s w) (look_all o s vs) (look o s v))
    where
      more :
          (m : Option V) (n : Option (List V)) (k : Option V)
          → (m >>= λ x. (n >>= λ xs. k >>= λ y. some (xs ++ y ∷ [])) >>= λ xs. some (x ∷ xs))
            ≡ ((m >>= λ x. n >>= λ xs. some (x ∷ xs)) >>= λ xs. k >>= λ y. some (xs ++ y ∷ []))
      more none n k = refl
      more (some x) none k = refl
      more (some x) (some xs) none = refl
      more (some x) (some xs) (some y) = refl

no_slot :
    {V W : Type 0} (make : V → W) (m : Option V) → (m >>= λ v. some (make v)) ≡ none → m ≡ none
no_slot make none h = refl
no_slot make (some v) h = cc

module _ {C V M : Type 0} (o : Objects V M) where
  -- What the name of a layer stands for, when its expression has a value.
  abbrev pub layer_slot : State V M → Layer C → Option (Slot V)
  layer_slot s (value e) = eval o s e >>= λ v. some (copy v)
  layer_slot s (remote e) = eval o s e >>= λ h. some (alias h)

  -- An argument that moves from the front of the expressions to the end of the variables stays at
  -- its place.
  pub moved_args :
      {W : Type 0} (s : State V M) (vars : List Name) (v : Name) (es : Args C)
      (f : List V → Option W)
      → (look_all o s (append_var vars v) >>= λ xs. eval_args o s es >>= λ ys. f (xs ++ ys)) ≡ (
          look_all o s vars >>= λ xs.
          eval_args o s (arg (var_reference v) es) >>= λ ys. f (xs ++ ys))
  unfolding eval eval_args
  moved_args s vars v es f =
      rw (look_all-append o s vars v) (moves (look_all o s vars) (look o s v) (eval_args o s es))
    where
      moves :
          (m : Option (List V)) (k : Option V) (n : Option (List V))
          → ((m >>= λ xs. k >>= λ x. some (xs ++ x ∷ [])) >>= λ xs. n >>= λ ys. f (xs ++ ys))
            ≡ (m >>= λ xs. (k >>= λ x. n >>= λ ys. some (x ∷ ys)) >>= λ ys. f (xs ++ ys))
      moves none k n = refl
      moves (some xs) none n = refl
      moves (some xs) (some x) none = refl
      moves (some xs) (some x) (some ys) = ap f (append_assoc xs (x ∷ []) ys)

  module _ (seqnum depth : ℕ) (s : State V M) where
    -- Where the name of the layer stands for what the layer is, what is left means the same.
    pub Hoists-eval :
        (e : Expression C) (l : Layer C) (e' : Expression C) (x : Slot V)
        → s.env (layer_name seqnum depth l) ≡ some x
        → layer_slot s l ≡ some x
        → Hoists seqnum depth e l e'
        → eval o s e' ≡ eval o s e
    unfolding eval eval_args
    Hoists-eval _ _ _ x p q (whole e h k) =
        let v = >>=-eq-some (eval o s e) (λ v. some (copy v)) q in
        rw (p, sym (some-inj _ _ v.2), v.1) refl
    Hoists-eval _ _ _ x p q (whole_remote e h) =
        let v = >>=-eq-some (eval o s e) (λ v. some (alias v)) q in
        rw (p, sym (some-inj _ _ v.2), v.1) refl
    Hoists-eval _ _ _ x p q (arrow e f l e' h) =
        Hoists-eval (field_reference (dereference e) f) l e' x p q h
    Hoists-eval _ _ _ x p q (in_field e f l e' h) = rw (Hoists-eval e l e' x p q h) refl
    Hoists-eval _ _ _ x p q (in_dereference e l e' h) = rw (Hoists-eval e l e' x p q h) refl
    Hoists-eval _ _ _ x p q (in_is_valid e l e' h) = rw (Hoists-eval e l e' x p q h) refl
    Hoists-eval _ _ _ x p q (in_endorse c e l e' h) = Hoists-eval e l e' x p q h
    Hoists-eval _ _ _ x p q (in_ensure c e l e' h) = Hoists-eval e l e' x p q h
    Hoists-eval _ _ _ x p q (in_left op L R l L' h) = rw (Hoists-eval L l L' x p q h) refl
    Hoists-eval _ _ _ x p q (in_right op L R l R' w h) = rw (Hoists-eval R l R' x p q h) refl
    Hoists-eval _ _ _ x p q (in_handle n e args vars l e' h) = rw (Hoists-eval e l e' x p q h) refl
    Hoists-eval _ _ _ x p q (moved n e v args vars l e' h) =
        Hoists-eval (operation n e args (append_var vars v)) l e' x p q h
        ∙ ap (λ m. eval o s e >>= m)
            (fun_ext (λ a. moved_args s vars v args (λ es. invoke o s.store n a es)))
    Hoists-eval _ _ _ x p q (in_arg n e a args vars l a' w h) = rw (Hoists-eval a l a' x p q h) refl

    -- Where the layer has no value, the expression has none.
    pub Hoists-strict :
        (e : Expression C) (l : Layer C) (e' : Expression C)
        → layer_slot s l ≡ none
        → Hoists seqnum depth e l e'
        → eval o s e ≡ none
    unfolding eval eval_args
    Hoists-strict _ _ _ q (whole e h k) = no_slot copy (eval o s e) q
    Hoists-strict _ _ _ q (whole_remote e h) = rw (no_slot alias (eval o s e) q) refl
    Hoists-strict _ _ _ q (arrow e f l e' h) =
        Hoists-strict (field_reference (dereference e) f) l e' q h
    Hoists-strict _ _ _ q (in_field e f l e' h) = rw (Hoists-strict e l e' q h) refl
    Hoists-strict _ _ _ q (in_dereference e l e' h) = rw (Hoists-strict e l e' q h) refl
    Hoists-strict _ _ _ q (in_is_valid e l e' h) = rw (Hoists-strict e l e' q h) refl
    Hoists-strict _ _ _ q (in_endorse c e l e' h) = Hoists-strict e l e' q h
    Hoists-strict _ _ _ q (in_ensure c e l e' h) = Hoists-strict e l e' q h
    Hoists-strict _ _ _ q (in_left op L R l L' h) = rw (Hoists-strict L l L' q h) refl
    Hoists-strict _ _ _ q (in_right op L R l R' w h) =
        rw (Hoists-strict R l R' q h) (bind_none (eval o s L) _ (λ a. refl))
    Hoists-strict _ _ _ q (in_handle n e args vars l e' h) = rw (Hoists-strict e l e' q h) refl
    Hoists-strict _ _ _ q (moved n e v args vars l e' h) =
        ap (λ m. eval o s e >>= m)
          (fun_ext (λ a. sym (moved_args s vars v args (λ es. invoke o s.store n a es))))
        ∙ Hoists-strict (operation n e args (append_var vars v)) l e' q h
    Hoists-strict _ _ _ q (in_arg n e a args vars l a' w h) =
        rw (Hoists-strict a l a' q h)
          (bind_none (eval o s e) _ (λ b. bind_none (look_all o s vars) _ (λ c. refl)))
