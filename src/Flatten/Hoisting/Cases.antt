-- ===== src/Flatten/Hoisting/Cases.antt =====
-- Laws of remove_layer and the layers of an expression
-- (transactions/mtl/flatten_expressions.hpp).
use mix_t.Base.{
  ℕ, suc, String, true, false, Bool-cases, Option, none, some, List, ◌≡◌, refl, sym, ap, inl, inr,
  ◌⊎◌, arith,
}
use mix_t.Flatten.Tree.{
  Name, anorm, remote_bound_tmp, Expression, field_reference, field_pointer_reference, dereference,
  endorse, ensure, is_valid, var_reference, constant, bin_op, operation, Args, no_args, arg,
  Statement, append_var, is_var_reference,
}
use mix_t.Flatten.RemoveLayer.{prefer, var_name, bind_anorm, bind_remote, remove_layer, remove_args}
use mix_t.Flatten.FlattenExprs.{is_flat}
use mix_t.Flatten.Hoisting.{
  Layer, value, remote, bind_layer, layers, layers_args, IsOneLayer, Hoists, whole, whole_remote,
  arrow, in_field, in_dereference, in_is_valid, in_endorse, in_ensure, in_left, in_right, in_handle,
  moved, in_arg,
}

module _ {C : Type 0} where
  -- A variable, or an expression that the specialisations for variables do not match.
  pub var_view :
      (e : Expression C)
      → ((v : Name) × (e ≡ var_reference v)) ⊎ ((is_var_reference e ≡ false) × (var_name e ≡ none))
  var_view (var_reference v) = inl (v, refl)
  var_view (constant i) = inr (refl, refl)
  var_view (field_reference e f) = inr (refl, refl)
  var_view (field_pointer_reference e f) = inr (refl, refl)
  var_view (dereference e) = inr (refl, refl)
  var_view (is_valid e) = inr (refl, refl)
  var_view (endorse l e) = inr (refl, refl)
  var_view (ensure l e) = inr (refl, refl)
  var_view (bin_op op L R) = inr (refl, refl)
  var_view (operation n h args vars) = inr (refl, refl)

  module _ (seqnum depth : ℕ) where
    -- remove_layer returns the layer in front of the statement at what is left.
    abbrev pub Removes : (Expression C → Statement C) → Expression C → Option (Statement C) → Type 0
    Removes Sub e m =
        (l : Layer C) × (e' : Expression C) × Hoists seqnum depth e l e'
        × (m ≡ some (bind_layer seqnum depth l (Sub e')))

    -- One operation on variables, or a layer of its operand.
    prefer-Removes :
        (Sub Sub' : Expression C → Statement C) (e inner : Expression C) (flat : Statement C)
        (m : Option (Statement C))
        → (is_var_reference e ≡ true → Removes Sub inner (some flat))
        → (is_var_reference e ≡ false → Removes Sub' e m)
        → ((l : Layer C) (e' : Expression C)
            → Hoists seqnum depth e l e'
            → (new : Expression C) × Hoists seqnum depth inner l new × (Sub' e' ≡ Sub new))
        → Removes Sub inner (prefer (is_var_reference e) (some flat) m)
    prefer-Removes Sub Sub' e inner flat m f g lift = elim (Bool-cases (is_var_reference e)) [
      | inl v ↦ rw v (f v)
      | inr v ↦ let r = g v in let n = lift r.0 r.1 r.2 in rw v (r.0, n.0, n.1, rw (sym n.2) r.3)
    ]

    whole-Removes :
        (Sub : Expression C → Statement C) (e : Expression C)
        → is_flat e ≡ true
        → layers e ≡ 1
        → Removes Sub e (some (bind_anorm seqnum depth Sub e))
    whole-Removes Sub e h k = (value e, var_reference (anorm seqnum depth), whole e h k, refl)

  -- What a test for a variable says.
  pub is_var_reference-true :
      (e : Expression C) → is_var_reference e ≡ true → (v : Name) × (e ≡ var_reference v)
  is_var_reference-true e h = elim (var_view e) [ inl v ↦ v | inr v ↦ let k = v.0 in cc ]

  -- An operation with one operand is flat on a variable.
  pub unary_flat :
      (make : Expression C → Expression C)
      → ((v : Name)
          → (is_flat (make (var_reference v)) ≡ true) × (layers (make (var_reference v)) ≡ 1))
      → (e : Expression C) → is_var_reference e ≡ true
      → (is_flat (make e) ≡ true) × (layers (make e) ≡ 1)
  unary_flat make f e h = let v = is_var_reference-true e h in rw v.1 (f v.0)

  module _ (seqnum depth : ℕ) where
    -- remove_layer on an operation with one operand.
    unary-Removes :
        (make : Expression C → Expression C)
        → ((v : Name)
            → (is_flat (make (var_reference v)) ≡ true) × (layers (make (var_reference v)) ≡ 1))
        → ((e : Expression C) (l : Layer C) (e' : Expression C)
            → Hoists seqnum depth e l e'
            → Hoists seqnum depth (make e) l (make e'))
        → (Sub : Expression C → Statement C) (e : Expression C)
        → (is_var_reference e ≡ false
            → Removes seqnum depth
                (λ new. Sub (make new))
                e
                (remove_layer seqnum depth (λ new. Sub (make new)) e))
        → Removes seqnum depth Sub (make e) (
            prefer
              (is_var_reference e)
              (some (bind_anorm seqnum depth Sub (make e)))
              (remove_layer seqnum depth (λ new. Sub (make new)) e))
    unary-Removes make f lift Sub e ih =
        prefer-Removes seqnum depth Sub (λ new. Sub (make new)) e (make e)
          (bind_anorm seqnum depth Sub (make e))
          (remove_layer seqnum depth (λ new. Sub (make new)) e)
          (λ w. let k = unary_flat make f e w in whole-Removes seqnum depth Sub (make e) k.0 k.1) ih
          (λ l e' h. (make e', lift e l e' h, refl))

    dereference-Removes :
        (Sub : Expression C → Statement C) (e : Expression C)
        → (is_var_reference e ≡ false
            → Removes seqnum depth
                (λ new. Sub (dereference new))
                e
                (remove_layer seqnum depth (λ new. Sub (dereference new)) e))
        → Removes seqnum depth Sub (dereference e) (
            prefer
              (is_var_reference e)
              (some (bind_remote seqnum depth Sub e))
              (remove_layer seqnum depth (λ new. Sub (dereference new)) e))
    dereference-Removes Sub e ih =
        prefer-Removes seqnum depth Sub (λ new. Sub (dereference new)) e (dereference e)
          (bind_remote seqnum depth Sub e)
          (remove_layer seqnum depth (λ new. Sub (dereference new)) e)
          (λ w. (remote e, var_reference (remote_bound_tmp seqnum depth), whole_remote e w, refl))
          ih (λ l e' h. (dereference e', in_dereference e l e' h, refl))

    -- remove_layer succeeds on every expression that is no variable, and takes out one layer.
    mutual
      unfolding remove_layer remove_args is_flat layers layers_args

      pub remove_layer_cases :
          (Sub : Expression C → Statement C) (e : Expression C)
          → is_var_reference e ≡ false
          → Removes seqnum depth Sub e (remove_layer seqnum depth Sub e)
      remove_layer_cases Sub (var_reference v) h = cc
      remove_layer_cases Sub (constant i) h = whole-Removes seqnum depth Sub (constant i) refl refl
      remove_layer_cases Sub (field_reference e f) h =
          unary-Removes (λ x. field_reference x f) (λ v. (refl, refl)) (λ x. in_field x f) Sub e
            (remove_layer_cases (λ new. Sub (field_reference new f)) e)
      remove_layer_cases Sub (field_pointer_reference e f) h =
          let r =
            dereference-Removes (λ new. Sub (field_reference new f)) e
              (remove_layer_cases (λ new. Sub (field_reference (dereference new) f)) e) in
          (
            r.0,
            field_reference r.1 f,
            arrow e f r.0 (field_reference r.1 f) (in_field (dereference e) f r.0 r.1 r.2),
            r.3,
          )
      remove_layer_cases Sub (dereference e) h =
          dereference-Removes Sub e (remove_layer_cases (λ new. Sub (dereference new)) e)
      remove_layer_cases Sub (is_valid e) h =
          unary-Removes is_valid (λ v. (refl, refl)) in_is_valid Sub e
            (remove_layer_cases (λ new. Sub (is_valid new)) e)
      remove_layer_cases Sub (endorse c e) h =
          unary-Removes (endorse c) (λ v. (refl, refl)) (in_endorse c) Sub e
            (remove_layer_cases (λ new. Sub (endorse c new)) e)
      remove_layer_cases Sub (ensure c e) h =
          unary-Removes (ensure c) (λ v. (refl, refl)) (in_ensure c) Sub e
            (remove_layer_cases (λ new. Sub (ensure c new)) e)
      remove_layer_cases Sub (bin_op op L R) h = elim (Bool-cases (is_var_reference L)) [
        | inl w ↦
            let v = is_var_reference-true L w in
            rw (w, v.1)
              (unary-Removes (bin_op op (var_reference v.0)) (λ r. (refl, refl))
                (λ x l x'. in_right op (var_reference v.0) x l x' refl) Sub R
                (remove_layer_cases (λ new. Sub (bin_op op (var_reference v.0) new)) R))
        | inr w ↦
            let r = remove_layer_cases (λ new. Sub (bin_op op new R)) L w in
            rw w (r.0, bin_op op r.1 R, in_left op L R r.0 r.1 r.2, r.3)
      ]
      remove_layer_cases Sub (operation n h args vars) k = elim (Bool-cases (is_var_reference h)) [
        | inl w ↦ rw w (remove_args_cases Sub n h w args vars)
        | inr w ↦
            let r = remove_layer_cases (λ new. Sub (operation n new args vars)) h w in
            rw w (r.0, operation n r.1 args vars, in_handle n h args vars r.0 r.1 r.2, r.3)
      ]

      remove_args_cases :
          (Sub : Expression C → Statement C) (n : String) (h : Expression C)
          → is_var_reference h ≡ true
          → (args : Args C) (vars : List Name)
          → Removes seqnum depth Sub
              (operation n h args vars)
              (remove_args seqnum depth Sub n h args vars)
      remove_args_cases Sub n h w no_args vars =
          let k = unary_flat (λ x. operation n x no_args vars) (λ v. (refl, refl)) h w in
          whole-Removes seqnum depth Sub (operation n h no_args vars) k.0 k.1
      remove_args_cases Sub n h w (arg e rest) vars = elim (var_view e) [
        | inl v ↦
            let r = remove_args_cases Sub n h w rest (append_var vars v.0) in
            rw v.1 (r.0, r.1, moved n h v.0 rest vars r.0 r.1 r.2, r.3)
        | inr v ↦
            let r = remove_layer_cases (λ new. Sub (operation n h (arg new rest) vars)) e v.0 in
            rw v.1
              (r.0, operation n h (arg r.1 rest) vars, in_arg n h e rest vars r.0 r.1 w r.2, r.3)
      ]

    -- The layer is one operation on variables, and what is left has one layer less.
    pub Hoists-layers :
        (e : Expression C) (l : Layer C) (e' : Expression C)
        → Hoists seqnum depth e l e'
        → IsOneLayer l × (layers e ≡ suc (layers e'))
    unfolding layers layers_args
    Hoists-layers _ _ _ (whole x h k) = ((h, k), k)
    Hoists-layers _ _ _ (whole_remote x h) = let v = is_var_reference-true x h in (h, rw v.1 refl)
    Hoists-layers _ _ _ (arrow x f l' x' h) =
        Hoists-layers (field_reference (dereference x) f) l' x' h
    Hoists-layers _ _ _ (in_field x f l' x' h) =
        let r = Hoists-layers x l' x' h in (r.0, ap suc r.1)
    Hoists-layers _ _ _ (in_dereference x l' x' h) =
        let r = Hoists-layers x l' x' h in (r.0, ap suc r.1)
    Hoists-layers _ _ _ (in_is_valid x l' x' h) =
        let r = Hoists-layers x l' x' h in (r.0, ap suc r.1)
    Hoists-layers _ _ _ (in_endorse c x l' x' h) =
        let r = Hoists-layers x l' x' h in (r.0, ap suc r.1)
    Hoists-layers _ _ _ (in_ensure c x l' x' h) =
        let r = Hoists-layers x l' x' h in (r.0, ap suc r.1)
    Hoists-layers _ _ _ (in_left op L R l' L' h) =
        let r = Hoists-layers L l' L' h in let k = r.1 in (r.0, omega arith)
    Hoists-layers _ _ _ (in_right op L R l' R' w h) =
        let r = Hoists-layers R l' R' h in let k = r.1 in (r.0, omega arith)
    Hoists-layers _ _ _ (in_handle n x args vars l' x' h) =
        let r = Hoists-layers x l' x' h in let k = r.1 in (r.0, omega arith)
    Hoists-layers _ _ _ (moved n x v args vars l' x' h) =
        let r = Hoists-layers (operation n x args (append_var vars v)) l' x' h in
        let k = r.1 in (r.0, omega arith)
    Hoists-layers _ _ _ (in_arg n x a args vars l' a' w h) =
        let r = Hoists-layers a l' a' h in let k = r.1 in (r.0, omega arith)
