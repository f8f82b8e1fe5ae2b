-- ===== src/Flatten/RemoveLayer.antt =====
-- remove_layer: one innermost operation of an expression is bound to a new name in front of the
-- statement that the expression stands in (transactions/mtl/flatten_expressions.hpp).
use mix_t.Base.{ℕ, String, Bool, true, false, Option, none, some, List}
use mix_t.Flatten.Tree.{
  Name, anorm, remote_bound_tmp, Expression, field_reference, field_pointer_reference, dereference,
  endorse, ensure, is_valid, var_reference, constant, bin_op, operation, Args, no_args, arg,
  Statement, let_in, let_remote, append_var, is_var_reference,
}

-- The overload or the specialisation for a variable, before the one for any expression.
abbrev pub prefer {ℓ} : {A : Type ℓ} → Bool → A → A → A
prefer true for_var for_any = for_var
prefer false for_var for_any = for_any

-- The same, with the name of the variable.
abbrev pub prefer_name {ℓ} : {A : Type ℓ} → Option Name → (Name → A) → A → A
prefer_name (some v) for_var for_any = for_var v
prefer_name none for_var for_any = for_any

module _ {C : Type 0} where
  -- The `V` of an Expression<VarReference<V>>.
  abbrev pub var_name : Expression C → Option Name
  var_name (var_reference v) = some v
  var_name _ = none

  -- The Let that binds a flat expression, around `SubStatement` at the new name.
  abbrev pub bind_anorm : ℕ → ℕ → (Expression C → Statement C) → Expression C → Statement C
  bind_anorm seqnum depth Sub e =
      let_in (anorm seqnum depth) e (Sub (var_reference (anorm seqnum depth)))

  abbrev pub bind_remote : ℕ → ℕ → (Expression C → Statement C) → Expression C → Statement C
  bind_remote seqnum depth Sub v =
      let_remote (remote_bound_tmp seqnum depth) v
        (Sub (var_reference (remote_bound_tmp seqnum depth)))

  -- remove_layer<seqnum, depth, SubStatement>; `Sub` is the template SubStatement. `none` is the
  -- static_assert that a variable has no layer.
  unfoldable mutual
    pub remove_layer : ℕ → ℕ → (Expression C → Statement C) → Expression C → Option (Statement C)
    remove_layer seqnum depth Sub (var_reference v) = none
    remove_layer seqnum depth Sub (constant i) = some (bind_anorm seqnum depth Sub (constant i))
    remove_layer seqnum depth Sub (field_reference e f) =
        prefer (is_var_reference e) (some (bind_anorm seqnum depth Sub (field_reference e f)))
          (remove_layer seqnum depth (λ new. Sub (field_reference new f)) e)
    remove_layer seqnum depth Sub (field_pointer_reference e f) =
        prefer (is_var_reference e)
          (some (bind_remote seqnum depth (λ new. Sub (field_reference new f)) e))
          (remove_layer seqnum depth (λ new. Sub (field_reference (dereference new) f)) e)
    remove_layer seqnum depth Sub (dereference e) =
        prefer (is_var_reference e) (some (bind_remote seqnum depth Sub e))
          (remove_layer seqnum depth (λ new. Sub (dereference new)) e)
    remove_layer seqnum depth Sub (is_valid e) =
        prefer (is_var_reference e) (some (bind_anorm seqnum depth Sub (is_valid e)))
          (remove_layer seqnum depth (λ new. Sub (is_valid new)) e)
    remove_layer seqnum depth Sub (endorse l e) =
        prefer (is_var_reference e) (some (bind_anorm seqnum depth Sub (endorse l e)))
          (remove_layer seqnum depth (λ new. Sub (endorse l new)) e)
    remove_layer seqnum depth Sub (ensure l e) =
        prefer (is_var_reference e) (some (bind_anorm seqnum depth Sub (ensure l e)))
          (remove_layer seqnum depth (λ new. Sub (ensure l new)) e)
    remove_layer seqnum depth Sub (bin_op op L R) =
        prefer (is_var_reference L)
          (prefer (is_var_reference R) (some (bind_anorm seqnum depth Sub (bin_op op L R)))
            (remove_layer seqnum depth (λ new. Sub (bin_op op L new)) R))
          (remove_layer seqnum depth (λ new. Sub (bin_op op new R)) L)
    remove_layer seqnum depth Sub (operation n h args vars) =
        prefer (is_var_reference h) (remove_args seqnum depth Sub n h args vars)
          (remove_layer seqnum depth (λ new. Sub (operation n new args vars)) h)

    -- An operation on a variable `h`: its first argument moves to the variables, or loses a layer.
    pub remove_args :
        ℕ
        → ℕ
        → (Expression C → Statement C)
        → String
        → Expression C
        → Args C
        → List Name
        → Option (Statement C)
    remove_args seqnum depth Sub n h no_args vars =
        some (bind_anorm seqnum depth Sub (operation n h no_args vars))
    remove_args seqnum depth Sub n h (arg e rest) vars =
        prefer_name (var_name e) (λ v. remove_args seqnum depth Sub n h rest (append_var vars v))
          (remove_layer seqnum depth (λ new. Sub (operation n h (arg new rest) vars)) e)
