-- ===== src/Flatten/Hoisting.antt =====
-- What remove_layer takes out of an expression, as a relation
-- (transactions/mtl/flatten_expressions.hpp).
pub mod Cases
use mix_t.Base.{ℕ, suc, ◌+◌, String, true, List, ◌≡◌}
use mix_t.Ast.{Operator}
use mix_t.Flatten.Tree.{
  Name, anorm, remote_bound_tmp, Expression, field_reference, field_pointer_reference, dereference,
  endorse, ensure, is_valid, var_reference, constant, bin_op, operation, Args, no_args, arg,
  Statement, let_in, let_remote, append_var, is_var_reference,
}
use mix_t.Flatten.FlattenExprs.{is_flat}

-- What a generated name is bound to: an expression's value, or the object that a handle names.
pub data Layer (C : Type 0) : Type 0 where
  value : Expression C → Layer C
  remote : Expression C → Layer C

module _ {C : Type 0} where
  abbrev pub layer_name : ℕ → ℕ → Layer C → Name
  layer_name seqnum depth (value e) = anorm seqnum depth
  layer_name seqnum depth (remote e) = remote_bound_tmp seqnum depth

  abbrev pub bind_layer : ℕ → ℕ → Layer C → Statement C → Statement C
  bind_layer seqnum depth (value e) s = let_in (anorm seqnum depth) e s
  bind_layer seqnum depth (remote e) s = let_remote (remote_bound_tmp seqnum depth) e s

  -- How many layers an expression has.
  unfoldable mutual
    pub layers : Expression C → ℕ
    layers (var_reference v) = 0
    layers (constant i) = 1
    layers (field_reference e f) = suc (layers e)
    layers (field_pointer_reference e f) = suc (suc (layers e))
    layers (dereference e) = suc (layers e)
    layers (is_valid e) = suc (layers e)
    layers (endorse l e) = suc (layers e)
    layers (ensure l e) = suc (layers e)
    layers (bin_op op L R) = suc (layers L + layers R)
    layers (operation n h args vars) = suc (layers h + layers_args args)

    pub layers_args : Args C → ℕ
    layers_args no_args = 0
    layers_args (arg e es) = layers e + layers_args es

  -- A layer on variables only.
  abbrev pub IsOneLayer : Layer C → Type 0
  IsOneLayer (value e) = (is_flat e ≡ true) × (layers e ≡ 1)
  IsOneLayer (remote e) = is_var_reference e ≡ true

-- `Hoists seqnum depth e l e'`: the layer `l` is the innermost leftmost one of `e`, and `e'` is `e`
-- with the generated name in its place.
pub data Hoists {C : Type 0} (seqnum depth : ℕ)
    : Expression C → Layer C → Expression C → Type 0 where
  whole :
      (e : Expression C)
      → is_flat e ≡ true
      → layers e ≡ 1
      → Hoists seqnum depth e (value e) (var_reference (anorm seqnum depth))
  whole_remote :
      (e : Expression C)
      → is_var_reference e ≡ true
      → Hoists seqnum depth
          (dereference e)
          (remote e)
          (var_reference (remote_bound_tmp seqnum depth))
  arrow :
      (e : Expression C) (f : String) (l : Layer C) (e' : Expression C)
      → Hoists seqnum depth (field_reference (dereference e) f) l e'
      → Hoists seqnum depth (field_pointer_reference e f) l e'
  in_field :
      (e : Expression C) (f : String) (l : Layer C) (e' : Expression C)
      → Hoists seqnum depth e l e'
      → Hoists seqnum depth (field_reference e f) l (field_reference e' f)
  in_dereference :
      (e : Expression C) (l : Layer C) (e' : Expression C)
      → Hoists seqnum depth e l e'
      → Hoists seqnum depth (dereference e) l (dereference e')
  in_is_valid :
      (e : Expression C) (l : Layer C) (e' : Expression C)
      → Hoists seqnum depth e l e'
      → Hoists seqnum depth (is_valid e) l (is_valid e')
  in_endorse :
      (c : C) (e : Expression C) (l : Layer C) (e' : Expression C)
      → Hoists seqnum depth e l e'
      → Hoists seqnum depth (endorse c e) l (endorse c e')
  in_ensure :
      (c : C) (e : Expression C) (l : Layer C) (e' : Expression C)
      → Hoists seqnum depth e l e'
      → Hoists seqnum depth (ensure c e) l (ensure c e')
  in_left :
      (op : Operator) (L R : Expression C) (l : Layer C) (L' : Expression C)
      → Hoists seqnum depth L l L'
      → Hoists seqnum depth (bin_op op L R) l (bin_op op L' R)
  in_right :
      (op : Operator) (L R : Expression C) (l : Layer C) (R' : Expression C)
      → is_var_reference L ≡ true
      → Hoists seqnum depth R l R'
      → Hoists seqnum depth (bin_op op L R) l (bin_op op L R')
  in_handle :
      (n : String) (h : Expression C) (args : Args C) (vars : List Name) (l : Layer C)
      (h' : Expression C)
      → Hoists seqnum depth h l h'
      → Hoists seqnum depth (operation n h args vars) l (operation n h' args vars)
  moved :
      (n : String) (h : Expression C) (v : Name) (args : Args C) (vars : List Name) (l : Layer C)
      (e' : Expression C)
      → Hoists seqnum depth (operation n h args (append_var vars v)) l e'
      → Hoists seqnum depth (operation n h (arg (var_reference v) args) vars) l e'
  in_arg :
      (n : String) (h e : Expression C) (args : Args C) (vars : List Name) (l : Layer C)
      (e' : Expression C)
      → is_var_reference h ≡ true
      → Hoists seqnum depth e l e'
      → Hoists seqnum depth (operation n h (arg e args) vars) l (operation n h (arg e' args) vars)
