-- ===== src/Flatten/Room/Remotes.antt =====
-- The objects behind handles that a call uses, in an expression and in a chain of Lets
-- (transactions/mtl/flatten_expressions.hpp).
use mix_t.Base.{ℕ, suc, ◌+◌, true, false, ◌≡◌, refl, arith}
use mix_t.Flatten.Tree.{
  Expression, field_reference, field_pointer_reference, dereference, endorse, ensure, is_valid,
  var_reference, constant, bin_op, operation, no_args, arg, Statement, let_in, let_remote, return,
  is_var_reference, append_var,
}
use mix_t.Flatten.FlattenExprs.{is_flat}
use mix_t.Flatten.Flat.{both}
use mix_t.Flatten.Hoisting.{
  Layer, value, remote, bind_layer, Hoists, whole, whole_remote, arrow, in_field, in_dereference,
  in_is_valid, in_endorse, in_ensure, in_left, in_right, in_handle, moved, in_arg,
}
use mix_t.Flatten.Hoisting.Cases.{is_var_reference-true}
use mix_t.Flatten.Room.{remotes}

module _ {C : Type 0} where
  -- Those of a chain that returns an expression: one for each LetRemote.
  abbrev pub chain : Statement C → ℕ
  chain (let_in n e body) = chain body
  chain (let_remote n e body) = suc (chain body)
  chain (return e) = remotes e
  chain _ = 0

  variable-remotes : (e : Expression C) → is_var_reference e ≡ true → remotes e ≡ 0
  unfolding remotes
  variable-remotes e h = let v = is_var_reference-true e h in rw v.1 refl

  flat-remotes : (e : Expression C) → is_flat e ≡ true → remotes e ≡ 0
  unfolding is_flat remotes
  flat-remotes (var_reference v) h = refl
  flat-remotes (constant i) h = refl
  flat-remotes (bin_op op L R) h =
      let k = both (is_var_reference L) (is_var_reference R) h in
      rw (variable-remotes L k.0, variable-remotes R k.1) refl
  flat-remotes (field_reference (var_reference v) f) h = refl
  flat-remotes (field_reference (constant i) f) h = refl
  flat-remotes (field_reference (field_reference e g) f) h = cc
  flat-remotes (field_reference (field_pointer_reference e g) f) h = cc
  flat-remotes (field_reference (dereference e) f) h = cc
  flat-remotes (field_reference (endorse l e) f) h = cc
  flat-remotes (field_reference (ensure l e) f) h = cc
  flat-remotes (field_reference (is_valid e) f) h = cc
  flat-remotes (field_reference (bin_op op L R) f) h = cc
  flat-remotes (field_reference (operation n e args vars) f) h = cc
  flat-remotes (is_valid e) h = variable-remotes e h
  flat-remotes (endorse l e) h = variable-remotes e h
  flat-remotes (ensure l e) h = variable-remotes e h
  flat-remotes (operation n x no_args vars) h =
      let k = both (is_var_reference x) true h in rw (variable-remotes x k.0) refl
  flat-remotes (operation n x (arg e es) vars) h = let k = both (is_var_reference x) false h in cc
  flat-remotes (field_pointer_reference e f) h = cc
  flat-remotes (dereference e) h = cc

  abbrev layer_remotes : Layer C → ℕ
  layer_remotes (value e) = 0
  layer_remotes (remote e) = 1

  -- A layer that is taken out has its objects with it.
  Hoists-remotes :
      (seqnum depth : ℕ) (e : Expression C) (l : Layer C) (e' : Expression C)
      → Hoists seqnum depth e l e'
      → remotes e ≡ layer_remotes l + remotes e'
  unfolding remotes
  Hoists-remotes q d e _ _ (whole _ f k) = flat-remotes e f
  Hoists-remotes q d _ _ _ (whole_remote e v) = let k = variable-remotes e v in omega arith
  Hoists-remotes q d _ l e' (arrow e f _ _ h) = Hoists-remotes q d _ l e' h
  Hoists-remotes q d _ l _ (in_field e f _ e' h) = Hoists-remotes q d e l e' h
  Hoists-remotes q d _ l _ (in_dereference e _ e' h) =
      let k = Hoists-remotes q d e l e' h in omega arith
  Hoists-remotes q d _ l _ (in_is_valid e _ e' h) = Hoists-remotes q d e l e' h
  Hoists-remotes q d _ l _ (in_endorse c e _ e' h) = Hoists-remotes q d e l e' h
  Hoists-remotes q d _ l _ (in_ensure c e _ e' h) = Hoists-remotes q d e l e' h
  Hoists-remotes q d _ l _ (in_left op L R _ L' h) =
      let k = Hoists-remotes q d L l L' h in omega arith
  Hoists-remotes q d _ l _ (in_right op L R _ R' v h) =
      let k = Hoists-remotes q d R l R' h in omega arith
  Hoists-remotes q d _ l _ (in_handle n x args vars _ x' h) =
      let k = Hoists-remotes q d x l x' h in omega arith
  Hoists-remotes q d _ l e' (moved n x v args vars _ _ h) =
      let k = Hoists-remotes q d (operation n x args (append_var vars v)) l e' h in omega arith
  Hoists-remotes q d _ l _ (in_arg n x e args vars _ e' v h) =
      let k = Hoists-remotes q d e l e' h in omega arith

  pub chain-bind_layer :
      (seqnum depth : ℕ) (e : Expression C) (l : Layer C) (e' : Expression C)
      → Hoists seqnum depth e l e'
      → chain (bind_layer seqnum depth l (return e')) ≡ remotes e
  chain-bind_layer q d e (value x) e' h = let k = Hoists-remotes q d e (value x) e' h in omega arith
  chain-bind_layer q d e (remote x) e' h =
      let k = Hoists-remotes q d e (remote x) e' h in omega arith
