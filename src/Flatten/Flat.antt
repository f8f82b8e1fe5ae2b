-- ===== src/Flatten/Flat.antt =====
-- The flat form of a tree, with laws of the tests for it
-- (transactions/mtl/flatten_expressions.hpp).
pub mod Flattened
use mix_t.Base.{Option, Bool, true, false, some, ◌≡◌, refl, sym, ◌&&◌, ◌||◌, some-inj, >>=-eq-some}
use mix_t.Flatten.Tree.{
  Expression, field_reference, endorse, ensure, is_valid, var_reference, constant, bin_op,
  operation, Args, no_args, arg, Statement, let_in, let_remote, operation_statement, assignment,
  return, if_else, while, sequence, Sequence, done, next, is_var_reference, is_dereference,
  field_of, dereference, field_pointer_reference, contains_fieldpointer_ref,
}
use mix_t.Flatten.Hoisting.Cases.{is_var_reference-true}
use mix_t.Flatten.FlattenExprs.{
  is_flat, is_constant, is_empty, operation_to_statement, call_statement, declared_behind,
  is_let_remote,
}

pub both : (a b : Bool) → (a && b) ≡ true → (a ≡ true) × (b ≡ true)
both true b h = (refl, h)
both false b h = cc

module _ {C : Type 0} where
  abbrev pub IsVariable : Expression C → Type 0
  IsVariable (var_reference v) = Unit
  IsVariable _ = ⊥

  abbrev pub IsAtom : Expression C → Type 0
  IsAtom (var_reference v) = Unit
  IsAtom (constant i) = Unit
  IsAtom _ = ⊥

  abbrev pub IsEmpty : Args C → Type 0
  IsEmpty no_args = Unit
  IsEmpty (arg e es) = ⊥

  -- What a Let may bind: an atom, or one operation on variables that follows no handle.
  abbrev pub IsFlatBound : Expression C → Type 0
  IsFlatBound (var_reference v) = Unit
  IsFlatBound (constant i) = Unit
  IsFlatBound (bin_op op L R) = IsVariable L × IsVariable R
  IsFlatBound (field_reference e f) = IsAtom e
  IsFlatBound (is_valid e) = IsVariable e
  IsFlatBound (endorse l e) = IsVariable e
  IsFlatBound (ensure l e) = IsVariable e
  IsFlatBound (operation n h args vars) = IsVariable h × IsEmpty args
  IsFlatBound _ = ⊥

  -- A variable, or a field of one: no handle is followed to reach it.
  abbrev pub IsFlatTarget : Expression C → Type 0
  IsFlatTarget (var_reference v) = Unit
  IsFlatTarget (field_reference e f) = IsFlatTarget e
  IsFlatTarget _ = ⊥

  -- Every statement works on variables: only a LetRemote follows a handle.
  abbrev mutual
    pub IsFlat : Statement C → Type 0
    IsFlat (let_in n e body) = IsFlatBound e × IsFlat body
    IsFlat (let_remote n e body) = IsVariable e × IsFlat body
    IsFlat (operation_statement n h args vars) = IsVariable h × IsEmpty args
    IsFlat (assignment l e) = IsFlatTarget l × IsVariable e
    IsFlat (return e) = IsVariable e
    IsFlat (if_else c t e) = IsVariable c × IsFlat t × IsFlat e
    IsFlat (while c body) = IsVariable c × IsFlat body
    IsFlat (sequence ss) = IsFlatSequence ss

    pub IsFlatSequence : Sequence C → Type 0
    IsFlatSequence done = Unit
    IsFlatSequence (next s ss) = IsFlat s × IsFlatSequence ss

  pub is_var_reference-IsVariable : (e : Expression C) → is_var_reference e ≡ true → IsVariable e
  is_var_reference-IsVariable e h = let v = is_var_reference-true e h in rw v.1 tt

  atom : (e : Expression C) → (is_var_reference e || is_constant e) ≡ true → IsAtom e
  atom (var_reference v) h = tt
  atom (constant i) h = tt
  atom (field_reference e f) h = cc
  atom (field_pointer_reference e f) h = cc
  atom (dereference e) h = cc
  atom (is_valid e) h = cc
  atom (endorse l e) h = cc
  atom (ensure l e) h = cc
  atom (bin_op op L R) h = cc
  atom (operation n x args vars) h = cc

  is_empty-IsEmpty : (args : Args C) → is_empty args ≡ true → IsEmpty args
  is_empty-IsEmpty no_args h = tt
  is_empty-IsEmpty (arg e es) h = cc

  pub is_flat-IsFlatBound : (e : Expression C) → is_flat e ≡ true → IsFlatBound e
  unfolding is_flat
  is_flat-IsFlatBound (var_reference v) h = tt
  is_flat-IsFlatBound (constant i) h = tt
  is_flat-IsFlatBound (bin_op op L R) h =
      let k = both (is_var_reference L) (is_var_reference R) h in
      (is_var_reference-IsVariable L k.0, is_var_reference-IsVariable R k.1)
  is_flat-IsFlatBound (field_reference e f) h = atom e h
  is_flat-IsFlatBound (is_valid e) h = is_var_reference-IsVariable e h
  is_flat-IsFlatBound (endorse l e) h = is_var_reference-IsVariable e h
  is_flat-IsFlatBound (ensure l e) h = is_var_reference-IsVariable e h
  is_flat-IsFlatBound (operation n x args vars) h =
      let k = both (is_var_reference x) (is_empty args) h in
      (is_var_reference-IsVariable x k.0, is_empty-IsEmpty args k.1)
  is_flat-IsFlatBound (field_pointer_reference e f) h = cc
  is_flat-IsFlatBound (dereference e) h = cc

  field-IsFlatTarget :
      (b : Bool) (e : Expression C)
      → (contains_fieldpointer_ref e ≡ some false → IsFlatTarget e)
      → field_of b (contains_fieldpointer_ref e) ≡ some false
      → IsFlatTarget e
  field-IsFlatTarget true e f h = cc
  field-IsFlatTarget false e f h = f h

  pub target : (e : Expression C) → contains_fieldpointer_ref e ≡ some false → IsFlatTarget e
  unfolding contains_fieldpointer_ref
  target (var_reference v) h = tt
  target (field_reference e f) h = field-IsFlatTarget (is_dereference e) e (target e) h
  target (field_pointer_reference e f) h = cc
  target (constant i) h = cc
  target (dereference e) h = cc
  target (is_valid e) h = cc
  target (endorse l e) h = cc
  target (ensure l e) h = cc
  target (bin_op op L R) h = cc
  target (operation n x args vars) h = cc

  call_statement-IsFlat :
      (b : Bool) (e : Expression C) (t : Statement C)
      → IsFlatBound e
      → call_statement b e ≡ some t
      → IsFlat t
  call_statement-IsFlat true (operation n x args vars) t f h = rw (sym (some-inj _ _ h)) f
  call_statement-IsFlat true (var_reference v) t f h = cc
  call_statement-IsFlat true (constant i) t f h = cc
  call_statement-IsFlat true (field_reference e g) t f h = cc
  call_statement-IsFlat true (field_pointer_reference e g) t f h = cc
  call_statement-IsFlat true (dereference e) t f h = cc
  call_statement-IsFlat true (is_valid e) t f h = cc
  call_statement-IsFlat true (endorse l e) t f h = cc
  call_statement-IsFlat true (ensure l e) t f h = cc
  call_statement-IsFlat true (bin_op op L R) t f h = cc
  call_statement-IsFlat false e t f h = cc

  pub declared_behind-some :
      (b : Bool) (s : Option (Statement C)) (t : Statement C)
      → declared_behind b s ≡ some t
      → s ≡ some t
  declared_behind-some true s t h = cc
  declared_behind-some false s t h = h

  -- operation_to_statement keeps the flat form: what it turns into a statement is flat.
  pub operation_to_statement-IsFlat :
      (s t : Statement C) → IsFlat s → operation_to_statement s ≡ some t → IsFlat t
  unfolding operation_to_statement
  operation_to_statement-IsFlat (let_in n e (let_in m d body)) t f h =
      let k = >>=-eq-some (operation_to_statement (let_in m d body)) _ h in
      rw (sym (some-inj _ _ k.2)) (f.0, operation_to_statement-IsFlat (let_in m d body) k.0 f.1 k.1)
  operation_to_statement-IsFlat (let_in n e (let_remote m d body)) t f h =
      let k =
        >>=-eq-some (operation_to_statement (let_remote m d body)) _
          (declared_behind-some (is_let_remote body) _ t h) in
      rw (sym (some-inj _ _ k.2))
        (f.0, operation_to_statement-IsFlat (let_remote m d body) k.0 f.1 k.1)
  operation_to_statement-IsFlat (let_remote n e (let_in m d body)) t f h =
      let k = >>=-eq-some (operation_to_statement (let_in m d body)) _ h in
      rw (sym (some-inj _ _ k.2)) (f.0, operation_to_statement-IsFlat (let_in m d body) k.0 f.1 k.1)
  operation_to_statement-IsFlat (let_remote n e (let_remote m d body)) t f h =
      let k = >>=-eq-some (operation_to_statement (let_remote m d body)) _ h in
      rw (sym (some-inj _ _ k.2))
        (f.0, operation_to_statement-IsFlat (let_remote m d body) k.0 f.1 k.1)
  operation_to_statement-IsFlat (let_in n e (return r)) t f h =
      call_statement-IsFlat (is_var_reference r) e t f.0 h
  operation_to_statement-IsFlat (let_in n e (operation_statement m x args vars)) t f h = cc
  operation_to_statement-IsFlat (let_in n e (assignment l r)) t f h = cc
  operation_to_statement-IsFlat (let_in n e (if_else c a b)) t f h = cc
  operation_to_statement-IsFlat (let_in n e (while c b)) t f h = cc
  operation_to_statement-IsFlat (let_in n e (sequence ss)) t f h = cc
  operation_to_statement-IsFlat (let_remote n e (operation_statement m x args vars)) t f h = cc
  operation_to_statement-IsFlat (let_remote n e (assignment l r)) t f h = cc
  operation_to_statement-IsFlat (let_remote n e (return r)) t f h = cc
  operation_to_statement-IsFlat (let_remote n e (if_else c a b)) t f h = cc
  operation_to_statement-IsFlat (let_remote n e (while c b)) t f h = cc
  operation_to_statement-IsFlat (let_remote n e (sequence ss)) t f h = cc
  operation_to_statement-IsFlat (operation_statement m x args vars) t f h = cc
  operation_to_statement-IsFlat (assignment l r) t f h = cc
  operation_to_statement-IsFlat (return r) t f h = cc
  operation_to_statement-IsFlat (if_else c a b) t f h = cc
  operation_to_statement-IsFlat (while c b) t f h = cc
  operation_to_statement-IsFlat (sequence ss) t f h = cc
