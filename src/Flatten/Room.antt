-- ===== src/Flatten/Room.antt =====
-- The room that flattening a tree takes in the template parameters seqnum and depth
-- (transactions/mtl/flatten_expressions.hpp).
pub mod Remotes
pub mod Chain
pub mod Targets
pub mod Fits
pub mod Total
pub mod Desugared
use mix_t.Base.{ℕ, suc, ◌+◌, ◌*◌, ◌≤◌, ◌<◌, Bool, true, false, some, ◌≡◌, arith}
use mix_t.Split.Named.{next_char}
use mix_t.Flatten.Tree.{
  dereference, endorse, ensure, is_valid, constant, bin_op, Args, no_args, arg, Expression,
  var_reference, field_reference, field_pointer_reference, operation, Statement, let_in, let_remote,
  operation_statement, assignment, return, if_else, while, sequence, Sequence, done, next,
  is_dereference,
}
use mix_t.Flatten.FlattenExprs.{is_flat}
use mix_t.Flatten.Hoisting.{layers}

-- A field of an object behind a handle is a target, another field where what it is of is one.
abbrev pub TargetField : Bool → Type 0 → Type 0
TargetField true inner = Unit
TargetField false inner = inner

module _ {C : Type 0} where
  -- Twice the layers of what a Let binds, since each new Let takes a step of its own.
  abbrev pub bound_room : Bool → Expression C → ℕ
  bound_room true e = 0
  bound_room false e = 2 * layers e

  -- An upper bound on the steps; a loop counts `loop`, which is 0 where it is on a variable, and 3
  -- before desugaring.
  abbrev mutual
    pub room : ℕ → Statement C → ℕ
    room loop (let_in n e body) = suc (bound_room (is_flat e) e + room loop body)
    room loop (let_remote n e body) = suc (2 * layers e + room loop body)
    room loop (operation_statement n h args vars) = suc (2 * layers (operation n h args vars))
    room loop (assignment l e) = suc (2 * layers l + 2 * layers e)
    room loop (return e) = suc (2 * layers e)
    room loop (if_else c t e) = suc (2 * layers c + (room loop t + room loop e))
    room loop (while c body) = suc (loop + (2 * layers c + room loop body))
    room loop (sequence ss) = suc (room_sequence loop ss)

    pub room_sequence : ℕ → Sequence C → ℕ
    room_sequence loop done = 0
    room_sequence loop (next s ss) = room loop s + room_sequence loop ss

  -- What contains_fieldpointer_ref is defined for: a variable or a field of one, and an object
  -- behind a handle only where a field of it is assigned.
  abbrev pub IsTarget : Expression C → Type 0
  IsTarget (var_reference v) = Unit
  IsTarget (field_reference e f) = TargetField (is_dereference e) (IsTarget e)
  IsTarget (field_pointer_reference e f) = Unit
  IsTarget _ = ⊥

  -- How many objects behind handles an expression uses.
  unfoldable mutual
    pub remotes : Expression C → ℕ
    remotes (var_reference v) = 0
    remotes (constant i) = 0
    remotes (field_reference e f) = remotes e
    remotes (field_pointer_reference e f) = suc (remotes e)
    remotes (dereference e) = suc (remotes e)
    remotes (is_valid e) = remotes e
    remotes (endorse l e) = remotes e
    remotes (ensure l e) = remotes e
    remotes (bin_op op L R) = remotes L + remotes R
    remotes (operation n h args vars) = remotes h + remotes_args args

    pub remotes_args : Args C → ℕ
    remotes_args no_args = 0
    remotes_args (arg e es) = remotes e + remotes_args es

  -- Each assignment is to such a target, and each call that is a statement uses at most one object
  -- behind a handle.
  abbrev mutual
    pub HasOverloads : Statement C → Type 0
    HasOverloads (let_in n e body) = HasOverloads body
    HasOverloads (let_remote n e body) = HasOverloads body
    HasOverloads (operation_statement n h args vars) = remotes (operation n h args vars) ≤ 1
    HasOverloads (assignment l e) = IsTarget l
    HasOverloads (return e) = Unit
    HasOverloads (if_else c t e) = HasOverloads t × HasOverloads e
    HasOverloads (while c body) = HasOverloads body
    HasOverloads (sequence ss) = HasOverloadsSequence ss

    pub HasOverloadsSequence : Sequence C → Type 0
    HasOverloadsSequence done = Unit
    HasOverloadsSequence (next s ss) = HasOverloads s × HasOverloadsSequence ss

  pub room_positive : (loop : ℕ) (s : Statement C) → 0 < room loop s
  room_positive loop (let_in n e body) = omega arith
  room_positive loop (let_remote n e body) = omega arith
  room_positive loop (operation_statement n h args vars) = omega arith
  room_positive loop (assignment l e) = omega arith
  room_positive loop (return e) = omega arith
  room_positive loop (if_else c t e) = omega arith
  room_positive loop (while c body) = omega arith
  room_positive loop (sequence ss) = omega arith

pub next_char_below : (n : ℕ) → n < 127 → next_char n ≡ some (n + 1)
unfolding next_char
next_char_below n h = ground arith
