-- ===== src/Flatten/FlattenExprs.antt =====
-- flatten_exprs: a tree whose statements use only flat expressions, made by moving layers in front
-- of them (transactions/mtl/flatten_expressions.hpp).
use mix_t.Base.{
  ℕ, zero, suc, String, Bool, true, false, Option, none, some, List, ◌>>=◌, ◌&&◌, ◌||◌,
}
use mix_t.Split.Named.{next_char}
use mix_t.Flatten.Tree.{
  Name, Expression, field_reference, endorse, ensure, is_valid, var_reference, constant, bin_op,
  operation, Args, no_args, arg, Statement, let_in, let_remote, operation_statement, assignment,
  return, if_else, while, sequence, Sequence, done, next, is_var_reference,
  contains_fieldpointer_ref,
}
use mix_t.Flatten.RemoveLayer.{remove_layer}

module _ {C : Type 0} where
  abbrev pub is_constant : Expression C → Bool
  is_constant (constant i) = true
  is_constant _ = false

  abbrev pub is_empty : Args C → Bool
  is_empty no_args = true
  is_empty (arg e es) = false

  -- The overloads of _flatten_exprs for a Let that is "already flat".
  unfoldable pub is_flat : Expression C → Bool
  is_flat (var_reference v) = true
  is_flat (constant i) = true
  is_flat (bin_op op L R) = is_var_reference L && is_var_reference R
  is_flat (field_reference e f) = is_var_reference e || is_constant e
  is_flat (is_valid e) = is_var_reference e
  is_flat (endorse l e) = is_var_reference e
  is_flat (ensure l e) = is_var_reference e
  is_flat (operation n h args vars) = is_var_reference h && is_empty args
  is_flat _ = false

  -- The overload of operation_to_statement_f for the end of the chain: a call whose result a
  -- variable returns.
  abbrev pub call_statement : Bool → Expression C → Option (Statement C)
  call_statement true (operation n h args vars) = some (operation_statement n h args vars)
  call_statement _ _ = none

  abbrev pub is_let_remote : Statement C → Bool
  is_let_remote (let_remote n e body) = true
  is_let_remote _ = false

  -- Where the overload that is called is declared behind the call: such a chain does not compile.
  abbrev pub declared_behind : Bool → Option (Statement C) → Option (Statement C)
  declared_behind true s = none
  declared_behind false s = s

  -- operation_to_statement_f; `none` is a chain that no overload is for. The overload for a Let
  -- before a LetRemote does not see the one for a LetRemote before a LetRemote.
  unfoldable pub operation_to_statement : Statement C → Option (Statement C)
  operation_to_statement (let_in n e (let_in m d body)) = do
    rest ← operation_to_statement (let_in m d body)
    some (let_in n e rest)
  operation_to_statement (let_in n e (let_remote m d body)) =
      let rest = operation_to_statement (let_remote m d body) in
      declared_behind (is_let_remote body) (rest >>= λ s. some (let_in n e s))
  operation_to_statement (let_remote n e (let_in m d body)) = do
    rest ← operation_to_statement (let_in m d body)
    some (let_remote n e rest)
  operation_to_statement (let_remote n e (let_remote m d body)) = do
    rest ← operation_to_statement (let_remote m d body)
    some (let_remote n e rest)
  operation_to_statement (let_in n e (return r)) = call_statement (is_var_reference r) e
  operation_to_statement _ = none

  -- The overloads below take flatten_exprs<seqnum, depth> as `rec`.
  module _ (rec : ℕ → ℕ → Statement C → Option (Statement C)) (seqnum depth : ℕ) where
    -- flatten_exprs<seqnum, depth + 1>.
    abbrev pub deeper : Statement C → Option (Statement C)
    deeper s = next_char depth >>= λ d. rec seqnum d s

    -- _flatten_exprs_helper, on what remove_layer left.
    abbrev pub flatten_exprs_helper : Option (Statement C) → Option (Statement C)
    flatten_exprs_helper partial = partial >>= λ s. deeper s

    abbrev pub flatten_let : Bool → Name → Expression C → Statement C → Option (Statement C)
    flatten_let true n e body = do body' ← deeper body; some (let_in n e body')
    flatten_let false n e body =
        flatten_exprs_helper (remove_layer seqnum depth (λ new. let_in n new body) e)

    abbrev pub flatten_let_remote : Bool → Name → Expression C → Statement C → Option (Statement C)
    flatten_let_remote true n e body = do body' ← deeper body; some (let_remote n e body')
    flatten_let_remote false n e body =
        flatten_exprs_helper (remove_layer seqnum depth (λ new. let_remote n new body) e)

    abbrev pub flatten_target : Bool → Expression C → Expression C → Option (Statement C)
    flatten_target false l e = some (assignment l e)
    flatten_target true l e =
        flatten_exprs_helper (remove_layer seqnum depth (λ new. assignment new e) l)

    abbrev pub flatten_assignment : Bool → Expression C → Expression C → Option (Statement C)
    flatten_assignment true l e = contains_fieldpointer_ref l >>= λ b. flatten_target b l e
    flatten_assignment false l e =
        flatten_exprs_helper (remove_layer seqnum depth (λ new. assignment l new) e)

    abbrev pub flatten_return : Bool → Expression C → Option (Statement C)
    flatten_return true e = some (return e)
    flatten_return false e = flatten_exprs_helper (remove_layer seqnum depth (λ new. return new) e)

    abbrev pub flatten_while : Bool → Expression C → Statement C → Option (Statement C)
    flatten_while true c body = do body' ← deeper body; some (while c body')
    flatten_while false c body =
        flatten_exprs_helper (remove_layer seqnum depth (λ new. while new body) c)

    abbrev pub flatten_if : Bool → Expression C → Statement C → Statement C → Option (Statement C)
    flatten_if true c t e = do
      d ← next_char depth
      t' ← rec seqnum d t
      behind ← next_char seqnum
      e' ← rec behind d e
      some (if_else c t' e')
    flatten_if false c t e =
        flatten_exprs_helper (remove_layer seqnum depth (λ new. if_else new t e) c)

    abbrev pub flatten_operation :
        Bool → String → Expression C → Args C → List Name → Option (Statement C)
    flatten_operation true n h args vars = some (operation_statement n h args vars)
    flatten_operation false n h args vars = do
      partial ← remove_layer seqnum depth (λ new. return new) (operation n h args vars)
      behind ← next_char seqnum
      s ← rec behind depth partial
      operation_to_statement s

  abbrev pub flatten_sequence :
      (ℕ → ℕ → Statement C → Option (Statement C)) → ℕ → ℕ → Sequence C → Option (Sequence C)
  flatten_sequence rec seqnum depth done = some done
  flatten_sequence rec seqnum depth (next s ss) = do
    s' ← rec seqnum depth s
    behind ← next_char seqnum
    ss' ← flatten_sequence rec behind depth ss
    some (next s' ss')

  abbrev pub flatten_step :
      (ℕ → ℕ → Statement C → Option (Statement C)) → ℕ → ℕ → Statement C → Option (Statement C)
  flatten_step rec seqnum depth (let_in n e body) =
      flatten_let rec seqnum depth (is_flat e) n e body
  flatten_step rec seqnum depth (let_remote n e body) =
      flatten_let_remote rec seqnum depth (is_var_reference e) n e body
  flatten_step rec seqnum depth (operation_statement n h args vars) =
      flatten_operation rec seqnum depth (is_flat (operation n h args vars)) n h args vars
  flatten_step rec seqnum depth (assignment l e) =
      flatten_assignment rec seqnum depth (is_var_reference e) l e
  flatten_step rec seqnum depth (return e) = flatten_return rec seqnum depth (is_var_reference e) e
  flatten_step rec seqnum depth (if_else c t e) =
      flatten_if rec seqnum depth (is_var_reference c) c t e
  flatten_step rec seqnum depth (while c body) =
      flatten_while rec seqnum depth (is_var_reference c) c body
  flatten_step rec seqnum depth (sequence ss) = do
    ss' ← flatten_sequence rec seqnum depth ss
    some (sequence ss')

  -- flatten_exprs<seqnum, depth>, on fuel, since what remove_layer leaves is no smaller. A char is
  -- below depth_limit, so the overload that returns the tree as it is has no call. `none` is a
  -- program that does not compile, or too little fuel.
  unfoldable pub flatten_exprs : ℕ → ℕ → ℕ → Statement C → Option (Statement C)
  flatten_exprs zero seqnum depth s = none
  flatten_exprs (suc fuel) seqnum depth s = flatten_step (flatten_exprs fuel) seqnum depth s
