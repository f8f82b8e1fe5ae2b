-- ===== src/Flatten/Room/Total.antt =====
-- Laws of the overloads of _flatten_exprs and the room of a tree
-- (transactions/mtl/flatten_expressions.hpp).
use mix_t.Base.{
  ℕ, zero, suc, ◌+◌, ◌≤◌, String, Bool, true, false, Option, some, List, ◌≡◌, refl, arith,
}
use mix_t.Flatten.Tree.{
  Name, Expression, operation, Args, Statement, let_in, let_remote, operation_statement, assignment,
  return, if_else, while, sequence, Sequence, done, next, contains_fieldpointer_ref,
  is_var_reference,
}
use mix_t.Flatten.Hoisting.{bind_layer}
use mix_t.Flatten.Hoisting.Cases.{remove_layer_cases, Hoists-layers}
use mix_t.Flatten.FlattenExprs.{
  is_flat, flatten_let, flatten_let_remote, flatten_target, flatten_assignment, flatten_return,
  flatten_while, flatten_if, flatten_operation, flatten_sequence, flatten_step, flatten_exprs,
}
use mix_t.Flatten.Room.Remotes.{chain, chain-bind_layer}
use mix_t.Flatten.Room.Chain.{
  Pending, EndsInCall, operation_to_statement_total, call_layer, flatten_exprs-EndsInCall,
}
use mix_t.Flatten.Room.{room_sequence, HasOverloadsSequence, room_positive, next_char_below}
use mix_t.Flatten.Room.Targets.{contains_fieldpointer_ref_total, Hoists-IsTarget}
use mix_t.Flatten.Room.Fits.{
  layer_room, layer_targets, no_variable, no_variable_target, bound_room_le, Returns, Fits,
  helper_total, around_total,
}

module _ {C : Type 0} where
  module _ (rec : ℕ → ℕ → Statement C → Option (Statement C)) (steps : ℕ)
      (ih : (seqnum depth : ℕ) (s : Statement C)
        → Fits steps seqnum depth s
        → Returns (rec seqnum depth s))
      (seqnum depth : ℕ) where
    flatten_let_total :
        (b : Bool) (n : Name) (e : Expression C) (body : Statement C)
        → is_flat e ≡ b
        → Fits (suc steps) seqnum depth (let_in n e body)
        → Returns (flatten_let rec seqnum depth b n e body)
    flatten_let_total true n e body w f =
        let (_, p, q, u) = f in
        around_total rec steps ih seqnum depth (let_in n e) body
          (f.0, omega arith, omega arith, omega arith)
    flatten_let_total false n e body w f =
        helper_total rec steps ih seqnum depth (λ new. let_in n new body) e (let_in n e body)
          (no_variable e w) f
          (λ l e' h k. let m = bound_room_le (is_flat e') e' in (f.0, rw w (omega arith)))

    flatten_let_remote_total :
        (b : Bool) (n : Name) (e : Expression C) (body : Statement C)
        → is_var_reference e ≡ b
        → Fits (suc steps) seqnum depth (let_remote n e body)
        → Returns (flatten_let_remote rec seqnum depth b n e body)
    flatten_let_remote_total true n e body w f =
        let (_, p, q, u) = f in
        around_total rec steps ih seqnum depth (let_remote n e) body
          (f.0, omega arith, omega arith, omega arith)
    flatten_let_remote_total false n e body w f =
        helper_total rec steps ih seqnum depth (λ new. let_remote n new body) e
          (let_remote n e body) w f (λ l e' h k. (f.0, omega arith))

    flatten_while_total :
        (b : Bool) (c : Expression C) (body : Statement C)
        → is_var_reference c ≡ b
        → Fits (suc steps) seqnum depth (while c body)
        → Returns (flatten_while rec seqnum depth b c body)
    flatten_while_total true c body w f =
        let (_, p, q, u) = f in
        around_total rec steps ih seqnum depth (while c) body
          (f.0, omega arith, omega arith, omega arith)
    flatten_while_total false c body w f =
        helper_total rec steps ih seqnum depth (λ new. while new body) c (while c body) w f
          (λ l e' h k. (f.0, omega arith))

    flatten_return_total :
        (b : Bool) (e : Expression C)
        → is_var_reference e ≡ b
        → Fits (suc steps) seqnum depth (return e)
        → Returns (flatten_return rec seqnum depth b e)
    flatten_return_total true e w f = (return e, refl)
    flatten_return_total false e w f =
        helper_total rec steps ih seqnum depth (λ new. return new) e (return e) w f
          (λ l e' h k. (tt, omega arith))

    flatten_assignment_total :
        (b : Bool) (l e : Expression C)
        → is_var_reference e ≡ b
        → Fits (suc steps) seqnum depth (assignment l e)
        → Returns (flatten_assignment rec seqnum depth b l e)
    flatten_assignment_total true l e w f =
        let r = contains_fieldpointer_ref_total l f.0 in rw r.1 (flatten_target_total r.0 l e r.1 f)
      where
        flatten_target_total :
            (b : Bool) (l e : Expression C)
            → contains_fieldpointer_ref l ≡ some b
            → Fits (suc steps) seqnum depth (assignment l e)
            → Returns (flatten_target rec seqnum depth b l e)
        flatten_target_total false l e w f = (assignment l e, refl)
        flatten_target_total true l e w f =
            helper_total rec steps ih seqnum depth (λ new. assignment new e) l (assignment l e)
              (no_variable_target l w) f
              (λ y l' h k. (Hoists-IsTarget seqnum depth l y l' w h, omega arith))
    flatten_assignment_total false l e w f =
        helper_total rec steps ih seqnum depth (λ new. assignment l new) e (assignment l e) w f
          (λ y e' h k. (f.0, omega arith))

    flatten_if_total :
        (b : Bool) (c : Expression C) (t e : Statement C)
        → is_var_reference c ≡ b
        → Fits (suc steps) seqnum depth (if_else c t e)
        → Returns (flatten_if rec seqnum depth b c t e)
    flatten_if_total true c t e w f =
        let (_, p, q, u) = f in
        let x = room_positive 0 t in
        let y = room_positive 0 e in
        let t' = ih seqnum (depth + 1) t (f.0.0, omega arith, omega arith, omega arith) in
        let e' = ih (seqnum + 1) (depth + 1) e (f.0.1, omega arith, omega arith, omega arith) in
        (
          if_else c t'.0 e'.0,
          rw (next_char_below depth (omega arith), t'.1, next_char_below seqnum (omega arith), e'.1)
              refl,
        )
    flatten_if_total false c t e w f =
        helper_total rec steps ih seqnum depth (λ new. if_else new t e) c (if_else c t e) w f
          (λ l c' h k. (f.0, omega arith))

    flatten_operation_total :
        (b : Bool) (n : String) (x : Expression C) (args : Args C) (vars : List Name)
        → is_flat (operation n x args vars) ≡ b
        → Fits (suc steps) seqnum depth (operation_statement n x args vars)
        → ((seqnum depth : ℕ) (s t : Statement C)
            → Pending s
            → rec seqnum depth s ≡ some t
            → EndsInCall t × (chain t ≤ chain s))
        → Returns (flatten_operation rec seqnum depth b n x args vars)
    flatten_operation_total true n x args vars w f g = (operation_statement n x args vars, refl)
    flatten_operation_total false n x args vars w f g =
        let e = operation n x args vars in
        let r = remove_layer_cases seqnum depth (λ new. return new) e refl in
        let k = Hoists-layers seqnum depth e r.0 r.1 r.2 in
        let m = layer_room seqnum depth r.0 (return r.1) k.0 in
        let (_, j) = k in
        let (_, p, q, u) = f in
        let s =
          ih (seqnum + 1) depth (bind_layer seqnum depth r.0 (return r.1)) (
            layer_targets seqnum depth r.0 (return r.1) tt,
            omega arith,
            omega arith,
            omega arith,
          ) in
        let (ends, shorter) =
          g (seqnum + 1) depth (bind_layer seqnum depth r.0 (return r.1)) s.0
            (call_layer seqnum depth n x args vars r.0 r.1 r.2) s.1 in
        let in_chain = chain-bind_layer seqnum depth e r.0 r.1 r.2 in
        let one = f.0 in
        let t = operation_to_statement_total s.0 ends (omega arith) in
        (t.0, rw (r.3, next_char_below seqnum (omega arith), s.1) t.1)

    flatten_sequence_total :
        (seqnum : ℕ) (ss : Sequence C)
        → HasOverloadsSequence ss
        → room_sequence 0 ss ≤ steps
        → room_sequence 0 ss + depth ≤ 127
        → room_sequence 0 ss + seqnum ≤ 127
        → (ts : Sequence C) × (flatten_sequence rec seqnum depth ss ≡ some ts)
    flatten_sequence_total seqnum done t p q u = (done, refl)
    flatten_sequence_total seqnum (next s ss) t p q u =
        let x = room_positive 0 s in
        let s' = ih seqnum depth s (t.0, omega arith, omega arith, omega arith) in
        let ss' =
          flatten_sequence_total (seqnum + 1) ss t.1 (omega arith) (omega arith) (omega arith) in
        (next s'.0 ss'.0, rw (s'.1, next_char_below seqnum (omega arith), ss'.1) refl)

    flatten_step_total :
        (s : Statement C)
        → Fits (suc steps) seqnum depth s
        → ((seqnum depth : ℕ) (s t : Statement C)
            → Pending s
            → rec seqnum depth s ≡ some t
            → EndsInCall t × (chain t ≤ chain s))
        → Returns (flatten_step rec seqnum depth s)
    flatten_step_total (let_in n e body) f g = flatten_let_total (is_flat e) n e body refl f
    flatten_step_total (let_remote n e body) f g =
        flatten_let_remote_total (is_var_reference e) n e body refl f
    flatten_step_total (operation_statement n x args vars) f g =
        flatten_operation_total (is_flat (operation n x args vars)) n x args vars refl f g
    flatten_step_total (assignment l e) f g =
        flatten_assignment_total (is_var_reference e) l e refl f
    flatten_step_total (return e) f g = flatten_return_total (is_var_reference e) e refl f
    flatten_step_total (if_else c t e) f g = flatten_if_total (is_var_reference c) c t e refl f
    flatten_step_total (while c body) f g = flatten_while_total (is_var_reference c) c body refl f
    flatten_step_total (sequence ss) f g =
        let (_, p, q, u) = f in
        let r = flatten_sequence_total seqnum ss f.0 (omega arith) (omega arith) (omega arith) in
        (sequence r.0, rw r.1 refl)

  -- flatten_exprs returns a tree on fuel for each step, where seqnum and depth have room for them.
  pub flatten_exprs_total :
      (fuel seqnum depth : ℕ) (s : Statement C)
      → Fits fuel seqnum depth s
      → Returns (flatten_exprs fuel seqnum depth s)
  unfolding flatten_exprs
  flatten_exprs_total zero seqnum depth s f =
      let (_, p, _, _) = f in let q = room_positive 0 s in absurd (omega arith)
  flatten_exprs_total (suc fuel) seqnum depth s f =
      flatten_step_total (flatten_exprs fuel) fuel (flatten_exprs_total fuel) seqnum depth s f
        (flatten_exprs-EndsInCall fuel)
