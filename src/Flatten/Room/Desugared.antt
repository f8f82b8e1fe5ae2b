-- ===== src/Flatten/Room/Desugared.antt =====
-- Laws of desugar_while and of the whole pass, and the room of a tree
-- (transactions/mtl/flatten_expressions.hpp).
use mix_t.Base.{ℕ, ◌+◌, ◌≤◌, some, ◌≡◌, refl, arith}
use mix_t.Flatten.Tree.{
  Statement, let_in, let_remote, while_name, operation_statement, assignment, return, if_else,
  while, sequence, Sequence, done, next,
}
use mix_t.Flatten.FlattenExprs.{is_flat}
use mix_t.Flatten.Hoisting.{layers}
use mix_t.Flatten.Room.{
  room, room_sequence, HasOverloads, HasOverloadsSequence, room_positive, next_char_below,
}
use mix_t.Flatten.DesugarWhile.{loop_on, desugar_while, desugar_sequence, flatten_expressions}
use mix_t.Flatten.Room.Fits.{Returns}
use mix_t.Flatten.Room.Total.{flatten_exprs_total}

module _ {C : Type 0} where
  -- The desugared tree needs as much room as the loops were counted with.
  abbrev pub Desugars : ℕ → ℕ → Statement C → Type 0
  Desugars seqnum depth s =
      (t : Statement C) × (desugar_while seqnum depth s ≡ some t)
      × (room 0 t ≡ room 3 s)
      × (HasOverloads s → HasOverloads t)

  mutual
    unfolding desugar_while desugar_sequence layers is_flat

    desugar_while_total :
        (seqnum depth : ℕ) (s : Statement C)
        → room 3 s + depth ≤ 127
        → room 3 s + seqnum ≤ 127
        → Desugars seqnum depth s
    desugar_while_total seqnum depth (let_in n e body) p q =
        let r = desugar_while_total seqnum (depth + 1) body (omega arith) (omega arith) in
        let k = r.2 in
        (let_in n e r.0, rw (next_char_below depth (omega arith), r.1) refl, omega arith, r.3)
    desugar_while_total seqnum depth (let_remote n e body) p q =
        let r = desugar_while_total seqnum (depth + 1) body (omega arith) (omega arith) in
        let k = r.2 in
        (let_remote n e r.0, rw (next_char_below depth (omega arith), r.1) refl, omega arith, r.3)
    desugar_while_total seqnum depth (operation_statement n h args vars) p q =
        (operation_statement n h args vars, refl, refl, λ t. t)
    desugar_while_total seqnum depth (assignment l e) p q = (assignment l e, refl, refl, λ t. t)
    desugar_while_total seqnum depth (return e) p q = (return e, refl, refl, λ t. t)
    desugar_while_total seqnum depth (if_else c t e) p q =
        let x = room_positive 3 t in
        let y = room_positive 3 e in
        let a = desugar_while_total seqnum (depth + 1) t (omega arith) (omega arith) in
        let b = desugar_while_total (seqnum + 1) (depth + 1) e (omega arith) (omega arith) in
        let k = a.2 in
        let m = b.2 in
        (
          if_else c a.0 b.0,
          rw (next_char_below depth (omega arith), a.1, next_char_below seqnum (omega arith), b.1)
              refl,
          omega arith,
          λ h. (a.3 h.0, b.3 h.1),
        )
    desugar_while_total seqnum depth (while c body) p q =
        let r = desugar_while_total seqnum (depth + 1) body (omega arith) (omega arith) in
        let k = r.2 in
        (
          loop_on (while_name seqnum depth) c r.0,
          rw (next_char_below depth (omega arith), r.1) refl,
          omega arith,
          λ h. (r.3 h, tt),
        )
    desugar_while_total seqnum depth (sequence ss) p q =
        let r = desugar_sequence_total seqnum depth ss (omega arith) (omega arith) in
        let k = r.2 in (sequence r.0, rw r.1 refl, omega arith, r.3)

    desugar_sequence_total :
        (seqnum depth : ℕ) (ss : Sequence C)
        → room_sequence 3 ss + depth ≤ 127
        → room_sequence 3 ss + seqnum ≤ 127
        → (ts : Sequence C) × (desugar_sequence seqnum depth ss ≡ some ts)
          × (room_sequence 0 ts ≡ room_sequence 3 ss)
          × (HasOverloadsSequence ss → HasOverloadsSequence ts)
    desugar_sequence_total seqnum depth done p q = (done, refl, refl, λ t. t)
    desugar_sequence_total seqnum depth (next s ss) p q =
        let x = room_positive 3 s in
        let a = desugar_while_total seqnum depth s (omega arith) (omega arith) in
        let b = desugar_sequence_total (seqnum + 1) depth ss (omega arith) (omega arith) in
        let k = a.2 in
        let m = b.2 in
        (
          next a.0 b.0,
          rw (a.1, next_char_below seqnum (omega arith), b.1) refl,
          omega arith,
          λ h. (a.3 h.0, b.3 h.1),
        )

  -- Where each assignment is to a target, each call that is a statement uses at most one object
  -- behind a handle, and the tree takes at most 126 steps (two for each layer of an expression, one
  -- for each statement, three more for each loop), flatten_expressions returns a tree, and fuel 126
  -- is enough.
  pub flatten_expressions_total :
      (s : Statement C) → HasOverloads s → room 3 s ≤ 126 → Returns (flatten_expressions 126 s)
  unfolding flatten_expressions
  flatten_expressions_total s h k =
      let d = desugar_while_total 1 1 s (omega arith) (omega arith) in
      let m = d.2 in
      let r = flatten_exprs_total 126 1 1 d.0 (d.3 h, omega arith, omega arith, omega arith) in
      (r.0, rw d.1 r.1)
