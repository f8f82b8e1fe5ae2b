-- ===== src/Split/Named.antt =====
-- The pass before the split: each loop gets a name, and a return may stand only at the top level
-- (transactions/mtl/name_while.hpp).
use mix_t.Labels.Order.{LabelOrder}
use mix_t.Labels.Term.{resolved_label_min}
use mix_t.Inference.Constraints.{label_of}
use mix_t.Base.{ℕ, ◌+◌, ltb, Bool, true, false, Option, none, some, if◌then◌else◌, ◌>>=◌}
use mix_t.Split.NamedTree.{LoopName, NamedStatement, NamedSequence}
use mix_t.Ast.{
  Expression, Statement, let_in, let_remote, assignment, return, write_tombstone, accompany_write,
  if_else, while, operation_statement, sequence, Sequence, done, next,
}

-- The template parameters seqnum and depth are chars: a larger value is no template argument.
abbrev pub char_max : ℕ
char_max = 127

unfoldable pub next_char : ℕ → Option ℕ
next_char n = if ltb n char_max then some (n + 1) else none

abbrev pub loop_name : ℕ → ℕ → LoopName
loop_name seqnum depth = record { seqnum = seqnum; depth = depth }

module _ {C : Type 0} where
  -- The static_assert that a return is allowed.
  abbrev pub when_allowed : Bool → NamedStatement C → Option (NamedStatement C)
  when_allowed true s = some s
  when_allowed false s = none

  -- A return in a sequence must be allowed, and be the last statement.
  abbrev pub last_return : Bool → Expression C → Sequence C → Option (NamedSequence C)
  last_return true e done = some (NamedSequence.next (NamedStatement.return e) NamedSequence.done)
  last_return true e (next s ss) = none
  last_return false e ss = none

module _ {C : Type 0} ⦃o : LabelOrder C⦄ where
  -- easy_processing with its accum<seqnum, depth, returns_allowed>; `none` is a failed
  -- static_assert, or a label that does not resolve. An assignment, the write of a tombstone and an
  -- accompanying write pass through default_traverse, which computes their label anew.
  unfoldable mutual
    pub easy_processing : ℕ → ℕ → Bool → Statement C → Option (NamedStatement C)
    easy_processing seqnum depth b (let_in l bind body) = do
      body' ← easy_processing seqnum depth b body
      some (NamedStatement.let_in l bind body')
    easy_processing seqnum depth b (let_remote l bind body) = do
      body' ← easy_processing seqnum depth b body
      some (NamedStatement.let_remote l bind body')
    easy_processing seqnum depth b (return e) = when_allowed b (NamedStatement.return e)
    easy_processing seqnum depth b (while l c body) = do
      deeper ← next_char depth
      body' ← easy_processing seqnum deeper false body
      some (NamedStatement.while l c body' (loop_name seqnum depth))
    easy_processing seqnum depth b (if_else l c t e) = do
      t' ← easy_processing seqnum depth false t
      e' ← easy_processing seqnum depth false e
      some (NamedStatement.if_else l c t' e')
    easy_processing seqnum depth b (sequence l ss) = do
      first ← next_char seqnum
      ss' ← easy_processing_stmt first depth b ss
      some (NamedStatement.sequence l ss')
    easy_processing seqnum depth b (assignment l v e) = do
      l' ← resolved_label_min (label_of v) (label_of e)
      some (NamedStatement.assignment l' v e)
    easy_processing seqnum depth b (write_tombstone l e) =
        some (NamedStatement.write_tombstone (label_of e) e)
    easy_processing seqnum depth b (accompany_write l e) =
        some (NamedStatement.accompany_write (label_of e) e)
    easy_processing seqnum depth b (operation_statement l n h args) =
        some (NamedStatement.operation_statement l n h args)

    pub easy_processing_stmt : ℕ → ℕ → Bool → Sequence C → Option (NamedSequence C)
    easy_processing_stmt seqnum depth b done = some NamedSequence.done
    easy_processing_stmt seqnum depth b (next (return e) ss) = last_return b e ss
    easy_processing_stmt seqnum depth b (next s ss) = do
      s' ← easy_processing seqnum depth b s
      behind ← next_char seqnum
      ss' ← easy_processing_stmt behind depth b ss
      some (NamedSequence.next s' ss')

  unfoldable pub easy_processing_pass : Statement C → Option (NamedStatement C)
  easy_processing_pass s = easy_processing 1 1 true s
