-- ===== src/Flatten/DesugarWhile.antt =====
-- desugar_while: a loop on any condition becomes a loop on a new variable; and the whole pass,
-- flatten_expressions (transactions/mtl/flatten_expressions.hpp).
use mix_t.Base.{ℕ, Option, some, ◌>>=◌}
use mix_t.Split.Named.{next_char}
use mix_t.Flatten.Tree.{
  Name, true_name, false_name, while_name, Expression, var_reference, Statement, let_in, let_remote,
  operation_statement, assignment, return, if_else, while, sequence, Sequence, done, next,
}
use mix_t.Flatten.FlattenExprs.{flatten_exprs}

module _ {C : Type 0} where
  -- What a loop becomes, given its body desugared: the loop runs as long as its variable holds
  -- true, and a round whose condition fails sets it to false.
  abbrev pub loop_on : Name → Expression C → Statement C → Statement C
  loop_on n c body = let_in n (var_reference (true_name)) (
      while (var_reference n)
        (if_else c body (assignment (var_reference n) (var_reference (false_name)))))

  unfoldable mutual
    pub desugar_while : ℕ → ℕ → Statement C → Option (Statement C)
    desugar_while seqnum depth (let_in n e body) = do
      d ← next_char depth
      body' ← desugar_while seqnum d body
      some (let_in n e body')
    desugar_while seqnum depth (let_remote n e body) = do
      d ← next_char depth
      body' ← desugar_while seqnum d body
      some (let_remote n e body')
    desugar_while seqnum depth (assignment l e) = some (assignment l e)
    desugar_while seqnum depth (operation_statement n h args vars) =
        some (operation_statement n h args vars)
    desugar_while seqnum depth (return e) = some (return e)
    desugar_while seqnum depth (if_else c t e) = do
      d ← next_char depth
      t' ← desugar_while seqnum d t
      behind ← next_char seqnum
      e' ← desugar_while behind d e
      some (if_else c t' e')
    desugar_while seqnum depth (while c body) = do
      d ← next_char depth
      body' ← desugar_while seqnum d body
      some (loop_on (while_name seqnum depth) c body')
    desugar_while seqnum depth (sequence ss) = do
      ss' ← desugar_sequence seqnum depth ss
      some (sequence ss')

    pub desugar_sequence : ℕ → ℕ → Sequence C → Option (Sequence C)
    desugar_sequence seqnum depth done = some done
    desugar_sequence seqnum depth (next s ss) = do
      s' ← desugar_while seqnum depth s
      behind ← next_char seqnum
      ss' ← desugar_sequence behind depth ss
      some (next s' ss')

  -- flatten_expressions.
  unfoldable pub flatten_expressions : ℕ → Statement C → Option (Statement C)
  flatten_expressions fuel s = desugar_while 1 1 s >>= λ s'. flatten_exprs fuel 1 1 s'
