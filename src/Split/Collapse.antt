-- ===== src/Split/Collapse.antt =====
-- Nested sequences are collapsed into one (transactions/mtl/AST_split.hpp).
use mix_t.Base.{ℕ, ◌+◌, ◌==◌, Bool, if◌then◌else◌}
use mix_t.Split.Tree.{SplitStatement, sequence, SplitSequence, done, next}

-- What collapse1 returns: a Statement or a Sequence.
pub data Collapsed (C : Type 0) : Type 0 where
  a_statement : SplitStatement C → Collapsed C
  a_sequence : SplitSequence C → Collapsed C

module _ {C : Type 0} where
  unfoldable mutual
    pub count_sequence : SplitStatement C → ℕ
    count_sequence (sequence ss) = count_sequences ss
    count_sequence s = 1

    pub count_sequences : SplitSequence C → ℕ
    count_sequences done = 0
    count_sequences (next s ss) = count_sequence s + count_sequences ss

  unfoldable pub is_empty_sequence : SplitStatement C → Bool
  is_empty_sequence s = count_sequence s == 0

  abbrev pub append_sequence : SplitSequence C → SplitSequence C → SplitSequence C
  append_sequence done more = more
  append_sequence (next s ss) more = next s (append_sequence ss more)

  -- Sequence<...>::append, for either argument.
  abbrev pub append : SplitSequence C → Collapsed C → SplitSequence C
  append ss (a_sequence more) = append_sequence ss more
  append ss (a_statement s) = append_sequence ss (next s done)

  unfoldable mutual
    pub collapse1 : SplitStatement C → Collapsed C
    collapse1 (sequence ss) = collapse1_sequence ss
    collapse1 s = a_statement s

    pub collapse1_sequence : SplitSequence C → Collapsed C
    collapse1_sequence done = a_sequence done
    collapse1_sequence (next s done) =
        let alone = collapse1 s in if is_empty_sequence s then a_sequence done else alone
    collapse1_sequence (next s (next s2 ss)) =
        let first = collapse1 s in
        let rest = collapse1_sequence (next s2 ss) in
        if is_empty_sequence s then rest else a_sequence (append (append done first) rest)

  unfoldable pub collapse : SplitSequence C → SplitStatement C
  collapse ss = sequence (append done (collapse1_sequence (append done (collapse1_sequence ss))))
