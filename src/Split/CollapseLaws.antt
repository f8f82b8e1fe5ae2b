-- ===== src/Split/CollapseLaws.antt =====
-- Laws of the collapse of sequences (transactions/mtl/AST_split.hpp).
use mix_t.Base.{◌≡◌, refl, sym, ap, ap₂, ◌∙◌, arith, true, inl, inr, Bool-cases}
use mix_t.Split.Tree.{
  SplitStatement, let_in, let_remote, assignment, return, write_tombstone, accompany_write,
  increment_occurance, increment_remote_occurance, refresh_remote_occurance, if_else, while,
  for_each, operation_statement, sequence, SplitSequence, done, next,
}
use mix_t.Split.Collapse.{
  Collapsed, a_statement, a_sequence, append, append_sequence, collapse, collapse1,
  collapse1_sequence, count_sequence, count_sequences, is_empty_sequence,
}

module _ {C : Type 0} where
  -- The statements of a sequence, with those of the sequences in it in their place.
  abbrev mutual
    pub flat : SplitStatement C → SplitSequence C
    flat (sequence ss) = flat_sequence ss
    flat s = next s done

    pub flat_sequence : SplitSequence C → SplitSequence C
    flat_sequence done = done
    flat_sequence (next s ss) = append_sequence (flat s) (flat_sequence ss)

  append_done : (ss : SplitSequence C) → append_sequence ss done ≡ ss
  append_done done = refl
  append_done (next s ss) = ap (next s) (append_done ss)

  append_assoc :
      (xs ys zs : SplitSequence C)
      → append_sequence (append_sequence xs ys) zs ≡ append_sequence xs (append_sequence ys zs)
  append_assoc done ys zs = refl
  append_assoc (next s xs) ys zs = ap (next s) (append_assoc xs ys zs)

  flat-append :
      (xs ys : SplitSequence C)
      → flat_sequence (append_sequence xs ys)
        ≡ append_sequence (flat_sequence xs) (flat_sequence ys)
  flat-append done ys = refl
  flat-append (next s xs) ys =
      rw (flat-append xs ys) (sym (append_assoc (flat s) (flat_sequence xs) (flat_sequence ys)))

  mutual
    flat-flat : (s : SplitStatement C) → flat_sequence (flat s) ≡ flat s
    flat-flat (sequence ss) = flat_sequence-flat ss
    flat-flat (let_in b s) = refl
    flat-flat (let_remote b s) = refl
    flat-flat (assignment v e) = refl
    flat-flat (return e) = refl
    flat-flat (write_tombstone e) = refl
    flat-flat (accompany_write e) = refl
    flat-flat (increment_occurance v) = refl
    flat-flat (increment_remote_occurance v) = refl
    flat-flat (refresh_remote_occurance k t v) = refl
    flat-flat (if_else c t e) = refl
    flat-flat (while c s n) = refl
    flat-flat (for_each s n) = refl
    flat-flat (operation_statement n h args) = refl

    flat_sequence-flat :
        (ss : SplitSequence C) → flat_sequence (flat_sequence ss) ≡ flat_sequence ss
    flat_sequence-flat done = refl
    flat_sequence-flat (next s ss) =
        flat-append (flat s) (flat_sequence ss)
        ∙ ap₂ append_sequence (flat-flat s) (flat_sequence-flat ss)

  -- A sequence of nothing is flat to nothing.
  mutual
    unfolding count_sequence count_sequences

    flat-count : (s : SplitStatement C) → count_sequence s ≡ 0 → flat s ≡ done
    flat-count (sequence ss) h = flat_sequence-count ss h
    flat-count (let_in b s) h = cc
    flat-count (let_remote b s) h = cc
    flat-count (assignment v e) h = cc
    flat-count (return e) h = cc
    flat-count (write_tombstone e) h = cc
    flat-count (accompany_write e) h = cc
    flat-count (increment_occurance v) h = cc
    flat-count (increment_remote_occurance v) h = cc
    flat-count (refresh_remote_occurance k t v) h = cc
    flat-count (if_else c t e) h = cc
    flat-count (while c s n) h = cc
    flat-count (for_each s n) h = cc
    flat-count (operation_statement n e args) h = cc

    flat_sequence-count : (ss : SplitSequence C) → count_sequences ss ≡ 0 → flat_sequence ss ≡ done
    flat_sequence-count done h = refl
    flat_sequence-count (next s ss) h =
        rw (flat-count s (omega arith), flat_sequence-count ss (omega arith))

  pub flat-empty : (s : SplitStatement C) → is_empty_sequence s ≡ true → flat s ≡ done
  unfolding is_empty_sequence
  flat-empty s h = flat-count s (ground arith)

  append-collapsed :
      (xs : SplitSequence C) (c : Collapsed C) → append xs c ≡ append_sequence xs (append done c)
  append-collapsed xs (a_statement s) = refl
  append-collapsed xs (a_sequence ss) = refl

  mutual
    unfolding collapse1 collapse1_sequence

    collapse1-flat : (s : SplitStatement C) → append done (collapse1 s) ≡ flat s
    collapse1-flat (sequence ss) = collapse1_sequence-flat ss
    collapse1-flat (let_in b s) = refl
    collapse1-flat (let_remote b s) = refl
    collapse1-flat (assignment v e) = refl
    collapse1-flat (return e) = refl
    collapse1-flat (write_tombstone e) = refl
    collapse1-flat (accompany_write e) = refl
    collapse1-flat (increment_occurance v) = refl
    collapse1-flat (increment_remote_occurance v) = refl
    collapse1-flat (refresh_remote_occurance k t v) = refl
    collapse1-flat (if_else c t e) = refl
    collapse1-flat (while c s n) = refl
    collapse1-flat (for_each s n) = refl
    collapse1-flat (operation_statement n h args) = refl

    collapse1_sequence-flat :
        (ss : SplitSequence C) → append done (collapse1_sequence ss) ≡ flat_sequence ss
    collapse1_sequence-flat done = refl
    collapse1_sequence-flat (next s done) = elim (Bool-cases (is_empty_sequence s)) [
      | inl e ↦ rw (e, flat-empty s e) refl
      | inr e ↦ rw e (collapse1-flat s ∙ sym (append_done (flat s)))
    ]
    collapse1_sequence-flat (next s (next s2 ss)) = elim (Bool-cases (is_empty_sequence s)) [
      | inl e ↦ rw (e, flat-empty s e) (collapse1_sequence-flat (next s2 ss))
      | inr e ↦ rw e (
          append-collapsed (append done (collapse1 s)) (collapse1_sequence (next s2 ss))
          ∙ ap₂ append_sequence (collapse1-flat s) (collapse1_sequence-flat (next s2 ss)))
    ]

  -- A collapsed sequence has the statements of the given one in order, with no sequence nested in
  -- another and no empty one.
  pub collapse_lem : (ss : SplitSequence C) → collapse ss ≡ sequence (flat_sequence ss)
  unfolding collapse
  collapse_lem ss = ap sequence (
      collapse1_sequence-flat (append done (collapse1_sequence ss))
      ∙ ap flat_sequence (collapse1_sequence-flat ss)
      ∙ flat_sequence-flat ss)
