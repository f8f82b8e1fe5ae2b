-- ===== src/Split/NamedLaws.antt =====
-- Laws of the pass that names loops (transactions/mtl/name_while.hpp).
use mix_t.Labels.Order.{LabelOrder}
use mix_t.Inference.Constraints.{label_of}
use mix_t.Base.{
  none, ℕ, Bool, true, false, ◌≡◌, refl, sym, ap, ap₂, some, Option, some-inj, >>=-eq-some, ◌>>=◌,
}
use mix_t.Labels.Term.{Label, resolved_label_min}
use mix_t.Ast.{
  Expression, Statement, let_in, let_remote, assignment, return, write_tombstone, accompany_write,
  if_else, while, operation_statement, sequence, Sequence, done, next,
}
use mix_t.Split.NamedTree.{NamedStatement, NamedSequence}
use mix_t.Split.Named.{
  last_return, loop_name, next_char, easy_processing, easy_processing_stmt, easy_processing_pass,
}

module _ {C : Type 0} ⦃o : LabelOrder C⦄ where
  -- The tree without the names.
  abbrev mutual
    pub unnamed : NamedStatement C → Statement C
    unnamed (NamedStatement.let_in l b s) = let_in l b (unnamed s)
    unnamed (NamedStatement.let_remote l b s) = let_remote l b (unnamed s)
    unnamed (NamedStatement.assignment l v e) = assignment l v e
    unnamed (NamedStatement.return e) = return e
    unnamed (NamedStatement.write_tombstone l e) = write_tombstone l e
    unnamed (NamedStatement.accompany_write l e) = accompany_write l e
    unnamed (NamedStatement.if_else l c t e) = if_else l c (unnamed t) (unnamed e)
    unnamed (NamedStatement.while l c s n) = while l c (unnamed s)
    unnamed (NamedStatement.operation_statement l n h args) = operation_statement l n h args
    unnamed (NamedStatement.sequence l ss) = sequence l (unnamed_sequence ss)

    pub unnamed_sequence : NamedSequence C → Sequence C
    unnamed_sequence NamedSequence.done = done
    unnamed_sequence (NamedSequence.next s ss) = next (unnamed s) (unnamed_sequence ss)

  -- The label that default_traverse gives an assignment, where its resolution compiles.
  abbrev pub joint_label : Label C → Label C → Label C
  joint_label l r = elim (resolved_label_min l r) [ none ↦ l | some m ↦ m ]

  joint_label_lem : (l r m : Label C) → resolved_label_min l r ≡ some m → m ≡ joint_label l r
  joint_label_lem l r m e = rw (joint_label, e) refl

  -- The tree with the labels of its assignments, tombstones and accompanying writes computed from
  -- their expressions.
  abbrev mutual
    pub relabelled : Statement C → Statement C
    relabelled (let_in l b s) = let_in l b (relabelled s)
    relabelled (let_remote l b s) = let_remote l b (relabelled s)
    relabelled (assignment l v e) = assignment (joint_label (label_of v) (label_of e)) v e
    relabelled (return e) = return e
    relabelled (write_tombstone l e) = write_tombstone (label_of e) e
    relabelled (accompany_write l e) = accompany_write (label_of e) e
    relabelled (if_else l c t e) = if_else l c (relabelled t) (relabelled e)
    relabelled (while l c s) = while l c (relabelled s)
    relabelled (operation_statement l n h args) = operation_statement l n h args
    relabelled (sequence l ss) = sequence l (relabelled_sequence ss)

    pub relabelled_sequence : Sequence C → Sequence C
    relabelled_sequence done = done
    relabelled_sequence (next s ss) = next (relabelled s) (relabelled_sequence ss)

  -- No return stands in the statement.
  abbrev mutual
    pub NoReturn : Statement C → Type 0
    NoReturn (let_in l b s) = NoReturn s
    NoReturn (let_remote l b s) = NoReturn s
    NoReturn (assignment l v e) = Unit
    NoReturn (return e) = ⊥
    NoReturn (write_tombstone l e) = Unit
    NoReturn (accompany_write l e) = Unit
    NoReturn (if_else l c t e) = NoReturn t × NoReturn e
    NoReturn (while l c s) = NoReturn s
    NoReturn (operation_statement l n h args) = Unit
    NoReturn (sequence l ss) = NoReturnSequence ss

    pub NoReturnSequence : Sequence C → Type 0
    NoReturnSequence done = Unit
    NoReturnSequence (next s ss) = NoReturn s × NoReturnSequence ss

  -- No return stands in a branch or in a loop.
  abbrev mutual
    pub OnlyTopReturns : Statement C → Type 0
    OnlyTopReturns (let_in l b s) = OnlyTopReturns s
    OnlyTopReturns (let_remote l b s) = OnlyTopReturns s
    OnlyTopReturns (assignment l v e) = Unit
    OnlyTopReturns (return e) = Unit
    OnlyTopReturns (write_tombstone l e) = Unit
    OnlyTopReturns (accompany_write l e) = Unit
    OnlyTopReturns (if_else l c t e) = NoReturn t × NoReturn e
    OnlyTopReturns (while l c s) = NoReturn s
    OnlyTopReturns (operation_statement l n h args) = Unit
    OnlyTopReturns (sequence l ss) = OnlyTopReturnsSequence ss

    pub OnlyTopReturnsSequence : Sequence C → Type 0
    OnlyTopReturnsSequence done = Unit
    OnlyTopReturnsSequence (next s ss) = OnlyTopReturns s × OnlyTopReturnsSequence ss

  -- What the pass does where returns are not allowed, and where they are.
  abbrev Named : Bool → Statement C → NamedStatement C → Type 0
  Named false s s' = (unnamed s' ≡ relabelled s) × NoReturn s
  Named true s s' = (unnamed s' ≡ relabelled s) × OnlyTopReturns s

  abbrev NamedAll : Bool → Sequence C → NamedSequence C → Type 0
  NamedAll false ss ss' = (unnamed_sequence ss' ≡ relabelled_sequence ss) × NoReturnSequence ss
  NamedAll true ss ss' = (unnamed_sequence ss' ≡ relabelled_sequence ss) × OnlyTopReturnsSequence ss

  last_return_lem :
      (b : Bool) (e : Expression C) (ss : Sequence C) (ss' : NamedSequence C)
      → last_return b e ss ≡ some ss'
      → NamedAll b (next (return e) ss) ss'
  last_return_lem true e done ss' h = rw (sym (some-inj _ _ h)) (refl, (tt, tt))
  last_return_lem true e (next s ss) ss' h = cc
  last_return_lem false e done ss' h = cc
  last_return_lem false e (next s ss) ss' h = cc

  Named-leaf :
      (b : Bool) (s : Statement C) (s0 s' : NamedStatement C)
      → some s0 ≡ some s'
      → Named b s s0
      → Named b s s'
  Named-leaf b s s0 s' h n = rw (sym (some-inj _ _ h)) n

  NamedAll-some :
      (b : Bool) (ss : Sequence C) (ss0 ss' : NamedSequence C)
      → some ss0 ≡ some ss'
      → NamedAll b ss ss0
      → NamedAll b ss ss'
  NamedAll-some b ss ss0 ss' h n = rw (sym (some-inj _ _ h)) n

  -- A leaf of the tree, which holds no return.
  Named-of_both :
      (b : Bool) (s : Statement C) (s' : NamedStatement C)
      → unnamed s' ≡ relabelled s
      → NoReturn s
      → OnlyTopReturns s
      → Named b s s'
  Named-of_both false s s' e n t = (e, n)
  Named-of_both true s s' e n t = (e, t)

  NamedAll-next :
      (b : Bool) (s : Statement C) (ss : Sequence C) (s' : NamedStatement C) (ss' : NamedSequence C)
      → Named b s s'
      → NamedAll b ss ss'
      → NamedAll b (next s ss) (NamedSequence.next s' ss')
  NamedAll-next false s ss s' ss' (p, q) (u, v) = (ap₂ next p u, (q, v))
  NamedAll-next true s ss s' ss' (p, q) (u, v) = (ap₂ next p u, (q, v))

  -- The continuations of the step over a sequence.
  abbrev named_both : NamedStatement C → NamedSequence C → Option (NamedSequence C)
  named_both s' ss' = some (NamedSequence.next s' ss')

  abbrev named_after : ℕ → Bool → Sequence C → NamedStatement C → ℕ → Option (NamedSequence C)
  named_after d b ss s' behind = easy_processing_stmt behind d b ss >>= named_both s'

  abbrev named_rest : ℕ → ℕ → Bool → Sequence C → NamedStatement C → Option (NamedSequence C)
  named_rest q d b ss s' = next_char q >>= named_after d b ss s'

  mutual
    unfolding easy_processing easy_processing_stmt

    easy_processing-Named :
        (seqnum depth : ℕ) (b : Bool) (s : Statement C) (s' : NamedStatement C)
        → easy_processing seqnum depth b s ≡ some s'
        → Named b s s'
    easy_processing-Named q d false (let_in l bind body) s' h =
        let (body', e, k) = >>=-eq-some (easy_processing q d false body) _ h in
        let (same, none_in) = easy_processing-Named q d false body body' e in
        Named-leaf false (let_in l bind body) _ s' k (ap (let_in l bind) same, none_in)
    easy_processing-Named q d true (let_in l bind body) s' h =
        let (body', e, k) = >>=-eq-some (easy_processing q d true body) _ h in
        let (same, top) = easy_processing-Named q d true body body' e in
        Named-leaf true (let_in l bind body) _ s' k (ap (let_in l bind) same, top)
    easy_processing-Named q d false (let_remote l bind body) s' h =
        let (body', e, k) = >>=-eq-some (easy_processing q d false body) _ h in
        let (same, none_in) = easy_processing-Named q d false body body' e in
        Named-leaf false (let_remote l bind body) _ s' k (ap (let_remote l bind) same, none_in)
    easy_processing-Named q d true (let_remote l bind body) s' h =
        let (body', e, k) = >>=-eq-some (easy_processing q d true body) _ h in
        let (same, top) = easy_processing-Named q d true body body' e in
        Named-leaf true (let_remote l bind body) _ s' k (ap (let_remote l bind) same, top)
    easy_processing-Named q d true (return e) s' h = Named-leaf true (return e) _ s' h (refl, tt)
    easy_processing-Named q d false (return e) s' h = cc
    easy_processing-Named q d b (while l c body) s' h =
        let (deeper, _, k) = >>=-eq-some (next_char d) _ h in
        let (body', e, m) = >>=-eq-some (easy_processing q deeper false body) _ k in
        let (same, none_in) = easy_processing-Named q deeper false body body' e in
        Named-leaf b (while l c body) _ s' m (
          Named-of_both b (while l c body) (NamedStatement.while l c body' (loop_name q d))
            (ap (while l c) same) none_in none_in)
    easy_processing-Named q d b (if_else l c t e) s' h =
        let (t', p, k) = >>=-eq-some (easy_processing q d false t) _ h in
        let (e', r, m) = >>=-eq-some (easy_processing q d false e) _ k in
        let (same, none_in) = easy_processing-Named q d false t t' p in
        let (same', none_in') = easy_processing-Named q d false e e' r in
        Named-leaf b (if_else l c t e) _ s' m (
          Named-of_both b (if_else l c t e) (NamedStatement.if_else l c t' e')
            (ap₂ (if_else l c) same same') (none_in, none_in') (none_in, none_in'))
    easy_processing-Named q d false (sequence l ss) s' h =
        let (first, _, k) = >>=-eq-some (next_char q) _ h in
        let (ss', e, m) = >>=-eq-some (easy_processing_stmt first d false ss) _ k in
        let (same, none_in) = easy_processing_stmt-NamedAll first d false ss ss' e in
        Named-leaf false (sequence l ss) _ s' m (ap (sequence l) same, none_in)
    easy_processing-Named q d true (sequence l ss) s' h =
        let (first, _, k) = >>=-eq-some (next_char q) _ h in
        let (ss', e, m) = >>=-eq-some (easy_processing_stmt first d true ss) _ k in
        let (same, top) = easy_processing_stmt-NamedAll first d true ss ss' e in
        Named-leaf true (sequence l ss) _ s' m (ap (sequence l) same, top)
    easy_processing-Named q d b (assignment l v e) s' h =
        let (l', e', k) = >>=-eq-some (resolved_label_min (label_of v) (label_of e)) _ h in
        Named-leaf b (assignment l v e) _ s' k (
          Named-of_both b (assignment l v e) (NamedStatement.assignment l' v e)
            (ap (λ k. assignment k v e) (joint_label_lem (label_of v) (label_of e) l' e')) tt tt)
    easy_processing-Named q d b (write_tombstone l e) s' h =
        Named-leaf b (write_tombstone l e) _ s' h (
          Named-of_both b (write_tombstone l e) (NamedStatement.write_tombstone (label_of e) e) refl
            tt tt)
    easy_processing-Named q d b (accompany_write l e) s' h =
        Named-leaf b (accompany_write l e) _ s' h (
          Named-of_both b (accompany_write l e) (NamedStatement.accompany_write (label_of e) e) refl
            tt tt)
    easy_processing-Named q d b (operation_statement l n e args) s' h =
        Named-leaf b (operation_statement l n e args) _ s' h (
          Named-of_both b (operation_statement l n e args)
            (NamedStatement.operation_statement l n e args) refl tt tt)

    easy_processing_stmt-NamedAll :
        (seqnum depth : ℕ) (b : Bool) (ss : Sequence C) (ss' : NamedSequence C)
        → easy_processing_stmt seqnum depth b ss ≡ some ss'
        → NamedAll b ss ss'
    easy_processing_stmt-NamedAll q d false done ss' h = rw (sym (some-inj _ _ h)) (refl, tt)
    easy_processing_stmt-NamedAll q d true done ss' h = rw (sym (some-inj _ _ h)) (refl, tt)
    easy_processing_stmt-NamedAll q d b (next (return e) ss) ss' h = last_return_lem b e ss ss' h
    easy_processing_stmt-NamedAll q d b (next s ss) ss' h =
        let (s', e, k) = >>=-eq-some (easy_processing q d b s) (named_rest q d b ss) h in
        let (behind, _, m) = >>=-eq-some (next_char q) (named_after d b ss s') k in
        let (rest, r, v) = >>=-eq-some (easy_processing_stmt behind d b ss) (named_both s') m in
        NamedAll-some b (next s ss) _ ss' v (
          NamedAll-next b s ss s' rest (easy_processing-Named q d b s s' e)
            (easy_processing_stmt-NamedAll behind d b ss rest r))

  -- Where the pass succeeds, it has changed nothing but the names of loops and the labels of
  -- assignments, tombstones and accompanying writes, which it has computed from their expressions,
  -- and no return stands in a branch or in a loop.
  pub easy_processing_pass_lem :
      (s : Statement C) (s' : NamedStatement C)
      → easy_processing_pass s ≡ some s'
      → (unnamed s' ≡ relabelled s) × OnlyTopReturns s
  unfolding easy_processing_pass
  easy_processing_pass_lem s s' h = easy_processing-Named 1 1 true s s' h

  -- Two loops get one name: a loop in the branch of an if, when the branch is a sequence, and the
  -- loop behind the if. The pass succeeds on them whenever it does on the parts.
  pub loop_names_collide :
      (l1 l2 l3 l4 l5 : Label C) (c1 c2 c3 : Expression C) (a b e : Statement C)
      (a' b' e' : NamedStatement C)
      → easy_processing 3 2 false a ≡ some a'
      → easy_processing 3 2 false b ≡ some b'
      → easy_processing 2 1 false e ≡ some e'
      → easy_processing_pass (
          sequence l1 (
            next
              (if_else l2 c1 (sequence l3 (next (while l4 c2 a) done)) e)
              (next (while l5 c3 b) done)))
        ≡ some (
            NamedStatement.sequence l1 (
              NamedSequence.next
                (NamedStatement.if_else l2 c1
                  (NamedStatement.sequence l3 (
                    NamedSequence.next
                      (NamedStatement.while l4 c2 a' (loop_name 3 1))
                      NamedSequence.done))
                  e')
                (NamedSequence.next
                  (NamedStatement.while l5 c3 b' (loop_name 3 1))
                  NamedSequence.done)))
  unfolding easy_processing_pass easy_processing easy_processing_stmt next_char
  loop_names_collide l1 l2 l3 l4 l5 c1 c2 c3 a b e a' b' e' ha hb he = rw (ha, hb, he)
