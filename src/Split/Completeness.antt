-- ===== src/Split/Completeness.antt =====
-- Nothing of a transaction is lost between its phases (split_computation of
-- transactions/mtl/split_phase.hpp).
use mathlib.Core.List.{append-nil, append_assoc}
use mix_t.Base.{
  true, false, ◌≡◌, refl, sym, ap, ap₂, ◌∙◌, inl, inr, Bool-cases, some, List, [], ◌∷◌, ◌++◌, All,
  All-append,
}
use mix_t.Labels.Order.{LabelOrder}
use mix_t.Labels.Term.{Label, concrete}
use mix_t.Split.NamedTree.{
  NamedStatement, let_in, let_remote, assignment, return, write_tombstone, accompany_write, if_else,
  while, operation_statement, sequence, NamedSequence, done, next,
}
use mix_t.Split.Api.{VariableBinding, BindingLists}
use mix_t.Split.TypeSets.{TypeSets}
use mix_t.Split.Computation.{Prephase, split_at_labels}
use mix_t.Split.ComputationLaws.{RunsLevel, split_at_labels-effects}
use mix_t.Split.Effects.{
  Guard, in_then, in_else, loop_guard, Effect, effect, erased, erased_args, assigned, returned,
  wrote_tombstone, accompanied, operated, effects, effects_at, effects_at_sequence, is_at,
  may_enter, when, source_bound, source_bound_remote,
}

-- An effect with the label of its node.
pub record LabelledEffect (C : Type 0) : Type 0 where
  pub label : Label C
  pub effect : Effect C

module _ {C : Type 0} where
  abbrev at : Label C → Effect C → LabelledEffect C
  at label effect = record { label = label; effect = effect }

module _ {C : Type 0} ⦃o : LabelOrder C⦄ (l : C) where
  -- Every effect of a program, whatever the labels of the conditions around it are, with the loops as
  -- the phase of `l` runs them.
  abbrev mutual
    pub all_effects : List (Guard C) → NamedStatement C → List (LabelledEffect C)
    all_effects g (let_in l2 b s) = at l2 (effect g (source_bound b)) ∷ all_effects g s
    all_effects g (let_remote l2 b s) = at l2 (effect g (source_bound_remote b)) ∷ all_effects g s
    all_effects g (assignment l2 v e) = at l2 (effect g (assigned (erased v) (erased e))) ∷ []
    all_effects g (return e) = at (concrete o.bottom) (effect g (returned (erased e))) ∷ []
    all_effects g (write_tombstone l2 e) = at l2 (effect g (wrote_tombstone (erased e))) ∷ []
    all_effects g (accompany_write l2 e) = at l2 (effect g (accompanied (erased e))) ∷ []
    all_effects g (if_else l2 c t e) =
        all_effects (in_then (erased c) ∷ g) t ++ all_effects (in_else (erased c) ∷ g) e
    all_effects g (while l2 c s n) = all_effects (loop_guard l l2 c n ∷ g) s
    all_effects g (operation_statement l2 n h args) =
        at l2 (effect g (operated n (erased h) (erased_args args))) ∷ []
    all_effects g (sequence l2 ss) = all_effects_each g ss

    pub all_effects_each : List (Guard C) → NamedSequence C → List (LabelledEffect C)
    all_effects_each g done = []
    all_effects_each g (next s ss) = all_effects g s ++ all_effects_each g ss

  -- The label of a condition flows to those of the effects under it.
  abbrev pub GuardedBy : Label C → List (LabelledEffect C) → Type 0
  GuardedBy k xs = All (λ x. is_at l x.label ≡ true → may_enter l k ≡ true) xs

  abbrev mutual
    pub Guarded : List (Guard C) → NamedStatement C → Type 0
    Guarded g (let_in l2 b s) = Guarded g s
    Guarded g (let_remote l2 b s) = Guarded g s
    Guarded g (assignment l2 v e) = Unit
    Guarded g (return e) = Unit
    Guarded g (write_tombstone l2 e) = Unit
    Guarded g (accompany_write l2 e) = Unit
    Guarded g (if_else l2 c t e) =
        (Guarded (in_then (erased c) ∷ g) t × Guarded (in_else (erased c) ∷ g) e)
        × (GuardedBy l2 (all_effects (in_then (erased c) ∷ g) t)
            × GuardedBy l2 (all_effects (in_else (erased c) ∷ g) e))
    Guarded g (while l2 c s n) =
        Guarded (loop_guard l l2 c n ∷ g) s × GuardedBy l2 (all_effects (loop_guard l l2 c n ∷ g) s)
    Guarded g (operation_statement l2 n h args) = Unit
    Guarded g (sequence l2 ss) = GuardedEach g ss

    pub GuardedEach : List (Guard C) → NamedSequence C → Type 0
    GuardedEach g done = Unit
    GuardedEach g (next s ss) = Guarded g s × GuardedEach g ss

  -- The effects with one label.
  abbrev pub only_at : List (LabelledEffect C) → List (Effect C)
  only_at [] = []
  only_at (x ∷ xs) = when l (is_at l x.label) (x.effect ∷ []) ++ only_at xs

  only_at-append : (xs ys : List (LabelledEffect C)) → only_at (xs ++ ys) ≡ only_at xs ++ only_at ys
  only_at-append [] ys = refl
  only_at-append (x ∷ xs) ys =
      rw (only_at-append xs ys)
        (sym (append_assoc (when l (is_at l x.label) (x.effect ∷ [])) (only_at xs) (only_at ys)))

  -- Where a phase may not enter, nothing is at its label.
  only_at-outside :
      (k : Label C) (xs : List (LabelledEffect C))
      → GuardedBy k xs
      → may_enter l k ≡ false
      → only_at xs ≡ []
  only_at-outside k [] h out = refl
  only_at-outside k (x ∷ xs) h out = elim (Bool-cases (is_at l x.label)) [
    | inl p ↦ let contra = h.0 p in cc
    | inr p ↦ rw p (only_at-outside k xs h.1 out)
  ]

  when-only_at :
      (k : Label C) (xs : List (LabelledEffect C))
      → GuardedBy k xs
      → when l (may_enter l k) (only_at xs) ≡ only_at xs
  when-only_at k xs h = elim (Bool-cases (may_enter l k)) [
    | inl p ↦ rw p refl
    | inr p ↦ rw (p, only_at-outside k xs h p) refl
  ]

  mutual
    at_label-all :
        (s : NamedStatement C) (g : List (Guard C))
        → Guarded g s
        → effects_at l g s ≡ only_at (all_effects g s)
    at_label-all (let_in l2 b s) g h =
        ap (λ xs. when l (is_at l l2) (effect g (source_bound b) ∷ []) ++ xs) (at_label-all s g h)
    at_label-all (let_remote l2 b s) g h =
        ap (λ xs. when l (is_at l l2) (effect g (source_bound_remote b) ∷ []) ++ xs)
          (at_label-all s g h)
    at_label-all (assignment l2 v e) g h = sym (append-nil _)
    at_label-all (return e) g h = sym (append-nil _)
    at_label-all (write_tombstone l2 e) g h = sym (append-nil _)
    at_label-all (accompany_write l2 e) g h = sym (append-nil _)
    at_label-all (if_else l2 c t e) g h =
        let xs = all_effects (in_then (erased c) ∷ g) t in
        let ys = all_effects (in_else (erased c) ∷ g) e in
        ap (λ zs. when l (may_enter l l2) zs)
          (ap₂ (λ a b. a ++ b) (at_label-all t (in_then (erased c) ∷ g) h.0.0)
              (at_label-all e (in_else (erased c) ∷ g) h.0.1)
            ∙ sym (only_at-append xs ys))
        ∙ when-only_at l2 (xs ++ ys) ((All-append _ xs ys).1 h.1)
    at_label-all (while l2 c s n) g h =
        ap (λ zs. when l (may_enter l l2) zs) (at_label-all s (loop_guard l l2 c n ∷ g) h.0)
        ∙ when-only_at l2 (all_effects (loop_guard l l2 c n ∷ g) s) h.1
    at_label-all (operation_statement l2 n i args) g h = sym (append-nil _)
    at_label-all (sequence l2 ss) g h = at_label-each ss g h

    at_label-each :
        (ss : NamedSequence C) (g : List (Guard C))
        → GuardedEach g ss
        → effects_at_sequence l g ss ≡ only_at (all_effects_each g ss)
    at_label-each done g h = refl
    at_label-each (next s ss) g h =
        ap₂ (λ a b. a ++ b) (at_label-all s g h.0) (at_label-each ss g h.1)
        ∙ sym (only_at-append (all_effects g s) (all_effects_each g ss))

module _ {C : Type 0} ⦃o : LabelOrder C⦄ (m : BindingLists C) (sets : TypeSets C) where
  -- The phase has all effects of the program that have its level.
  abbrev pub RunsAll : NamedStatement C → Prephase C → Type 0
  RunsAll a p = effects [] p.ast ≡ only_at p.level (all_effects p.level [] a)

  RunsAll-each :
      (a : NamedStatement C) (ps : List (Prephase C))
      → ((l : C) → Guarded l [] a)
      → All (RunsLevel m sets a) ps
      → All (RunsAll a) ps
  RunsAll-each a [] h all = tt
  RunsAll-each a (p ∷ ps) h all =
      (all.0 ∙ at_label-all p.level a [] (h p.level), RunsAll-each a ps h all.1)

  -- Where the label of every condition flows to the labels of the effects under it, each phase of a
  -- split has all the effects of the program with its label, and so none with a label of a phase is
  -- lost.
  pub split_at_labels-RunsAll :
      (a : NamedStatement C) (labels : List C) (oldinherit : List (VariableBinding C))
      (phases : List (Prephase C))
      → ((l : C) → Guarded l [] a)
      → split_at_labels m sets a oldinherit labels ≡ some phases
      → All (RunsAll a) phases
  split_at_labels-RunsAll a labels inh phases guarded h =
      RunsAll-each a phases guarded (split_at_labels-effects m sets a labels inh phases h).1
