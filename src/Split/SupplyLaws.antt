-- ===== src/Split/SupplyLaws.antt =====
-- Each phase of a split requires only what an earlier phase provides, or what the transaction is
-- given (transactions/mtl/split_phase.hpp).
use mix_t.Base.{
  Bool, true, false, ◌≡◌, ◌⊎◌, refl, sym, inl, inr, none, some, some-inj, >>=-eq-some, List, [],
  ◌∷◌, ◌++◌, All, All-Elem, All-of_Elem, Elem, subst, if◌then◌else◌,
}
use mix_t.Labels.Order.{LabelOrder}
use mix_t.Labels.Term.{concrete}
use mix_t.Inference.Constraints.{yield_of}
use mix_t.Split.NamedTree.{
  NamedStatement, let_in, let_remote, assignment, return, write_tombstone, accompany_write, if_else,
  while, operation_statement, sequence, NamedSequence, done, next,
}
use mix_t.Split.Tree.{SplitStatement, SplitSequence}
use mix_t.Split.Api.{BindingLists, PhaseApi, phase_api, ExtractedPhase, VariableBinding}
use mix_t.Split.Placement.{place, flows_up}
use mix_t.Split.CollectPhase.{Extracted, merge_returns, collect_phase, collect_phase_sequence}
use mix_t.Split.TypeSets.{BindingName, name_of, TypeSets}
use mix_t.Split.RemoveUnused.{remove_unused_phase}
use mix_t.Split.Computation.{
  Prephase, without_names, without_names2, edited_phase, final_phase, labels_in_descending_order,
  split_at_labels,
}
use mix_t.Split.ComputationLaws.{asserted-same}
use mix_t.Split.Requires.{Supplied, Supplied-combined}
use mix_t.Split.Supply.{
  Fits, OnlyVariables, let_phase-Fits, let_remote_phase-Fits, operation_phase-Fits,
  assignment_phase-Fits, expression_phase-Fits, while_phase-Fits, if_phase-Fits,
}

module _ {C : Type 0} ⦃o : LabelOrder C⦄ (m : BindingLists C) (l : C) where
  mutual
    unfolding collect_phase collect_phase_sequence

    -- Where only variables are provided around a statement, what its phase requires is inherited.
    collect_phase-Fits :
        (old : PhaseApi C) (s : NamedStatement C)
        → OnlyVariables old
        → Fits old.inherits (collect_phase m l old s)
    collect_phase-Fits old (let_in l2 b s) vars x h =
        let (p, e, k) = >>=-eq-some (place l l2) _ h in
        let_phase-Fits m l p old b (λ api. collect_phase m l api s) vars
          (λ api v. collect_phase-Fits api s v) x k
    collect_phase-Fits old (let_remote l2 b s) vars x h =
        let (p, e, k) = >>=-eq-some (place l l2) _ h in
        let_remote_phase-Fits m l p old b (λ api. collect_phase m l api s) vars
          (λ api v. collect_phase-Fits api s v) x k
    collect_phase-Fits old (assignment l2 v e) vars x h =
        let (p, _, k) = >>=-eq-some (place l l2) _ h in assignment_phase-Fits m l p old v e x k
    collect_phase-Fits old (return e) vars x h =
        let (p, _, k) = >>=-eq-some (place l (concrete o.bottom)) _ h in
        expression_phase-Fits m l p old e (some (yield_of e)) SplitStatement.return x k
    collect_phase-Fits old (write_tombstone l2 e) vars x h =
        let (p, _, k) = >>=-eq-some (place l l2) _ h in
        expression_phase-Fits m l p old e none SplitStatement.write_tombstone x k
    collect_phase-Fits old (accompany_write l2 e) vars x h =
        let (p, _, k) = >>=-eq-some (place l l2) _ h in
        expression_phase-Fits m l p old e none SplitStatement.accompany_write x k
    collect_phase-Fits old (if_else l2 c t e) vars x h =
        let (flows, _, k) = >>=-eq-some (flows_up l l2) _ h in
        if_phase-Fits m l flows old c (collect_phase m l old t) (collect_phase m l old e)
          (collect_phase-Fits old t vars) (collect_phase-Fits old e vars) x k
    collect_phase-Fits old (while l2 c s n) vars x h =
        let (p, _, k) = >>=-eq-some (place l l2) _ h in
        while_phase-Fits m l p old c n (collect_phase m l old s) vars
          (collect_phase-Fits old s vars) x k
    collect_phase-Fits old (operation_statement l2 n h args) vars x i =
        let (p, _, k) = >>=-eq-some (place l l2) _ i in operation_phase-Fits m l p old n h args x k
    collect_phase-Fits old (sequence l2 ss) vars x h =
        let (processed, e, k) = >>=-eq-some (collect_phase_sequence m l old ss) _ h in
        rw (sym (some-inj _ _ k)) (collect_phase_sequence-Supplied old ss vars processed e)

    collect_phase_sequence-Supplied :
        (old : PhaseApi C) (ss : NamedSequence C)
        → OnlyVariables old
        → (x : ExtractedPhase C (SplitSequence C)) → collect_phase_sequence m l old ss ≡ some x
        → Supplied old.inherits x.api
    collect_phase_sequence-Supplied old done vars x h = rw (sym (some-inj _ _ h)) (tt, refl)
    collect_phase_sequence-Supplied old (next s ss) vars x h =
        let (first, a, u) = >>=-eq-some (collect_phase m l old s) _ h in
        let (rest, b, v) = >>=-eq-some (collect_phase_sequence m l old ss) _ u in
        let (returns, _, w) = >>=-eq-some (merge_returns first.returns rest.returns) _ v in
        rw (sym (some-inj _ _ w)) (
          Supplied-combined old.inherits first.api rest.api (collect_phase-Fits old s vars first a)
            (collect_phase_sequence-Supplied old ss vars rest b))

-- Membership in one of two lists, and in both together.
Elem-if :
    {A : Type 0} (b : A) (t : Bool) (xs ys : List A)
    → Elem b (if t then xs else ys)
    → Elem b xs ⊎ Elem b ys
Elem-if b true xs ys h = inl h
Elem-if b false xs ys h = inr h

Elem-left : {A : Type 0} (b : A) (xs ys : List A) → Elem b xs → Elem b (xs ++ ys)
Elem-left b [] ys h = absurd h
Elem-left b (x ∷ xs) ys (inl e) = inl e
Elem-left b (x ∷ xs) ys (inr h) = inr (Elem-left b xs ys h)

Elem-right : {A : Type 0} (b : A) (xs ys : List A) → Elem b ys → Elem b (xs ++ ys)
Elem-right b [] ys h = h
Elem-right b (x ∷ xs) ys h = inr (Elem-right b xs ys h)

Elem-either : {A : Type 0} (b : A) (xs ys : List A) → Elem b (xs ++ ys) → Elem b xs ⊎ Elem b ys
Elem-either b [] ys h = inr h
Elem-either b (x ∷ xs) ys (inl e) = inl (inl e)
Elem-either b (x ∷ xs) ys (inr h) = elim (Elem-either b xs ys h) [
  | inl p ↦ inl (inr p)
  | inr q ↦ inr q
]

module _ {C : Type 0} (sets : TypeSets C) where
  without_names2-Elem :
      (remove : List BindingName) (names accum : List (VariableBinding C)) (b : VariableBinding C)
      → Elem b (without_names2 sets accum remove names)
      → Elem b accum ⊎ Elem b names
  unfolding without_names2
  without_names2-Elem remove [] accum b h = inl h
  without_names2-Elem remove (n ∷ ns) accum b h =
      elim (Elem-if b (sets.contains (name_of n) remove) (without_names2 sets accum remove ns)
        (without_names2 sets (sets.add accum n) remove ns) h) [
          | inl p ↦ elim (without_names2-Elem remove ns accum b p) [
            | inl q ↦ inl q
            | inr q ↦ inr (inr q)
          ]
          | inr p ↦ elim (without_names2-Elem remove ns (sets.add accum n) b p) [
            | inl q ↦ elim (sets.add-Elem b n accum q) [ inl r ↦ inl r | inr e ↦ inr (inl e) ]
            | inr q ↦ inr (inr q)
          ]
        ]

  without_names-Elem :
      (remove : List BindingName) (names : List (VariableBinding C)) (b : VariableBinding C)
      → Elem b (without_names sets remove names)
      → Elem b names
  unfolding without_names
  without_names-Elem remove names b h = elim (without_names2-Elem remove names [] b h) [
    | inl p ↦ absurd p
    | inr p ↦ p
  ]

  final_phase-Supplied :
      (xs : List (VariableBinding C)) (p : Extracted C)
      → Supplied xs p.api
      → All (λ b. Elem b xs) (sets.to_typeset (final_phase sets p).api.requires)
  unfolding final_phase edited_phase remove_unused_phase
  final_phase-Supplied xs p s =
      All-of_Elem (λ b. Elem b xs) _
        (λ b h.
          All-Elem (λ c. Elem c xs) p.api.requires b s.0
            ((sets.to_typeset-Elem b p.api.requires).0
              (without_names-Elem _ _ b ((sets.to_typeset-Elem b _).0 h))))

  -- Each phase requires what is there already, and its provisions are there for the next.
  abbrev pub InOrder : List (VariableBinding C) → List (Prephase C) → Type 0
  InOrder available [] = Unit
  InOrder available (p ∷ ps) =
      All (λ b. Elem b available) p.requirements × InOrder (available ++ p.provides) ps

  final_phase-provides : (p : Extracted C) → (final_phase sets p).api.provides ≡ p.api.provides
  unfolding final_phase edited_phase remove_unused_phase
  final_phase-provides p = refl

  remove_unused_phase-api : (p : Extracted C) → (remove_unused_phase sets p).api ≡ p.api
  unfolding remove_unused_phase
  remove_unused_phase-api p = refl

module _ {C : Type 0} ⦃o : LabelOrder C⦄ (m : BindingLists C) (sets : TypeSets C) where
  split_at_labels-InOrder_from :
      (a : NamedStatement C) (labels : List C) (oldinherit available : List (VariableBinding C))
      (phases : List (Prephase C))
      → split_at_labels m sets a oldinherit labels ≡ some phases
      → ((b : VariableBinding C) → Elem b oldinherit → Elem b available)
      → InOrder sets available phases
  unfolding split_at_labels remove_unused_phase
  split_at_labels-InOrder_from a [] inh avail phases h there = rw (sym (some-inj _ _ h)) tt
  split_at_labels-InOrder_from a (l ∷ ls) inh avail phases h there =
      let (b, _, u) = >>=-eq-some (labels_in_descending_order ls) _ h in
      let (x, e, v) = >>=-eq-some (collect_phase m l (phase_api [] [] inh) a) _ u in
      let (rest, f, w) =
        >>=-eq-some (split_at_labels m sets a (x.api.inherits ++ x.api.provides) ls) _ v in
      let fits = collect_phase-Fits m l (phase_api [] [] inh) a tt x e in
      let required = final_phase-Supplied sets inh (remove_unused_phase sets x) fits in
      rw (sym (asserted-same m sets b _ phases w)) (
        All-of_Elem (λ c. Elem c avail) _
            (λ c i. there c (All-Elem (λ d. Elem d inh) _ c required i)),
        split_at_labels-InOrder_from a ls (x.api.inherits ++ x.api.provides)
            (avail ++ sets.to_typeset (final_phase sets (remove_unused_phase sets x)).api.provides)
            rest f
            (λ c i. elim (Elem-either c x.api.inherits x.api.provides i) [
              | inl p ↦ Elem-left c avail _ (there c (subst (Elem c) fits.1 p))
              | inr p ↦ Elem-right c avail _ (
                  (sets.to_typeset-Elem c _).1 (
                    subst (Elem c) (sym (final_phase-provides sets (remove_unused_phase sets x)))
                      p))
            ]),
      )

  -- In a split, every phase requires only what the transaction was given or an earlier phase
  -- provides.
  pub split_at_labels-InOrder :
      (a : NamedStatement C) (labels : List C) (oldinherit : List (VariableBinding C))
      (phases : List (Prephase C))
      → split_at_labels m sets a oldinherit labels ≡ some phases
      → InOrder sets oldinherit phases
  split_at_labels-InOrder a labels inh phases h =
      split_at_labels-InOrder_from a labels inh inh phases h (λ b e. e)
