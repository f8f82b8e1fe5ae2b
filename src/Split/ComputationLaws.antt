-- ===== src/Split/ComputationLaws.antt =====
-- The phases of a split together do what the program does (split_computation of
-- transactions/mtl/split_phase.hpp).
use mix_t.Base.{
  Bool, true, false, ◌≡◌, refl, sym, ap, ◌∙◌, some, some-inj, >>=-eq-some, List, [], ◌∷◌, ◌++◌, All,
  map,
}
use mix_t.Labels.Order.{LabelOrder}
use mix_t.Split.NamedTree.{NamedStatement}
use mix_t.Split.Api.{VariableBinding, BindingLists, phase_api}
use mix_t.Split.CollectPhase.{Extracted, collect_phase}
use mix_t.Split.TypeSets.{TypeSets}
use mix_t.Split.RemoveUnused.{remove_unused_phase}
use mix_t.Split.Computation.{
  Prephase, edited_phase, final_phase, labels_in_descending_order, asserted, split_at_labels,
}
use mix_t.Split.Effects.{Guard, effects, effects_at}
use mix_t.Split.PhaseEffects.{collect_phase-effects}
use mix_t.Split.PruneLaws.{remove_unused-effects, clear_empty_statements-effects}

module _ {C : Type 0} (sets : TypeSets C) where
  remove_unused_phase-effects :
      (p : Extracted C) (g : List (Guard C))
      → effects g (remove_unused_phase sets p).ast ≡ effects g p.ast
  unfolding remove_unused_phase
  remove_unused_phase-effects p g = remove_unused-effects sets (sets.add_all p.api.requires) p.ast g

  final_phase-effects :
      (p : Extracted C) (g : List (Guard C)) → effects g (final_phase sets p).ast ≡ effects g p.ast
  unfolding final_phase edited_phase
  final_phase-effects p g =
      remove_unused_phase-effects (edited_phase sets p) g
      ∙ clear_empty_statements-effects sets p.ast g

module _ {C : Type 0} ⦃o : LabelOrder C⦄ (m : BindingLists C) (sets : TypeSets C) where
  pub asserted-same :
      (b : Bool) (xs ys : List (Prephase C)) → asserted m sets b xs ≡ some ys → xs ≡ ys
  asserted-same true xs ys h = some-inj _ _ h
  asserted-same false xs ys h = cc

  -- The phase runs the program at its own level.
  abbrev pub RunsLevel : NamedStatement C → Prephase C → Type 0
  RunsLevel a p = effects [] p.ast ≡ effects_at p.level [] a

  -- A split has a phase for each label, in their order, and each phase has exactly the effects of
  -- the program at its label, in the program's order and inside the same branches and loops.
  pub split_at_labels-effects :
      (a : NamedStatement C) (labels : List C) (oldinherit : List (VariableBinding C))
      (phases : List (Prephase C))
      → split_at_labels m sets a oldinherit labels ≡ some phases
      → (map (λ p. p.level) phases ≡ labels) × All (RunsLevel a) phases
  unfolding split_at_labels
  split_at_labels-effects a [] inh phases h = rw (sym (some-inj _ _ h)) (refl, tt)
  split_at_labels-effects a (l ∷ ls) inh phases h =
      let (b, _, u) = >>=-eq-some (labels_in_descending_order ls) _ h in
      let (x, e, v) = >>=-eq-some (collect_phase m l (phase_api [] [] inh) a) _ u in
      let (rest, f, w) =
        >>=-eq-some
          (split_at_labels m sets a
            ((remove_unused_phase sets x).api.inherits ++ (remove_unused_phase sets x).api.provides)
            ls)
          _ v in
      let (levels, all) =
        split_at_labels-effects a ls
          ((remove_unused_phase sets x).api.inherits ++ (remove_unused_phase sets x).api.provides)
          rest f in
      rw (sym (asserted-same b _ phases w)) (
        ap (λ ys. l ∷ ys) levels,
        (
          final_phase-effects sets (remove_unused_phase sets x) []
              ∙ remove_unused_phase-effects sets x []
              ∙ collect_phase-effects m l (phase_api [] [] inh) a [] x e,
          all,
        ),
      )
