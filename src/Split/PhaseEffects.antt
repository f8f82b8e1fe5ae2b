-- ===== src/Split/PhaseEffects.antt =====
-- A phase does what the program does at the phase's label (transactions/mtl/split_phase.hpp).
use mix_t.Base.{Bool, ◌≡◌, refl, sym, ap₂, ◌∙◌, none, some, some-inj, >>=-eq-some, List, ◌∷◌, ◌++◌}
use mix_t.Labels.Order.{LabelOrder}
use mix_t.Labels.Term.{Label, concrete, temp_label, label_min_of}
use mix_t.Inference.Constraints.{yield_of}
use mix_t.Split.NamedTree.{
  NamedStatement, let_in, let_remote, assignment, return, write_tombstone, accompany_write, if_else,
  while, operation_statement, sequence, NamedSequence, done, next,
}
use mix_t.Split.Tree.{SplitStatement, SplitSequence}
use mix_t.Split.Api.{BindingLists, PhaseApi, ExtractedPhase}
use mix_t.Split.Placement.{place, flows_up}
use mix_t.Split.CollectPhase.{Extracted, merge_returns, collect_phase, collect_phase_sequence}
use mix_t.Split.Effects.{
  Guard, in_then, in_else, loop_guard, returned, wrote_tombstone, accompanied, erased, effects,
  effects_sequence, effects_at, effects_at_sequence, may_enter,
}
use mix_t.Split.EffectLaws.{place-Placed, effects-collapse}
use mix_t.Split.LetEffects.{let_phase-Does, let_remote_phase-Does}
use mix_t.Split.Isolation.{
  operation_phase-Does, assignment_phase-Does, expression_phase-Does, while_phase-Does,
  if_phase-Does,
}

module _ {C : Type 0} ⦃o : LabelOrder C⦄ (m : BindingLists C) (l : C) where
  may_enter-flows_up : (l2 : Label C) (b : Bool) → flows_up l l2 ≡ some b → may_enter l l2 ≡ b
  may_enter-flows_up (concrete k) b h = some-inj _ _ h
  may_enter-flows_up (temp_label s d) b h = cc
  may_enter-flows_up (label_min_of p q) b h = cc

  mutual
    unfolding collect_phase collect_phase_sequence

    collected_effects :
        (old : PhaseApi C) (s : NamedStatement C) (g : List (Guard C)) (x : Extracted C)
        → collect_phase m l old s ≡ some x
        → effects g x.ast ≡ effects_at l g s
    collected_effects old (let_in l2 b s) g x h =
        let (p, e, k) = >>=-eq-some (place l l2) _ h in
        let_phase-Does m l g l2 p old b (λ api. collect_phase m l api s) (effects_at l g s)
          (place-Placed l l2 p e) (λ api. collected_effects api s g) x k
    collected_effects old (let_remote l2 b s) g x h =
        let (p, e, k) = >>=-eq-some (place l l2) _ h in
        let_remote_phase-Does m l g l2 p old b (λ api. collect_phase m l api s) (effects_at l g s)
          (place-Placed l l2 p e) (λ api. collected_effects api s g) x k
    collected_effects old (assignment l2 v e) g x h =
        let (p, q, k) = >>=-eq-some (place l l2) _ h in
        assignment_phase-Does m l g l2 p old v e (place-Placed l l2 p q) x k
    collected_effects old (return e) g x h =
        let (p, q, k) = >>=-eq-some (place l (concrete o.bottom)) _ h in
        expression_phase-Does m l g (concrete o.bottom) p old e (some (yield_of e))
          SplitStatement.return returned (place-Placed l (concrete o.bottom) p q) (λ s. refl) x k
    collected_effects old (write_tombstone l2 e) g x h =
        let (p, q, k) = >>=-eq-some (place l l2) _ h in
        expression_phase-Does m l g l2 p old e none SplitStatement.write_tombstone wrote_tombstone
          (place-Placed l l2 p q) (λ s. refl) x k
    collected_effects old (accompany_write l2 e) g x h =
        let (p, q, k) = >>=-eq-some (place l l2) _ h in
        expression_phase-Does m l g l2 p old e none SplitStatement.accompany_write accompanied
          (place-Placed l l2 p q) (λ s. refl) x k
    collected_effects old (if_else l2 c t e) g x h =
        let (flows, q, k) = >>=-eq-some (flows_up l l2) _ h in
        rw (may_enter-flows_up l2 flows q) (
          if_phase-Does m l g flows old c (collect_phase m l old t) (collect_phase m l old e) _ _
            (collected_effects old t (in_then (erased c) ∷ g))
            (collected_effects old e (in_else (erased c) ∷ g)) x k)
    collected_effects old (while l2 c s n) g x h =
        let (p, q, k) = >>=-eq-some (place l l2) _ h in
        while_phase-Does m l g l2 p old c n (collect_phase m l old s) _ (place-Placed l l2 p q)
          (collected_effects old s (loop_guard l l2 c n ∷ g)) x k
    collected_effects old (operation_statement l2 n h args) g x i =
        let (p, q, k) = >>=-eq-some (place l l2) _ i in
        operation_phase-Does m l g l2 p old n h args (place-Placed l l2 p q) x k
    collected_effects old (sequence l2 ss) g x h =
        let (processed, e, k) = >>=-eq-some (collect_phase_sequence m l old ss) _ h in
        rw (sym (some-inj _ _ k))
          (effects-collapse g processed.ast ∙ collect_phase_sequence-effects old ss g processed e)

    collect_phase_sequence-effects :
        (old : PhaseApi C) (ss : NamedSequence C) (g : List (Guard C))
        (x : ExtractedPhase C (SplitSequence C))
        → collect_phase_sequence m l old ss ≡ some x
        → effects_sequence g x.ast ≡ effects_at_sequence l g ss
    collect_phase_sequence-effects old done g x h = rw (sym (some-inj _ _ h)) refl
    collect_phase_sequence-effects old (next s ss) g x h =
        let (first, a, u) = >>=-eq-some (collect_phase m l old s) _ h in
        let (rest, b, v) = >>=-eq-some (collect_phase_sequence m l old ss) _ u in
        let (returns, _, w) = >>=-eq-some (merge_returns first.returns rest.returns) _ v in
        rw (sym (some-inj _ _ w)) (
          ap₂ (λ p q. p ++ q) (collected_effects old s g first a)
            (collect_phase_sequence-effects old ss g rest b))

  pub collect_phase-effects :
      (old : PhaseApi C) (s : NamedStatement C) (g : List (Guard C)) (x : Extracted C)
      → collect_phase m l old s ≡ some x
      → effects g x.ast ≡ effects_at l g s
  collect_phase-effects old s g x h = collected_effects old s g x h
