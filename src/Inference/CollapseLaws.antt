-- ===== src/Inference/CollapseLaws.antt =====
-- Collapsing constraints loses no requirement.
use mix_t.Base.{
  true, ◌≡◌, ◌↔◌, ◌⊎◌, sym, ap, ◌∙◌, Option, none, some, List, [], ◌∷◌, String, arith, All,
  All-append, >>=-eq-some, some-inj, Bool-cases, inl, inr,
}
use mix_t.Labels.Order.{LabelOrder}
use mix_t.Labels.Term.{Label, concrete, temp_label, label_min_of, is_same_label}
use mix_t.Labels.Meaning.{Env, meaning, meet_flows, flows_meet, is_same_label_iff}
use mix_t.Inference.Constraints.{MustFlowTo, must_flow_to}
use mix_t.Inference.Satisfied.{Satisfied}
use mix_t.Inference.Collapse.{
  matched, pick_min_match, find_concrete_label, collapse_to, collapse_one, collapse_constraints,
  remove_reflexive_constraints,
}

module _ {C : Type 0} where
  -- Not a minimum.
  abbrev pub IsSimpleLabel : Label C → Type 0
  IsSimpleLabel (label_min_of _ _) = ⊥
  IsSimpleLabel (concrete _) = Unit
  IsSimpleLabel (temp_label _ _) = Unit

  abbrev pub IsSimple : MustFlowTo C → Type 0
  IsSimple c = IsSimpleLabel c.high × IsSimpleLabel c.low

module _ {C : Type 0} ⦃o : LabelOrder C⦄ (env : Env C) where
  matched_lem : (r : Option C) (c : C) → matched r ≡ some (some c) → r ≡ some c
  matched_lem none c h = cc
  matched_lem (some a) c h = cc

  pick_min_match_lem :
      (a b : Option C) (c : C) → pick_min_match a b ≡ some c → (a ≡ some c) ⊎ (b ≡ some c)
  unfolding pick_min_match
  pick_min_match_lem a b c h = ground arith

  find_concrete_flows :
      (l : Label C) (c : C)
      → find_concrete_label l ≡ some (some c)
      → o.flows_to c (meaning env l) ≡ true
  unfolding find_concrete_label meaning
  find_concrete_flows (concrete k) c h = ground (arith, o.flows_refl c)
  find_concrete_flows (temp_label s d) c h = cc
  find_concrete_flows (label_min_of l r) c h =
      let (a, p, q) = >>=-eq-some (find_concrete_label l) _ h in
      let (b, r', s) = >>=-eq-some (find_concrete_label r) _ q in
      let (below_l, below_r) = flows_meet (meaning env l) (meaning env r) in
      elim (pick_min_match_lem a b c (matched_lem _ c s)) [
        | inl e ↦ o.flows_trans _ _ _ (find_concrete_flows l c (p ∙ ap some e)) below_l
        | inr e ↦ o.flows_trans _ _ _ (find_concrete_flows r c (r' ∙ ap some e)) below_r
      ]

  collapse_to_flows :
      (l m : Label C)
      → collapse_to l ≡ some m
      → IsSimpleLabel m × (o.flows_to (meaning env m) (meaning env l) ≡ true)
  unfolding collapse_to meaning
  collapse_to_flows (concrete k) m h = rw (sym (some-inj _ _ h)) (tt, o.flows_refl k)
  collapse_to_flows (temp_label s d) m h = rw (sym (some-inj _ _ h)) (tt, o.flows_refl _)
  collapse_to_flows (label_min_of l r) m h =
      let (found, p, q) = >>=-eq-some (find_concrete_label (label_min_of l r)) _ h in
      let (c, e, f) = >>=-eq-some found _ q in
      rw (sym (some-inj _ _ f)) (tt, find_concrete_flows (label_min_of l r) c (p ∙ ap some e))

  collapse_leaf :
      (from to to' : Label C) (why : String)
      → IsSimpleLabel from
      → collapse_to to ≡ some to'
      → All IsSimple (must_flow_to from to' why ∷ [])
        × (All (Satisfied env) (must_flow_to from to' why ∷ [])
            → Satisfied env (must_flow_to from to why))
  collapse_leaf from to to' why s p =
      let (simple, below) = collapse_to_flows to to' p in
      (((s, simple), tt), λ h. o.flows_trans _ _ _ h.0 below)

  collapse_one_lem :
      (from to : Label C) (why : String) (cs : List (MustFlowTo C))
      → collapse_one from to why ≡ some cs
      → All IsSimple cs × (All (Satisfied env) cs → Satisfied env (must_flow_to from to why))
  unfolding collapse_one meaning
  collapse_one_lem (label_min_of l r) to why cs h =
      let (cl, p, q) = >>=-eq-some (collapse_one l to why) _ h in
      let (cr, u, v) = >>=-eq-some (collapse_one r to why) _ q in
      let (sl, fl) = collapse_one_lem l to why cl p in
      let (sr, fr) = collapse_one_lem r to why cr u in
      rw (sym (some-inj _ _ v)) (
        (All-append IsSimple cl cr).1 (sl, sr),
        λ sat.
            let both = (All-append (Satisfied env) cl cr).0 sat in
            (meet_flows (meaning env l) (meaning env r) (meaning env to)).1 (fl both.0, fr both.1),
      )
  collapse_one_lem (concrete c) to why cs h =
      let (to', p, q) = >>=-eq-some (collapse_to to) _ h in
      rw (sym (some-inj _ _ q)) (collapse_leaf (concrete c) to to' why tt p)
  collapse_one_lem (temp_label s d) to why cs h =
      let (to', p, q) = >>=-eq-some (collapse_to to) _ h in
      rw (sym (some-inj _ _ q)) (collapse_leaf (temp_label s d) to to' why tt p)

  pub collapse_constraints_lem :
      (cs ks : List (MustFlowTo C))
      → collapse_constraints cs ≡ some ks
      → All IsSimple ks × (All (Satisfied env) ks → All (Satisfied env) cs)
  unfolding collapse_constraints
  collapse_constraints_lem [] ks h = rw (sym (some-inj _ _ h)) (tt, λ _. tt)
  collapse_constraints_lem (c ∷ cs) ks h =
      let (k, p, q) = >>=-eq-some (collapse_one c.high c.low c.why) _ h in
      let (ks', r, s) = >>=-eq-some (collapse_constraints cs) _ q in
      let (sk, fk) = collapse_one_lem c.high c.low c.why k p in
      let (sks, fks) = collapse_constraints_lem cs ks' r in
      rw (sym (some-inj _ _ s)) (
        (All-append IsSimple k ks').1 (sk, sks),
        λ sat. let both = (All-append (Satisfied env) k ks').0 sat in (fk both.0, fks both.1),
      )

  -- Where collapse_constraints compiles, it leaves no minimum in a constraint, and an assignment that
  -- satisfies the collapsed constraints satisfies the given ones.
  pub collapse_constraints_sound :
      (cs ks : List (MustFlowTo C))
      → collapse_constraints cs ≡ some ks
      → All (Satisfied env) ks
      → All IsSimple ks × All (Satisfied env) cs
  collapse_constraints_sound cs ks h sat =
      let (simple, given) = collapse_constraints_lem cs ks h in (simple, given sat)

  -- A constraint of a label with itself asks nothing.
  pub remove_reflexive_iff :
      (cs : List (MustFlowTo C))
      → All (Satisfied env) (remove_reflexive_constraints cs) ↔ All (Satisfied env) cs
  unfolding remove_reflexive_constraints
  remove_reflexive_iff [] = (λ h. h, λ h. h)
  remove_reflexive_iff (c ∷ cs) =
      let (to, from) = remove_reflexive_iff cs in
      elim (Bool-cases (is_same_label c.high c.low)) [
        | inl e ↦
            rw e (
              λ h. (rw ((is_same_label_iff c.high c.low).0 e) (o.flows_refl _), to h),
              λ h. from h.1,
            )
        | inr e ↦ rw e (λ h. (h.0, to h.1), λ h. (h.0, from h.1))
      ]
