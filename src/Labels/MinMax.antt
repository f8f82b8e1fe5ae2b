-- ===== src/Labels/MinMax.antt =====
-- labels::min_of and labels::max_of find a bound among their arguments
-- (transactions/mtl/label_utilities.hpp).
use mix_t.Base.{true, false, ◌≡◌, refl, inl, inr, some, List, [], ◌∷◌, arith, Bool-cases, All, Elem}
use mix_t.Labels.Order.{
  LabelOrder, all_flow_to, flows_to_any, any_flows_to, flows_to_all, min_of, max_of,
}

module _ {C : Type 0} ⦃o : LabelOrder C⦄ where
  flows_of_not : (a b : C) → o.flows_to a b ≡ false → o.flows_to b a ≡ true
  flows_of_not a b h = ground (arith, o.flows_total a b)

  all_flow_to_of_none : (l : C) (xs : List C) → flows_to_any l xs ≡ false → all_flow_to xs l ≡ true
  all_flow_to_of_none l [] h = refl
  all_flow_to_of_none l (x ∷ xs) h = ground (arith, o.flows_total l x, all_flow_to_of_none l xs)

  All-of_all_flow_to :
      (l : C) (xs : List C) → all_flow_to xs l ≡ true → All (λ x. o.flows_to x l ≡ true) xs
  All-of_all_flow_to l [] h = tt
  All-of_all_flow_to l (x ∷ xs) h = (ground arith, All-of_all_flow_to l xs (ground arith))

  flows_through_any :
      (l m : C) (xs : List C)
      → flows_to_any l xs ≡ true
      → All (λ x. o.flows_to x m ≡ true) xs
      → o.flows_to l m ≡ true
  flows_through_any l m [] h all = cc
  flows_through_any l m (x ∷ xs) h all = elim (Bool-cases (o.flows_to l x)) [
    | inl e ↦ o.flows_trans l x m e all.0
    | inr e ↦ flows_through_any l m xs (ground arith) all.1
  ]

  -- min_of never fails its static_assert: it returns one of its arguments, and every argument
  -- flows to what it returns.
  pub min_of_lem :
      (l : C) (ls : List C)
      → (m : C) × (min_of l ls ≡ some m)
        × Elem m (l ∷ ls)
        × All (λ x. o.flows_to x m ≡ true) (l ∷ ls)
  unfolding min_of
  min_of_lem l [] = (l, refl, inl refl, (o.flows_refl l, tt))
  min_of_lem l (x ∷ xs) = elim (Bool-cases (flows_to_any l (x ∷ xs))) [
    | inl e ↦
        let (m, p, q, r) = min_of_lem x xs in
        (m, rw e p, inr q, (flows_through_any l m (x ∷ xs) e r, r))
    | inr e ↦
        let a = all_flow_to_of_none l (x ∷ xs) e in
        (l, rw (e, a), inl refl, (o.flows_refl l, All-of_all_flow_to l (x ∷ xs) a))
  ]

-- The order read from below: its minima are the maxima of `o`.
abbrev dual : {C : Type 0} → LabelOrder C → LabelOrder C
dual o = record {
  top = o.bottom;
  bottom = o.top;
  flows_to = λ a b. o.flows_to b a;
  is_same = o.is_same;
  is_same_iff = o.is_same_iff;
  flows_refl = o.flows_refl;
  flows_trans = λ a b c p q. o.flows_trans c b a q p;
  flows_total = λ a b. o.flows_total b a;
  flows_antisym = λ a b p q. o.flows_antisym a b q p;
  top_flows = o.flows_bottom;
  flows_bottom = o.top_flows;
}

module _ {C : Type 0} ⦃o : LabelOrder C⦄ where
  any_flows_to-dual : (l : C) (xs : List C) → any_flows_to xs l ≡ flows_to_any ⦃o = dual o⦄ l xs
  any_flows_to-dual l [] = refl
  any_flows_to-dual l (x ∷ xs) = rw (any_flows_to-dual l xs)

  flows_to_all-dual : (l : C) (xs : List C) → flows_to_all l xs ≡ all_flow_to ⦃o = dual o⦄ xs l
  flows_to_all-dual l [] = refl
  flows_to_all-dual l (x ∷ xs) = rw (flows_to_all-dual l xs)

  max_of-dual : (l : C) (ls : List C) → max_of l ls ≡ min_of ⦃o = dual o⦄ l ls
  unfolding max_of min_of
  max_of-dual l [] = refl
  max_of-dual l (x ∷ xs) = simp (any_flows_to-dual l xs, flows_to_all-dual l xs, max_of-dual x xs)

  -- max_of never fails its static_assert: it returns one of its arguments, which flows to every
  -- argument.
  pub max_of_lem :
      (l : C) (ls : List C)
      → (m : C) × (max_of l ls ≡ some m)
        × Elem m (l ∷ ls)
        × All (λ x. o.flows_to m x ≡ true) (l ∷ ls)
  max_of_lem l ls = rw (max_of-dual l ls) (min_of_lem ⦃o = dual o⦄ l ls)
