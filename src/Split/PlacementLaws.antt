-- ===== src/Split/PlacementLaws.antt =====
-- Every node at a concrete label is taken by one overload (are_equivalent in
-- transactions/mtl/AST_split.hpp).
use mix_t.Base.{true, ◌≡◌, refl, inl, inr, some, Bool-cases, if◌then◌else◌, arith}
use mix_t.Labels.Order.{LabelOrder, min_of}
use mix_t.Labels.Term.{concrete}
use mix_t.Split.Placement.{here, elsewhere, are_equivalent, place}

module _ {C : Type 0} ⦃o : LabelOrder C⦄ where
  is_same_refl : (a : C) → o.is_same a a ≡ true
  is_same_refl a = (o.is_same_iff a a).1 refl

  is_same_sym : (a b : C) → o.is_same a b ≡ o.is_same b a
  is_same_sym a b = elim (Bool-cases (o.is_same a b)) [
    | inl p ↦ rw ((o.is_same_iff a b).0 p) refl
    | inr p ↦ elim (Bool-cases (o.is_same b a)) [
      | inl q ↦ rw ((o.is_same_iff b a).0 q) refl
      | inr q ↦ rw (p, q) refl
    ]
  ]

  are_equivalent_lem : (a b : C) → are_equivalent a b ≡ some (o.is_same a b)
  unfolding are_equivalent min_of
  are_equivalent_lem a b = elim (Bool-cases (o.flows_to a b)) [
    | inl p ↦ elim (Bool-cases (o.flows_to b a)) [
      | inl q ↦ rw (o.flows_antisym a b p q, o.flows_refl b, is_same_refl b) refl
      | inr q ↦ rw (p, q, is_same_refl b) (ground (arith))
    ]
    | inr p ↦ elim (o.flows_total a b) [
      | inl q ↦ cc
      | inr q ↦ rw (p, q, is_same_refl a, is_same_sym a b) refl
    ]
  ]

  -- A node at a concrete label is taken by exactly one overload: the one for the label of the
  -- phase when the labels are the same, and otherwise the one for another label.
  pub place_lem :
      (l k : C) → place l (concrete k) ≡ some (if o.is_same k l then here else elsewhere k)
  unfolding place
  place_lem l k = elim (Bool-cases (o.is_same k l)) [
    | inl p ↦ rw (are_equivalent_lem l k, p) refl
    | inr p ↦ rw (are_equivalent_lem l k, is_same_sym l k, p) refl
  ]
