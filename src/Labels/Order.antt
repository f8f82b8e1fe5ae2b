-- ===== src/Labels/Order.antt =====
-- The interface that a concrete label type fills (`Label<top>`, `Label<bottom>`, `Label<causal>`,
-- `Label<strong>`), and labels::min_of and labels::max_of over it
-- (transactions/mtl/label_utilities.hpp).
use mix_t.Base.{
  Bool, true, false, ◌&&◌, ◌||◌, ◌≡◌, ◌⊎◌, ◌↔◌, Option, none, some, List, [], ◌∷◌, if◌then◌else◌,
}

-- Concrete labels with their flows_to. A label flows to the labels that are no more trusted
-- than itself; `is_same` is std::is_same on the C++ types.
pub record LabelOrder (C : Type 0) : Type 0 where
  pub top : C
  pub bottom : C
  pub flows_to : C → C → Bool
  pub is_same : C → C → Bool
  pub is_same_iff : (a b : C) → (is_same a b ≡ true) ↔ (a ≡ b)
  pub flows_refl : (a : C) → flows_to a a ≡ true
  pub flows_trans : (a b c : C) → flows_to a b ≡ true → flows_to b c ≡ true → flows_to a c ≡ true
  pub flows_total : (a b : C) → (flows_to a b ≡ true) ⊎ (flows_to b a ≡ true)
  pub flows_antisym : (a b : C) → flows_to a b ≡ true → flows_to b a ≡ true → a ≡ b
  pub top_flows : (a : C) → flows_to top a ≡ true
  pub flows_bottom : (a : C) → flows_to a bottom ≡ true

module _ {C : Type 0} ⦃o : LabelOrder C⦄ where
  -- The fold expression `(li::flows_to(Label<l1>{}) && ...)`.
  abbrev pub all_flow_to : List C → C → Bool
  all_flow_to [] l = true
  all_flow_to (x ∷ xs) l = o.flows_to x l && all_flow_to xs l

  abbrev pub flows_to_any : C → List C → Bool
  flows_to_any l [] = false
  flows_to_any l (x ∷ xs) = o.flows_to l x || flows_to_any l xs

  abbrev pub any_flows_to : List C → C → Bool
  any_flows_to [] l = false
  any_flows_to (x ∷ xs) l = o.flows_to x l || any_flows_to xs l

  abbrev pub flows_to_all : C → List C → Bool
  flows_to_all l [] = true
  flows_to_all l (x ∷ xs) = o.flows_to l x && flows_to_all l xs

  -- `none` is the failed static_assert.
  unfoldable pub min_of : C → List C → Option C
  min_of l1 [] = some l1
  min_of l1 (l3 ∷ l2) =
      let rest = min_of l3 l2 in
      if flows_to_any l1 (l3 ∷ l2) then rest else if all_flow_to (l3 ∷ l2) l1 then some l1 else none

  unfoldable pub max_of : C → List C → Option C
  max_of l1 [] = some l1
  max_of l1 (l3 ∷ l2) =
      let rest = max_of l3 l2 in
      if any_flows_to (l3 ∷ l2) l1
      then rest
      else if flows_to_all l1 (l3 ∷ l2)
      then some l1
      else none
