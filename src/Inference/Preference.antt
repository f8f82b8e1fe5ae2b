-- ===== src/Inference/Preference.antt =====
-- The order that constraints are sorted by (less_than in transactions/mtl/label_inference.hpp).
use mix_t.Base.{◌<◌, ◌≡◌, true, some, ℕ, arith}
use mix_t.Labels.Order.{LabelOrder}
use mix_t.Labels.Term.{temp_label}
use mix_t.Inference.Solve.{less_than}

-- less_than is no order on temporary labels: where the first components are one way round and the
-- second ones the other, each of the two labels is less than the other.
pub less_than_both :
    (C : Type 0) ⦃o : LabelOrder C⦄ (l1 l2 r1 r2 : ℕ)
    → l1 < r1
    → r2 < l2
    → (less_than {C = C} (temp_label l1 l2) (temp_label r1 r2) ≡ some true)
      × (less_than {C = C} (temp_label r1 r2) (temp_label l1 l2) ≡ some true)
unfolding less_than
less_than_both C l1 l2 r1 r2 p q = (ground arith, ground arith)
