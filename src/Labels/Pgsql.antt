-- ===== src/Labels/Pgsql.antt =====
-- The concrete labels of the Postgres stores (transactions/pgsql/SQLLevels.hpp) with top and bottom
-- (transactions/mtl/top.hpp) fill the interface of concrete labels.
use mix_t.Base.{Bool, true, false, ◌≡◌, refl, ◌⊎◌, ◌↔◌, arith}
use mix_t.Labels.Order.{LabelOrder}

pub data PgsqlLabel : Type 0 where
  top strong causal bottom : PgsqlLabel

-- Each clause is an overload of flows_to; `Label<top>` has one for every label, and
-- `Label<bottom>` compares the types.
abbrev pub flows_to : PgsqlLabel → PgsqlLabel → Bool
flows_to top _ = true
flows_to strong top = false
flows_to strong _ = true
flows_to causal bottom = true
flows_to causal causal = true
flows_to causal _ = false
flows_to bottom bottom = true
flows_to bottom _ = false

abbrev pub is_same : PgsqlLabel → PgsqlLabel → Bool
is_same top top = true
is_same strong strong = true
is_same causal causal = true
is_same bottom bottom = true
is_same _ _ = false

pub is_same_iff : (a b : PgsqlLabel) → (is_same a b ≡ true) ↔ (a ≡ b)
is_same_iff a b = ground arith

pub flows_refl : (a : PgsqlLabel) → flows_to a a ≡ true
flows_refl a = ground arith

pub flows_trans :
    (a b c : PgsqlLabel) → flows_to a b ≡ true → flows_to b c ≡ true → flows_to a c ≡ true
flows_trans a b c = ground arith

pub flows_total : (a b : PgsqlLabel) → (flows_to a b ≡ true) ⊎ (flows_to b a ≡ true)
flows_total a b = ground arith

pub flows_antisym : (a b : PgsqlLabel) → flows_to a b ≡ true → flows_to b a ≡ true → a ≡ b
flows_antisym a b = ground arith

pub top_flows : (a : PgsqlLabel) → flows_to top a ≡ true
top_flows a = refl

pub flows_bottom : (a : PgsqlLabel) → flows_to a bottom ≡ true
flows_bottom a = ground arith

instance abbrev pub pgsql_labels : LabelOrder PgsqlLabel
pgsql_labels = record {
  top = top;
  bottom = bottom;
  flows_to = flows_to;
  is_same = is_same;
  is_same_iff = is_same_iff;
  flows_refl = flows_refl;
  flows_trans = flows_trans;
  flows_total = flows_total;
  flows_antisym = flows_antisym;
  top_flows = top_flows;
  flows_bottom = flows_bottom;
}
