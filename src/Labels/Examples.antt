-- ===== src/Labels/Examples.antt =====
-- Labels of the Postgres stores put together (transactions/mtl/top.hpp,
-- transactions/mtl/label_utilities.hpp, transactions/mtl/replace_label.hpp).
use mix_t.Base.{true, ◌≡◌, ◌≢◌, refl, some}
use mix_t.Labels.Order.{min_of}
use mix_t.Labels.Pgsql.{PgsqlLabel, strong, causal, pgsql_labels}
use mix_t.Labels.Term.{Label, concrete, temp_label, label_min_of, can_resolve, resolve}
use mix_t.Labels.Meaning.{Env, meaning, can_resolve-ne-true}
use mix_t.Labels.Replace.{IsReduced, Avoids, assign, label_replace, label_replace_lem}

abbrev open_min : Label PgsqlLabel
open_min = label_min_of (temp_label 1 2) (label_min_of (concrete strong) (temp_label 3 4))

open_min_replaced :
    label_replace 3 4 causal open_min ≡ some (label_min_of (temp_label 1 2) (concrete causal))
unfolding label_replace resolve can_resolve min_of
open_min_replaced = refl

can_resolve-ne-true_example : can_resolve open_min ≢ some true
can_resolve-ne-true_example = can_resolve-ne-true open_min

label_replace_lem_example :
    (m : Label PgsqlLabel) × (label_replace 3 4 causal open_min ≡ some m)
    × IsReduced m
    × Avoids 3 4 m
    × ((env : Env PgsqlLabel) → meaning env m ≡ meaning (assign 3 4 causal env) open_min)
label_replace_lem_example = label_replace_lem 3 4 causal open_min (tt, (tt, tt, tt), tt)
