-- ===== src/Split/Placement.antt =====
-- How the label of a node stands to the label of the phase (are_equivalent and the label patterns
-- of the overloads of _collect_phase in transactions/mtl/AST_split.hpp), and which names are
-- builtins (transactions/mtl/builtins_declarations.hpp).
use text.Mathlib.Text.{◌==◌ as str_eq}
use mix_t.Base.{
  String, Bool, true, false, ◌&&◌, ◌||◌, Option, none, some, [], ◌∷◌, if◌then◌else◌, ◌>>=◌,
}
use mix_t.Labels.Order.{LabelOrder, min_of}
use mix_t.Labels.Term.{Label, concrete}

unfoldable pub is_builtin : String → Bool
is_builtin s =
    str_eq s "default list"
    || str_eq s "push_back"
    || str_eq s "nulled"
    || str_eq s "true"
    || str_eq s "false"

pub data Placement (C : Type 0) : Type 0 where
  here : Placement C
  elsewhere : C → Placement C

module _ {C : Type 0} ⦃o : LabelOrder C⦄ where
  unfoldable pub are_equivalent : C → C → Option Bool
  are_equivalent l1 l2 = do
    m ← min_of l1 (l2 ∷ [])
    n ← min_of l2 (l1 ∷ [])
    some (o.is_same l1 m && o.is_same l2 n)

  -- The overload by whether the label is the phase's own, and whether the two are equivalent.
  abbrev pub overload : Bool → Bool → C → Option (Placement C)
  overload true _ m = some here
  overload false true m = none
  overload false false m = some (elsewhere m)

  -- Which overload takes a node: the one for the phase's own label, or the one whose enable_if asks
  -- that the labels are not equivalent. `none`: there is no overload, as for a label that inference
  -- has not made concrete.
  unfoldable pub place : C → Label C → Option (Placement C)
  place l (concrete m) = do e ← are_equivalent l m; overload (o.is_same m l) e m
  place l _ = none

  -- `label2::flows_to(label{})`, where only a concrete label can flow.
  abbrev pub flows_up : C → Label C → Option Bool
  flows_up l (concrete m) = some (o.flows_to m l)
  flows_up l _ = none

  -- `label::flows_to(label2{})`, asserted, with the label found.
  abbrev pub must_flow_down : C → Label C → Option C
  must_flow_down l (concrete m) = if o.flows_to l m then some m else none
  must_flow_down l _ = none
