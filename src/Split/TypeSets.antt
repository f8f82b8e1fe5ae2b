-- ===== src/Split/TypeSets.antt =====
-- The sets of mutils::typeset that the passes behind the collection of a phase use, a parameter;
-- and the names in them (transactions/mtl/environments.hpp,
-- transactions/mtl/split_phase_impl_utils.hpp).
use mix_t.Base.{String, Bool, ◌≡◌, ◌⊎◌, ◌↔◌, Option, List, Elem}
use mix_t.Split.NamedTree.{LoopName}
use mix_t.Split.Api.{VariableBinding, type_binding, while_binding}

-- A variable's name, or a loop's, which is the character 1 and two more.
pub data BindingName : Type 0 where
  variable : String → BindingName
  loop : LoopName → BindingName

abbrev pub name_of : {C : Type 0} → VariableBinding C → BindingName
name_of (type_binding x y l location) = variable x
name_of (while_binding n) = loop n

pub record TypeSets (C : Type 0) : Type 0 where
  -- typeset<>::add<...>, to_typeset, and add of one.
  pub add_all : List (VariableBinding C) → List (VariableBinding C)
  pub to_typeset : List (VariableBinding C) → List (VariableBinding C)
  pub add : List (VariableBinding C) → VariableBinding C → List (VariableBinding C)
  -- Whether one of the results of get_binding2 is no mismatch.
  pub contains_match : List (Option (VariableBinding C)) → Bool
  pub combine : List BindingName → List BindingName → List BindingName
  -- typelist_ns::combine.
  pub combine_lists : List (List BindingName) → List BindingName
  pub subtract : List BindingName → List BindingName → List BindingName
  pub contains : BindingName → List BindingName → Bool
  pub to_typeset-Elem :
      (b : VariableBinding C) (xs : List (VariableBinding C)) → Elem b (to_typeset xs) ↔ Elem b xs
  pub add-Elem :
      (b c : VariableBinding C) (xs : List (VariableBinding C))
      → Elem b (add xs c)
      → Elem b xs ⊎ (b ≡ c)
