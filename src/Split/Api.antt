-- ===== src/Split/Api.antt =====
-- What a phase requires, provides and inherits (transactions/mtl/split_phase_utils.hpp,
-- transactions/mtl/split_phase_impl_utils.hpp), and the bindings in these lists
-- (transactions/mtl/environments.hpp). The searches of mutils::typelist are a parameter.
use mix_t.Base.{String, Bool, true, ◌≡◌, Option, none, some, List, [], ◌∷◌, ◌++◌, Elem}
use mix_t.Labels.Term.{Label}
use mix_t.Ast.{Yield, plain, handle}
use mix_t.Split.NamedTree.{LoopName}

pub data TypeLocation : Type 0 where
  local remote : TypeLocation

-- `type_binding<name, type, label, location>` and `while_binding<name>`: is_variable_binding.
pub data VariableBinding (C : Type 0) : Type 0 where
  type_binding : String → Yield C → Label C → TypeLocation → VariableBinding C
  while_binding : LoopName → VariableBinding C

-- `type_binding_super<name, type>`.
pub record BindingSuper (C : Type 0) : Type 0 where
  pub name : String
  pub type : Yield C

abbrev pub binding_super : {C : Type 0} → String → Yield C → BindingSuper C
binding_super name type = record { name = name; type = type }

module _ {C : Type 0} where
  -- `typename T::type`: the object behind a handle; `none` where T is no handle.
  abbrev pub handle_type : Yield C → Option (Yield C)
  handle_type (plain t) = none
  handle_type (handle l t) = some (plain t)

  -- The base class: a remote binding derives from the binding of the object behind its handle.
  abbrev pub super : VariableBinding C → Option (BindingSuper C)
  super (type_binding x y l local) = some (binding_super x y)
  super (type_binding x (plain t) l remote) = none
  super (type_binding x (handle m t) l remote) = some (binding_super x (plain t))
  super (while_binding n) = none

-- The queries of mutils::typelist, where the subtypes of a binding_super are the bindings that
-- derive from it.
pub record BindingLists (C : Type 0) : Type 0 where
  pub contains_subtype : BindingSuper C → List (VariableBinding C) → Bool
  pub find_subtype : BindingSuper C → List (VariableBinding C) → Option (VariableBinding C)
  pub contained : VariableBinding C → List (VariableBinding C) → Bool
  pub find-Elem :
      (s : BindingSuper C) (xs : List (VariableBinding C)) (b : VariableBinding C)
      → find_subtype s xs ≡ some b
      → Elem b xs × (super b ≡ some s)
  pub contained-Elem :
      (b : VariableBinding C) (xs : List (VariableBinding C)) → contained b xs ≡ true → Elem b xs

-- phase_api; the label of the phase is a parameter of the functions on it.
pub record PhaseApi (C : Type 0) : Type 0 where
  pub requires : List (VariableBinding C)
  pub provides : List (VariableBinding C)
  pub inherits : List (VariableBinding C)

module _ {C : Type 0} where
  abbrev pub phase_api :
      List (VariableBinding C) → List (VariableBinding C) → List (VariableBinding C) → PhaseApi C
  phase_api requires provides inherits = record {
    requires = requires;
    provides = provides;
    inherits = inherits;
  }

  abbrev pub add_provides : PhaseApi C → VariableBinding C → PhaseApi C
  add_provides api b = record api { provides = api.provides ++ (b ∷ []) }

  abbrev pub add_requires : PhaseApi C → VariableBinding C → PhaseApi C
  add_requires api b = record api { requires = api.requires ++ (b ∷ []) }

  -- combined_api of two. Both inherit the same, which the specialisation asks for.
  abbrev pub combined_api : PhaseApi C → PhaseApi C → PhaseApi C
  combined_api a b = record {
    requires = a.requires ++ b.requires;
    provides = a.provides ++ b.provides;
    inherits = a.inherits;
  }

-- extracted_phase, around any part of a tree; no returns is `void`.
pub record ExtractedPhase (C : Type 0) (A : Type 0) : Type 0 where
  pub api : PhaseApi C
  pub returns : Option (Yield C)
  pub ast : A

abbrev pub extracted_phase : {C A : Type 0} → PhaseApi C → Option (Yield C) → A → ExtractedPhase C A
extracted_phase api returns ast = record { api = api; returns = returns; ast = ast }
