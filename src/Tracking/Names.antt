-- ===== src/Tracking/Names.antt =====
-- The names that are bound to remote objects. mutils::typeset is a parameter.
use text.Mathlib.Text.{◌==◌ as str_eq}
use mix_t.Base.{String, Bool, false, ◌||◌, ◌≡◌, List, [], ◌∷◌}

-- The fold expression `(std::is_same<name, remote_bound_things::name> || ... || false)`.
abbrev pub any_named : String → List String → Bool
any_named v [] = false
any_named v (x ∷ xs) = str_eq v x || any_named v xs

pub record NameSets : Type 0 where
  pub add : List String → String → List String
  pub contains : String → List String → Bool
  pub contains-any_named : (v : String) (xs : List String) → contains v xs ≡ any_named v xs
