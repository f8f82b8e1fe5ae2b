-- ===== src/Flatten/Meaning/Steps.antt =====
-- Inversion of a step of flatten_exprs, and the names of the tree that it goes on with
-- (transactions/mtl/flatten_expressions.hpp).
use mix_t.Base.{
  ℕ, ◌+◌, false, Option, some, >>=-eq-some, some-inj, ◌≡◌, refl, sym, ◌∙◌, inl, inr, arith,
}
use mix_t.Split.Named.{next_char}
use mix_t.Flatten.Tree.{Name, Expression, Statement, is_var_reference}
use mix_t.Flatten.RemoveLayer.{remove_layer}
use mix_t.Flatten.Hoisting.{Layer, value, remote, layer_name, bind_layer, Hoists}
use mix_t.Flatten.Hoisting.Cases.{remove_layer_cases}
use mix_t.Flatten.FlattenExprs.{deeper, flatten_exprs_helper}
use mix_t.Flatten.Meaning.Fresh.{anorm-IsOlder, remote_bound_tmp-IsOlder}
use mix_t.Flatten.Meaning.Scope.{Names, NamesOfStatement, NamesOfLayer, Names-mono, IsOlder}
use mix_t.Flatten.Meaning.Fresh.{Hoists-Names}

pub next_char-eq-some : (n m : ℕ) → next_char n ≡ some m → n + 1 ≡ m
unfolding next_char
next_char-eq-some n m h = ground arith

module _ {C : Type 0} (seqnum depth : ℕ) where
  pub layer_name-IsOlder_deeper :
      (l : Layer C) → IsOlder seqnum (depth + 1) (layer_name seqnum depth l)
  layer_name-IsOlder_deeper (value e) =
      anorm-IsOlder seqnum depth seqnum (depth + 1) (inl (omega arith))
  layer_name-IsOlder_deeper (remote e) =
      remote_bound_tmp-IsOlder seqnum depth seqnum (depth + 1) (inl (omega arith))

  pub layer_name-IsOlder_behind :
      (l : Layer C) → IsOlder (seqnum + 1) depth (layer_name seqnum depth l)
  layer_name-IsOlder_behind (value e) =
      anorm-IsOlder seqnum depth (seqnum + 1) depth (inr (refl, omega arith))
  layer_name-IsOlder_behind (remote e) =
      remote_bound_tmp-IsOlder seqnum depth (seqnum + 1) depth (inr (refl, omega arith))

  pub bind_layer-Names :
      (P : Name → Type 0) (l : Layer C) (s : Statement C)
      → P (layer_name seqnum depth l)
      → NamesOfLayer P l
      → NamesOfStatement P s
      → NamesOfStatement P (bind_layer seqnum depth l s)
  bind_layer-Names P (value e) s p n m = (p, n, m)
  bind_layer-Names P (remote e) s p n m = (p, n, m)

  module _ (rec : ℕ → ℕ → Statement C → Option (Statement C)) where
    pub deeper-eq-some :
        (s t : Statement C) → deeper rec seqnum depth s ≡ some t → rec seqnum (depth + 1) s ≡ some t
    deeper-eq-some s t h =
        let d = >>=-eq-some (next_char depth) (λ d. rec seqnum d s) h in
        rw (next_char-eq-some depth d.0 d.1) d.2

    -- An overload that takes a layer out goes on with the statement behind the layer.
    pub helper-eq-some :
        (Sub : Expression C → Statement C) (e : Expression C) (t : Statement C)
        → is_var_reference e ≡ false
        → flatten_exprs_helper rec seqnum depth (remove_layer seqnum depth Sub e) ≡ some t
        → (l : Layer C) × (e' : Expression C) × Hoists seqnum depth e l e'
          × (rec seqnum (depth + 1) (bind_layer seqnum depth l (Sub e')) ≡ some t)
    helper-eq-some Sub e t w h =
        let r = remove_layer_cases seqnum depth Sub e w in
        let k = >>=-eq-some (remove_layer seqnum depth Sub e) (λ s. deeper rec seqnum depth s) h in
        (r.0, r.1, r.2, rw (some-inj _ _ (sym r.3 ∙ k.1)) (deeper-eq-some k.0 t k.2))

module _ {C : Type 0} where
  -- A statement behind a layer has the names of the position it is flattened at.
  pub layer_Names :
      (seqnum depth q d : ℕ) (Sub : Expression C → Statement C) (e : Expression C) (l : Layer C)
      (e' : Expression C)
      → Hoists seqnum depth e l e'
      → ((n : Name) → IsOlder seqnum depth n → IsOlder q d n)
      → IsOlder q d (layer_name seqnum depth l)
      → Names (IsOlder seqnum depth) e
      → (Names (IsOlder q d) e' → NamesOfStatement (IsOlder q d) (Sub e'))
      → NamesOfStatement (IsOlder q d) (bind_layer seqnum depth l (Sub e'))
  layer_Names seqnum depth q d Sub e l e' h f g n s =
      let r =
        Hoists-Names seqnum depth (IsOlder q d) e l e' h g
          (Names-mono (IsOlder seqnum depth) (IsOlder q d) f e n) in
      bind_layer-Names seqnum depth (IsOlder q d) l (Sub e') g r.0 (s r.1)
