-- ===== src/Flatten/Room/Fits.antt =====
-- The room of a step of flatten_exprs (transactions/mtl/flatten_expressions.hpp).
use mix_t.Base.{
  ℕ, suc, ◌+◌, ◌*◌, ◌≤◌, Bool, true, false, Option, some, ◌≡◌, refl, inl, inr, ◌>>=◌, arith,
}
use mix_t.Flatten.Tree.{Expression, Statement, contains_fieldpointer_ref, is_var_reference}
use mix_t.Flatten.RemoveLayer.{remove_layer}
use mix_t.Flatten.Hoisting.{Layer, value, remote, bind_layer, layers, IsOneLayer, Hoists}
use mix_t.Flatten.Hoisting.Cases.{
  remove_layer_cases, Hoists-layers, is_var_reference-true, var_view,
}
use mix_t.Flatten.FlattenExprs.{is_flat, deeper, flatten_exprs_helper}
use mix_t.Flatten.Room.{bound_room, room, HasOverloads, room_positive, next_char_below}

module _ {C : Type 0} where
  pub layer_room :
      (seqnum depth : ℕ) (l : Layer C) (s : Statement C)
      → IsOneLayer l
      → room 0 (bind_layer seqnum depth l s) ≡ suc (room 0 s)
  unfolding layers
  layer_room seqnum depth (value e) s h = rw h.0 (omega arith)
  layer_room seqnum depth (remote e) s h = let v = is_var_reference-true e h in rw v.1 (omega arith)

  pub layer_targets :
      (seqnum depth : ℕ) (l : Layer C) (s : Statement C)
      → HasOverloads s
      → HasOverloads (bind_layer seqnum depth l s)
  layer_targets seqnum depth (value e) s h = h
  layer_targets seqnum depth (remote e) s h = h

  pub no_variable : (e : Expression C) → is_flat e ≡ false → is_var_reference e ≡ false
  unfolding is_flat
  no_variable e h = elim (var_view e) [ inl v ↦ let w = v.1 in cc | inr v ↦ v.0 ]

  pub no_variable_target :
      (e : Expression C) → contains_fieldpointer_ref e ≡ some true → is_var_reference e ≡ false
  unfolding contains_fieldpointer_ref
  no_variable_target e h = elim (var_view e) [ inl v ↦ let w = v.1 in cc | inr v ↦ v.0 ]

  pub bound_room_le : (b : Bool) (e : Expression C) → bound_room b e ≤ 2 * layers e
  bound_room_le true e = omega arith
  bound_room_le false e = omega arith

  -- The call returns a tree.
  abbrev pub Returns : Option (Statement C) → Type 0
  Returns m = (t : Statement C) × (m ≡ some t)

  -- `s` has at most `steps` steps left, and seqnum and depth have room for them.
  abbrev pub Fits : ℕ → ℕ → ℕ → Statement C → Type 0
  Fits steps seqnum depth s =
      HasOverloads s × (room 0 s ≤ steps) × (room 0 s + depth ≤ 127) × (room 0 s + seqnum ≤ 127)

  module _ (rec : ℕ → ℕ → Statement C → Option (Statement C)) (steps : ℕ)
      (ih : (seqnum depth : ℕ) (s : Statement C)
        → Fits steps seqnum depth s
        → Returns (rec seqnum depth s))
      (seqnum depth : ℕ) where
    pub deeper_total :
        (s : Statement C) → Fits steps seqnum (suc depth) s → Returns (deeper rec seqnum depth s)
    deeper_total s f =
        let p = room_positive 0 s in
        let k = f.2 in
        let r = ih seqnum (depth + 1) s (f.0, f.1, omega arith, f.3) in
        (r.0, rw (next_char_below depth (omega arith)) r.1)

    -- The overloads that take a layer out of an expression `e` of the statement `s`.
    pub helper_total :
        (Sub : Expression C → Statement C) (e : Expression C) (s : Statement C)
        → is_var_reference e ≡ false
        → Fits (suc steps) seqnum depth s
        → ((l : Layer C) (e' : Expression C)
            → Hoists seqnum depth e l e'
            → layers e ≡ suc (layers e')
            → HasOverloads (Sub e') × (suc (suc (room 0 (Sub e'))) ≤ room 0 s))
        → Returns (flatten_exprs_helper rec seqnum depth (remove_layer seqnum depth Sub e))
    helper_total Sub e s w f g =
        let r = remove_layer_cases seqnum depth Sub e w in
        let n = Hoists-layers seqnum depth e r.0 r.1 r.2 in
        let k = g r.0 r.1 r.2 n.1 in
        let m = layer_room seqnum depth r.0 (Sub r.1) n.0 in
        let (_, b) = k in
        let (_, p, q, u) = f in
        rw r.3 (
          deeper_total (bind_layer seqnum depth r.0 (Sub r.1))
            (layer_targets seqnum depth r.0 (Sub r.1) k.0, omega arith, omega arith, omega arith))

    pub around_total :
        (make : Statement C → Statement C) (body : Statement C)
        → Fits steps seqnum (suc depth) body
        → Returns (deeper rec seqnum depth body >>= λ body'. some (make body'))
    around_total make body f = let r = deeper_total body f in (make r.0, rw r.1 refl)
