-- ===== src/Flatten/Room/Targets.antt =====
-- Laws of the targets of assignments (transactions/mtl/flatten_expressions.hpp).
use mix_t.Base.{ℕ, String, Bool, true, false, some, ◌≡◌, refl, inl, inr, ◌⊎◌}
use mix_t.Flatten.Tree.{
  Expression, var_reference, constant, field_reference, field_pointer_reference, dereference,
  is_valid, endorse, ensure, bin_op, operation, is_dereference, contains_fieldpointer_ref,
}
use mix_t.Flatten.Hoisting.{
  Layer, Hoists, whole, whole_remote, arrow, in_field, in_dereference, in_is_valid, in_endorse,
  in_ensure, in_left, in_right, in_handle, moved, in_arg,
}
use mix_t.Flatten.Room.{IsTarget}

module _ {C : Type 0} where
  pub dereference_view :
      (e : Expression C) → ((x : Expression C) × (e ≡ dereference x)) ⊎ (is_dereference e ≡ false)
  dereference_view (dereference x) = inl (x, refl)
  dereference_view (var_reference v) = inr refl
  dereference_view (constant i) = inr refl
  dereference_view (field_reference e f) = inr refl
  dereference_view (field_pointer_reference e f) = inr refl
  dereference_view (is_valid e) = inr refl
  dereference_view (endorse l e) = inr refl
  dereference_view (ensure l e) = inr refl
  dereference_view (bin_op op L R) = inr refl
  dereference_view (operation n h args vars) = inr refl

  -- contains_fieldpointer_ref is defined at a target.
  pub contains_fieldpointer_ref_total :
      (l : Expression C) → IsTarget l → (b : Bool) × (contains_fieldpointer_ref l ≡ some b)
  unfolding contains_fieldpointer_ref
  contains_fieldpointer_ref_total (var_reference v) h = (false, refl)
  contains_fieldpointer_ref_total (field_pointer_reference e f) h = (true, refl)
  contains_fieldpointer_ref_total (field_reference e f) h = elim (dereference_view e) [
    | inl x ↦ (true, rw x.1 refl)
    | inr w ↦ let r = contains_fieldpointer_ref_total e (rw w at h) in (r.0, rw w r.1)
  ]
  contains_fieldpointer_ref_total (constant i) h = absurd h
  contains_fieldpointer_ref_total (dereference e) h = absurd h
  contains_fieldpointer_ref_total (is_valid e) h = absurd h
  contains_fieldpointer_ref_total (endorse l e) h = absurd h
  contains_fieldpointer_ref_total (ensure l e) h = absurd h
  contains_fieldpointer_ref_total (bin_op op L R) h = absurd h
  contains_fieldpointer_ref_total (operation n x args vars) h = absurd h

  -- A field of a target is a target.
  field-IsTarget : (e : Expression C) (f : String) → IsTarget e → IsTarget (field_reference e f)
  field-IsTarget e f h = elim (dereference_view e) [ inl x ↦ rw x.1 tt | inr w ↦ rw w h ]

  module _ (seqnum depth : ℕ) where
    dereference_layer :
        (x : Expression C) (l : Layer C) (e' : Expression C) (f : String)
        → Hoists seqnum depth (dereference x) l e'
        → IsTarget (field_reference e' f)
    dereference_layer x l e' f (whole _ h k) = tt
    dereference_layer x l e' f (whole_remote _ w) = tt
    dereference_layer x l e' f (in_dereference _ _ x' h) = tt

    -- A target that follows a handle is still one after it loses a layer.
    pub Hoists-IsTarget :
        (t : Expression C) (l : Layer C) (t' : Expression C)
        → contains_fieldpointer_ref t ≡ some true
        → Hoists seqnum depth t l t'
        → IsTarget t'
    unfolding contains_fieldpointer_ref
    Hoists-IsTarget t l t' w (whole _ h k) = tt
    Hoists-IsTarget t l t' w (whole_remote _ h) = tt
    Hoists-IsTarget t l t' w (arrow e f _ _ h) =
        Hoists-IsTarget (field_reference (dereference e) f) l t' refl h
    Hoists-IsTarget t l t' w (in_field e f _ e' h) = elim (dereference_view e) [
      | inl x ↦ dereference_layer x.0 l e' f (rw x.1 at h)
      | inr v ↦ field-IsTarget e' f (Hoists-IsTarget e l e' (rw v at w) h)
    ]
    Hoists-IsTarget t l t' w (in_dereference e _ e' h) = cc
    Hoists-IsTarget t l t' w (in_is_valid e _ e' h) = cc
    Hoists-IsTarget t l t' w (in_endorse c e _ e' h) = cc
    Hoists-IsTarget t l t' w (in_ensure c e _ e' h) = cc
    Hoists-IsTarget t l t' w (in_left op L R _ L' h) = cc
    Hoists-IsTarget t l t' w (in_right op L R _ R' v h) = cc
    Hoists-IsTarget t l t' w (in_handle n x args vars _ x' h) = cc
    Hoists-IsTarget t l t' w (moved n x v args vars _ x' h) = cc
    Hoists-IsTarget t l t' w (in_arg n x a args vars _ a' v h) = cc
