-- ===== src/Flatten/Meaning/Targets.antt =====
-- Laws of an assignment and the layers of its target (transactions/mtl/flatten_expressions.hpp).
use mix_t.Base.{
  ℕ, String, true, none, some, ◌>>=◌, >>=-eq-some, some-inj, ◌≡◌, refl, sym, ap, ◌∙◌, inl, inr,
}
use mathlib.Core.Path.{fun_ext}
use mix_t.Flatten.Tree.{
  Expression, field_reference, field_pointer_reference, dereference, endorse, ensure, is_valid,
  var_reference, constant, bin_op, operation, contains_fieldpointer_ref,
}
use mix_t.Flatten.Hoisting.{
  Layer, layer_name, Hoists, whole, whole_remote, arrow, in_field, in_dereference, in_is_valid,
  in_endorse, in_ensure, in_left, in_right, in_handle, moved, in_arg,
}
use mix_t.Flatten.FlattenExprs.{is_flat}
use mix_t.Flatten.Room.Targets.{dereference_view}
use mix_t.Flatten.Meaning.{Objects, Slot, alias, State, eval, assign}
use mix_t.Flatten.Meaning.Layers.{layer_slot, Hoists-eval, Hoists-strict}

module _ {C : Type 0} where
  flat_field :
      (e : Expression C) (f : String)
      → is_flat (field_reference e f) ≡ true
      → contains_fieldpointer_ref (field_reference e f) ≡ some true
      → ⊥
  unfolding is_flat contains_fieldpointer_ref
  flat_field (var_reference v) f h k = cc
  flat_field (constant i) f h k = cc
  flat_field (field_reference e g) f h k = cc
  flat_field (field_pointer_reference e g) f h k = cc
  flat_field (dereference e) f h k = cc
  flat_field (is_valid e) f h k = cc
  flat_field (endorse l e) f h k = cc
  flat_field (ensure l e) f h k = cc
  flat_field (bin_op op L R) f h k = cc
  flat_field (operation n x args vars) f h k = cc

  -- A target that follows a handle is no layer by itself.
  flat_target : (e : Expression C) → is_flat e ≡ true → contains_fieldpointer_ref e ≡ some true → ⊥
  unfolding is_flat contains_fieldpointer_ref
  flat_target (field_reference e f) h k = flat_field e f h k
  flat_target (var_reference v) h k = cc
  flat_target (constant i) h k = cc
  flat_target (field_pointer_reference e g) h k = cc
  flat_target (dereference e) h k = cc
  flat_target (is_valid e) h k = cc
  flat_target (endorse l e) h k = cc
  flat_target (ensure l e) h k = cc
  flat_target (bin_op op L R) h k = cc
  flat_target (operation n x args vars) h k = cc

module _ {C V M : Type 0} (o : Objects V M) (seqnum depth : ℕ) (s : State V M) where
  dereference_assign :
      (e : Expression C) (l : Layer C) (e' : Expression C) (x : Slot V) (v : V)
      → s.env (layer_name seqnum depth l) ≡ some x
      → layer_slot o s l ≡ some x
      → Hoists seqnum depth (dereference e) l e'
      → assign o s e' v ≡ assign o s (dereference e) v
  unfolding assign is_flat
  dereference_assign e _ _ x v p q (whole _ h k) = cc
  dereference_assign e _ _ x v p q (whole_remote _ h) =
      let y = >>=-eq-some (eval o s e) (λ a. some (alias a)) q in
      rw (p, sym (some-inj _ _ y.2), y.1) refl
  dereference_assign _ _ _ x v p q (in_dereference e l e' h) =
      rw (Hoists-eval o seqnum depth s e l e' x p q h) refl

  -- Where the name of the layer stands for what the layer is, the assignment does the same.
  pub Hoists-assign :
      (e : Expression C) (l : Layer C) (e' : Expression C) (x : Slot V) (v : V)
      → contains_fieldpointer_ref e ≡ some true
      → s.env (layer_name seqnum depth l) ≡ some x
      → layer_slot o s l ≡ some x
      → Hoists seqnum depth e l e'
      → assign o s e' v ≡ assign o s e v
  unfolding assign contains_fieldpointer_ref eval
  Hoists-assign _ _ _ x v c p q (whole e h k) = absurd (flat_target e h c)
  Hoists-assign _ _ _ x v c p q (whole_remote e h) = cc
  Hoists-assign _ _ _ x v c p q (arrow e f l e' h) =
      Hoists-assign (field_reference (dereference e) f) l e' x v refl p q h
  Hoists-assign _ _ _ x v c p q (in_field e f l e' h) =
      rw (Hoists-eval o seqnum depth s e l e' x p q h) (
        ap (λ g. eval o s e >>= λ old. o.set_field old f v >>= g)
          (fun_ext (λ new. elim (dereference_view e) [
            | inl d ↦
                dereference_assign d.0 l e' x new p q (rw d.1 at h)
                ∙ ap (λ y. assign o s y new) (sym d.1)
            | inr w ↦ Hoists-assign e l e' x new (rw w at c) p q h
          ])))
  Hoists-assign _ _ _ x v c p q (in_dereference e l e' h) = cc
  Hoists-assign _ _ _ x v c p q (in_is_valid e l e' h) = cc
  Hoists-assign _ _ _ x v c p q (in_endorse b e l e' h) = cc
  Hoists-assign _ _ _ x v c p q (in_ensure b e l e' h) = cc
  Hoists-assign _ _ _ x v c p q (in_left op L R l L' h) = cc
  Hoists-assign _ _ _ x v c p q (in_right op L R l R' w h) = cc
  Hoists-assign _ _ _ x v c p q (in_handle n a args vars l a' h) = cc
  Hoists-assign _ _ _ x v c p q (moved n a b args vars l a' h) = cc
  Hoists-assign _ _ _ x v c p q (in_arg n a b args vars l b' w h) = cc

  -- Where the layer has no value, the assignment fails.
  pub Hoists-assign_strict :
      (e : Expression C) (l : Layer C) (e' : Expression C) (v : V)
      → contains_fieldpointer_ref e ≡ some true
      → layer_slot o s l ≡ none
      → Hoists seqnum depth e l e'
      → assign o s e v ≡ none
  unfolding assign contains_fieldpointer_ref eval
  Hoists-assign_strict _ _ _ v c q (whole e h k) = absurd (flat_target e h c)
  Hoists-assign_strict _ _ _ v c q (whole_remote e h) = cc
  Hoists-assign_strict _ _ _ v c q (arrow e f l e' h) =
      Hoists-assign_strict (field_reference (dereference e) f) l e' v refl q h
  Hoists-assign_strict _ _ _ v c q (in_field e f l e' h) =
      rw (Hoists-strict o seqnum depth s e l e' q h) refl
  Hoists-assign_strict _ _ _ v c q (in_dereference e l e' h) = cc
  Hoists-assign_strict _ _ _ v c q (in_is_valid e l e' h) = refl
  Hoists-assign_strict _ _ _ v c q (in_endorse b e l e' h) = refl
  Hoists-assign_strict _ _ _ v c q (in_ensure b e l e' h) = refl
  Hoists-assign_strict _ _ _ v c q (in_left op L R l L' h) = refl
  Hoists-assign_strict _ _ _ v c q (in_right op L R l R' w h) = refl
  Hoists-assign_strict _ _ _ v c q (in_handle n a args vars l a' h) = refl
  Hoists-assign_strict _ _ _ v c q (moved n a b args vars l a' h) = refl
  Hoists-assign_strict _ _ _ v c q (in_arg n a b args vars l b' w h) = refl
