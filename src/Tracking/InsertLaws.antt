-- ===== src/Tracking/InsertLaws.antt =====
-- Laws of the insertion of tracking (transactions/mtl/insert_tracking.hpp,
-- transactions/mtl/writes_remote.hpp).
use mathlib.Core.List.{append-nil, append_assoc}
use mix_t.Base.{
  String, Bool, true, false, ◌&&◌, ◌≡◌, refl, sym, ap₂, ◌∙◌, some, some-inj, >>=-eq-some, List, [],
  ◌∷◌, ◌++◌,
}
use mix_t.Labels.Term.{Label}
use mix_t.Ast.{
  Expression, var_reference, field_reference, constant, bin_op, generate_tombstone, is_valid,
  endorse, operation, Args, Statement, let_in, let_remote, assignment, return, write_tombstone,
  accompany_write, if_else, while, operation_statement, sequence, Sequence, done, next,
}
use mix_t.Tracking.Names.{NameSets, any_named}
use mix_t.Tracking.WritesRemote.{bound_name}
use mix_t.Tracking.Insert.{
  TrackedSets, TrackingPair, is_remote_bound, accompanied_if, insert_tracking, insert_tracking_each,
}

-- The statements of a transaction that tracking is about, in order.
pub data Event (C : Type 0) : Type 0 where
  assigned : Label C → Expression C → Expression C → Event C
  accompanied : Label C → Expression C → Event C
  tombstone_written : Label C → Expression C → Event C
  returned : Expression C → Event C
  operated : Label C → String → Expression C → Args C → Event C

-- An event with the names that are bound to remote objects around it.
pub record Scoped (C : Type 0) : Type 0 where
  pub scope : List String
  pub event : Event C

module _ {C : Type 0} where
  abbrev scoped : List String → Event C → Scoped C
  scoped scope event = record { scope = scope; event = event }

  -- Whether an expression is a remote object's, or a field of one.
  abbrev remote_in : List String → Expression C → Bool
  remote_in names (var_reference l y v) = any_named v names
  remote_in names (field_reference l y s f) = remote_in names s
  remote_in names _ = false

module _ {C : Type 0} (names : NameSets) where
  abbrev mutual
    pub events : List String → Statement C → List (Scoped C)
    events r (let_in l b s) = events r s
    events r (let_remote l b s) = events (names.add r (bound_name b)) s
    events r (assignment l v e) = scoped r (assigned l v e) ∷ []
    events r (return e) = scoped r (returned e) ∷ []
    events r (write_tombstone l e) = scoped r (tombstone_written l e) ∷ []
    events r (accompany_write l e) = scoped r (accompanied l e) ∷ []
    events r (if_else l c t e) = events r t ++ events r e
    events r (while l c s) = events r s
    events r (operation_statement l n h args) = scoped r (operated l n h args) ∷ []
    events r (sequence l ss) = events_each r ss

    pub events_each : List String → Sequence C → List (Scoped C)
    events_each r done = []
    events_each r (next s ss) = events r s ++ events_each r ss

module _ {C : Type 0} (names : NameSets) (sets : TrackedSets C) (tracked : TrackingPair C) where
  abbrev followed_if : Bool → List String → Label C → Expression C → Expression C → List (Scoped C)
  followed_if true r l v e = scoped r (assigned l v e) ∷ scoped r (accompanied l v) ∷ []
  followed_if false r l v e = scoped r (assigned l v e) ∷ []

  -- What stands in place of an event: an assignment at a strong label to a remote object is followed
  -- by the accompanying write, and nothing else is.
  abbrev pub followed_event : List String → Event C → List (Scoped C)
  followed_event r (assigned l v e) =
      followed_if (sets.contains l tracked.strong && remote_in r v) r l v e
  followed_event r (accompanied l v) = scoped r (accompanied l v) ∷ []
  followed_event r (tombstone_written l v) = scoped r (tombstone_written l v) ∷ []
  followed_event r (returned e) = scoped r (returned e) ∷ []
  followed_event r (operated l n h args) = scoped r (operated l n h args) ∷ []

  abbrev pub all_followed : List (Scoped C) → List (Scoped C)
  all_followed [] = []
  all_followed (x ∷ xs) = followed_event x.scope x.event ++ all_followed xs

  followed-append :
      (xs ys : List (Scoped C)) → all_followed (xs ++ ys) ≡ all_followed xs ++ all_followed ys
  followed-append [] ys = refl
  followed-append (x ∷ xs) ys =
      rw (followed-append xs ys)
        (sym (append_assoc (followed_event x.scope x.event) (all_followed xs) (all_followed ys)))

  remote_in-bound :
      (r : List String) (v : Expression C) (b : Bool)
      → is_remote_bound r v ≡ some b
      → remote_in r v ≡ b
  unfolding is_remote_bound
  remote_in-bound r (var_reference l y v) b h = some-inj _ _ h
  remote_in-bound r (field_reference l y s f) b h = remote_in-bound r s b h
  remote_in-bound r (constant i) b h = cc
  remote_in-bound r (bin_op l y op p q) b h = cc
  remote_in-bound r (generate_tombstone l) b h = cc
  remote_in-bound r (is_valid l e) b h = cc
  remote_in-bound r (endorse l y e) b h = cc
  remote_in-bound r (operation l y n e args) b h = cc

  events-accompanied_if :
      (t : Bool) (r : List String) (l : Label C) (v e : Expression C)
      → events names r (accompanied_if t l v e) ≡ followed_if t r l v e
  events-accompanied_if true r l v e = refl
  events-accompanied_if false r l v e = refl

  mutual
    unfolding insert_tracking insert_tracking_each

    inserted_events :
        (r : List String) (s s' : Statement C)
        → insert_tracking names sets tracked r s ≡ some s'
        → events names r s' ≡ all_followed (events names r s)
    inserted_events r (assignment l v e) s' h =
        let (b, p, k) = >>=-eq-some (is_remote_bound r v) _ h in
        rw (sym (some-inj _ _ k), remote_in-bound r v b p)
          (events-accompanied_if (sets.contains l tracked.strong && b) r l v e ∙ sym (append-nil _))
    inserted_events r (return e) s' h = rw (sym (some-inj _ _ h)) refl
    inserted_events r (let_in l b s) s' h =
        let (t, p, k) = >>=-eq-some (insert_tracking names sets tracked r s) _ h in
        rw (sym (some-inj _ _ k)) (inserted_events r s t p)
    inserted_events r (let_remote l b s) s' h =
        let (t, p, k) =
          >>=-eq-some (insert_tracking names sets tracked (names.add r (bound_name b)) s) _ h in
        rw (sym (some-inj _ _ k)) (inserted_events (names.add r (bound_name b)) s t p)
    inserted_events r (operation_statement l n e args) s' h = rw (sym (some-inj _ _ h)) refl
    inserted_events r (if_else l c t e) s' h =
        let (t', p, k) = >>=-eq-some (insert_tracking names sets tracked r t) _ h in
        let (e', q, u) = >>=-eq-some (insert_tracking names sets tracked r e) _ k in
        rw (sym (some-inj _ _ u), followed-append (events names r t) (events names r e))
          (ap₂ (λ x y. x ++ y) (inserted_events r t t' p) (inserted_events r e e' q))
    inserted_events r (while l c s) s' h =
        let (t, p, k) = >>=-eq-some (insert_tracking names sets tracked r s) _ h in
        rw (sym (some-inj _ _ k)) (inserted_events r s t p)
    inserted_events r (write_tombstone l e) s' h = cc
    inserted_events r (accompany_write l e) s' h = cc
    inserted_events r (sequence l ss) s' h =
        let (ts, p, k) = >>=-eq-some (insert_tracking_each names sets tracked r ss) _ h in
        rw (sym (some-inj _ _ k)) (inserted_each r ss ts p)

    inserted_each :
        (r : List String) (ss ss' : Sequence C)
        → insert_tracking_each names sets tracked r ss ≡ some ss'
        → events_each names r ss' ≡ all_followed (events_each names r ss)
    inserted_each r done ss' h = rw (sym (some-inj _ _ h)) refl
    inserted_each r (next s ss) ss' h =
        let (t, p, k) = >>=-eq-some (insert_tracking names sets tracked r s) _ h in
        let (ts, q, u) = >>=-eq-some (insert_tracking_each names sets tracked r ss) _ k in
        rw (sym (some-inj _ _ u), followed-append (events names r s) (events_each names r ss))
          (ap₂ (λ x y. x ++ y) (inserted_events r s t p) (inserted_each r ss ts q))

  -- Where the insertion of tracking compiles, the assignments, returns and operations of the
  -- transaction stay in their order; each assignment at a strong label to a remote object, or to a
  -- field of one, is followed by its accompanying write, and there are no other ones.
  pub insert_tracking-events :
      (r : List String) (s s' : Statement C)
      → insert_tracking names sets tracked r s ≡ some s'
      → events names r s' ≡ all_followed (events names r s)
  insert_tracking-events r s s' h = inserted_events r s s' h
