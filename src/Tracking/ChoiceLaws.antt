-- ===== src/Tracking/ChoiceLaws.antt =====
-- A transaction that writes no remote object needs no tracking, and one that does gets it
-- (transactions/mtl/writes_remote.hpp, transactions/mtl/insert_tracking.hpp).
use mix_t.Base.{
  String, Bool, false, ◌&&◌, ◌||◌, ◌≡◌, refl, sym, ap, ◌∙◌, some, some-inj, >>=-eq-some, List,
  arith,
}
use mix_t.Labels.Pgsql.{pgsql_labels}
use mix_t.Ast.{
  Expression, var_reference, field_reference, constant, bin_op, generate_tombstone, is_valid,
  endorse, operation, Statement, let_in, let_remote, assignment, return, write_tombstone,
  accompany_write, if_else, while, operation_statement, sequence, Sequence, done, next,
}
use mix_t.Tracking.Names.{NameSets}
use mix_t.Tracking.WritesRemote.{
  bound_name, bottoms_out_at_remote, writes_remote, writes_remote_any,
}
use mix_t.Tracking.Insert.{
  TrackedSets, TrackingPair, is_remote_bound, accompanied_if, insert_tracking, insert_tracking_each,
}
use mix_t.Tracking.Choice.{pgsql_tracking}

or_left : (a b : Bool) → (a || b) ≡ false → a ≡ false
or_left a b h = ground arith

or_right : (a b : Bool) → (a || b) ≡ false → b ≡ false
or_right a b h = ground arith

and_false : (a b : Bool) → b ≡ false → (a && b) ≡ false
and_false a b h = ground arith

module _ {C : Type 0} (names : NameSets) (sets : TrackedSets C) (tracked : TrackingPair C) where
  -- The two walks down to the variable of an expression agree.
  bottoms_out-bound :
      (r : List String) (v : Expression C) (b : Bool)
      → bottoms_out_at_remote names r v ≡ some b
      → is_remote_bound r v ≡ some b
  unfolding bottoms_out_at_remote is_remote_bound
  bottoms_out-bound r (var_reference l y v) b h = rw (sym (names.contains-any_named v r)) h
  bottoms_out-bound r (field_reference l y s f) b h = bottoms_out-bound r s b h
  bottoms_out-bound r (constant i) b h = cc
  bottoms_out-bound r (bin_op l y op p q) b h = cc
  bottoms_out-bound r (generate_tombstone l) b h = cc
  bottoms_out-bound r (is_valid l e) b h = cc
  bottoms_out-bound r (endorse l y e) b h = cc
  bottoms_out-bound r (operation l y n e args) b h = cc

  mutual
    unfolding insert_tracking insert_tracking_each writes_remote writes_remote_any

    unchanged :
        (r : List String) (s : Statement C)
        → writes_remote names r s ≡ some false
        → insert_tracking names sets tracked r s ≡ some s
    unchanged r (assignment l v e) h =
        rw (bottoms_out-bound r v false h, and_false (sets.contains l tracked.strong) false refl)
    unchanged r (return e) h = refl
    unchanged r (let_in l b s) h = rw (unchanged r s h)
    unchanged r (let_remote l b s) h = rw (unchanged (names.add r (bound_name b)) s h)
    unchanged r (operation_statement l n e args) h = refl
    unchanged r (if_else l c t e) h =
        let (a, p, k) = >>=-eq-some (writes_remote names r t) _ h in
        let (b, q, u) = >>=-eq-some (writes_remote names r e) _ k in
        let neither = some-inj (a || b) false u in
        rw (
          unchanged r t (p ∙ ap some (or_left a b neither)),
          unchanged r e (q ∙ ap some (or_right a b neither)),
        )
    unchanged r (while l c s) h = rw (unchanged r s h)
    unchanged r (write_tombstone l e) h = cc
    unchanged r (accompany_write l e) h = cc
    unchanged r (sequence l ss) h = rw (unchanged_each r ss h)

    unchanged_each :
        (r : List String) (ss : Sequence C)
        → writes_remote_any names r ss ≡ some false
        → insert_tracking_each names sets tracked r ss ≡ some ss
    unchanged_each r done h = refl
    unchanged_each r (next s ss) h =
        let (a, p, k) = >>=-eq-some (writes_remote names r s) _ h in
        let (b, q, u) = >>=-eq-some (writes_remote_any names r ss) _ k in
        let neither = some-inj (a || b) false u in
        rw (
          unchanged r s (p ∙ ap some (or_left a b neither)),
          unchanged_each r ss (q ∙ ap some (or_right a b neither)),
        )

  mutual
    unfolding insert_tracking insert_tracking_each writes_remote writes_remote_any

    total :
        (r : List String) (s : Statement C) (b : Bool)
        → writes_remote names r s ≡ some b
        → (s' : Statement C) × (insert_tracking names sets tracked r s ≡ some s')
    total r (assignment l v e) b h =
        (accompanied_if (sets.contains l tracked.strong && b) l v e, rw (bottoms_out-bound r v b h))
    total r (return e) b h = (return e, refl)
    total r (let_in l d s) b h = let (s', e) = total r s b h in (let_in l d s', rw e)
    total r (let_remote l d s) b h =
        let (s', e) = total (names.add r (bound_name d)) s b h in (let_remote l d s', rw e)
    total r (operation_statement l n e args) b h = (operation_statement l n e args, refl)
    total r (if_else l c t e) b h =
        let (x, p, k) = >>=-eq-some (writes_remote names r t) _ h in
        let (y, q, u) = >>=-eq-some (writes_remote names r e) _ k in
        let (t', f) = total r t x p in let (e', g) = total r e y q in (if_else l c t' e', rw (f, g))
    total r (while l c s) b h = let (s', e) = total r s b h in (while l c s', rw e)
    total r (write_tombstone l e) b h = cc
    total r (accompany_write l e) b h = cc
    total r (sequence l ss) b h = let (ss', e) = total_each r ss b h in (sequence l ss', rw e)

    total_each :
        (r : List String) (ss : Sequence C) (b : Bool)
        → writes_remote_any names r ss ≡ some b
        → (ss' : Sequence C) × (insert_tracking_each names sets tracked r ss ≡ some ss')
    total_each r done b h = (done, refl)
    total_each r (next s ss) b h =
        let (x, p, k) = >>=-eq-some (writes_remote names r s) _ h in
        let (y, q, u) = >>=-eq-some (writes_remote_any names r ss) _ k in
        let (s', f) = total r s x p in
        let (ss', g) = total_each r ss y q in (next s' ss', rw (f, g))

  -- Where writes_remote finds that a transaction assigns to no remote object, the insertion of
  -- tracking compiles and leaves the transaction as it is.
  pub insert_tracking-writes_remote :
      (r : List String) (s : Statement C)
      → writes_remote names r s ≡ some false
      → insert_tracking names sets tracked r s ≡ some s
  insert_tracking-writes_remote r s h = unchanged r s h
