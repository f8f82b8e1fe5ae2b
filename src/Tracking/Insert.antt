-- ===== src/Tracking/Insert.antt =====
-- The write of an object at a tracked label is accompanied by a tombstone
-- (transactions/mtl/insert_tracking.hpp).
use mix_t.Base.{String, Bool, true, false, ◌&&◌, Option, none, some, List, ◌>>=◌}
use mix_t.Labels.Term.{Label}
use mix_t.Ast.{
  Expression, var_reference, field_reference, Binding, Statement, let_in, let_remote, assignment,
  return, write_tombstone, accompany_write, if_else, while, operation_statement, sequence, Sequence,
  done, next,
}
use mix_t.Tracking.Names.{NameSets, any_named}
use mix_t.Tracking.WritesRemote.{bound_name}

-- What is used of the sets of labels, a parameter.
pub record TrackedSets (C : Type 0) : Type 0 where
  pub combine : List C → List C → List C
  pub contains : Label C → List C → Bool

-- tracking_pair.
pub record TrackingPair (C : Type 0) : Type 0 where
  pub strong : List C
  pub weak : List C

module _ {C : Type 0} where
  -- extract_remote_binding.
  abbrev pub extract_remote_binding : Binding C → String
  extract_remote_binding b = bound_name b

  -- `none`: there is no overload for the expression.
  unfoldable pub is_remote_bound : List String → Expression C → Option Bool
  is_remote_bound remote_bound (var_reference l y v) = some (any_named v remote_bound)
  is_remote_bound remote_bound (field_reference l y s v) = is_remote_bound remote_bound s
  is_remote_bound remote_bound _ = none

  -- An assignment, by whether it is tracked.
  abbrev pub accompanied_if : Bool → Label C → Expression C → Expression C → Statement C
  accompanied_if true l v e = sequence l (next (assignment l v e) (next (accompany_write l v) done))
  accompanied_if false l v e = assignment l v e

module _ {C : Type 0} (names : NameSets) (sets : TrackedSets C)
    (tracked_labels : TrackingPair C) where
  unfoldable mutual
    pub insert_tracking : List String → Statement C → Option (Statement C)
    insert_tracking remote_bound (assignment l v e) = do
      remote ← is_remote_bound remote_bound v
      some (accompanied_if (sets.contains l tracked_labels.strong && remote) l v e)
    insert_tracking remote_bound (return e) = some (return e)
    insert_tracking remote_bound (let_in l b s) = do
      s' ← insert_tracking remote_bound s
      some (let_in l b s')
    insert_tracking remote_bound (let_remote l b s) = do
      s' ← insert_tracking (names.add remote_bound (extract_remote_binding b)) s
      some (let_remote l b s')
    insert_tracking remote_bound (operation_statement l n h args) =
        some (operation_statement l n h args)
    insert_tracking remote_bound (if_else l c t e) = do
      t' ← insert_tracking remote_bound t
      e' ← insert_tracking remote_bound e
      some (if_else l c t' e')
    insert_tracking remote_bound (while l c s) = do
      s' ← insert_tracking remote_bound s
      some (while l c s')
    insert_tracking remote_bound (write_tombstone l e) = none
    insert_tracking remote_bound (accompany_write l e) = none
    insert_tracking remote_bound (sequence l ss) = do
      ss' ← insert_tracking_each remote_bound ss
      some (sequence l ss')

    pub insert_tracking_each : List String → Sequence C → Option (Sequence C)
    insert_tracking_each remote_bound done = some done
    insert_tracking_each remote_bound (next s ss) = do
      s' ← insert_tracking remote_bound s
      ss' ← insert_tracking_each remote_bound ss
      some (next s' ss')
