-- ===== src/Tracking/Examples.antt =====
-- Tracking of a small transaction (transactions/mtl/insert_tracking.hpp).
use mix_t.Base.{Bool, false, ◌||◌, ◌≡◌, refl, some, List, [], ◌∷◌, ◌++◌, pos}
use mix_t.Labels.Pgsql.{PgsqlLabel, strong, causal, pgsql_labels}
use mix_t.Labels.Term.{Label, concrete, is_same_label}
use mix_t.Ast.{
  Expression, plain, handle, var_reference, field_reference, constant, binding, Statement,
  let_remote, assignment, accompany_write, sequence, done, next,
}
use mix_t.Tracking.Names.{NameSets, any_named}
use mix_t.Tracking.WritesRemote.{bottoms_out_at_remote, writes_remote}
use mix_t.Tracking.Insert.{
  TrackedSets, TrackingPair, is_remote_bound, insert_tracking, insert_tracking_each,
}
use mix_t.Tracking.InsertLaws.{events, all_followed, insert_tracking-events}
use mix_t.Tracking.Choice.{pgsql_tracking, tracking_pair}
use mix_t.Tracking.ChoiceLaws.{insert_tracking-writes_remote}

abbrev name_lists : NameSets
name_lists = record {
  add = λ xs x. x ∷ xs;
  contains = any_named;
  contains-any_named = λ v xs. refl;
}

abbrev has_label : Label PgsqlLabel → List PgsqlLabel → Bool
has_label l [] = false
has_label l (x ∷ xs) = is_same_label l (concrete x) || has_label l xs

abbrev label_lists : TrackedSets PgsqlLabel
label_lists = record { combine = λ xs ys. xs ++ ys; contains = has_label }

abbrev strong_tracked : TrackingPair PgsqlLabel
strong_tracked = tracking_pair (strong ∷ []) (causal ∷ [])

abbrev remote_object : Expression PgsqlLabel
remote_object = var_reference (concrete strong) (plain "int") "o"

-- An assignment to a field of the object, and one to a variable.
abbrev write_field : Statement PgsqlLabel
write_field =
    assignment (concrete strong) (field_reference (concrete strong) (plain "int") remote_object "f")
      (constant (pos 1))

abbrev write_variable : Statement PgsqlLabel
write_variable =
    assignment (concrete strong) (var_reference (concrete strong) (plain "int") "x")
      (constant (pos 2))

abbrev writing : Statement PgsqlLabel
writing =
    let_remote (concrete strong)
      (binding (concrete strong) (handle (concrete strong) "int") "o"
        (var_reference (concrete strong) (handle (concrete strong) "int") "h"))
      (sequence (concrete strong) (next write_field (next write_variable done)))

abbrev tracked_writing : Statement PgsqlLabel
tracked_writing =
    let_remote (concrete strong)
      (binding (concrete strong) (handle (concrete strong) "int") "o"
        (var_reference (concrete strong) (handle (concrete strong) "int") "h"))
      (sequence (concrete strong) (
        next
          (sequence (concrete strong) (
            next write_field (
              next
                (accompany_write (concrete strong)
                  (field_reference (concrete strong) (plain "int") remote_object "f"))
                done)))
          (next write_variable done)))

track_writing :
    insert_tracking name_lists label_lists strong_tracked [] writing ≡ some tracked_writing
unfolding insert_tracking insert_tracking_each is_remote_bound
track_writing = refl

insert_tracking-events_example :
    events name_lists [] tracked_writing
    ≡ all_followed name_lists label_lists strong_tracked (events name_lists [] writing)
insert_tracking-events_example =
    insert_tracking-events name_lists label_lists strong_tracked [] writing tracked_writing
      track_writing

no_remote_write : writes_remote name_lists ("o" ∷ []) write_variable ≡ some false
unfolding writes_remote bottoms_out_at_remote
no_remote_write = refl

insert_tracking-writes_remote_example :
    insert_tracking name_lists label_lists strong_tracked ("o" ∷ []) write_variable
    ≡ some write_variable
insert_tracking-writes_remote_example =
    insert_tracking-writes_remote name_lists label_lists strong_tracked ("o" ∷ []) write_variable
      no_remote_write
