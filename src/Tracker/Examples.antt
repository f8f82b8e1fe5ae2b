-- ===== src/Tracker/Examples.antt =====
-- Trackers at work (transactions/tracker).
use mix_t.Base.{
  ◌*◌, ◌<◌, ◌^◌, ℤ, pos, true, false, ◌≡◌, ◌≢◌, ◌↔◌, refl, some, none, List, [], ◌∷◌, ◌++◌, All,
  arith, if◌then◌else◌,
}
use mix_t.Labels.Pgsql.{PgsqlLabel, strong, causal, is_same, pgsql_labels}
use mix_t.Tracker.Clock.{Clock, clock, eq_ℤ, max_range, prec}
use mix_t.Tracker.ClockLaws.{IsBelow, IsKnown, max_range_iff, prec_iff}
use mix_t.Tracker.Client.{
  Tombstone, TombHolder, new_holder, zero_clock, count, Holders, holder_at, reset_obligations,
  observe_all, holder_must_track, follows_in_sequence, set_phase_after,
}
use mix_t.Tracker.ClientLaws.{IsObserved}
use mix_t.Tracker.Handover.{obligations_once, set_phase_after_next, must_track_blind}
use mix_t.Tracker.Server.{
  Tracker, TrackingContext, new_tracker, new_context, Store, ok, collision, exists_trk,
  existing_tombstone, tombstone, accompany_write, check_for_tombstones, make_lin_metaname,
  is_lin_metadata, bigprime_lin, commit_context, update_clock,
}
use mix_t.Tracker.ServerLaws.{make_lin_metaname_lem, check-accompany_write}
use mix_t.Tracker.Reading.{Event, received, looked, index0, index2, testing, finished, interleave}
use mix_t.Tracker.ReadingLaws.{update_clock-interleave}
use mix_t.Tracker.Waiting.{Stores, write_tombstone, find_tombstones}
use mix_t.Tracker.WaitingLaws.{
  chosen, with_chosen, find_tombstones_lem, find_tombstones-write_tombstone,
}
use mix_t.Tracker.Commits.{commit_context_lem, read_clocks, read_clocks_lem}

abbrev early : Clock
early = clock (pos 1) (pos 2) (pos 3) (pos 4)

abbrev late : Clock
late = clock (pos 5) (pos 2) (pos 7) (pos 4)

abbrev first : Tombstone
first = tombstone (pos 9) (pos 100)

abbrev second : Tombstone
second = tombstone (pos 9) (pos 200)

abbrev holders : Holders PgsqlLabel
holders = (strong, new_holder) ∷ (causal, new_holder) ∷ []

max_range_iff_example :
    IsBelow (max_range (early ∷ late ∷ [])) late ↔ All (λ c. IsBelow c late) (early ∷ late ∷ [])
max_range_iff_example =
    max_range_iff (early ∷ late ∷ []) late
      (record { at0 = refl; at1 = refl; at2 = refl; at3 = refl })

prec_iff_example : ((prec early late ≡ some true) ↔ IsBelow early late) × (prec early late ≢ none)
prec_iff_example =
    prec_iff early late (record { at0 = refl; at1 = refl; at2 = refl; at3 = refl })
      (record { at0 = refl; at1 = refl; at2 = refl; at3 = refl })

obligations_once_example :
    All
      (λ t. count (observe_all (reset_obligations new_holder) (first ∷ [])).obligations t ≡ false)
      (observe_all
        (reset_obligations (observe_all (reset_obligations new_holder) (first ∷ [])))
        (first ∷ second ∷ [])).obligations
obligations_once_example = obligations_once new_holder (first ∷ []) (first ∷ second ∷ [])

holders_follow : follows_in_sequence strong (strong ∷ causal ∷ []) ≡ some causal
unfolding follows_in_sequence
holders_follow = refl

set_phase_after_next_example :
    (h : TombHolder) × (h' : TombHolder) × (holder_at causal holders ≡ some h)
    × (holder_at causal (set_phase_after strong (first ∷ []) holders) ≡ some h')
    × IsObserved (reset_obligations h) h' (first ∷ [])
    × ((k : PgsqlLabel)
        → holder_at k (set_phase_after strong (first ∷ []) holders)
          ≡ (if is_same k causal then some h' else holder_at k holders))
set_phase_after_next_example =
    set_phase_after_next strong causal (first ∷ []) holders holders_follow

-- The recent clock is behind in its first component and ahead in its second.
abbrev split_holder : TombHolder
split_holder = record new_holder {
  global_min_clock = clock (pos 5) (pos 0) (pos 0) (pos 0);
  max_recent_clock = clock (pos 4) (pos 8) (pos 0) (pos 0);
}

must_track_blind_example :
    (holder_must_track split_holder ≡ false)
    × ¬ IsBelow split_holder.max_recent_clock split_holder.global_min_clock
must_track_blind_example = must_track_blind split_holder refl refl

make_lin_metaname_lem_example :
    (make_lin_metaname (pos 12) ≡ some (pos (12 * bigprime_lin)))
    × (is_lin_metadata (pos (12 * bigprime_lin)) ≡ true)
    × (12 * bigprime_lin < 2 ^ 63)
make_lin_metaname_lem_example = make_lin_metaname_lem 12 (omega arith, omega arith)

check-accompany_write_example :
    (st' : Store) × (accompany_write (pos 9) (true ∷ []) (pos 12) (pos 100) [] ≡ ok st')
    × (check_for_tombstones (pos 12) st' new_context
        ≡ ok (record new_context { pending_nonces = some ([] ++ first ∷ []) }))
    × ((k : ℤ)
        → existing_tombstone k st'
          ≡ (if eq_ℤ (pos (12 * bigprime_lin)) k then some first else existing_tombstone k []))
check-accompany_write_example =
    check-accompany_write (pos 9) (pos 100) 12 (true ∷ []) [] new_context []
      (omega arith, omega arith) (omega arith) refl refl

abbrev used_context : TrackingContext
used_context = record { pending_nonces = some (first ∷ []); newer_objects = early ∷ late ∷ [] }

commit_context_lem_example :
    (trk' : Tracker) × (ctx' : TrackingContext) × (commit_context new_tracker used_context
      ≡ some (trk', ctx'))
    × (trk'.encountered_tombstones ≡ some (first ∷ []))
    × (ctx'.pending_nonces ≡ none)
    × (trk'.global_min ≡ zero_clock)
    × IsBelow zero_clock trk'.new_objects_max
    × All (λ c. IsBelow c trk'.new_objects_max) (early ∷ late ∷ [])
commit_context_lem_example = commit_context_lem new_tracker used_context refl

abbrev read_tracker : Tracker
read_tracker = record new_tracker { global_min = late }

clocks_read : read_clocks (early ∷ late ∷ []) new_tracker ≡ some read_tracker
unfolding update_clock prec
clocks_read = refl

read_clocks_lem_example :
    IsBelow zero_clock late
    × All (λ c. IsBelow c late) (early ∷ late ∷ [])
    × All IsKnown (early ∷ late ∷ [])
    × (read_tracker.encountered_tombstones ≡ new_tracker.encountered_tombstones)
    × (read_tracker.new_objects_max ≡ new_tracker.new_objects_max)
read_clocks_lem_example = read_clocks_lem (early ∷ late ∷ []) new_tracker read_tracker clocks_read

-- The first component is stored again after it is read, and the third before.
abbrev two_threads : List Event
two_threads =
    looked
    ∷ looked
    ∷ received index0 (pos 5)
    ∷ looked
    ∷ looked
    ∷ received index2 (pos 7)
    ∷ looked
    ∷ looked
    ∷ looked
    ∷ looked
    ∷ []

update_clock-interleave_example :
    (newc : Clock) × (c' : Clock) × (interleave two_threads early (testing index0 zero_clock)
      ≡ (c', finished newc))
    × IsBelow zero_clock newc
    × IsBelow newc c'
    × (update_clock newc new_tracker ≡ some (record new_tracker { global_min = newc }))
update_clock-interleave_example =
    update_clock-interleave two_threads early zero_clock new_tracker (refl, (refl, tt))
      (record { at0 = refl; at1 = refl; at2 = refl; at3 = refl })
      (record { at0 = refl; at1 = refl; at2 = refl; at3 = refl }) (omega arith)

abbrev empty : Store
empty = []

abbrev written : Store
written = (pos 9, tombstone (pos 100) (pos 9)) ∷ []

find_tombstones_lem_example :
    (find_tombstones (tombstone (pos 100) (pos 9)) ((empty ∷ empty ∷ []) ++ written ∷ [])
      ≡ some (pos 1 ∷ pos 2 ∷ []))
    × (find_tombstones (tombstone (pos 100) (pos 9)) (empty ∷ empty ∷ []) ≡ none)
find_tombstones_lem_example =
    find_tombstones_lem (tombstone (pos 100) (pos 9)) (empty ∷ empty ∷ []) written []
      (refl, (refl, tt)) refl

abbrev persistent_only : Stores
persistent_only = record { store_context = none; persistent_datastore = some empty }

writes_once :
    write_tombstone (pos 100) (pos 9) persistent_only ≡ ok (with_chosen written persistent_only)
unfolding write_tombstone
writes_once = refl

find_tombstones-write_tombstone_example :
    (ds : Store) × (chosen persistent_only ≡ some ds)
    × (exists_trk (pos 9) ds ≡ false)
    × (with_chosen written persistent_only
        ≡ with_chosen ((pos 9, tombstone (pos 100) (pos 9)) ∷ ds) persistent_only)
    × (write_tombstone (pos 100) (pos 9) (with_chosen written persistent_only) ≡ collision)
    × (find_tombstones
          (tombstone (pos 100) (pos 9))
          ((empty ∷ []) ++ ((pos 9, tombstone (pos 100) (pos 9)) ∷ ds) ∷ [])
        ≡ some (pos 1 ∷ []))
find_tombstones-write_tombstone_example =
    find_tombstones-write_tombstone (pos 100) (pos 9) persistent_only
      (with_chosen written persistent_only) (empty ∷ []) [] writes_once (refl, tt)
