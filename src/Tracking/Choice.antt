-- ===== src/Tracking/Choice.antt =====
-- Which labels are tracked, and whether a transaction is tracked at all
-- (transactions/mtl/insert_tracking.hpp).
use mix_t.Base.{
  String, Bool, true, false, not, ◌&&◌, ◌||◌, Option, none, some, List, [], ◌∷◌, ◌++◌,
  if◌then◌else◌, ◌>>=◌,
}
use mix_t.Labels.Pgsql.{PgsqlLabel}
use mix_t.Labels.Order.{LabelOrder}
use mix_t.Labels.Term.{concrete}
use mix_t.Ast.{
  plain, var_reference, generate_tombstone, binding, Statement, let_in, write_tombstone, sequence,
  Sequence, done, next,
}
use mix_t.Tracking.Names.{NameSets}
use mix_t.Tracking.WritesRemote.{begin_writes_remote}
use mix_t.Tracking.Insert.{TrackedSets, TrackingPair, insert_tracking}

-- The members of a label that say what it tracks.
pub record TrackingLabel (C : Type 0) : Type 0 where
  pub tracks_against : C → C → Bool
  pub might_track : C → Bool

-- A causal write is tracked against strong ones.
abbrev pub pgsql_tracks_against : PgsqlLabel → PgsqlLabel → Bool
pgsql_tracks_against PgsqlLabel.causal PgsqlLabel.strong = true
pgsql_tracks_against _ _ = false

abbrev pub pgsql_might_track : PgsqlLabel → Bool
pgsql_might_track PgsqlLabel.causal = true
pgsql_might_track _ = false

instance abbrev pub pgsql_tracking : TrackingLabel PgsqlLabel
pgsql_tracking = record { tracks_against = pgsql_tracks_against; might_track = pgsql_might_track }

abbrev pub tombstone_str : String
tombstone_str = "tombstone\0"

abbrev pub tracking_pair : {C : Type 0} → List C → List C → TrackingPair C
tracking_pair strong weak = record { strong = strong; weak = weak }

module _ {C : Type 0} ⦃o : LabelOrder C⦄ ⦃t : TrackingLabel C⦄ (sets : TrackedSets C) where
  -- The overloads of needs_tracking: two labels that track against each other are ambiguous.
  abbrev pub pair_by : Bool → Bool → C → C → Option (TrackingPair C)
  pair_by true true l1 l2 = none
  pair_by true false l1 l2 = some (tracking_pair (l2 ∷ []) (l1 ∷ []))
  pair_by false true l1 l2 = some (tracking_pair (l1 ∷ []) (l2 ∷ []))
  pair_by false false l1 l2 = some (tracking_pair [] [])

  unfoldable pub needs_tracking : C → C → Option (TrackingPair C)
  needs_tracking l1 l2 = pair_by (t.tracks_against l1 l2) (t.tracks_against l2 l1) l1 l2

  -- `typeset<>::combine(needs_tracking<l1, labels>()...)` on both sides.
  unfoldable pub combine_pairs : C → TrackingPair C → List C → Option (TrackingPair C)
  combine_pairs l1 acc [] = some acc
  combine_pairs l1 acc (l ∷ ls) = do
    p ← needs_tracking l1 l
    combine_pairs l1
        (tracking_pair (sets.combine acc.strong p.strong) (sets.combine acc.weak p.weak)) ls

  unfoldable pub tracked_labels : List C → Option (TrackingPair C)
  tracked_labels [] = some (tracking_pair [] [])
  tracked_labels (l1 ∷ labels) = do
    recr ← tracked_labels labels
    own ← combine_pairs l1 (tracking_pair [] []) labels
    some (tracking_pair (sets.combine own.strong recr.strong) (sets.combine own.weak recr.weak))

  unfoldable pub write_tombstones : List C → Sequence C
  write_tombstones [] = done
  write_tombstones (l1 ∷ labels) =
      next
        (write_tombstone (concrete l1)
          (var_reference (concrete l1) (plain "Tombstone") tombstone_str))
        (write_tombstones labels)

  abbrev tracks_any : C → List C → Bool
  tracks_any l1 [] = false
  tracks_any l1 (l ∷ ls) = t.tracks_against l1 l || tracks_any l1 ls

  unfoldable pub any_pair_tracks : List C → Bool
  any_pair_tracks [] = false
  any_pair_tracks (l1 ∷ labels) = tracks_any l1 labels || any_pair_tracks labels

  -- The extra labels that might track, or that do not, combined.
  abbrev pub combined_if : (C → Bool) → List C → List C → List C
  combined_if keep acc [] = acc
  combined_if keep acc (l ∷ ls) =
      let with_l = combined_if keep (sets.combine acc (l ∷ [])) ls in
      let without_l = combined_if keep (sets.combine acc []) ls in
      if keep l then with_l else without_l

  abbrev is_empty : List C → Bool
  is_empty [] = true
  is_empty (x ∷ xs) = false

  abbrev reversed_onto : List C → List C → List C
  reversed_onto acc [] = acc
  reversed_onto acc (l ∷ ls) = reversed_onto (l ∷ acc) ls

  -- A tombstone is made and written at every tracked label, in front of the transaction.
  unfoldable pub with_tombstones : TrackingPair C → Statement C → Statement C
  with_tombstones sorted tracked =
      let_in (concrete o.top)
        (binding (concrete o.top) (plain "Tombstone") tombstone_str
          (generate_tombstone (concrete o.top)))
        (sequence (concrete o.top) (
          next
            (sequence (concrete o.top) (write_tombstones (sets.combine sorted.weak sorted.strong)))
            (next tracked done)))

module _ {C : Type 0} ⦃o : LabelOrder C⦄ ⦃t : TrackingLabel C⦄ (names : NameSets)
    (sets : TrackedSets C) where
  -- make_tracking_choice, by whether tracking is required.
  unfoldable pub make_tracking_choice :
      Bool → Statement C → List C → List C → List C → Option (Statement C)
  make_tracking_choice false a labels extra_strong extra_weak = some a
  make_tracking_choice true a labels extra_strong extra_weak = do
    collected ← tracked_labels sets labels
    let sorted =
        tracking_pair (sets.combine collected.strong extra_strong)
          (sets.combine collected.weak extra_weak)
    tracked ← insert_tracking names sets sorted [] a
    some (with_tombstones sets sorted tracked)

  -- Given the proper labels of the tree. Extra labels always ask for tracking.
  unfoldable pub insert_tracking_begin : Statement C → List C → List C → Option (Statement C)
  insert_tracking_begin a proper extra = do
    writes ← begin_writes_remote names a
    let labels = proper ++ extra
    make_tracking_choice
        (writes
          && (any_pair_tracks sets labels
              || any_pair_tracks sets (reversed_onto sets [] labels)
              || not (is_empty sets extra)))
        a labels (combined_if sets (λ l. not (t.might_track l)) [] extra)
        (combined_if sets t.might_track [] extra)
