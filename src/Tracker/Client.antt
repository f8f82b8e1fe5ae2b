-- ===== src/Tracker/Client.antt =====
-- The tracker of a client (transactions/tracker/ClientTracker.hpp, with
-- transactions/tracker/Tombstone.cpp and follows_in_sequence of transactions/mtl/mtlutils.hpp):
-- for each label a holder of the tombstones that a phase must find, and of two clocks.
use mix_t.Base.{
  ℤ, pos, Bool, false, not, ◌||◌, ◌&&◌, Option, none, some, List, [], ◌∷◌, ◌++◌, if◌then◌else◌,
}
use mix_t.Labels.Order.{LabelOrder}
use mix_t.Tracker.Clock.{Clock, clock, eq_ℤ, leb_ℤ, max, is_same, array_less}

pub record Tombstone : Type 0 where
  pub nonce : ℤ
  pub ip_addr : ℤ
  pub portno : ℤ

-- operator< compares nonces alone, and so does a std::set of tombstones.
abbrev pub tombstone_less : Tombstone → Tombstone → Bool
tombstone_less a b = not (leb_ℤ b.nonce a.nonce)

abbrev pub is_equivalent : Tombstone → Tombstone → Bool
is_equivalent a b = not (tombstone_less a b) && not (tombstone_less b a)

-- operator==, which compares all three fields.
unfoldable pub tombstone_eq : Tombstone → Tombstone → Bool
tombstone_eq a b = eq_ℤ a.nonce b.nonce && (eq_ℤ a.ip_addr b.ip_addr && eq_ℤ a.portno b.portno)

-- `observed_tombstones.count(tomb)`.
abbrev pub count : List Tombstone → Tombstone → Bool
count [] t = false
count (x ∷ xs) t = is_equivalent x t || count xs t

pub record TombHolder : Type 0 where
  pub obligations : List Tombstone
  pub observed_tombstones : List Tombstone
  pub global_min_clock : Clock
  pub max_recent_clock : Clock

abbrev pub zero_clock : Clock
zero_clock = clock (pos 0) (pos 0) (pos 0) (pos 0)

abbrev pub new_holder : TombHolder
new_holder = record {
  obligations = [];
  observed_tombstones = [];
  global_min_clock = zero_clock;
  max_recent_clock = zero_clock;
}

abbrev pub reset_obligations : TombHolder → TombHolder
reset_obligations h = record h { obligations = [] }

-- The comparison is std::array's: ends::operator< is not in scope there.
unfoldable pub holder_must_track : TombHolder → Bool
holder_must_track h = not (
    array_less h.max_recent_clock h.global_min_clock
    || is_same h.max_recent_clock h.global_min_clock)

-- A tombstone that the holder has not seen before becomes an obligation.
abbrev pub observe : TombHolder → Tombstone → TombHolder
observe h t = if count h.observed_tombstones t then h else record h {
  obligations = h.obligations ++ t ∷ [];
  observed_tombstones = t ∷ h.observed_tombstones;
}

-- The loop of set_phase_after.
unfoldable pub observe_all : TombHolder → List Tombstone → TombHolder
observe_all h [] = h
observe_all h (t ∷ ts) = observe_all (observe h t) ts

module _ {C : Type 0} ⦃o : LabelOrder C⦄ where
  -- The label behind the given one; `none` is mutils::mismatch.
  unfoldable pub follows_in_sequence : C → List C → Option C
  follows_in_sequence l [] = none
  follows_in_sequence l (arg1 ∷ []) = none
  follows_in_sequence l (arg1 ∷ (arg2 ∷ args)) =
      if o.is_same l arg1 then some arg2 else follows_in_sequence l (arg2 ∷ args)

-- `_ClientTracker<labels...>`: a TombHolder for each label, in order.
abbrev pub Holders : Type 0 → Type 0
Holders C = List (C × TombHolder)

module _ {C : Type 0} ⦃o : LabelOrder C⦄ where
  abbrev pub labels_of : Holders C → List C
  labels_of [] = []
  labels_of ((l, h) ∷ hs) = l ∷ labels_of hs

  abbrev pub holder_at : C → Holders C → Option TombHolder
  holder_at l [] = none
  holder_at l ((k, h) ∷ hs) = if o.is_same l k then some h else holder_at l hs

  abbrev pub modify_at : C → (TombHolder → TombHolder) → Holders C → Holders C
  modify_at l f [] = []
  modify_at l f ((k, h) ∷ hs) = if o.is_same l k then (k, f h) ∷ hs else (k, h) ∷ modify_at l f hs

  unfoldable pub tombstones_for_phase : C → Holders C → Option (List Tombstone)
  tombstones_for_phase l hs = elim (holder_at l hs) [ none ↦ none | some h ↦ some h.obligations ]

  unfoldable pub clear_tombstones : C → Holders C → Holders C
  clear_tombstones l hs = modify_at l reset_obligations hs

  unfoldable pub must_track : Holders C → Bool
  must_track [] = false
  must_track ((l, h) ∷ hs) = holder_must_track h || must_track hs

  unfoldable pub update_clocks : C → Clock → Clock → Holders C → Holders C
  update_clocks l global_min_clock recent_clock hs =
      modify_at l
        (λ h. record h {
          global_min_clock = max global_min_clock h.global_min_clock;
          max_recent_clock = max h.max_recent_clock recent_clock;
        })
        hs

  -- The overload for the last label does nothing.
  unfoldable pub set_phase_after : C → List Tombstone → Holders C → Holders C
  set_phase_after l ptr hs = elim (follows_in_sequence l (labels_of hs)) [
    | none ↦ hs
    | some next ↦ modify_at next (λ h. observe_all (reset_obligations h) ptr) hs
  ]
