-- ===== src/Tracker/Handover.antt =====
-- Handing tombstones and clocks from phase to phase (set_phase_after, update_clocks and must_track in
-- transactions/tracker/ClientTracker.hpp).
use mix_t.Base.{
  true, false, ◌≡◌, inl, inr, refl, none, some, List, [], ◌∷◌, arith, All, All-Elem, All-of_Elem,
  Elem, Bool-cases, if◌then◌else◌,
}
use mix_t.Labels.Order.{LabelOrder}
use mix_t.Tracker.Clock.{Clock, leb_ℤ, max, array_less}
use mix_t.Tracker.ClockLaws.{IsBelow, max_lem}
use mix_t.Tracker.Client.{
  Tombstone, is_equivalent, count, TombHolder, reset_obligations, holder_must_track, observe_all,
  follows_in_sequence, Holders, labels_of, holder_at, must_track, update_clocks, set_phase_after,
}
use mix_t.Tracker.ClientLaws.{
  IsObserved, observe_all-IsObserved, is_same_refl, holder_at-modify_at, holder_at-modified,
}

equivalent_count :
    (x t : Tombstone) (seen : List Tombstone)
    → is_equivalent x t ≡ true
    → count seen x ≡ true
    → count seen t ≡ true
equivalent_count x t [] e h = cc
equivalent_count x t (s ∷ seen) e h = ground (arith, equivalent_count x t seen e)

count-false :
    (t : Tombstone) (xs seen : List Tombstone)
    → count seen t ≡ false
    → All (λ x. count seen x ≡ true) xs
    → count xs t ≡ false
count-false t [] seen e all = refl
count-false t (x ∷ xs) seen e all =
    ground (arith, equivalent_count x t seen, count-false t xs seen e all.1)

-- A tombstone that a holder has made an obligation once is no obligation again: after two
-- hand-overs to one holder no later obligation has the nonce of an earlier one.
pub obligations_once :
    (h : TombHolder) (first second : List Tombstone)
    → All
        (λ t. count (observe_all (reset_obligations h) first).obligations t ≡ false)
        (observe_all
          (reset_obligations (observe_all (reset_obligations h) first))
          second).obligations
obligations_once h first second =
    let h1 = observe_all (reset_obligations h) first in
    let p = observe_all-IsObserved (reset_obligations h) first in
    let q = observe_all-IsObserved (reset_obligations h1) second in
    let seen1 =
      All-of_Elem (λ x. count h1.observed_tombstones x ≡ true) p.fresh
        (λ x mem.
          All-Elem (λ y. count h1.observed_tombstones y ≡ true) first x p.all_seen
            (All-Elem (λ y. Elem y first) p.fresh x p.received mem)) in
    rw (q.appended, p.appended)
      (All-of_Elem (λ t. count p.fresh t ≡ false) q.fresh
        (λ t mem.
          count-false t p.fresh h1.observed_tombstones
            (All-Elem (λ y. count h1.observed_tombstones y ≡ false) q.fresh t q.unseen mem) seen1))

module _ {C : Type 0} ⦃o : LabelOrder C⦄ where
  holder_of_label :
      (l : C) (hs : Holders C)
      → Elem l (labels_of hs)
      → (h : TombHolder) × (holder_at l hs ≡ some h)
  holder_of_label l [] mem = absurd mem
  holder_of_label l ((k, h) ∷ hs) mem = elim (Bool-cases (o.is_same l k)) [
    | inl e ↦ (h, rw e)
    | inr e ↦ elim mem [
      | inl same ↦ let e' : o.is_same l k ≡ true = (o.is_same_iff l k).1 same in cc
      | inr later ↦ let (h', p) = holder_of_label l hs later in (h', rw e p)
    ]
  ]

  follows-Elem : (l next : C) (ls : List C) → follows_in_sequence l ls ≡ some next → Elem next ls
  unfolding follows_in_sequence
  follows-Elem l next [] h = cc
  follows-Elem l next (a ∷ []) h = cc
  follows-Elem l next (a ∷ (b ∷ ls)) h = elim (Bool-cases (o.is_same l a)) [
    | inl e ↦ inr (inl (ground arith))
    | inr e ↦ inr (follows-Elem l next (b ∷ ls) (rw (e, follows_in_sequence) at h))
  ]

  -- Where a label stands behind the phase's label, the tombstones of the phase are handed to its
  -- holder: its obligations are those that it had not seen, each once, it has now seen all of them,
  -- and its clocks and the other holders are as they were.
  pub set_phase_after_next :
      (l next : C) (ptr : List Tombstone) (hs : Holders C)
      → follows_in_sequence l (labels_of hs) ≡ some next
      → (h : TombHolder) × (h' : TombHolder) × (holder_at next hs ≡ some h)
        × (holder_at next (set_phase_after l ptr hs) ≡ some h')
        × IsObserved (reset_obligations h) h' ptr
        × ((k : C)
            → holder_at k (set_phase_after l ptr hs)
              ≡ (if o.is_same k next then some h' else holder_at k hs))
  unfolding set_phase_after
  set_phase_after_next l next ptr hs e =
      let (h, p) = holder_of_label next hs (follows-Elem l next (labels_of hs) e) in
      let change = λ (x : TombHolder). observe_all (reset_obligations x) ptr in
      (
        h,
        change h,
        p,
        rw (e, set_phase_after, holder_at-modify_at next next change hs, is_same_refl next, p),
        observe_all-IsObserved (reset_obligations h) ptr,
        λ k. rw (e, set_phase_after) (holder_at-modified next k change hs h p),
      )

  -- The tombstones of the last phase are handed to nobody.
  pub set_phase_after_last :
      (l : C) (ptr : List Tombstone) (hs : Holders C)
      → follows_in_sequence l (labels_of hs) ≡ none
      → set_phase_after l ptr hs ≡ hs
  unfolding set_phase_after
  set_phase_after_last l ptr hs e = rw (e, set_phase_after)

  -- The clocks that a phase reports are joined to those of its label's holder: the new ones are at
  -- least the old ones and the reported ones, and the obligations and the other holders are as
  -- they were.
  pub update_clocks_lem :
      (l : C) (g r : Clock) (hs : Holders C) (h : TombHolder)
      → holder_at l hs ≡ some h
      → (h' : TombHolder) × (holder_at l (update_clocks l g r hs) ≡ some h')
        × IsBelow h.global_min_clock h'.global_min_clock
        × IsBelow g h'.global_min_clock
        × IsBelow h.max_recent_clock h'.max_recent_clock
        × IsBelow r h'.max_recent_clock
        × (h'.obligations ≡ h.obligations)
        × ((k : C)
            → holder_at k (update_clocks l g r hs)
              ≡ (if o.is_same k l then some h' else holder_at k hs))
  unfolding update_clocks
  update_clocks_lem l g r hs h e =
      let change = λ (x : TombHolder). record x {
        global_min_clock = max g x.global_min_clock;
        max_recent_clock = max x.max_recent_clock r;
      } in
      let m = max_lem g h.global_min_clock in
      let n = max_lem h.max_recent_clock r in
      (
        change h,
        rw (holder_at-modify_at l l change hs, is_same_refl l, e),
        m.1,
        m.0,
        n.0,
        n.1,
        refl,
        λ k. holder_at-modified l k change hs h e,
      )

-- must_track() compares clocks as arrays, from the front: a recent clock whose first component is
-- behind switches tracking off, although its second component is ahead of the minimum, so that it
-- is not below it.
pub must_track_blind :
    (h : TombHolder)
    → leb_ℤ h.global_min_clock.c0 h.max_recent_clock.c0 ≡ false
    → leb_ℤ h.max_recent_clock.c1 h.global_min_clock.c1 ≡ false
    → (holder_must_track h ≡ false) × ¬ IsBelow h.max_recent_clock h.global_min_clock
unfolding holder_must_track array_less
must_track_blind h p q = (ground arith, λ b. ground (arith, b.at1))

-- Where tracking is off for every holder, none asks for it; one that asks switches it on.
pub must_track_iff :
    {C : Type 0} ⦃o : LabelOrder C⦄ (hs : Holders C)
    → must_track hs ≡ false
    → All (λ lh. holder_must_track lh.1 ≡ false) hs
unfolding must_track
must_track_iff [] e = tt
must_track_iff ((l, h) ∷ hs) e = (ground arith, must_track_iff hs (ground arith))
