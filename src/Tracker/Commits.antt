-- ===== src/Tracker/Commits.antt =====
-- What commits and readings of the clock do to a server's tracker (transactions/tracker/Tracker.cpp).
use mix_t.Base.{
  Bool, ◌∙◌, ap, subst, if◌then◌else◌, true, false, ◌≡◌, refl, sym, Option, none, some, some-inj,
  List, [], ◌∷◌, All, ◌>>=◌, >>=-eq-some,
}
use mix_t.Tracker.Clock.{Clock, max, max_range, prec}
use mix_t.Tracker.ClockLaws.{
  IsBelow, IsBelow-refl, IsBelow-trans, IsKnown, max_lem, max_range_lem, prec-IsKnown, All-IsBelow,
}
use mix_t.Tracker.Server.{Tracker, TrackingContext, update_clock, is_clear, commit_context}

-- Where the tombstones that the tracker has from earlier commits are cleared, commitContext moves the
-- context's pending tombstones to the tracker, leaves the context with none and the clock as it
-- is, and the maximum of new objects is then above the old one and above every newer object
-- of the context.
pub commit_context_lem :
    (trk : Tracker) (ctx : TrackingContext)
    → is_clear trk.encountered_tombstones ≡ true
    → (trk' : Tracker) × (ctx' : TrackingContext) × (commit_context trk ctx ≡ some (trk', ctx'))
      × (trk'.encountered_tombstones ≡ ctx.pending_nonces)
      × (ctx'.pending_nonces ≡ none)
      × (trk'.global_min ≡ trk.global_min)
      × IsBelow trk.new_objects_max trk'.new_objects_max
      × All (λ c. IsBelow c trk'.new_objects_max) ctx.newer_objects
unfolding commit_context
commit_context_lem trk ctx h =
    let joined = max_lem trk.new_objects_max (max_range ctx.newer_objects) in
    (
      record trk {
        encountered_tombstones = ctx.pending_nonces;
        new_objects_max = max trk.new_objects_max (max_range ctx.newer_objects);
      },
      record ctx { pending_nonces = none },
      rw h refl,
      refl,
      refl,
      refl,
      joined.0,
      All-IsBelow _ _ ctx.newer_objects joined.1 (max_range_lem ctx.newer_objects).0,
    )

-- updateClock at each of the clocks read, in order.
abbrev pub read_clocks : List Clock → Tracker → Option Tracker
read_clocks [] trk = some trk
read_clocks (c ∷ cs) trk = update_clock c trk >>= read_clocks cs

update_clock_lem :
    (newc : Clock) (trk trk' : Tracker)
    → update_clock newc trk ≡ some trk'
    → IsKnown newc × IsBelow trk.global_min newc × (trk' ≡ record trk { global_min = newc })
unfolding update_clock
update_clock_lem newc trk trk' h =
    let (ordered, e, k) = >>=-eq-some (prec trk.global_min newc) _ h in accepted ordered e k
  where
    accepted :
        (ordered : Bool)
        → prec trk.global_min newc ≡ some ordered
        → (if ordered then some (record trk { global_min = newc }) else none) ≡ some trk'
        → IsKnown newc × IsBelow trk.global_min newc × (trk' ≡ record trk { global_min = newc })
    accepted true e k =
        let known = prec-IsKnown trk.global_min newc e in (known.1, known.2, sym (some-inj _ _ k))
    accepted false e k = cc

-- However many times it is read, the clock of the tracker never goes back: the last minimum is above
-- the first and above every clock that updateClock accepted on the way, and what the tracker
-- has of tombstones and new objects stays as it is.
pub read_clocks_lem :
    (cs : List Clock) (trk trk' : Tracker)
    → read_clocks cs trk ≡ some trk'
    → IsBelow trk.global_min trk'.global_min
      × All (λ c. IsBelow c trk'.global_min) cs
      × All IsKnown cs
      × (trk'.encountered_tombstones ≡ trk.encountered_tombstones)
      × (trk'.new_objects_max ≡ trk.new_objects_max)
read_clocks_lem [] trk trk' h =
    rw (sym (some-inj _ _ h)) (IsBelow-refl trk.global_min, tt, tt, refl, refl)
read_clocks_lem (c ∷ cs) trk trk' h =
    let (mid, p, q) = >>=-eq-some (update_clock c trk) _ h in
    let (known, below, same) = update_clock_lem c trk mid p in
    let (up, all, knowns, kept, kept_max) = read_clocks_lem cs mid trk' q in
    let over = subst (λ m. IsBelow m.global_min trk'.global_min) same up in
    (
      IsBelow-trans _ _ _ below over,
      (over, all),
      (known, knowns),
      kept ∙ ap (λ m. m.encountered_tombstones) same,
      kept_max ∙ ap (λ m. m.new_objects_max) same,
    )
