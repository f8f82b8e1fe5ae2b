-- ===== src/Tracker/ClientLaws.antt =====
-- What a client's tracker promises (transactions/tracker/ClientTracker.hpp).
use mix_t.Base.{
  true, false, ◌≡◌, ◌⊎◌, inl, inr, refl, sym, ◌∙◌, none, some, List, [], ◌∷◌, ◌++◌, arith, All,
  Elem, Bool-cases, if◌then◌else◌,
}
use mathlib.Core.List.{append-nil, append_assoc}
use mix_t.Labels.Order.{LabelOrder}
use mix_t.Tracker.Client.{
  Tombstone, is_equivalent, count, TombHolder, observe, observe_all, Holders, holder_at, modify_at,
}

-- Pairwise different nonces.
abbrev pub IsDistinct : List Tombstone → Type 0
IsDistinct [] = Unit
IsDistinct (t ∷ ts) = (count ts t ≡ false) × IsDistinct ts

-- What observing the tombstones of a list brings about.
pub record IsObserved (h h' : TombHolder) (ts : List Tombstone) : Type 0 where
  -- The new obligations, behind the old ones.
  pub fresh : List Tombstone
  pub appended : h'.obligations ≡ h.obligations ++ fresh
  pub distinct : IsDistinct fresh
  pub unseen : All (λ t. count h.observed_tombstones t ≡ false) fresh
  pub received : All (λ t. Elem t ts) fresh
  -- A tombstone with a nonce that the holder had not seen has it among the new obligations.
  pub obliged : All (λ t. (count h.observed_tombstones t ≡ true) ⊎ (count fresh t ≡ true)) ts
  pub all_seen : All (λ t. count h'.observed_tombstones t ≡ true) ts
  pub still_seen :
      (t : Tombstone) → count h.observed_tombstones t ≡ true → count h'.observed_tombstones t ≡ true
  pub clocks :
      (h'.global_min_clock ≡ h.global_min_clock) × (h'.max_recent_clock ≡ h.max_recent_clock)

is_equivalent_refl : (t : Tombstone) → is_equivalent t t ≡ true
is_equivalent_refl t = ground arith

is_equivalent_sym : (s t : Tombstone) → is_equivalent s t ≡ is_equivalent t s
is_equivalent_sym s t = ground arith

module _ (t : Tombstone) (seen : List Tombstone) where
  count_none :
      (fresh : List Tombstone) → All (λ x. count (t ∷ seen) x ≡ false) fresh → count fresh t ≡ false
  count_none [] all = refl
  count_none (x ∷ xs) all = ground (arith, is_equivalent_sym x t, count_none xs all.1)

  unseen_before :
      (fresh : List Tombstone)
      → All (λ x. count (t ∷ seen) x ≡ false) fresh
      → All (λ x. count seen x ≡ false) fresh
  unseen_before [] all = tt
  unseen_before (x ∷ xs) all = (ground arith, unseen_before xs all.1)

Elem-later :
    (t : Tombstone) (ts fresh : List Tombstone)
    → All (λ x. Elem x ts) fresh
    → All (λ x. Elem x (t ∷ ts)) fresh
Elem-later t ts [] all = tt
Elem-later t ts (x ∷ xs) all = (inr all.0, Elem-later t ts xs all.1)

obliged_after :
    (t : Tombstone) (seen fresh ts : List Tombstone)
    → All (λ x. (count (t ∷ seen) x ≡ true) ⊎ (count fresh x ≡ true)) ts
    → All (λ x. (count seen x ≡ true) ⊎ (count (t ∷ fresh) x ≡ true)) ts
obliged_after t seen fresh [] all = tt
obliged_after t seen fresh (x ∷ xs) all = (
  elim all.0 [
    | inl old ↦ elim (Bool-cases (is_equivalent t x)) [
      | inl e ↦ inr (ground arith)
      | inr e ↦ inl (ground arith)
    ]
    | inr new ↦ inr (ground arith)
  ],
  obliged_after t seen fresh xs all.1,
)

observe_old :
    (h : TombHolder) (t : Tombstone) → count h.observed_tombstones t ≡ true → observe h t ≡ h
observe_old h t e = rw e

pub observe_all-IsObserved :
    (h : TombHolder) (ts : List Tombstone) → IsObserved h (observe_all h ts) ts
unfolding observe_all
observe_all-IsObserved h [] = record {
  fresh = [];
  appended = sym (append-nil h.obligations);
  distinct = tt;
  unseen = tt;
  received = tt;
  obliged = tt;
  all_seen = tt;
  still_seen = λ t e. e;
  clocks = (refl, refl);
}
observe_all-IsObserved h (t ∷ ts) = elim (Bool-cases (count h.observed_tombstones t)) [
  | inl e ↦
      let ih = observe_all-IsObserved h ts in
      rw (observe_old h t e) (record {
        fresh = ih.fresh;
        appended = ih.appended;
        distinct = ih.distinct;
        unseen = ih.unseen;
        received = Elem-later t ts ih.fresh ih.received;
        obliged = (inl e, ih.obliged);
        all_seen = (ih.still_seen t e, ih.all_seen);
        still_seen = ih.still_seen;
        clocks = ih.clocks;
      })
  | inr e ↦
      let h1 : TombHolder = record h {
        obligations = h.obligations ++ t ∷ [];
        observed_tombstones = t ∷ h.observed_tombstones;
      } in
      let ih = observe_all-IsObserved h1 ts in
      let step : observe h t ≡ h1 = rw e in
      rw step (record {
        fresh = t ∷ ih.fresh;
        appended = ih.appended ∙ append_assoc h.obligations (t ∷ []) ih.fresh;
        distinct = (count_none t h.observed_tombstones ih.fresh ih.unseen, ih.distinct);
        unseen = (e, unseen_before t h.observed_tombstones ih.fresh ih.unseen);
        received = (inl refl, Elem-later t ts ih.fresh ih.received);
        obliged = (
          inr (ground (arith, is_equivalent_refl t)),
          obliged_after t h.observed_tombstones ih.fresh ts ih.obliged,
        );
        all_seen = (ih.still_seen t (ground (arith, is_equivalent_refl t)), ih.all_seen);
        still_seen = λ x old. ih.still_seen x (ground arith);
        clocks = ih.clocks;
      })
]

module _ {C : Type 0} ⦃o : LabelOrder C⦄ where
  pub is_same_refl : (l : C) → o.is_same l l ≡ true
  is_same_refl l = (o.is_same_iff l l).1 refl

  -- A change at one label changes the holder there, if there is one, and no other.
  pub holder_at-modify_at :
      (l k : C) (f : TombHolder → TombHolder) (hs : Holders C)
      → holder_at k (modify_at l f hs) ≡ (
          if o.is_same k l
          then elim (holder_at k hs) [ none ↦ none | some h ↦ some (f h) ]
          else holder_at k hs)
  holder_at-modify_at l k f [] = ground arith
  holder_at-modify_at l k f ((j, h) ∷ hs) = ground (
    arith,
    holder_at-modify_at l k f hs,
    (o.is_same_iff l j),
    (o.is_same_iff k j),
    (o.is_same_iff k l),
  )

  -- The holder at the modified label, and the others.
  pub holder_at-modified :
      (l k : C) (f : TombHolder → TombHolder) (hs : Holders C) (h : TombHolder)
      → holder_at l hs ≡ some h
      → holder_at k (modify_at l f hs) ≡ (if o.is_same k l then some (f h) else holder_at k hs)
  holder_at-modified l k f hs h p = elim (Bool-cases (o.is_same k l)) [
    | inl e ↦
        let found : holder_at k hs ≡ some h = rw ((o.is_same_iff k l).0 e) p in
        rw (holder_at-modify_at l k f hs, e, found)
    | inr e ↦ rw (holder_at-modify_at l k f hs, e) refl
  ]
