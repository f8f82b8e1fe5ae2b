-- ===== src/Tracker/ClockLaws.antt =====
-- Laws of vector clocks (transactions/tracker/Ends.hpp, transactions/tracker/Ends.cpp).
use mix_t.Base.{ℤ, true, false, ◌≡◌, ◌≢◌, ◌↔◌, none, some, List, [], ◌∷◌, arith, All}
use mix_t.Tracker.Clock.{
  leb_ℤ, eq_ℤ, max_ℤ, minus_one, Clock, clock, max, max_from, max_range, is_same, prec,
}

leb_ℤ_refl : (a : ℤ) → leb_ℤ a a ≡ true
leb_ℤ_refl a = ground arith

leb_ℤ_trans : (a b c : ℤ) → leb_ℤ a b ≡ true → leb_ℤ b c ≡ true → leb_ℤ a c ≡ true
leb_ℤ_trans a b c = ground arith

leb_ℤ_total : (a b : ℤ) → leb_ℤ a b ≡ false → leb_ℤ b a ≡ true
leb_ℤ_total a b = ground arith

max_ℤ_bound : (a b : ℤ) → (leb_ℤ a (max_ℤ a b) ≡ true) × (leb_ℤ b (max_ℤ a b) ≡ true)
max_ℤ_bound a b = ground (arith, leb_ℤ_refl a, leb_ℤ_refl b, leb_ℤ_total b a)

max_ℤ_least : (a b c : ℤ) → leb_ℤ a c ≡ true → leb_ℤ b c ≡ true → leb_ℤ (max_ℤ a b) c ≡ true
max_ℤ_least a b c p q = ground arith

-- Each component is at most the other's.
pub record IsBelow (a b : Clock) : Type 0 where
  pub at0 : leb_ℤ a.c0 b.c0 ≡ true
  pub at1 : leb_ℤ a.c1 b.c1 ≡ true
  pub at2 : leb_ℤ a.c2 b.c2 ≡ true
  pub at3 : leb_ℤ a.c3 b.c3 ≡ true

pub IsBelow-refl : (a : Clock) → IsBelow a a
IsBelow-refl a = record {
  at0 = leb_ℤ_refl a.c0;
  at1 = leb_ℤ_refl a.c1;
  at2 = leb_ℤ_refl a.c2;
  at3 = leb_ℤ_refl a.c3;
}

pub IsBelow-trans : (a b c : Clock) → IsBelow a b → IsBelow b c → IsBelow a c
IsBelow-trans a b c p q = record {
  at0 = leb_ℤ_trans a.c0 b.c0 c.c0 p.at0 q.at0;
  at1 = leb_ℤ_trans a.c1 b.c1 c.c1 p.at1 q.at1;
  at2 = leb_ℤ_trans a.c2 b.c2 c.c2 p.at2 q.at2;
  at3 = leb_ℤ_trans a.c3 b.c3 c.c3 p.at3 q.at3;
}

pub max_lem :
    (a b : Clock)
    → IsBelow a (max a b)
      × IsBelow b (max a b)
      × ((c : Clock) → IsBelow a c → IsBelow b c → IsBelow (max a b) c)
unfolding max
max_lem a b =
    let m0 = max_ℤ_bound a.c0 b.c0 in
    let m1 = max_ℤ_bound a.c1 b.c1 in
    let m2 = max_ℤ_bound a.c2 b.c2 in
    let m3 = max_ℤ_bound a.c3 b.c3 in
    (
      record { at0 = m0.0; at1 = m1.0; at2 = m2.0; at3 = m3.0 },
      record { at0 = m0.1; at1 = m1.1; at2 = m2.1; at3 = m3.1 },
      λ c p q. record {
        at0 = max_ℤ_least a.c0 b.c0 c.c0 p.at0 q.at0;
        at1 = max_ℤ_least a.c1 b.c1 c.c1 p.at1 q.at1;
        at2 = max_ℤ_least a.c2 b.c2 c.c2 p.at2 q.at2;
        at3 = max_ℤ_least a.c3 b.c3 c.c3 p.at3 q.at3;
      },
    )

-- ends::max of two clocks is their least upper bound: it is below just the clocks that both are
-- below.
pub max_iff : (a b c : Clock) → IsBelow (max a b) c ↔ (IsBelow a c × IsBelow b c)
max_iff a b c =
    let (p, q, least) = max_lem a b in
    (λ h. (IsBelow-trans a (max a b) c p h, IsBelow-trans b (max a b) c q h), λ h. least c h.0 h.1)

max_from_lem :
    (ret : Clock) (cs : List Clock)
    → IsBelow ret (max_from ret cs)
      × All (λ c. IsBelow c (max_from ret cs)) cs
      × ((u : Clock) → IsBelow ret u → All (λ c. IsBelow c u) cs → IsBelow (max_from ret cs) u)
max_from_lem ret [] = (IsBelow-refl ret, tt, λ u p _. p)
max_from_lem ret (c ∷ cs) =
    let (r, all, least) = max_from_lem (max ret c) cs in
    let (p, q, l) = max_lem ret c in
    (
      IsBelow-trans ret (max ret c) _ p r,
      (IsBelow-trans c (max ret c) _ q r, all),
      λ u below others. least u (l u below others.0) others.1,
    )

-- No component is below -1.
pub record IsAtLeastMinusOne (a : Clock) : Type 0 where
  pub at0 : leb_ℤ minus_one a.c0 ≡ true
  pub at1 : leb_ℤ minus_one a.c1 ≡ true
  pub at2 : leb_ℤ minus_one a.c2 ≡ true
  pub at3 : leb_ℤ minus_one a.c3 ≡ true

pub max_range_lem :
    (cs : List Clock)
    → All (λ c. IsBelow c (max_range cs)) cs
      × ((u : Clock) → IsAtLeastMinusOne u → All (λ c. IsBelow c u) cs → IsBelow (max_range cs) u)
unfolding max_range
max_range_lem cs =
    let (r, all, least) = max_from_lem (clock minus_one minus_one minus_one minus_one) cs in
    (
      all,
      λ u low others.
          least u (record { at0 = low.at0; at1 = low.at1; at2 = low.at2; at3 = low.at3 }) others,
    )

-- Every component is known.
pub record IsKnown (a : Clock) : Type 0 where
  pub at0 : eq_ℤ a.c0 minus_one ≡ false
  pub at1 : eq_ℤ a.c1 minus_one ≡ false
  pub at2 : eq_ℤ a.c2 minus_one ≡ false
  pub at3 : eq_ℤ a.c3 minus_one ≡ false

-- Between clocks with no unknown component ends::prec passes its asserts, and says whether each
-- component is at most the other's.
pub prec_iff :
    (a b : Clock)
    → IsKnown a
    → IsKnown b
    → ((prec a b ≡ some true) ↔ IsBelow a b) × (prec a b ≢ none)
unfolding prec
prec_iff a b ka kb = ((λ h. ground arith, λ h. ground arith), ground arith)

-- Where ends::prec says yes, every component of both clocks is known.
pub prec-IsKnown : (a b : Clock) → prec a b ≡ some true → IsKnown a × IsKnown b × IsBelow a b
unfolding prec
prec-IsKnown a b h = (ground arith, ground arith, ground arith)

-- ends::is_same compares every component.
pub is_same_iff : (a b : Clock) → (is_same a b ≡ true) ↔ (a ≡ b)
unfolding is_same
is_same_iff a b = (λ h. ground arith, λ h. ground arith)

-- A bound of the larger clock bounds what is below it.
pub All-IsBelow :
    (a b : Clock) (cs : List Clock)
    → IsBelow a b
    → All (λ c. IsBelow c a) cs
    → All (λ c. IsBelow c b) cs
All-IsBelow a b [] p all = tt
All-IsBelow a b (c ∷ cs) p all = (IsBelow-trans c a b all.0 p, All-IsBelow a b cs p all.1)

-- ends::max of a range is the least upper bound of its clocks among those with no component below
-- -1: it is below just the ones that every clock of the range is below.
pub max_range_iff :
    (cs : List Clock) (u : Clock)
    → IsAtLeastMinusOne u
    → IsBelow (max_range cs) u ↔ All (λ c. IsBelow c u) cs
max_range_iff cs u low =
    let (above, least) = max_range_lem cs in
    (λ h. All-IsBelow (max_range cs) u cs h above, least u low)
