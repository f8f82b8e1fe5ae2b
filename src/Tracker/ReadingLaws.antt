-- ===== src/Tracker/ReadingLaws.antt =====
-- Laws of reading a clock that is being received (transactions/tracker/ClockManager.cpp).
use mix_t.Base.{ℕ, suc, ◌-◌, ◌≤◌, ℤ, pos, true, false, some, List, [], ◌∷◌, ◌≡◌, refl, arith}
use mix_t.Tracker.Clock.{Clock, leb_ℤ, eq_ℤ, minus_one}
use mix_t.Tracker.ClockLaws.{IsBelow, IsBelow-trans, IsKnown, prec_iff}
use mix_t.Tracker.Client.{zero_clock}
use mix_t.Tracker.Server.{Tracker, update_clock}
use mix_t.Tracker.Reading.{
  Index, index0, index1, index2, index3, component, set_component, Reader, testing, reading,
  finished, read_step, Event, received, looked, interleave,
}

-- No stored component is below the one that it replaces.
abbrev pub IsAscending : List Event → Clock → Type 0
IsAscending [] c = Unit
IsAscending (received i v ∷ es) c =
    (leb_ℤ (component i c) v ≡ true) × IsAscending es (set_component i v c)
IsAscending (looked ∷ es) c = IsAscending es c

abbrev pub looks : List Event → ℕ
looks [] = 0
looks (received i v ∷ es) = looks es
looks (looked ∷ es) = suc (looks es)

leb_ℤ_self : (a : ℤ) → leb_ℤ a a ≡ true
leb_ℤ_self a = ground arith

set_component-IsBelow :
    (i : Index) (v : ℤ) (c : Clock)
    → leb_ℤ (component i c) v ≡ true
    → IsBelow c (set_component i v c)
set_component-IsBelow index0 v c h = record {
  at0 = h;
  at1 = leb_ℤ_self c.c1;
  at2 = leb_ℤ_self c.c2;
  at3 = leb_ℤ_self c.c3;
}
set_component-IsBelow index1 v c h = record {
  at0 = leb_ℤ_self c.c0;
  at1 = h;
  at2 = leb_ℤ_self c.c2;
  at3 = leb_ℤ_self c.c3;
}
set_component-IsBelow index2 v c h = record {
  at0 = leb_ℤ_self c.c0;
  at1 = leb_ℤ_self c.c1;
  at2 = h;
  at3 = leb_ℤ_self c.c3;
}
set_component-IsBelow index3 v c h = record {
  at0 = leb_ℤ_self c.c0;
  at1 = leb_ℤ_self c.c1;
  at2 = leb_ℤ_self c.c2;
  at3 = h;
}

known : (a : ℤ) → leb_ℤ (pos 0) a ≡ true → eq_ℤ a minus_one ≡ false
known a h = ground arith

above_zero-IsKnown : (c : Clock) → IsBelow zero_clock c → IsKnown c
above_zero-IsKnown c h = record {
  at0 = known c.c0 h.at0;
  at1 = known c.c1 h.at1;
  at2 = known c.c2 h.at2;
  at3 = known c.c3 h.at3;
}

leb_ℤ_step : (a b c : ℤ) → leb_ℤ a b ≡ true → leb_ℤ b c ≡ true → leb_ℤ a c ≡ true
leb_ℤ_step a b c = ground arith

-- How many steps updateClock has left where no component is -1.
abbrev pub left : Reader → ℕ
left (testing index0 newc) = 8
left (reading index0 newc) = 7
left (testing index1 newc) = 6
left (reading index1 newc) = 5
left (testing index2 newc) = 4
left (reading index2 newc) = 3
left (testing index3 newc) = 2
left (reading index3 newc) = 1
left (finished newc) = 0

module _ (low : Clock) where
  abbrev pub IsBetween : ℤ → ℤ → ℤ → Type 0
  IsBetween a b c = (leb_ℤ a b ≡ true) × (leb_ℤ b c ≡ true)

  -- The components before an index lie between those of `low` and of the clock as it stands.
  abbrev pub IsRead : Index → Clock → Clock → Type 0
  IsRead index0 newc c = Unit
  IsRead index1 newc c = IsBetween low.c0 newc.c0 c.c0
  IsRead index2 newc c = IsBetween low.c0 newc.c0 c.c0 × IsBetween low.c1 newc.c1 c.c1
  IsRead index3 newc c =
      IsBetween low.c0 newc.c0 c.c0 × IsBetween low.c1 newc.c1 c.c1 × IsBetween low.c2 newc.c2 c.c2

  abbrev pub IsSound : Clock → Reader → Type 0
  IsSound c (testing i newc) = IsRead i newc c
  IsSound c (reading i newc) = IsRead i newc c
  IsSound c (finished newc) = IsBelow low newc × IsBelow newc c

  IsBetween-mono : (a b c d : ℤ) → IsBetween a b c → leb_ℤ c d ≡ true → IsBetween a b d
  IsBetween-mono a b c d h k = (h.0, leb_ℤ_step b c d h.1 k)

  IsRead-mono : (i : Index) (newc c d : Clock) → IsRead i newc c → IsBelow c d → IsRead i newc d
  IsRead-mono index0 newc c d h k = tt
  IsRead-mono index1 newc c d h k = IsBetween-mono low.c0 newc.c0 c.c0 d.c0 h k.at0
  IsRead-mono index2 newc c d h k = (
    IsBetween-mono low.c0 newc.c0 c.c0 d.c0 h.0 k.at0,
    IsBetween-mono low.c1 newc.c1 c.c1 d.c1 h.1 k.at1,
  )
  IsRead-mono index3 newc c d h k = (
    IsBetween-mono low.c0 newc.c0 c.c0 d.c0 h.0 k.at0,
    IsBetween-mono low.c1 newc.c1 c.c1 d.c1 h.1 k.at1,
    IsBetween-mono low.c2 newc.c2 c.c2 d.c2 h.2 k.at2,
  )

  IsSound-mono : (r : Reader) (c d : Clock) → IsSound c r → IsBelow c d → IsSound d r
  IsSound-mono (testing i newc) c d h k = IsRead-mono i newc c d h k
  IsSound-mono (reading i newc) c d h k = IsRead-mono i newc c d h k
  IsSound-mono (finished newc) c d h k = (h.0, IsBelow-trans newc c d h.1 k)

  -- A step of updateClock reads a component that is in between, and is one step less to go.
  read_step_lem :
      (c : Clock) (r : Reader)
      → IsBelow zero_clock c
      → IsBelow low c
      → IsSound c r
      → IsSound c (read_step c r) × (left (read_step c r) ≤ left r - 1)
  read_step_lem c (testing i newc) z b h =
      rw (known (component i c) (zero_component i)) (h, one_less i)
    where
      zero_component : (i : Index) → leb_ℤ (pos 0) (component i c) ≡ true
      zero_component index0 = z.at0
      zero_component index1 = z.at1
      zero_component index2 = z.at2
      zero_component index3 = z.at3

      one_less : (i : Index) → left (reading i newc) ≤ left (testing i newc) - 1
      one_less index0 = omega arith
      one_less index1 = omega arith
      one_less index2 = omega arith
      one_less index3 = omega arith
  read_step_lem c (reading index0 newc) z b h = ((b.at0, leb_ℤ_self c.c0), omega arith)
  read_step_lem c (reading index1 newc) z b h = ((h, (b.at1, leb_ℤ_self c.c1)), omega arith)
  read_step_lem c (reading index2 newc) z b h = ((h.0, h.1, (b.at2, leb_ℤ_self c.c2)), omega arith)
  read_step_lem c (reading index3 newc) z b h = (
    (
      record { at0 = h.0.0; at1 = h.1.0; at2 = h.2.0; at3 = b.at3 },
      record { at0 = h.0.1; at1 = h.1.1; at2 = h.2.1; at3 = leb_ℤ_self c.c3 },
    ),
    omega arith,
  )
  read_step_lem c (finished newc) z b h = (h, omega arith)

  interleave_lem :
      (es : List Event) (c : Clock) (r : Reader)
      → IsAscending es c
      → IsBelow zero_clock c
      → IsBelow low c
      → IsSound c r
      → left r ≤ looks es
      → (newc : Clock) × (c' : Clock) × (interleave es c r ≡ (c', finished newc))
        × IsBelow low newc
        × IsBelow newc c'
  unfolding interleave
  interleave_lem [] c (finished newc) a z b h n = (newc, c, refl, h.0, h.1)
  interleave_lem [] c (testing index0 newc) a z b h n = absurd (omega arith)
  interleave_lem [] c (testing index1 newc) a z b h n = absurd (omega arith)
  interleave_lem [] c (testing index2 newc) a z b h n = absurd (omega arith)
  interleave_lem [] c (testing index3 newc) a z b h n = absurd (omega arith)
  interleave_lem [] c (reading index0 newc) a z b h n = absurd (omega arith)
  interleave_lem [] c (reading index1 newc) a z b h n = absurd (omega arith)
  interleave_lem [] c (reading index2 newc) a z b h n = absurd (omega arith)
  interleave_lem [] c (reading index3 newc) a z b h n = absurd (omega arith)
  interleave_lem (received i v ∷ es) c r a z b h n =
      let up = set_component-IsBelow i v c a.0 in
      interleave_lem es (set_component i v c) r a.1 (IsBelow-trans zero_clock c _ z up)
        (IsBelow-trans low c _ b up) (IsSound-mono r c _ h up) n
  interleave_lem (looked ∷ es) c r a z b h n =
      let (s, k) = read_step_lem c r z b h in
      interleave_lem es c (read_step c r) a z b s (omega arith)

-- However the receiving thread and updateClock interleave, where no stored component goes back and
-- the clock starts above the tracker's minimum, which is zero or more: with at least eight steps
-- updateClock ends, with a clock between the minimum and the one there at the end, even where its
-- components come from different clocks; its assert holds, and the clock becomes the minimum.
pub update_clock-interleave :
    (es : List Event) (c start : Clock) (trk : Tracker)
    → IsAscending es c
    → IsBelow zero_clock trk.global_min
    → IsBelow trk.global_min c
    → 8 ≤ looks es
    → (newc : Clock) × (c' : Clock) × (interleave es c (testing index0 start) ≡ (c', finished newc))
      × IsBelow trk.global_min newc
      × IsBelow newc c'
      × (update_clock newc trk ≡ some (record trk { global_min = newc }))
unfolding update_clock
update_clock-interleave es c start trk a z b n =
    let low = trk.global_min in
    let (newc, c', e, p, q) =
      interleave_lem low es c (testing index0 start) a (IsBelow-trans zero_clock low c z b) b tt
        n in
    let ordered =
      (prec_iff low newc (above_zero-IsKnown low z)
          (above_zero-IsKnown newc (IsBelow-trans zero_clock low newc z p))).0.1
        p in
    (newc, c', e, p, q, rw ordered refl)
