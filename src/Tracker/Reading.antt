-- ===== src/Tracker/Reading.antt =====
-- The clock of a server, that one thread receives and another reads
-- (transactions/tracker/ClockManager.cpp). Each component is stored and read by itself, so the two
-- threads interleave between components.
use mix_t.Base.{ℤ, List, [], ◌∷◌, if◌then◌else◌}
use mix_t.Tracker.Clock.{Clock, eq_ℤ, minus_one}

-- An index of the array.
pub data Index : Type 0 where
  index0 index1 index2 index3 : Index

abbrev pub component : Index → Clock → ℤ
component index0 c = c.c0
component index1 c = c.c1
component index2 c = c.c2
component index3 c = c.c3

abbrev pub set_component : Index → ℤ → Clock → Clock
set_component index0 v c = record c { c0 = v }
set_component index1 v c = record c { c1 = v }
set_component index2 v c = record c { c2 = v }
set_component index3 v c = record c { c3 = v }

-- Where updateClock stands: before the test of a component for -1, before the read of it that
-- follows, or behind the loop.
pub data Reader : Type 0 where
  testing reading : Index → Clock → Reader
  finished : Clock → Reader

abbrev pub next_component : Index → Clock → Reader
next_component index0 newc = testing index1 newc
next_component index1 newc = testing index2 newc
next_component index2 newc = testing index3 newc
next_component index3 newc = finished newc

-- One step of the loop of updateClock.
abbrev pub read_step : Clock → Reader → Reader
read_step clock (testing i newc) =
    if eq_ℤ (component i clock) minus_one then testing i newc else reading i newc
read_step clock (reading i newc) = next_component i (set_component i (component i clock) newc)
read_step clock (finished newc) = finished newc

-- A step of either thread: a component of a received clock is stored, or updateClock takes a step.
pub data Event : Type 0 where
  received : Index → ℤ → Event
  looked : Event

unfoldable pub interleave : List Event → Clock → Reader → Clock × Reader
interleave [] clock r = (clock, r)
interleave (received i v ∷ es) clock r = interleave es (set_component i v clock) r
interleave (looked ∷ es) clock r = interleave es clock (read_step clock r)
