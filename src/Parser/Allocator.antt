-- ===== src/Parser/Allocator.antt =====
-- The slots of a SingleAllocator (transactions/mtl/new-parsing/allocator.hpp,
-- transactions/mtl/new-parsing/allocated_ref.hpp). The objects in the slots are left out.
use mix_t.Base.{ℕ, zero, suc, Bool, true, false, Option, none, some, List, [], ◌∷◌, ◌>>=◌}

-- open_slots, with `true` for an open slot.
abbrev pub Slots : Type 0
Slots = List Bool

abbrev pub all_open : ℕ → Slots
all_open zero = []
all_open (suc n) = true ∷ all_open n

-- A slot taken behind the first one.
abbrev behind_first : Bool → ℕ × Slots → ℕ × Slots
behind_first b (i, slots) = (suc i, b ∷ slots)

-- _allocate: the first open slot. `none` is the assert "out of memory".
unfoldable pub allocate_slot : Slots → Option (ℕ × Slots)
allocate_slot [] = none
allocate_slot (true ∷ slots) = some (0, false ∷ slots)
allocate_slot (false ∷ slots) = do taken ← allocate_slot slots; some (behind_first false taken)

-- SingleAllocator::free at an index. `none` is an index past the array, which C++ leaves undefined.
unfoldable pub free_slot : ℕ → Slots → Option Slots
free_slot i [] = none
free_slot zero (b ∷ slots) = some (true ∷ slots)
free_slot (suc i) (b ∷ slots) = do slots' ← free_slot i slots; some (b ∷ slots')

-- allocated_ref holds the slot's index and one more, so that 0 is no reference.
abbrev as_ref : ℕ × Slots → ℕ × Slots
as_ref (i, slots) = (suc i, slots)

unfoldable pub allocate : Slots → Option (ℕ × Slots)
allocate slots = do taken ← allocate_slot slots; some (as_ref taken)

-- allocated_ref::free, which passes its index on as it is.
unfoldable pub free_ref : ℕ → Slots → Option Slots
free_ref indx slots = free_slot indx slots
