-- ===== src/Parser/Examples.antt =====
-- Allocation among three slots (transactions/mtl/new-parsing/allocator.hpp).
use mix_t.Base.{arith, ℕ, suc, true, false, ◌≡◌, refl, none, some, [], ◌∷◌, ◌==◌, if◌then◌else◌}
use mix_t.Parser.Allocator.{Slots, allocate_slot, free_slot, allocate, free_ref}
use mix_t.Parser.AllocatorLaws.{slot_at, free_ref-allocate}
use mix_t.Parser.Objects.{SingleAllocator, moved, new_object, free_object}
use mix_t.Parser.ObjectLaws.{open_count, heap, IsSized, new_object_lem}

-- The first and the last slot are in use.
abbrev before : Slots
before = false ∷ true ∷ false ∷ []

abbrev after : Slots
after = false ∷ false ∷ false ∷ []

abbrev released : Slots
released = false ∷ false ∷ true ∷ []

ref-made : allocate before ≡ some (2, after)
unfolding allocate allocate_slot
ref-made = refl

ref-released : free_ref 2 after ≡ some released
unfolding free_ref free_slot
ref-released = refl

free_ref-allocate_example :
    (i : ℕ) × (2 ≡ suc i)
    × (slot_at i before ≡ some true)
    × (slot_at i released ≡ some false)
    × (slot_at (suc i) released ≡ some true)
free_ref-allocate_example = free_ref-allocate before after released 2 ref-made ref-released

abbrev three_numbers : SingleAllocator ℕ
three_numbers = record { data_array = 7 ∷ 0 ∷ 9 ∷ []; open_slots = before }

new_object_lem_example :
    (i : ℕ) × (a' : SingleAllocator ℕ) × (new_object 8 three_numbers ≡ some (suc i, a'))
    × IsSized a'
    × (1 ≡ suc (open_count a'.open_slots))
    × (heap (suc i) three_numbers ≡ none)
    × ((r : ℕ) → heap r (moved a') ≡ (if r == suc i then some 8 else heap r three_numbers))
    × (a'' : SingleAllocator ℕ) × (free_object i a' ≡ some a'')
    × ((r : ℕ) → heap r a'' ≡ heap r three_numbers)
new_object_lem_example = new_object_lem 8 three_numbers refl (omega arith)
