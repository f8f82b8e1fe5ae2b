-- ===== src/Parser/Objects.antt =====
-- A SingleAllocator with the objects in its slots (transactions/mtl/new-parsing/allocator.hpp,
-- transactions/mtl/new-parsing/allocated_ref.hpp, transactions/mtl/new-parsing/array.hpp).
use mix_t.Base.{ℕ, zero, suc, Option, none, some, List, [], ◌∷◌, ◌>>=◌}
use mix_t.Parser.Allocator.{Slots, all_open, allocate, free_slot}

module _ {ℓ} {T : Type ℓ} where
  -- array::ptr. `none` is the assert "index out of bounds".
  unfoldable pub ptr : ℕ → List T → Option T
  ptr i [] = none
  ptr zero (hd ∷ rest) = some hd
  ptr (suc i) (hd ∷ rest) = ptr i rest

  -- An assignment through array::ptr.
  unfoldable pub assign_ptr : ℕ → T → List T → Option (List T)
  assign_ptr i v [] = none
  assign_ptr zero v (hd ∷ rest) = some (v ∷ rest)
  assign_ptr (suc i) v (hd ∷ rest) = do rest' ← assign_ptr i v rest; some (hd ∷ rest')

  abbrev pub constructed : ℕ → T → List T
  constructed zero t = []
  constructed (suc n) t = t ∷ constructed n t

pub record SingleAllocator {ℓ} (T : Type ℓ) : Type ℓ where
  pub data_array : List T
  pub open_slots : Slots

-- An allocator after its construction, with the default object of its type.
abbrev pub new_allocator {ℓ} : {T : Type ℓ} → ℕ → T → SingleAllocator T
new_allocator size t = record { data_array = constructed size t; open_slots = all_open size }

abbrev pub copied : Slots → Slots
copied [] = []
copied (b ∷ slots) = b ∷ copied slots

-- The move constructor, which copies the marks one by one.
unfoldable pub moved {ℓ} : {T : Type ℓ} → SingleAllocator T → SingleAllocator T
moved o = record { data_array = o.data_array; open_slots = copied o.open_slots }

-- allocated_ref::get. The index of no reference is 0, and 0 - 1 lies behind every array.
abbrev pub get {ℓ} : {T : Type ℓ} → ℕ → SingleAllocator T → Option T
get zero new_parent = none
get (suc i) new_parent = ptr i new_parent.data_array

-- An assignment to the object that a reference refers to.
abbrev pub assign_ref {ℓ} : {T : Type ℓ} → ℕ → T → SingleAllocator T → Option (SingleAllocator T)
assign_ref zero v new_parent = none
assign_ref (suc i) v new_parent = do
  objects ← assign_ptr i v new_parent.data_array
  some (record new_parent { data_array = objects })

-- What the parser does to make a node: a reference from allocate(), and an assignment through it.
unfoldable pub new_object {ℓ} :
    {T : Type ℓ} → T → SingleAllocator T → Option (ℕ × SingleAllocator T)
new_object v allocator = do
  (indx, slots) ← allocate allocator.open_slots
  filled ← assign_ref indx v (record allocator { open_slots = slots })
  some (indx, filled)

-- SingleAllocator::free at an index.
unfoldable pub free_object {ℓ} : {T : Type ℓ} → ℕ → SingleAllocator T → Option (SingleAllocator T)
free_object i allocator = do
  slots ← free_slot i allocator.open_slots
  some (record allocator { open_slots = slots })
