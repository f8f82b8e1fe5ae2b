-- ===== src/Parser/ObjectLaws.antt =====
-- An allocator as a map from references to objects (transactions/mtl/new-parsing/allocator.hpp).
use mix_t.Base.{
  ℕ, zero, suc, ◌<◌, Bool, true, false, ◌≡◌, refl, sym, ap, ◌∙◌, Option, none, some, List, [], ◌∷◌,
  length, ◌==◌, if◌then◌else◌, Bool-cases, inl, inr, arith,
}
use mix_t.Parser.Allocator.{Slots, allocate_slot, allocate}
use mix_t.Parser.AllocatorLaws.{slot_at, allocate_slot_lem}
use mix_t.Parser.Objects.{
  ptr, assign_ptr, SingleAllocator, copied, moved, get, new_object, free_object,
}

abbrev pub open_count : Slots → ℕ
open_count [] = 0
open_count (true ∷ slots) = suc (open_count slots)
open_count (false ∷ slots) = open_count slots

-- An open slot is found; one less is open behind it.
allocate_slot_total :
    (slots : Slots)
    → 0 < open_count slots
    → (i : ℕ) × (slots' : Slots) × (allocate_slot slots ≡ some (i, slots'))
      × (open_count slots ≡ suc (open_count slots'))
      × (length slots' ≡ length slots)
      × (i < length slots)
unfolding allocate_slot
allocate_slot_total [] h = absurd (omega arith)
allocate_slot_total (true ∷ slots) h = (0, false ∷ slots, refl, refl, refl, omega arith)
allocate_slot_total (false ∷ slots) h =
    let (i, slots', e, n, l, b) = allocate_slot_total slots h in
    (suc i, false ∷ slots', rw e refl, n, ap suc l, omega arith)

copied_lem : (slots : Slots) → copied slots ≡ slots
copied_lem [] = refl
copied_lem (b ∷ slots) = ap (λ s. b ∷ s) (copied_lem slots)

suc_same : (j i : ℕ) → j == i ≡ true → suc j == suc i ≡ true
suc_same j i e = ground arith

suc_apart : (j i : ℕ) → j == i ≡ false → suc j == suc i ≡ false
suc_apart j i e = ground arith

module _ {ℓ} {T : Type ℓ} where
  assign_ptr_total :
      (i : ℕ) (v : T) (xs : List T)
      → i < length xs
      → (ys : List T) × (assign_ptr i v xs ≡ some ys)
        × (length ys ≡ length xs)
        × ((j : ℕ) → ptr j ys ≡ (if j == i then some v else ptr j xs))
  unfolding assign_ptr ptr
  assign_ptr_total i v [] h = absurd (omega arith)
  assign_ptr_total zero v (x ∷ xs) h = (v ∷ xs, refl, refl, first)
    where
      first : (j : ℕ) → ptr j (v ∷ xs) ≡ (if j == 0 then some v else ptr j (x ∷ xs))
      first zero = refl
      first (suc j) = ground arith
  assign_ptr_total (suc i) v (x ∷ xs) h =
      let (ys, e, l, at) = assign_ptr_total i v xs (omega arith) in
      (x ∷ ys, rw e refl, ap suc l, later ys at)
    where
      later :
          (ys : List T)
          → ((j : ℕ) → ptr j ys ≡ (if j == i then some v else ptr j xs))
          → (j : ℕ) → ptr j (x ∷ ys) ≡ (if j == suc i then some v else ptr j (x ∷ xs))
      later ys at zero = ground arith
      later ys at (suc j) = ground (arith, at j)

  -- The object of a slot that is in use.
  abbrev pub used : Option Bool → Option T → Option T
  used (some false) object = object
  used (some true) object = none
  used none object = none

  -- What a reference refers to: nothing when its slot is open.
  abbrev pub heap : ℕ → SingleAllocator T → Option T
  heap zero a = none
  heap (suc i) a = used (slot_at i a.open_slots) (get (suc i) a)

  abbrev pub IsSized : SingleAllocator T → Type 0
  IsSized a = length a.data_array ≡ length a.open_slots

  used_filled :
      (v : T) (a a' : SingleAllocator T) (i : ℕ)
      → ((j : ℕ)
          → slot_at j a'.open_slots ≡ (if j == i then some false else slot_at j a.open_slots))
      → ((j : ℕ) → ptr j a'.data_array ≡ (if j == i then some v else ptr j a.data_array))
      → (r : ℕ) → heap r a' ≡ (if r == suc i then some v else heap r a)
  used_filled v a a' i s p zero = ground arith
  used_filled v a a' i s p (suc j) = elim (Bool-cases (j == i)) [
    | inl e ↦ rw (s j, p j, e, suc_same j i e) refl
    | inr e ↦ rw (s j, p j, e, suc_apart j i e) refl
  ]

  -- An object in an open slot is one that no reference refers to.
  used_open :
      (v : T) (a a' : SingleAllocator T) (i : ℕ)
      → a'.open_slots ≡ a.open_slots
      → slot_at i a.open_slots ≡ some true
      → ((j : ℕ) → ptr j a'.data_array ≡ (if j == i then some v else ptr j a.data_array))
      → (r : ℕ) → heap r a' ≡ heap r a
  used_open v a a' i s o p zero = refl
  used_open v a a' i s o p (suc j) = elim (Bool-cases (j == i)) [
    | inl e ↦ let here : j ≡ i = ground arith in rw (s, here, o) refl
    | inr e ↦ rw (s, p j, e) refl
  ]

  -- Where the array has a place for each slot and some slot is open, making an object succeeds. The
  -- new reference referred to nothing before; in the allocator, and in what it is moved to, it
  -- refers to the new object, and every other reference to what it did; one slot less is open.
  -- Releasing the slot by its own index makes every reference refer to what it did before.
  pub new_object_lem :
      (v : T) (a : SingleAllocator T)
      → IsSized a
      → 0 < open_count a.open_slots
      → (i : ℕ) × (a' : SingleAllocator T) × (new_object v a ≡ some (suc i, a'))
        × IsSized a'
        × (open_count a.open_slots ≡ suc (open_count a'.open_slots))
        × (heap (suc i) a ≡ none)
        × ((r : ℕ) → heap r (moved a') ≡ (if r == suc i then some v else heap r a))
        × (a'' : SingleAllocator T) × (free_object i a' ≡ some a'')
        × ((r : ℕ) → heap r a'' ≡ heap r a)
  unfolding new_object free_object moved allocate
  new_object_lem v a sized room =
      let (i, slots, e, n, l, b) = allocate_slot_total a.open_slots room in
      let (was_open, others, back) = allocate_slot_lem a.open_slots slots i e in
      let (xs, f, k, at) = assign_ptr_total i v a.data_array (omega arith) in
      (
        i,
        record { data_array = xs; open_slots = slots },
        rw (e, f) refl,
        k ∙ sized ∙ sym l,
        n,
        rw was_open refl,
        used_filled v a (record { data_array = xs; open_slots = copied slots }) i
            (λ j. rw (copied_lem slots) (others j)) at,
        record { data_array = xs; open_slots = a.open_slots },
        rw back refl,
        used_open v a (record { data_array = xs; open_slots = a.open_slots }) i refl was_open at,
      )
