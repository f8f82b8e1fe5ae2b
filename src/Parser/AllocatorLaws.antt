-- ===== src/Parser/AllocatorLaws.antt =====
-- What allocation and release do to the slots (transactions/mtl/new-parsing/allocator.hpp).
use mix_t.Base.{
  ℕ, zero, suc, Bool, true, false, ◌≡◌, refl, sym, ap, Option, none, some, some-inj, [], ◌∷◌, ◌==◌,
  if◌then◌else◌, >>=-eq-some, arith,
}
use mix_t.Parser.Allocator.{Slots, allocate_slot, free_slot, allocate, free_ref}

abbrev pub slot_at : ℕ → Slots → Option Bool
slot_at i [] = none
slot_at zero (b ∷ slots) = some b
slot_at (suc i) (b ∷ slots) = slot_at i slots

-- Allocation takes a slot that was open, closes it and leaves the others, and its release by the
-- slot's own index restores the slots.
pub allocate_slot_lem :
    (slots slots' : Slots) (i : ℕ)
    → allocate_slot slots ≡ some (i, slots')
    → (slot_at i slots ≡ some true)
      × ((j : ℕ) → slot_at j slots' ≡ (if j == i then some false else slot_at j slots))
      × (free_slot i slots' ≡ some slots)
unfolding allocate_slot free_slot
allocate_slot_lem [] slots' i h = cc
allocate_slot_lem (true ∷ slots) slots' i h =
    let e = some-inj _ _ h in
    let p : 0 ≡ i = ap (λ x. x.0) e in
    let q : (false ∷ slots) ≡ slots' = ap (λ x. x.1) e in rw (sym p, sym q) (refl, first, refl)
  where
    first :
        (j : ℕ)
        → slot_at j (false ∷ slots) ≡ (if j == 0 then some false else slot_at j (true ∷ slots))
    first zero = ground arith
    first (suc j) = ground arith
allocate_slot_lem (false ∷ slots) slots' i h =
    let ((k, rest), u, v) = >>=-eq-some (allocate_slot slots) _ h in
    let (was_open, others, back) = allocate_slot_lem slots rest k u in
    let e = some-inj _ _ v in
    let p : suc k ≡ i = ap (λ x. x.0) e in
    let q : (false ∷ rest) ≡ slots' = ap (λ x. x.1) e in
    rw (sym p, sym q) (was_open, later k rest others, rw back refl)
  where
    later :
        (k : ℕ) (rest : Slots)
        → ((j : ℕ) → slot_at j rest ≡ (if j == k then some false else slot_at j slots))
        → (j : ℕ)
        → slot_at j (false ∷ rest) ≡ (if j == suc k then some false else slot_at j (false ∷ slots))
    later k rest h zero = ground arith
    later k rest h (suc j) = ground (arith, h j)

slot_at-free_slot :
    (i j : ℕ) (slots slots' : Slots)
    → free_slot i slots ≡ some slots'
    → slot_at j slots' ≡ (if j == i then some true else slot_at j slots)
unfolding free_slot
slot_at-free_slot i j [] slots' h = cc
slot_at-free_slot zero zero (b ∷ slots) slots' h = rw (sym (some-inj _ _ h)) refl
slot_at-free_slot zero (suc j) (b ∷ slots) slots' h = rw (sym (some-inj _ _ h)) (ground arith)
slot_at-free_slot (suc i) zero (b ∷ slots) slots' h =
    let (rest, u, v) = >>=-eq-some (free_slot i slots) _ h in
    rw (sym (some-inj _ _ v)) (ground arith)
slot_at-free_slot (suc i) (suc j) (b ∷ slots) slots' h =
    let (rest, u, v) = >>=-eq-some (free_slot i slots) _ h in
    rw (sym (some-inj _ _ v)) (ground (arith, slot_at-free_slot i j slots rest u))

free_behind :
    (i : ℕ) (slots taken slots'' : Slots)
    → allocate_slot slots ≡ some (i, taken)
    → free_slot (suc i) taken ≡ some slots''
    → (slot_at i slots ≡ some true)
      × (slot_at i slots'' ≡ some false)
      × (slot_at (suc i) slots'' ≡ some true)
free_behind i slots taken slots'' u f =
    let (was_open, others, back) = allocate_slot_lem slots taken i u in
    (
      was_open,
      ground (arith, slot_at-free_slot (suc i) i taken slots'' f, others i),
      ground (arith, slot_at-free_slot (suc i) (suc i) taken slots'' f),
    )

-- The release of a reference just allocated, where it is defined, leaves its slot closed and opens
-- the slot behind it, whether or not that is in use.
pub free_ref-allocate :
    (slots slots' slots'' : Slots) (indx : ℕ)
    → allocate slots ≡ some (indx, slots')
    → free_ref indx slots' ≡ some slots''
    → (i : ℕ) × (indx ≡ suc i)
      × (slot_at i slots ≡ some true)
      × (slot_at i slots'' ≡ some false)
      × (slot_at (suc i) slots'' ≡ some true)
unfolding allocate free_ref
free_ref-allocate slots slots' slots'' indx h f =
    let ((i, taken), u, v) = >>=-eq-some (allocate_slot slots) _ h in
    let e = some-inj _ _ v in
    let p : suc i ≡ indx = ap (λ x. x.0) e in
    let q : taken ≡ slots' = ap (λ x. x.1) e in
    let (was_open, closed, opened) = free_behind i slots taken slots'' u (rw (sym p, sym q) at f) in
    (i, sym p, was_open, closed, opened)
