-- ===== src/Tracker/WaitingLaws.antt =====
-- How long find_tombstones waits, and for what (transactions/tracker/Tracker.cpp).
use mix_t.Base.{
  ℕ, zero, suc, ℤ, pos, negsuc, ◌*◌, ◌-◌, ◌%◌, ◌^◌, ◌≤◌, ◌<◌, Bool, true, false, ◌≡◌, refl, Option,
  none, some, List, [], ◌∷◌, ◌++◌, length, ltb, ◌==◌, if◌then◌else◌, All, arith, Bool-cases, inl,
  inr,
}
use mix_t.Tracker.Clock.{eq_ℤ}
use mix_t.Tracker.Client.{Tombstone}
use mix_t.Tracker.Server.{Store, exists_trk, tombstone, ok, collision}
use mix_t.Tracker.Waiting.{
  Stores, write_tombstone, write_to, write_chosen, then_in, sleep_time, poll, find_tombstones,
}
use mix_t.Tracker.ServerLaws.{eq_ℤ_eq, eq_ℤ_refl}

-- A test that every round before the given one passes.
each_round : (ℕ → Bool) → ℕ → Bool
each_round test zero = true
each_round test (suc last) = if test last then each_round test last else false

each_round-at :
    (test : ℕ → Bool) (last i : ℕ) → i < last → each_round test last ≡ true → test i ≡ true
unfolding each_round
each_round-at test zero i before passed = absurd (omega arith)
each_round-at test (suc last) i before passed = ground (arith, each_round-at test last i)

-- The wait of a round, in milliseconds: 1, 2, 4 up to 32768, then a minute each up to round 62, then
-- one negative wait, and from round 64 none.
abbrev pub wait : ℕ → ℤ
wait i =
    if ltb i 16
    then pos (2 ^ i)
    else if ltb i 63
    then pos 60000
    else if i == 63
    then negsuc (2 ^ 63 - 1)
    else pos 0

-- The waits of `n` rounds from round `i` on.
abbrev pub waits : ℕ → ℕ → List ℤ
waits i zero = []
waits i (suc n) = wait i ∷ waits (suc i) n

-- The bits of `sleep_for` in a round.
doubled : ℕ → ℕ
doubled i = if ltb i 64 then 2 ^ i else 0

doubled_table : each_round (λ i. (doubled i * 2) % 2 ^ 64 == doubled (suc i)) 64 ≡ true
unfolding each_round doubled
doubled_table = refl

sleep_table : each_round (λ i. eq_ℤ (sleep_time (doubled i)) (wait i)) 64 ≡ true
unfolding each_round doubled
sleep_table = refl

doubled_late : (i : ℕ) → 64 ≤ i → doubled i ≡ 0
unfolding doubled
doubled_late i h = ground arith

wait_late : (i : ℕ) → 64 ≤ i → wait i ≡ pos 0
wait_late i h = ground arith

doubled_step : (i : ℕ) → (doubled i * 2) % 2 ^ 64 ≡ doubled (suc i)
doubled_step i = elim (Bool-cases (ltb i 64)) [
  | inl e ↦ ground (arith, each_round-at _ 64 i _ doubled_table)
  | inr e ↦ rw (doubled_late i (ground arith), doubled_late (suc i) (ground arith)) refl
]

sleep_time_lem : (i : ℕ) → sleep_time (doubled i) ≡ wait i
sleep_time_lem i = elim (Bool-cases (ltb i 64)) [
  | inl e ↦ eq_ℤ_eq _ _ (each_round-at _ 64 i (ground arith) sleep_table)
  | inr e ↦ rw (doubled_late i (ground arith), wait_late i (ground arith)) refl
]

-- The store has no tombstone of the nonce.
abbrev pub IsAbsent : Tombstone → Store → Type 0
IsAbsent t ds = exists_trk t.nonce ds ≡ false

poll_lem :
    (t : Tombstone) (i : ℕ) (before : List Store) (ds : Store) (later : List Store)
    → All (IsAbsent t) before
    → exists_trk t.nonce ds ≡ true
    → (poll t (doubled i) (before ++ ds ∷ later) ≡ some (waits i (length before)))
      × (poll t (doubled i) before ≡ none)
poll_lem t i [] ds later h e = (rw e refl, refl)
poll_lem t i (b ∷ bs) ds later h e =
    let ih = poll_lem t (suc i) bs ds later h.1 e in
    (rw (h.0, doubled_step i, sleep_time_lem i, ih.0) refl, rw (h.0, doubled_step i, ih.1) refl)

-- Where the first stores seen have no tombstone of the nonce and the next one has, find_tombstones
-- ends with that store, having slept the wait of each round in turn: 1, 2, 4 up to 32768
-- milliseconds, then a minute each, but from the 64th round on a negative time and then zero;
-- and it has not ended before that store.
pub find_tombstones_lem :
    (t : Tombstone) (before : List Store) (ds : Store) (later : List Store)
    → All (IsAbsent t) before
    → exists_trk t.nonce ds ≡ true
    → (find_tombstones t (before ++ ds ∷ later) ≡ some (waits 0 (length before)))
      × (find_tombstones t before ≡ none)
unfolding find_tombstones doubled
find_tombstones_lem t before ds later h e = poll_lem t 0 before ds later h e

-- A write that goes through puts the tombstone in front, and the next one collides.
then_in-write_to :
    (ip nonce : ℤ) (ds : Store) (f : Store → Stores) (stores' : Stores)
    → then_in (write_to ip nonce ds) f ≡ ok stores'
    → (exists_trk nonce ds ≡ false) × (stores' ≡ f ((nonce, tombstone ip nonce) ∷ ds))
then_in-write_to ip nonce ds f stores' h = elim (Bool-cases (exists_trk nonce ds)) [
  | inl e ↦ absurd cc
  | inr e ↦ (e, cc)
]

write_to-again :
    (ip nonce : ℤ) (ds : Store) (f : Store → Stores)
    → then_in (write_to ip nonce ((nonce, tombstone ip nonce) ∷ ds)) f ≡ collision
write_to-again ip nonce ds f = rw (eq_ℤ_refl nonce) refl

-- The store that a tombstone goes to: the context's, where there is one.
abbrev pub chosen : Stores → Option Store
chosen stores = elim stores.store_context [ some ds ↦ some ds | none ↦ stores.persistent_datastore ]

abbrev pub with_chosen : Store → Stores → Stores
with_chosen ds' stores = elim stores.store_context [
  | some ds ↦ record stores { store_context = some ds' }
  | none ↦ record stores { persistent_datastore = some ds' }
]

abbrev both : Option Store → Option Store → Stores
both c p = record { store_context = c; persistent_datastore = p }

write_chosen_lem :
    (ip nonce : ℤ) (c p : Option Store) (stores' : Stores)
    → write_chosen ip nonce c p ≡ ok stores'
    → (ds : Store) × (chosen (both c p) ≡ some ds)
      × (exists_trk nonce ds ≡ false)
      × (stores' ≡ with_chosen ((nonce, tombstone ip nonce) ∷ ds) (both c p))
      × (write_chosen ip nonce stores'.store_context stores'.persistent_datastore ≡ collision)
write_chosen_lem ip nonce (some ds) p stores' h =
    let (absent, e) = then_in-write_to ip nonce ds _ stores' h in
    (ds, refl, absent, e, rw e (write_to-again ip nonce ds _))
write_chosen_lem ip nonce none (some ds) stores' h =
    let (absent, e) = then_in-write_to ip nonce ds _ stores' h in
    (ds, refl, absent, e, rw e (write_to-again ip nonce ds _))
write_chosen_lem ip nonce none none stores' h = absurd cc

-- A tombstone that writeTombstone has written is in the store of the context, where there is one,
-- and else in the persistent store, in front of what that store had, where no tombstone of its
-- nonce was; the other store is left alone, the same nonce collides when it is written again,
-- and a find_tombstones that next sees that store ends there, with the waits of the rounds
-- before, in which its store did not have the nonce.
pub find_tombstones-write_tombstone :
    (ip nonce : ℤ) (stores stores' : Stores) (before later : List Store)
    → write_tombstone ip nonce stores ≡ ok stores'
    → All (IsAbsent (tombstone ip nonce)) before
    → (ds : Store) × (chosen stores ≡ some ds)
      × (exists_trk nonce ds ≡ false)
      × (stores' ≡ with_chosen ((nonce, tombstone ip nonce) ∷ ds) stores)
      × (write_tombstone ip nonce stores' ≡ collision)
      × (find_tombstones (tombstone ip nonce) (before ++ ((nonce, tombstone ip nonce) ∷ ds) ∷ later)
          ≡ some (waits 0 (length before)))
unfolding write_tombstone
find_tombstones-write_tombstone ip nonce stores stores' before later h absent =
    let (ds, chose, fresh, e, again) =
      write_chosen_lem ip nonce stores.store_context stores.persistent_datastore stores' h in
    (
      ds,
      chose,
      fresh,
      e,
      again,
      (find_tombstones_lem (tombstone ip nonce) before ((nonce, tombstone ip nonce) ∷ ds) later
          absent (rw (eq_ℤ_refl nonce) refl)).0,
    )
