-- ===== src/Tracker/Waiting.antt =====
-- Tombstones that are written, and waited for (transactions/tracker/Tracker.cpp: writeTombstone and
-- find_tombstones).
use mix_t.Base.{
  ℕ, ℤ, pos, negsuc, ◌*◌, ◌-◌, ◌%◌, ◌^◌, Option, none, some, List, [], ◌∷◌, ltb, if◌then◌else◌,
}
use mix_t.Tracker.Clock.{leb_ℤ}
use mix_t.Tracker.Client.{Tombstone}
use mix_t.Tracker.Server.{
  Store, exists_trk, new_tomb, tombstone, Result, ok, collision, failed_assert,
}
use mathlib.Core.Option

-- The stores that a transaction can write a tombstone to, `none` for a null pointer. They are two
-- different stores.
pub record Stores : Type 0 where
  pub store_context : Option Store
  pub persistent_datastore : Option Store

abbrev pub set_persistent_store : Store → Stores → Stores
set_persistent_store ds stores = record stores { persistent_datastore = some ds }

abbrev pub then_in : Result Store → (Store → Stores) → Result Stores
then_in (ok st) f = ok (f st)
then_in collision f = collision
then_in failed_assert f = failed_assert

module _ (ip : ℤ) where
  -- writeTombstone behind its choice of a store.
  abbrev pub write_to : ℤ → Store → Result Store
  write_to nonce ds =
      if exists_trk nonce ds then collision else ok (new_tomb nonce (tombstone ip nonce) ds)

  abbrev pub write_chosen : ℤ → Option Store → Option Store → Result Stores
  write_chosen nonce (some ds) other =
      then_in (write_to nonce ds)
        (λ ds'. record { store_context = some ds'; persistent_datastore = other })
  write_chosen nonce none (some ds) =
      then_in (write_to nonce ds)
        (λ ds'. record { store_context = none; persistent_datastore = some ds' })
  write_chosen nonce none none = failed_assert

  unfoldable pub write_tombstone : ℤ → Stores → Result Stores
  write_tombstone nonce stores = write_chosen nonce stores.store_context stores.persistent_datastore

-- Milliseconds are a signed 64-bit number, kept here by its bits.
abbrev pub signed : ℕ → ℤ
signed n = if ltb n (2 ^ 63) then pos n else negsuc (2 ^ 64 - 1 - n)

abbrev pub max_sleep_for : ℤ
max_sleep_for = pos 60000

abbrev pub sleep_time : ℕ → ℤ
sleep_time sleep_for =
    if leb_ℤ max_sleep_for (signed sleep_for) then max_sleep_for else signed sleep_for

-- The loop of find_tombstones. Each round looks at the store as it then is; the result is the times
-- that it has slept, and `none` where the tombstone is in none of the stores. The doubled
-- time wraps around.
abbrev pub poll : Tombstone → ℕ → List Store → Option (List ℤ)
poll t sleep_for [] = none
poll t sleep_for (ds ∷ later) =
    let rest = poll t ((sleep_for * 2) % 2 ^ 64) later in
    if exists_trk t.nonce ds then some [] else Option.map (λ ts. sleep_time sleep_for ∷ ts) rest

unfoldable pub find_tombstones : Tombstone → List Store → Option (List ℤ)
find_tombstones t seen = poll t 1 seen
