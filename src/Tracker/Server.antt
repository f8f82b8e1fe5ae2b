-- ===== src/Tracker/Server.antt =====
-- The tracker of a server (transactions/tracker/Tracker.cpp,
-- transactions/tracker/Tracker_private_declarations.hpp): names of metadata, the tombstones that
-- accompany writes, and what a transaction's context commits.
use mix_t.Base.{
  ℕ, zero, suc, ℤ, pos, negsuc, ◌*◌, ◌%◌, Bool, true, false, not, ◌&&◌, Option, none, some, List,
  [], ◌∷◌, ◌++◌, leb, ltb, ◌==◌, if◌then◌else◌, ◌>>=◌,
}
use mix_t.Tracker.Clock.{Clock, eq_ℤ, max, max_range, prec}
use mix_t.Tracker.Client.{Tombstone, zero_clock}

-- The file transactions/big_prime, and the largest int.
abbrev pub bigprime_lin : ℕ
bigprime_lin = 2147483659

abbrev pub int_max : ℕ
int_max = 2147483647

-- A Name is a long.
unfoldable pub is_metaname : ℕ → ℤ → Bool
is_metaname base (pos n) = ltb 0 n && n % base == 0
is_metaname base (negsuc n) = false

-- `none` is a failed assert.
unfoldable pub make_metaname : ℕ → ℤ → Option ℤ
make_metaname base (negsuc n) = none
make_metaname base (pos n) =
    if leb n int_max && ltb 0 n && not (is_metaname base (pos n))
    then (if ltb 0 (n * base) && is_metaname base (pos (n * base))
        then some (pos (n * base))
        else none)
    else none

unfoldable pub is_lin_metadata : ℤ → Bool
is_lin_metadata name = is_metaname bigprime_lin name

unfoldable pub make_lin_metaname : ℤ → Option ℤ
make_lin_metaname name = make_metaname bigprime_lin name

-- The tombstone objects of a store, by name.
abbrev pub Store : Type 0
Store = List (ℤ × Tombstone)

abbrev pub existing_tombstone : ℤ → Store → Option Tombstone
existing_tombstone n [] = none
existing_tombstone n ((k, t) ∷ st) = if eq_ℤ k n then some t else existing_tombstone n st

abbrev pub exists_trk : ℤ → Store → Bool
exists_trk n [] = false
exists_trk n ((k, t) ∷ st) = if eq_ℤ k n then true else exists_trk n st

abbrev pub new_tomb : ℤ → Tombstone → Store → Store
new_tomb n t st = (n, t) ∷ st

abbrev pub put_tomb : ℤ → Tombstone → Store → Store
put_tomb n t [] = []
put_tomb n t ((k, u) ∷ st) = if eq_ℤ k n then (k, t) ∷ st else (k, u) ∷ put_tomb n t st

-- How a call ends: with a value, by the exception TombNameCollision, or by a failed assert.
pub data Result (A : Type 0) : Type 0 where
  ok : A → Result A
  collision failed_assert : Result A

abbrev pub or_failed : {A B : Type 0} → Option A → (A → Result B) → Result B
or_failed none f = failed_assert
or_failed (some a) f = f a

module _ (ip : ℤ) where
  abbrev pub tombstone : ℤ → Tombstone
  tombstone nonce = record { nonce = nonce; ip_addr = ip; portno = pos 0 }

  -- write_lin_metadata.
  unfoldable pub write_lin_metadata : ℤ → ℤ → Store → Result Store
  write_lin_metadata name nonce st = or_failed (make_lin_metaname name) (λ meta_name. ok (
      if exists_trk meta_name st
      then put_tomb meta_name (tombstone nonce) st
      else new_tomb meta_name (tombstone nonce) st))

  -- The loop of accompanyWrite with its attempts left. The list says for each attempt whether the
  -- store raises a TombNameCollision. After the loop there is one attempt more: its exception
  -- leaves, and where it succeeds the assert that not all attempts failed does not hold.
  unfoldable pub attempt : ℕ → List Bool → ℤ → ℤ → Store → Result Store
  attempt zero (true ∷ raises) name nonce st = collision
  attempt zero (false ∷ raises) name nonce st = failed_assert
  attempt zero [] name nonce st = failed_assert
  attempt (suc n) (true ∷ raises) name nonce st = attempt n raises name nonce st
  attempt (suc n) (false ∷ raises) name nonce st = write_lin_metadata name nonce st
  attempt (suc n) [] name nonce st = write_lin_metadata name nonce st

  unfoldable pub accompany_write : List Bool → ℤ → ℤ → Store → Result Store
  accompany_write raises name nonce st =
      if is_lin_metadata name then ok st else attempt 10 raises name nonce st

-- Tracker::Internals.
pub record Tracker : Type 0 where
  pub encountered_tombstones : Option (List Tombstone)
  pub global_min : Clock
  pub new_objects_max : Clock

abbrev pub new_tracker : Tracker
new_tracker = record {
  encountered_tombstones = some [];
  global_min = zero_clock;
  new_objects_max = zero_clock;
}

-- TrackingContext::Internals.
pub record TrackingContext : Type 0 where
  pub pending_nonces : Option (List Tombstone)
  pub newer_objects : List Clock

abbrev pub new_context : TrackingContext
new_context = record { pending_nonces = some []; newer_objects = [] }

-- updateClock, with the clock that it has read; `none` is a failed assert.
unfoldable pub update_clock : Clock → Tracker → Option Tracker
update_clock newc trk = do
  ordered ← prec trk.global_min newc
  if ordered then some (record trk { global_min = newc }) else none

-- generateContext, which updates the clock.
unfoldable pub generate_context : Clock → Tracker → Option (Tracker × TrackingContext)
generate_context newc trk = do trk' ← update_clock newc trk; some (trk', new_context)

unfoldable pub record_timestamp : Clock → TrackingContext → TrackingContext
record_timestamp s ctx = record ctx { newer_objects = ctx.newer_objects ++ s ∷ [] }

abbrev pub is_clear : Option (List Tombstone) → Bool
is_clear none = true
is_clear (some []) = true
is_clear (some (t ∷ ts)) = false

-- commitContext: the pending tombstones move to the tracker.
unfoldable pub commit_context : Tracker → TrackingContext → Option (Tracker × TrackingContext)
commit_context trk ctx =
    if is_clear trk.encountered_tombstones
    then some (
      record trk {
        encountered_tombstones = ctx.pending_nonces;
        new_objects_max = max trk.new_objects_max (max_range ctx.newer_objects);
      },
      record ctx { pending_nonces = none },
    )
    else none

unfoldable pub clear_encountered_tombstones : Tracker → Tracker
clear_encountered_tombstones trk = record trk { encountered_tombstones = some [] }

abbrev push_pending : Tombstone → TrackingContext → Result TrackingContext
push_pending t ctx =
    or_failed ctx.pending_nonces (λ ts. ok (record ctx { pending_nonces = some (ts ++ t ∷ []) }))

abbrev add_found : Option Tombstone → TrackingContext → Result TrackingContext
add_found none ctx = ok ctx
add_found (some t) ctx = push_pending t ctx

-- checkForTombstones. A context whose pending list is gone cannot take another tombstone.
unfoldable pub check_for_tombstones : ℤ → Store → TrackingContext → Result TrackingContext
check_for_tombstones name st ctx =
    if eq_ℤ name (pos 1)
    then failed_assert
    else if is_lin_metadata name
    then ok ctx
    else or_failed (make_lin_metaname name) (λ ts. add_found (existing_tombstone ts st) ctx)
