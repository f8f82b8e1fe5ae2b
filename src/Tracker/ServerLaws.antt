-- ===== src/Tracker/ServerLaws.antt =====
-- A read finds the tombstone of the write before it (transactions/tracker/Tracker.cpp).
use mix_t.Base.{
  ℕ, ℤ, pos, ◌*◌, ◌<◌, ◌≤◌, ◌^◌, Bool, true, false, ◌≡◌, ◌≢◌, refl, some, List, [], ◌∷◌, ◌++◌,
  arith, Bool-cases, inl, inr, zero, suc, if◌then◌else◌,
}
use mix_t.Tracker.Clock.{eq_ℤ}
use mix_t.Tracker.Client.{Tombstone}
use mix_t.Tracker.Server.{
  bigprime_lin, int_max, is_metaname, make_metaname, is_lin_metadata, make_lin_metaname, Store,
  existing_tombstone, exists_trk, new_tomb, put_tomb, ok, tombstone, write_lin_metadata, attempt,
  accompany_write, TrackingContext, check_for_tombstones,
}

-- A name of an object, which no name of metadata is: positive and no more than the largest int.
abbrev pub IsObjectName : ℕ → Type 0
IsObjectName n = (0 < n) × (n ≤ int_max)

object_name-is_lin_metadata : (n : ℕ) → IsObjectName n → is_lin_metadata (pos n) ≡ false
unfolding is_lin_metadata is_metaname
object_name-is_lin_metadata n h = ground arith

-- For the name of an object no assert of make_lin_metaname fails: the name that it makes is one of
-- metadata, and fits a signed 64-bit number.
pub make_lin_metaname_lem :
    (n : ℕ)
    → IsObjectName n
    → (make_lin_metaname (pos n) ≡ some (pos (n * bigprime_lin)))
      × (is_lin_metadata (pos (n * bigprime_lin)) ≡ true)
      × (n * bigprime_lin < 2 ^ 63)
unfolding make_lin_metaname make_metaname is_lin_metadata is_metaname
make_lin_metaname_lem n h = (ground arith, ground arith, omega arith)

pub eq_ℤ_refl : (a : ℤ) → eq_ℤ a a ≡ true
eq_ℤ_refl a = ground arith

pub eq_ℤ_eq : (a b : ℤ) → eq_ℤ a b ≡ true → a ≡ b
eq_ℤ_eq a b h = ground arith

module _ (n k : ℤ) (t : Tombstone) where
  existing-put_tomb :
      (st : Store)
      → exists_trk n st ≡ true
      → existing_tombstone k (put_tomb n t st)
        ≡ (if eq_ℤ n k then some t else existing_tombstone k st)
  existing-put_tomb [] h = cc
  existing-put_tomb ((j, u) ∷ st) h =
      ground (arith, existing-put_tomb st, eq_ℤ_eq j n, eq_ℤ_eq n k, eq_ℤ_eq j k)

  -- The branch of write_lin_metadata that stores the tombstone.
  existing-stored :
      (st : Store)
      → existing_tombstone k (if exists_trk n st then put_tomb n t st else new_tomb n t st)
        ≡ (if eq_ℤ n k then some t else existing_tombstone k st)
  existing-stored st = elim (Bool-cases (exists_trk n st)) [
    | inl e ↦ rw e (existing-put_tomb st e)
    | inr e ↦ rw e refl
  ]

-- Some of the first attempts meets no collision.
abbrev pub gives_up : ℕ → List Bool → Bool
gives_up zero raises = true
gives_up (suc n) [] = false
gives_up (suc n) (false ∷ raises) = false
gives_up (suc n) (true ∷ raises) = gives_up n raises

attempt_lem :
    (ip : ℤ) (n : ℕ) (raises : List Bool) (name nonce : ℤ) (st : Store)
    → gives_up n raises ≡ false
    → attempt ip n raises name nonce st ≡ write_lin_metadata ip name nonce st
unfolding attempt
attempt_lem ip zero raises name nonce st h = cc
attempt_lem ip (suc n) [] name nonce st h = refl
attempt_lem ip (suc n) (false ∷ raises) name nonce st h = refl
attempt_lem ip (suc n) (true ∷ raises) name nonce st h = attempt_lem ip n raises name nonce st h

write_lin_metadata_lem :
    (ip nonce : ℤ) (n : ℕ) (st : Store)
    → IsObjectName n
    → (st' : Store) × (write_lin_metadata ip (pos n) nonce st ≡ ok st')
      × ((k : ℤ)
          → existing_tombstone k st' ≡ (
              if eq_ℤ (pos (n * bigprime_lin)) k
              then some (tombstone ip nonce)
              else existing_tombstone k st))
unfolding write_lin_metadata
write_lin_metadata_lem ip nonce n st obj = (
  _,
  rw (make_lin_metaname_lem n obj).0 refl,
  λ k. existing-stored (pos (n * bigprime_lin)) k (tombstone ip nonce) st,
)

not_one : (n : ℕ) → n ≢ 1 → eq_ℤ (pos n) (pos 1) ≡ false
not_one n h = ground arith

-- The write of an object, of which one of the first ten attempts meets no collision, leaves a store
-- with the write's tombstone at the object's name of metadata, and as it was at every other name. A
-- read of the object after it adds just that tombstone to the pending ones of its transaction.
pub check-accompany_write :
    (ip nonce : ℤ) (n : ℕ) (raises : List Bool) (st : Store) (ctx : TrackingContext)
    (pending : List Tombstone)
    → IsObjectName n
    → n ≢ 1
    → gives_up 10 raises ≡ false
    → ctx.pending_nonces ≡ some pending
    → (st' : Store) × (accompany_write ip raises (pos n) nonce st ≡ ok st')
      × (check_for_tombstones (pos n) st' ctx
          ≡ ok (record ctx { pending_nonces = some (pending ++ tombstone ip nonce ∷ []) }))
      × ((k : ℤ)
          → existing_tombstone k st' ≡ (
              if eq_ℤ (pos (n * bigprime_lin)) k
              then some (tombstone ip nonce)
              else existing_tombstone k st))
unfolding accompany_write check_for_tombstones
check-accompany_write ip nonce n raises st ctx pending obj ne h p =
    let (st', w, found) = write_lin_metadata_lem ip nonce n st obj in
    (
      st',
      rw (object_name-is_lin_metadata n obj, attempt_lem ip 10 raises (pos n) nonce st h, w) refl,
      rw (object_name-is_lin_metadata n obj, not_one n ne, (make_lin_metaname_lem n obj).0)
          (rw (found (pos (n * bigprime_lin)), eq_ℤ_refl (pos (n * bigprime_lin)), p) refl),
      found,
    )
