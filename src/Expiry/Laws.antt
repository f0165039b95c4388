-- ===== src/Expiry/Laws.antt =====
-- What the expiry table answers, and what a sweep removes.
use kvasm.Common.{
  ℕ, ◌+◌, ◌<◌, String, ◌≡◌, refl, false, Option, none, some, List, [], ◌∷◌, ◌==◌, ◌&&◌, eq_iff, leb,
  if◌then◌else◌, arith, Bool-cases, inl, inr,
}
use kvasm.Common.Int.{ℤ, pos}
use kvasm.HashMap
use kvasm.HashMap.{HashMap, lookup, contains}
use kvasm.HashMap.Laws.{
  lookup-insert_self, lookup-remove, IsDistinct, remove-IsDistinct, AllValues, remove-AllValues,
}
use kvasm.Expiry.{
  ExpiryManager, u64_limit, set_expiry, is_expired, ttl_seconds, expired_keys, remove_if_expired,
  sweep, cleanup_expired, saturating_add, saturating_mul,
}

-- An expiry time set to a number of seconds that is not 0 from now, at a time more than one below
-- 2^64, does not read as expired at the time at which it is set, however large the number.
set_expiry-is_expired :
    (key : String) (seconds now : ℕ) (m : ExpiryManager)
    → 0 < seconds
    → now + 1 < u64_limit
    → is_expired key now (set_expiry key seconds now m) ≡ false
unfolding set_expiry is_expired
set_expiry-is_expired key seconds now m h k =
    rw (lookup-insert_self key (saturating_add now (saturating_mul seconds 1000)) m, is_expired)
      (ground arith)

-- The number of seconds that TTL reads is never negative.
pub ttl_seconds_nonneg :
    (key : String) (now : ℕ) (m : ExpiryManager) {t : ℤ} (ms : ℕ)
    → HashMap.lookup key m ≡ some ms
    → ms < u64_limit
    → ttl_seconds key now m ≡ some t
    → (n : ℕ) × (t ≡ pos n)
unfolding ttl_seconds
ttl_seconds_nonneg key now m {t} ms h k e = ground arith

-- What is left of an entry of the table at a time.
abbrev pub live : ℕ → Option ℕ → Option ℕ
live now none = none
live now (some ms) = if leb ms now then none else some ms

lookup-remove_if_expired :
    (key j : String) (now : ℕ) (m : ExpiryManager)
    → lookup j (remove_if_expired key now m)
      ≡ (if key == j then live now (lookup j m) else lookup j m)
unfolding remove_if_expired
lookup-remove_if_expired key j now m = ground (arith, eq_iff key j, lookup-remove key j m)

lookup-sweep {ℓ} :
    {S : Type ℓ} (callback : String → ExpiryManager → S → S) (now : ℕ) (ks : List String)
    (m : ExpiryManager) (s : S) (j : String)
    → lookup j (sweep callback now ks (m, s)).0
      ≡ (if contains j ks then live now (lookup j m) else lookup j m)
unfolding sweep contains
lookup-sweep callback now [] m s j = refl
lookup-sweep callback now (key ∷ ks) m s j = ground (
  arith,
  eq_iff key j,
  lookup-sweep callback now ks (remove_if_expired key now m) (callback key m s) j,
  lookup-remove_if_expired key j now m,
)

contains-expired_keys :
    (now : ℕ) (m : ExpiryManager) (j : String)
    → IsDistinct m
    → contains j (expired_keys now m) ≡ is_expired j now m
unfolding expired_keys contains is_expired lookup
contains-expired_keys now [] j h = refl
contains-expired_keys now ((key, ms) ∷ m) j h =
    ground (arith, eq_iff key j, contains-expired_keys now m j)

-- A sweep keeps exactly the entries that have not expired.
pub lookup-cleanup_expired {ℓ} :
    {S : Type ℓ} (callback : String → ExpiryManager → S → S) (now : ℕ) (m : ExpiryManager) (s : S)
    (j : String)
    → IsDistinct m
    → lookup j (cleanup_expired callback now (m, s)).0 ≡ live now (lookup j m)
unfolding cleanup_expired is_expired
lookup-cleanup_expired callback now m s j h =
    ground
      (arith, lookup-sweep callback now (expired_keys now m) m s j, contains-expired_keys now m j h)

module _ {V : Type 0} where
  -- The callback of the cleaners: drop the data of a key that still reads as expired.
  abbrev pub drop_expired : ℕ → String → ExpiryManager → HashMap V → HashMap V
  drop_expired now key m d = if is_expired key now m then HashMap.remove key d else d

  lookup-sweep_data :
      (now : ℕ) (ks : List String) (m : ExpiryManager) (d : HashMap V) (j : String)
      → lookup j (sweep (drop_expired now) now ks (m, d)).1
        ≡ (if contains j ks && is_expired j now m then none else lookup j d)
  unfolding sweep contains is_expired
  lookup-sweep_data now [] m d j = refl
  lookup-sweep_data now (key ∷ ks) m d j =
      let m' = remove_if_expired key now m in
      let d' = drop_expired now key m d in
      ground (
        arith,
        eq_iff key j,
        lookup-sweep_data now ks m' d' j,
        lookup-remove_if_expired key j now m,
        lookup-remove key j d,
      )

  -- The cleaners drop the data of exactly the keys that have expired.
  pub lookup-cleanup_data :
      (now : ℕ) (m : ExpiryManager) (d : HashMap V) (j : String)
      → IsDistinct m
      → lookup j (cleanup_expired (drop_expired now) now (m, d)).1
        ≡ (if is_expired j now m then none else lookup j d)
  unfolding cleanup_expired
  lookup-cleanup_data now m d j h =
      ground
        (arith, lookup-sweep_data now (expired_keys now m) m d j, contains-expired_keys now m j h)

remove_if_expired-IsDistinct :
    (key : String) (now : ℕ) (m : ExpiryManager)
    → IsDistinct m
    → IsDistinct (remove_if_expired key now m)
unfolding remove_if_expired
remove_if_expired-IsDistinct key now m h = ground (arith, remove-IsDistinct key m h)

sweep-IsDistinct {ℓ} :
    {S : Type ℓ} (callback : String → ExpiryManager → S → S) (now : ℕ) (ks : List String)
    (m : ExpiryManager) (s : S)
    → IsDistinct m
    → IsDistinct (sweep callback now ks (m, s)).0
unfolding sweep
sweep-IsDistinct callback now [] m s h = h
sweep-IsDistinct callback now (key ∷ ks) m s h =
    sweep-IsDistinct callback now ks (remove_if_expired key now m) (callback key m s)
      (remove_if_expired-IsDistinct key now m h)

pub cleanup_expired-IsDistinct {ℓ} :
    {S : Type ℓ} (callback : String → ExpiryManager → S → S) (now : ℕ) (m : ExpiryManager) (s : S)
    → IsDistinct m
    → IsDistinct (cleanup_expired callback now (m, s)).0
unfolding cleanup_expired
cleanup_expired-IsDistinct callback now m s h =
    sweep-IsDistinct callback now (expired_keys now m) m s h

module _ {V : Type 0} where
  drop_expired-IsDistinct :
      (now : ℕ) (key : String) (m : ExpiryManager) (d : HashMap V)
      → IsDistinct d
      → IsDistinct (drop_expired now key m d)
  drop_expired-IsDistinct now key m d h = elim (Bool-cases (is_expired key now m)) [
    | inl e ↦ rw e (remove-IsDistinct key d h)
    | inr e ↦ rw e h
  ]

  sweep_data-IsDistinct :
      (now : ℕ) (ks : List String) (m : ExpiryManager) (d : HashMap V)
      → IsDistinct d
      → IsDistinct (sweep (drop_expired now) now ks (m, d)).1
  unfolding sweep
  sweep_data-IsDistinct now [] m d h = h
  sweep_data-IsDistinct now (key ∷ ks) m d h =
      sweep_data-IsDistinct now ks (remove_if_expired key now m) (drop_expired now key m d)
        (drop_expired-IsDistinct now key m d h)

  pub cleanup_data-IsDistinct :
      (now : ℕ) (m : ExpiryManager) (d : HashMap V)
      → IsDistinct d
      → IsDistinct (cleanup_expired (drop_expired now) now (m, d)).1
  unfolding cleanup_expired
  cleanup_data-IsDistinct now m d h = sweep_data-IsDistinct now (expired_keys now m) m d h

-- What holds of every value holds of those that a sweep leaves.
module _ {V : Type 0} (P : V → Type 0) where
  drop_expired-AllValues :
      (now : ℕ) (key : String) (m : ExpiryManager) (d : HashMap V)
      → AllValues P d
      → AllValues P (drop_expired now key m d)
  drop_expired-AllValues now key m d h = elim (Bool-cases (is_expired key now m)) [
    | inl e ↦ rw e (remove-AllValues P key d h)
    | inr e ↦ rw e h
  ]

  sweep_data-AllValues :
      (now : ℕ) (ks : List String) (m : ExpiryManager) (d : HashMap V)
      → AllValues P d
      → AllValues P (sweep (drop_expired now) now ks (m, d)).1
  unfolding sweep
  sweep_data-AllValues now [] m d h = h
  sweep_data-AllValues now (key ∷ ks) m d h =
      sweep_data-AllValues now ks (remove_if_expired key now m) (drop_expired now key m d)
        (drop_expired-AllValues now key m d h)

  pub cleanup_data-AllValues :
      (now : ℕ) (m : ExpiryManager) (d : HashMap V)
      → AllValues P d
      → AllValues P (cleanup_expired (drop_expired now) now (m, d)).1
  unfolding cleanup_expired
  cleanup_data-AllValues now m d h = sweep_data-AllValues now (expired_keys now m) m d h
