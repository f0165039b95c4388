-- ===== src/Expiry.antt =====
-- crates/redis-wasm-core/src/expiry/mod.rs: the table of expiry times, in milliseconds since the
-- epoch. The time is that of the wasm32 build, a number that the host sets (`NOW_MS`).
pub mod Laws
use kvasm.Common.{
  ℕ, ◌+◌, ◌-◌, ◌*◌, ◌/◌, ◌^◌, String, Bool, true, false, Option, none, some, List, [], ◌∷◌, leb,
  ltb, if◌then◌else◌, length,
}
use kvasm.Common.Int.{ℤ, pos, negsuc}
use kvasm.HashMap
use kvasm.HashMap.{HashMap, lookup, insert, contains_key}

abbrev pub u64_limit : ℕ
u64_limit = 2 ^ 64

-- `u64::saturating_add`, `u64::saturating_mul`, `u64::saturating_sub`
abbrev pub saturating_add : ℕ → ℕ → ℕ
saturating_add a b = if ltb (a + b) u64_limit then a + b else u64_limit - 1

abbrev pub saturating_mul : ℕ → ℕ → ℕ
saturating_mul a b = if ltb (a * b) u64_limit then a * b else u64_limit - 1

-- `x as i64` of a `u64`
unfoldable pub as_i64 : ℕ → ℤ
as_i64 n = if ltb n (2 ^ 63) then pos n else negsuc (u64_limit - 1 - n)

abbrev pub ExpiryManager : Type 0
ExpiryManager = HashMap ℕ

unfoldable pub set_expiry_at : String → ℕ → ExpiryManager → ExpiryManager
set_expiry_at key expiry_ms m = insert key expiry_ms m

unfoldable pub set_expiry : String → ℕ → ℕ → ExpiryManager → ExpiryManager
set_expiry key seconds now_ms m = insert key (saturating_add now_ms (saturating_mul seconds 1000)) m

unfoldable pub set_expiry_ms : String → ℕ → ℕ → ExpiryManager → ExpiryManager
set_expiry_ms key milliseconds now_ms m = insert key (saturating_add now_ms milliseconds) m

unfoldable pub get_expiry_ms : String → ExpiryManager → Option ℕ
get_expiry_ms key m = lookup key m

unfoldable pub is_expired : String → ℕ → ExpiryManager → Bool
is_expired key now_ms m = elim (lookup key m) [
  | none ↦ false
  | some expiry_ms ↦ if leb expiry_ms now_ms then true else false
]

unfoldable pub ttl_seconds : String → ℕ → ExpiryManager → Option ℤ
unfolding as_i64
ttl_seconds key now_ms m = elim (lookup key m) [
  | none ↦ none
  | some expiry_ms ↦
      some (if leb expiry_ms now_ms then pos 0 else as_i64 ((expiry_ms - now_ms) / 1000))
]

unfoldable pub ttl_ms : String → ℕ → ExpiryManager → Option ℤ
unfolding as_i64
ttl_ms key now_ms m = elim (lookup key m) [
  | none ↦ none
  | some expiry_ms ↦ some (if leb expiry_ms now_ms then pos 0 else as_i64 (expiry_ms - now_ms))
]

-- The table without the key, and whether it was there.
unfoldable pub remove : String → ExpiryManager → Bool × ExpiryManager
remove key m = (contains_key key m, HashMap.remove key m)

-- The first loop of `cleanup_expired`.
unfoldable pub expired_keys : ℕ → ExpiryManager → List String
expired_keys now_ms [] = []
expired_keys now_ms ((key, expiry_ms) ∷ m) =
    let rest = expired_keys now_ms m in if leb expiry_ms now_ms then key ∷ rest else rest

-- `remove_if(&key, |_, expiry_ms| *expiry_ms <= now_ms)`
unfoldable pub remove_if_expired : String → ℕ → ExpiryManager → ExpiryManager
remove_if_expired key now_ms m = elim (lookup key m) [
  | none ↦ m
  | some expiry_ms ↦ if leb expiry_ms now_ms then HashMap.remove key m else m
]

-- The second loop: the callback sees the table with the entry still in it.
unfoldable pub sweep {ℓ} :
    {S : Type ℓ}
    → (String → ExpiryManager → S → S)
    → ℕ
    → List String
    → ExpiryManager × S
    → ExpiryManager × S
sweep callback now_ms [] (m, s) = (m, s)
sweep callback now_ms (key ∷ ks) (m, s) =
    sweep callback now_ms ks (remove_if_expired key now_ms m, callback key m s)

unfoldable pub cleanup_expired {ℓ} :
    {S : Type ℓ} → (String → ExpiryManager → S → S) → ℕ → ExpiryManager × S → ExpiryManager × S
cleanup_expired callback now_ms (m, s) = sweep callback now_ms (expired_keys now_ms m) (m, s)

unfoldable pub get_all_expiries : ExpiryManager → List (String × ℕ)
get_all_expiries m = m

-- `ExpiryManager::len`
abbrev pub len : ExpiryManager → ℕ
len m = length m
