-- ===== src/Db/Strings.antt =====
-- The string operations of crates/redis-wasm-core/src/db.rs.
mod Number
pub mod RoundTrip
pub use Number.{parse_i64, i64_bytes}
unfoldable pub use Number.{in_i64}
use kvasm.Common.{
  ℕ, String, Bool, true, false, Option, none, some, List, [], ◌∷◌, Result, ok, err, map_err, pure,
  lift, ◌>>=◌, ◌>>◌, if◌then◌else◌,
}
use kvasm.Common.Int.{ℤ, pos, negsuc, ◌+ℤ◌}
use kvasm.Float.{Float64}
use kvasm.HashMap.{lookup}
use kvasm.Value.{Value, TypeError, new_empty_string}
use kvasm.Value.Strings
use kvasm.Expiry.{get_expiry_ms}
use kvasm.Wal.{WalEntry, WalWriterTrait}
use kvasm.Db.{
  Db, DbError, Command, typed, wrong_type, not_an_integer, not_a_float, purge_expired, read_key_or,
  upsert,
}
use kvasm.Db.Persist.{write_wal}

module _ {F : Type 0} where
  -- `entry.as_bytes().unwrap()`, of an entry that an operation on strings has just accepted
  unfoldable pub bytes_of : Option (Value F) → List ℕ
  bytes_of (some (Value.string s)) = s
  bytes_of _ = []

  -- The part of `incr_by` under the map guard.
  unfoldable pub incr_value : ℤ → Value F → Result DbError ℤ × Value F
  unfolding parse_i64 ◌+ℤ◌ in_i64 i64_bytes
  incr_value delta (Value.string s) =
      let current : Option ℤ = elim s [ [] ↦ some (pos 0) | b ∷ bs ↦ parse_i64 (b ∷ bs) ] in
      elim current [
        | none ↦ (err not_an_integer, Value.string s)
        | some n ↦
            let sum = n +ℤ delta in
            if in_i64 sum
            then (ok sum, Value.string (i64_bytes sum))
            else (err not_an_integer, Value.string s)
      ]
  incr_value delta v = (err (wrong_type TypeError.wrong_type), v)

  -- The part of `incr_by_float` under the map guard.
  unfoldable pub incr_float_value : Float64 F → F → Value F → Result DbError F × Value F
  incr_float_value f delta (Value.string s) =
      let current : Option F = elim s [
        | [] ↦ some f.zero
        | b ∷ bs ↦ elim (f.parse (b ∷ bs)) [
          | none ↦ none
          | some x ↦ if f.is_finite x then some x else none
        ]
      ] in
      elim current [
        | none ↦ (err not_a_float, Value.string s)
        | some x ↦
            let sum = f.plus x delta in
            if f.is_finite sum
            then (ok sum, Value.string (f.to_bytes sum))
            else (err not_a_float, Value.string s)
      ]
  incr_float_value f delta v = (err (wrong_type TypeError.wrong_type), v)

module _ {F W : Type 0} where
  unfoldable pub strlen : String → Command F W ℕ
  unfolding read_key_or
  strlen key = read_key_or key 0 Strings.str_len

  unfoldable pub getrange : String → ℤ → ℤ → Command F W (List ℕ)
  unfolding read_key_or
  getrange key start end = read_key_or key [] (Strings.get_range start end)

module _ {F W : Type 0} (writer : WalWriterTrait W F) where
  -- The entry that `append`, `setrange` and the increments log: the whole new string, with the
  -- expiry that the key has.
  unfoldable pub log_string : String → Command F W Unit
  unfolding bytes_of get_expiry_ms
  log_string key db =
      write_wal writer
        (WalEntry.set key (bytes_of (lookup key db.data_map)) (get_expiry_ms key db.expiry)) db

  -- What the four commands below share: drop an expired key, work on the entry, log the string.
  unfoldable pub modify_string :
      {A : Type 0} → String → (Value F → Result DbError A × Value F) → Command F W A
  unfolding purge_expired upsert log_string
  modify_string key op = do
    purge_expired key
    result ← upsert key new_empty_string op
    log_string key
    pure result

  unfoldable pub append : String → List ℕ → Command F W ℕ
  unfolding modify_string
  append key value = modify_string key (typed (Strings.append value))

  unfoldable pub setrange : String → ℕ → List ℕ → Command F W ℕ
  unfolding modify_string purge_expired strlen
  setrange key offset [] = purge_expired key >> strlen key
  setrange key offset (b ∷ value) = modify_string key (typed (Strings.set_range offset (b ∷ value)))

  unfoldable pub incr_by : String → ℤ → Command F W ℤ
  unfolding modify_string incr_value
  incr_by key delta = modify_string key (incr_value delta)

  unfoldable pub incr : String → Command F W ℤ
  unfolding incr_by
  incr key = incr_by key (pos 1)

  unfoldable pub decr : String → Command F W ℤ
  unfolding incr_by
  decr key = incr_by key (negsuc 0)

  unfoldable pub incr_by_float : Float64 F → String → F → Command F W F
  unfolding modify_string incr_float_value
  incr_by_float f key delta = modify_string key (incr_float_value f delta)
