-- ===== src/Replay.antt =====
-- crates/redis-wasm-core/src/wal/replayer.rs: entries of the log applied to the tables.
pub mod Agree
pub mod Durable
pub mod Reader
pub mod Snapshot
use kvasm.Common.{
  ℕ, suc, String, Bool, true, false, Option, none, some, List, [], ◌∷◌, Result, ok, err, Exec, pure,
  ◌>>=◌, ◌>>◌, if◌then◌else◌,
}
use kvasm.HashMap
use kvasm.HashMap.{HashMap, lookup, insert}
use kvasm.Float.{Float64}
use kvasm.Value.{Value, Write, string, new_list, new_set, new_sorted_set, new_hash}
use kvasm.Value.Lists
use kvasm.Value.Sets
use kvasm.Value.Zsets
use kvasm.Value.Hashes
use kvasm.Expiry.{ExpiryManager, set_expiry_at}
use kvasm.Wal.{WalEntry, WalError, io}
use kvasm.Db.{or_insert_with}

-- `data_for_replay()` and `expiry_for_replay()`
pub record Tables (F : Type 0) : Type 0 where
  pub data_map : HashMap (Value F)
  pub expiry : ExpiryManager

abbrev pub empty_tables : {F : Type 0} → Tables F
empty_tables = record { data_map = []; expiry = [] }

abbrev pub Apply : Type 0 → Type 0
Apply F = Tables F → Result WalError (Unit {0}) × Tables F

-- `.map_err(|e| WalError::Io(..))`, and the count dropped
abbrev pub as_io {κ} : {E : Type κ} {A : Type 0} → Result E A → Result WalError (Unit {0})
as_io (ok a) = ok tt
as_io (err e) = err io

module _ {F : Type 0} where
  -- `entry(key).or_insert_with(fresh)`, and the operation
  unfoldable pub on_entry : {A : Type 0} → String → Value F → Write F A → Apply F
  on_entry key fresh op t =
      let (r, v') = op (or_insert_with fresh (lookup key t.data_map)) in
      (as_io r, record t { data_map = insert key v' t.data_map })

  -- `if let Some(mut entry) = data.get_mut(key) { op }`
  unfoldable pub on_existing : {A : Type 0} → String → Write F A → Apply F
  on_existing key op t = elim (lookup key t.data_map) [
    | none ↦ (ok tt, t)
    | some v ↦ let (r, v') = op v in (as_io r, record t { data_map = insert key v' t.data_map })
  ]

  unfoldable pub drop_keys : List String → Tables F → Tables F
  drop_keys [] t = t
  drop_keys (key ∷ ks) t =
      drop_keys ks
        (record { data_map = HashMap.remove key t.data_map; expiry = HashMap.remove key t.expiry })

  unfoldable pub put_string : String → List ℕ → Option ℕ → Tables F → Tables F
  unfolding set_expiry_at
  put_string key value expiry t =
      let cleared = HashMap.remove key t.expiry in
      record {
        data_map = insert key (string value) t.data_map;
        expiry = elim expiry [ none ↦ cleared | some ms ↦ set_expiry_at key ms cleared ];
      }

module _ {F : Type 0} (f : Float64 F) where
  -- `apply_entry`
  unfoldable pub apply_entry : WalEntry F → Apply F
  unfolding on_entry on_existing drop_keys put_string set_expiry_at
  apply_entry (WalEntry.set key value expiry) t = (ok tt, put_string key value expiry t)
  apply_entry (WalEntry.del ks) t = (ok tt, drop_keys ks t)
  apply_entry (WalEntry.expire key ms) t =
      (ok tt, record t { expiry = set_expiry_at key ms t.expiry })
  apply_entry (WalEntry.l_push key values) t = on_entry key new_list (Lists.lpush values) t
  apply_entry (WalEntry.r_push key values) t = on_entry key new_list (Lists.rpush values) t
  apply_entry (WalEntry.l_pop key count) t = on_existing key (Lists.lpop count) t
  apply_entry (WalEntry.r_pop key count) t = on_existing key (Lists.rpop count) t
  apply_entry (WalEntry.l_set key index value) t = on_existing key (Lists.lset index value) t
  apply_entry (WalEntry.l_rem key count value) t = on_existing key (Lists.lrem count value) t
  apply_entry (WalEntry.l_trim key start stop) t = on_existing key (Lists.ltrim start stop) t
  apply_entry (WalEntry.s_add key members) t = on_entry key new_set (Sets.sadd members) t
  apply_entry (WalEntry.s_rem key members) t = on_existing key (Sets.srem members) t
  apply_entry (WalEntry.z_add key members) t = on_entry key new_sorted_set (Zsets.zadd f members) t
  apply_entry (WalEntry.z_rem key members) t = on_existing key (Zsets.zrem f members) t
  apply_entry (WalEntry.h_set key field value) t = on_entry key new_hash (Hashes.hset field value) t
  apply_entry (WalEntry.h_del key fields) t = on_existing key (Hashes.hdel fields) t
  apply_entry (WalEntry.persist key) t = (ok tt, record t { expiry = HashMap.remove key t.expiry })

  -- `replay` over a `VecWalReader`: the count of the entries, or the first error.
  unfoldable pub replay : List (WalEntry F) → ℕ → Tables F → Result WalError ℕ × Tables F
  unfolding apply_entry
  replay [] count t = (ok count, t)
  replay (entry ∷ entries) count t =
      let (r, t') = apply_entry entry t in
      elim r [ err e ↦ (err e, t') | ok _ ↦ replay entries (suc count) t' ]
