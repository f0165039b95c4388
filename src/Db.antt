-- ===== src/Db.antt =====
-- crates/redis-wasm-core/src/db.rs: the state of `RedisWasmDb` and the parts of the commands that
-- the commands share. The commands are in the child modules.
pub mod Persist
pub mod Keys
pub mod Strings
pub mod Lists
pub mod Sets
pub mod Zsets
pub mod Hashes
pub mod Expire
pub mod Frame
pub mod Valid
pub mod Ttl
pub mod Failures
pub mod Glob
use kvasm.Common.{
  ℕ, suc, String, Bool, true, false, Option, none, some, List, [], ◌∷◌, Result, ok, err, map_err,
  Exec, if◌then◌else◌,
}
use kvasm.HashMap
use kvasm.HashMap.{HashMap, lookup, insert, contains_key}
use kvasm.Value.{Value, TypeError, Read, Write}
use kvasm.Expiry.{ExpiryManager, is_expired}
use kvasm.Wal.{WalError}

pub data DbError : Type 0 where
  key_not_found not_an_integer not_a_float : DbError
  wrong_type : TypeError → DbError
  wal_error : WalError → DbError
  expiry_error pubsub_error invalid_pattern : String → DbError

abbrev pub default_compaction_threshold : ℕ
default_compaction_threshold = 1024

-- `now` is the clock that `current_time_ms` reads, and `W` the state of the WAL writer.
pub record Db (F W : Type 0) : Type 0 where
  pub data_map : HashMap (Value F)
  pub expiry : ExpiryManager
  pub wal : Option W
  pub wal_len : ℕ
  pub compaction_threshold : ℕ
  pub last_compact_len : ℕ
  pub compacting : Bool
  pub now : ℕ

-- A command may change the database, and then still fail.
abbrev pub Command : Type 0 → Type 0 → Type 0 → Type 0
Command F W A = Exec (Db F W) DbError A

-- An operation on a value, with its error as one of the database.
abbrev pub typed : {F A : Type 0} → Write F A → Value F → Result DbError A × Value F
typed op v = (map_err wrong_type (op v).0, (op v).1)

module _ {F : Type 0} where
  -- `or_insert_with` of an entry
  abbrev pub or_insert_with : Value F → Option (Value F) → Value F
  or_insert_with fresh none = fresh
  or_insert_with fresh (some v) = v

module _ {F W : Type 0} where
  -- `RedisWasmDb::build`, at a time
  unfoldable pub build : Option W → ℕ → Db F W
  build wal now = record {
    data_map = [];
    expiry = [];
    wal = wal;
    wal_len = 0;
    compaction_threshold = default_compaction_threshold;
    last_compact_len = 0;
    compacting = false;
    now = now;
  }

  -- `self.expiry.is_expired(key)`
  unfoldable pub expired : String → Db F W → Bool
  expired key db = is_expired key db.now db.expiry

  -- `del`, with its counter
  unfoldable pub del_loop : List String → ℕ → Db F W → ℕ × Db F W
  del_loop [] count db = (count, db)
  del_loop (key ∷ ks) count db =
      let found = contains_key key db.data_map in
      del_loop ks (if found then suc count else count) (
        if found
        then record db {
          data_map = HashMap.remove key db.data_map;
          expiry = HashMap.remove key db.expiry;
        }
        else db)

  unfoldable pub del : List String → Command F W ℕ
  unfolding del_loop
  del ks db = let (count, db') = del_loop ks 0 db in (ok count, db')

  -- `if self.expiry.is_expired(key) { self.del(&[key])?; }`
  unfoldable pub purge_expired : String → Command F W Unit
  unfolding del expired
  purge_expired key db = if expired key db then (ok tt, (del (key ∷ []) db).1) else (ok tt, db)

  -- The shape of the commands that read a value: on an expired key they delete it and return a
  -- default, on a missing one they fail.
  unfoldable pub read_key :
      {A : Type 0}
      → String
      → A
      → (Value F → Result TypeError A)
      → Db F W
      → Result DbError A × Db F W
  unfolding del expired
  read_key key default op db =
      if expired key db
      then (ok default, (del (key ∷ []) db).1)
      else elim (lookup key db.data_map) [
        | none ↦ (err key_not_found, db)
        | some v ↦ (map_err wrong_type (op v), db)
      ]

  -- The same where a missing key also reads as the default.
  unfoldable pub read_key_or :
      {A : Type 0}
      → String
      → A
      → (Value F → Result TypeError A)
      → Db F W
      → Result DbError A × Db F W
  unfolding del expired
  read_key_or key default op db =
      if expired key db
      then (ok default, (del (key ∷ []) db).1)
      else elim (lookup key db.data_map) [
        | none ↦ (ok default, db)
        | some v ↦ (map_err wrong_type (op v), db)
      ]

  -- `self.data.entry(key).or_insert_with(fresh)`, and an operation on the entry: a key that was
  -- missing is there afterwards, also where the operation fails.
  unfoldable pub upsert :
      {A : Type 0} → String → Value F → (Value F → Result DbError A × Value F) → Command F W A
  upsert key fresh op db =
      let v = or_insert_with fresh (lookup key db.data_map) in
      let (r, v') = op v in (r, record db { data_map = insert key v' db.data_map })

  -- `self.data.get_mut(key).ok_or(DbError::KeyNotFound)?`, and an operation on the entry
  unfoldable pub update :
      {A : Type 0} → String → (Value F → Result DbError A × Value F) → Command F W A
  update key op db = elim (lookup key db.data_map) [
    | none ↦ (err key_not_found, db)
    | some v ↦ let (r, v') = op v in (r, record db { data_map = insert key v' db.data_map })
  ]

  -- What the commands on an existing value share: an expired key is deleted, and ends the command
  -- with `early`.
  unfoldable pub on_live : {A : Type 0} → String → Result DbError A → Command F W A → Command F W A
  unfolding expired del
  on_live key early body db = if expired key db then (early, (del (key ∷ []) db).1) else body db

  -- `remove_key`
  unfoldable pub remove_key : String → Db F W → Db F W
  remove_key key db = record db { data_map = HashMap.remove key db.data_map }

  -- `remove_key_if_expired`
  unfoldable pub remove_key_if_expired : String → Db F W → Db F W
  unfolding expired
  remove_key_if_expired key db =
      if expired key db then record db { data_map = HashMap.remove key db.data_map } else db
