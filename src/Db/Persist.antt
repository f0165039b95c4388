-- ===== src/Db/Persist.antt =====
-- The part of crates/redis-wasm-core/src/db.rs that writes the log: `write_wal`, compaction and the
-- snapshot.
use kvasm.Common.{
  ℕ, ◌+◌, ◌-◌, ◌%◌, String, Bool, false, Option, none, some, List, [], ◌∷◌, ◌++◌, ◌&&◌, ok, err,
  map_err, leb, eqb, if◌then◌else◌, length,
}
use kvasm.HashMap.{HashMap}
use kvasm.SortedSet
use kvasm.Value.{Value, is_empty}
use kvasm.Expiry.{ExpiryManager, is_expired, get_expiry_ms, u64_limit, saturating_mul}
use kvasm.Wal.{WalEntry, WalWriterTrait}
use kvasm.Db.{Db, Command, wal_error}

module _ {F : Type 0} where
  -- `push_expire`
  unfoldable pub expire_entry : String → Option ℕ → List (WalEntry F)
  expire_entry key none = []
  expire_entry key (some expiry_ms) = WalEntry.expire key expiry_ms ∷ []

  -- `for (field, value) in hash { entries.push(WalEntry::HSet { .. }) }`
  unfoldable pub field_entries : String → HashMap String → List (WalEntry F)
  field_entries key [] = []
  field_entries key ((field, value) ∷ h) = WalEntry.h_set key field value ∷ field_entries key h

  -- What the loop pushes for one value that it does not skip.
  unfoldable pub value_entries : String → Option ℕ → Value F → List (WalEntry F)
  unfolding expire_entry field_entries
  value_entries key expiry (Value.string bytes) = WalEntry.set key bytes expiry ∷ []
  value_entries key expiry (Value.list l) = WalEntry.r_push key l ∷ expire_entry key expiry
  value_entries key expiry (Value.set s) = WalEntry.s_add key s ∷ expire_entry key expiry
  value_entries key expiry (Value.sorted_set z) =
      WalEntry.z_add key (SortedSet.iter z) ∷ expire_entry key expiry
  value_entries key expiry (Value.hash h) = field_entries key h ++ expire_entry key expiry

  -- `value_type() != ValueType::String && is_empty()`
  unfoldable pub is_empty_collection : Value F → Bool
  unfolding is_empty
  is_empty_collection (Value.string _) = false
  is_empty_collection v = is_empty v

  -- The loop of `snapshot_entries`.
  unfoldable pub snapshot_loop : ℕ → ExpiryManager → HashMap (Value F) → List (WalEntry F)
  snapshot_loop now expiry [] = []
  snapshot_loop now expiry ((key, v) ∷ data') =
      let rest = snapshot_loop now expiry data' in
      if is_expired key now expiry
      then rest
      else if is_empty_collection v
      then rest
      else value_entries key (get_expiry_ms key expiry) v ++ rest

  unfoldable pub snapshot_entries : {W : Type 0} → Db F W → List (WalEntry F)
  snapshot_entries db = snapshot_loop db.now db.expiry db.data_map

module _ {F W : Type 0} (writer : WalWriterTrait W F) where
  -- `compact`
  unfoldable pub compact : Command F W Unit
  compact db = elim db.wal [
    | none ↦ (ok tt, db)
    | some w ↦
        if db.compacting
        then (ok tt, db)
        else let entries = snapshot_entries db in
          let snapshot_len = length entries in
          let prev_len = db.wal_len in
          let (result, w') = writer.rewrite entries w in
          elim result [
            | ok _ ↦ (
              ok tt,
              record db {
                wal = some w';
                wal_len = snapshot_len;
                last_compact_len = snapshot_len;
                compacting = false;
              },
            )
            | err e ↦ (
              err (wal_error e),
              record db {
                wal = some w';
                wal_len = (snapshot_len + (prev_len - snapshot_len)) % u64_limit;
                compacting = false;
              },
            )
          ]
  ]

  unfoldable pub compact_if_needed : Command F W Unit
  compact_if_needed db =
      if eqb db.compaction_threshold 0
      then (ok tt, db)
      else if leb db.compaction_threshold db.wal_len
          && leb (saturating_mul db.last_compact_len 2) db.wal_len
      then compact db
      else (ok tt, db)

  -- `write_wal`: a failed compaction does not fail the write.
  unfoldable pub write_wal : WalEntry F → Command F W Unit
  write_wal entry db = elim db.wal [
    | none ↦ (ok tt, db)
    | some w ↦
        let (r, w') = writer.append entry w in
        elim r [
          | err e ↦ (err (wal_error e), record db { wal = some w' })
          | ok _ ↦ (
            ok tt,
            (compact_if_needed
                (record db { wal = some w'; wal_len = (db.wal_len + 1) % u64_limit })).1,
          )
        ]
  ]

  unfoldable pub flush_wal : Command F W Unit
  flush_wal db = elim db.wal [
    | none ↦ (ok tt, db)
    | some w ↦ let (r, w') = writer.flush w in (map_err wal_error r, record db { wal = some w' })
  ]

  unfoldable pub wal_size : Command F W ℕ
  wal_size db = elim db.wal [
    | none ↦ (ok 0, db)
    | some w ↦ let (r, w') = writer.size w in (map_err wal_error r, record db { wal = some w' })
  ]

module _ {F W : Type 0} where
  unfoldable pub set_wal_len : ℕ → Db F W → Db F W
  set_wal_len len db = record db { wal_len = len }

  unfoldable pub set_compaction_threshold : ℕ → Db F W → Db F W
  set_compaction_threshold threshold db = record db { compaction_threshold = threshold }
