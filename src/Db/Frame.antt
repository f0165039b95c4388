-- ===== src/Db/Frame.antt =====
-- The tables of `RedisWasmDb` of crates/redis-wasm-core/src/db.rs, when its log is written.
use kvasm.Common.{◌+◌, ◌%◌, ◌≡◌, refl, arith, some, Option-cases, Result-cases, inl, inr}
use kvasm.Expiry.{u64_limit}
use kvasm.Wal.{WalEntry, WalWriterTrait}
use kvasm.Db.{Db}
use kvasm.Db.Persist.{compact, compact_if_needed, write_wal}

-- Two databases with the same tables at the same time.
pub record SameTables {F W : Type 0} (a b : Db F W) : Type 0 where
  pub data_map : a.data_map ≡ b.data_map
  pub expiry : a.expiry ≡ b.expiry
  pub now : a.now ≡ b.now

module _ {F W : Type 0} (writer : WalWriterTrait W F) where
  compact-SameTables : (db : Db F W) → SameTables (compact writer db).1 db
  unfolding compact
  compact-SameTables db = ground arith

  compact_if_needed-SameTables : (db : Db F W) → SameTables (compact_if_needed writer db).1 db
  unfolding compact_if_needed
  compact_if_needed-SameTables db = ground (arith, compact-SameTables db)

  abbrev after_append : WalEntry F → W → Db F W → Db F W
  after_append entry w db = record db {
    wal = some (writer.append entry w).1;
    wal_len = (db.wal_len + 1) % u64_limit;
  }

  pub write_wal-SameTables :
      (entry : WalEntry F) (db : Db F W) → SameTables (write_wal writer entry db).1 db
  unfolding write_wal
  write_wal-SameTables entry db = elim (Option-cases db.wal) [
    | inl e ↦ rw e (record { data_map = refl; expiry = refl; now = refl })
    | inr (w, e) ↦ rw e (elim (Result-cases (writer.append entry w).0) [
      | inl (a, h) ↦
          rw (h, write_wal)
            (let x = compact_if_needed-SameTables (after_append entry w db) in
              record { data_map = x.data_map; expiry = x.expiry; now = x.now })
      | inr (b, h) ↦ rw (h, write_wal) (record { data_map = refl; expiry = refl; now = refl })
    ])
  ]
