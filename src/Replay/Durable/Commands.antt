-- ===== src/Replay/Durable/Commands.antt =====
-- The commands of crates/redis-wasm-core/src/db.rs on collections against their log entries.
use kvasm.Common.{ℕ, String, ◌≡◌, refl, false, List, ◌∷◌, ok, pure, ◌>>=◌, ◌>>◌, if◌then◌else◌, eqb}
use kvasm.Common.Int.{ℤ}
use kvasm.Float.{Float64}
use kvasm.Value.{new_list, new_set, new_sorted_set, new_hash}
use kvasm.Value.Lists
use kvasm.Value.Zsets
use kvasm.Value.Hashes
use kvasm.Wal.{WalEntry, WalWriterTrait}
use kvasm.Db.{Db, typed, upsert, update, expired}
use kvasm.Db.Persist.{write_wal}
use kvasm.Value.Sets
use kvasm.Db.Lists.{lpush, rpush, lrem}
use kvasm.Db.Sets.{sadd, srem}
use kvasm.Db.Zsets.{zadd, zrem}
use kvasm.Db.Hashes.{hset, hdel}
use kvasm.Replay.{apply_entry}
use kvasm.Replay.Durable.{Log, IsDurable}
use kvasm.Value.Idle.{sadd_idle, sadd_fresh, srem_idle, hdel_idle, zrem_idle, lrem_idle}
use kvasm.Replay.Durable.Parts.{
  upsert-IsDurable, purge_then-IsDurable, update_counted-IsDurable, upsert_counted-IsDurable,
  on_live-IsDurable,
}

module _ {F W : Type 0} (f : Float64 F) {writer : WalWriterTrait W F} (log : Log writer) where
  pub lpush-IsDurable :
      (key : String) (value : String) (values : List String) (y : ℕ) (db : Db F W)
      → expired key db ≡ false
      → (lpush writer key (value ∷ values) db).0 ≡ ok y
      → IsDurable f log db
      → IsDurable f log (lpush writer key (value ∷ values) db).1
  unfolding lpush apply_entry
  lpush-IsDurable key value values y db e r h =
      let all = value ∷ values in
      purge_then-IsDurable f log key
        (upsert key new_list (typed (Lists.lpush all)) >>= λ x.
          (write_wal writer (WalEntry.l_push key all) >> pure x))
        y db e
        (λ k.
          upsert-IsDurable f log key new_list (Lists.lpush all) (WalEntry.l_push key all) y db
            (λ t. refl) k h)
        r

  pub rpush-IsDurable :
      (key : String) (value : String) (values : List String) (y : ℕ) (db : Db F W)
      → expired key db ≡ false
      → (rpush writer key (value ∷ values) db).0 ≡ ok y
      → IsDurable f log db
      → IsDurable f log (rpush writer key (value ∷ values) db).1
  unfolding rpush apply_entry
  rpush-IsDurable key value values y db e r h =
      let all = value ∷ values in
      purge_then-IsDurable f log key
        (upsert key new_list (typed (Lists.rpush all)) >>= λ x.
          (write_wal writer (WalEntry.r_push key all) >> pure x))
        y db e
        (λ k.
          upsert-IsDurable f log key new_list (Lists.rpush all) (WalEntry.r_push key all) y db
            (λ t. refl) k h)
        r

  pub zadd-IsDurable :
      (key : String) (member : String × F) (members : List (String × F)) (y : ℕ) (db : Db F W)
      → expired key db ≡ false
      → (zadd f writer key (member ∷ members) db).0 ≡ ok y
      → IsDurable f log db
      → IsDurable f log (zadd f writer key (member ∷ members) db).1
  unfolding zadd apply_entry
  zadd-IsDurable key member members y db e r h =
      let all = member ∷ members in
      purge_then-IsDurable f log key
        (upsert key new_sorted_set (typed (Zsets.zadd f all)) >>= λ x.
          (write_wal writer (WalEntry.z_add key all) >> pure x))
        y db e
        (λ k.
          upsert-IsDurable f log key new_sorted_set (Zsets.zadd f all) (WalEntry.z_add key all) y db
            (λ t. refl) k h)
        r

  pub sadd-IsDurable :
      (key : String) (member : String) (members : List String) (y : ℕ) (db : Db F W)
      → expired key db ≡ false
      → (sadd writer key (member ∷ members) db).0 ≡ ok y
      → IsDurable f log db
      → IsDurable f log (sadd writer key (member ∷ members) db).1
  unfolding sadd apply_entry
  sadd-IsDurable key member members y db e r h =
      let all = member ∷ members in
      purge_then-IsDurable f log key
        (upsert key new_set (typed (Sets.sadd all)) >>= λ n.
          if eqb n 0 then pure 0 else (write_wal writer (WalEntry.s_add key all) >> pure n))
        y db e
        (λ k.
          upsert_counted-IsDurable f log key new_set (Sets.sadd all) (WalEntry.s_add key all) y db
            (λ t. refl) (sadd_idle all) (sadd_fresh F member members) k h)
        r

  pub hset-IsDurable :
      (key field value : String) (y : ℕ) (db : Db F W)
      → expired key db ≡ false
      → (hset writer key field value db).0 ≡ ok y
      → IsDurable f log db
      → IsDurable f log (hset writer key field value db).1
  unfolding hset apply_entry
  hset-IsDurable key field value y db e r h =
      purge_then-IsDurable f log key
        (upsert key new_hash (typed (Hashes.hset field value)) >>= λ x.
          (write_wal writer (WalEntry.h_set key field value) >> pure x))
        y db e
        (λ k.
          upsert-IsDurable f log key new_hash (Hashes.hset field value)
            (WalEntry.h_set key field value) y db (λ t. refl) k h)
        r

  pub srem-IsDurable :
      (key : String) (members : List String) (y : ℕ) (db : Db F W)
      → expired key db ≡ false
      → (srem writer key members db).0 ≡ ok y
      → IsDurable f log db
      → IsDurable f log (srem writer key members db).1
  unfolding srem apply_entry
  srem-IsDurable key members y db e r h =
      on_live-IsDurable f log key (ok 0)
        (update key (typed (Sets.srem members)) >>= λ n.
          if eqb n 0 then pure 0 else (write_wal writer (WalEntry.s_rem key members) >> pure n))
        y db e
        (λ k.
          update_counted-IsDurable f log key (Sets.srem members) (WalEntry.s_rem key members) y db
            (λ t. refl) (srem_idle members) k h)
        r

  pub hdel-IsDurable :
      (key : String) (fields : List String) (y : ℕ) (db : Db F W)
      → expired key db ≡ false
      → (hdel writer key fields db).0 ≡ ok y
      → IsDurable f log db
      → IsDurable f log (hdel writer key fields db).1
  unfolding hdel apply_entry
  hdel-IsDurable key fields y db e r h =
      on_live-IsDurable f log key (ok 0)
        (update key (typed (Hashes.hdel fields)) >>= λ n.
          if eqb n 0 then pure 0 else (write_wal writer (WalEntry.h_del key fields) >> pure n))
        y db e
        (λ k.
          update_counted-IsDurable f log key (Hashes.hdel fields) (WalEntry.h_del key fields) y db
            (λ t. refl) (hdel_idle fields) k h)
        r

  pub lrem-IsDurable :
      (key : String) (count : ℤ) (value : String) (y : ℕ) (db : Db F W)
      → expired key db ≡ false
      → (lrem writer key count value db).0 ≡ ok y
      → IsDurable f log db
      → IsDurable f log (lrem writer key count value db).1
  unfolding lrem apply_entry
  lrem-IsDurable key count value y db e r h =
      on_live-IsDurable f log key (ok 0)
        (update key (typed (Lists.lrem count value)) >>= λ n.
          if eqb n 0 then pure 0 else (write_wal writer (WalEntry.l_rem key count value) >> pure n))
        y db e
        (λ k.
          update_counted-IsDurable f log key (Lists.lrem count value)
            (WalEntry.l_rem key count value) y db (λ t. refl) (lrem_idle count value) k h)
        r

  pub zrem-IsDurable :
      (key : String) (members : List String) (y : ℕ) (db : Db F W)
      → expired key db ≡ false
      → (zrem f writer key members db).0 ≡ ok y
      → IsDurable f log db
      → IsDurable f log (zrem f writer key members db).1
  unfolding zrem apply_entry
  zrem-IsDurable key members y db e r h =
      on_live-IsDurable f log key (ok 0)
        (update key (typed (Zsets.zrem f members)) >>= λ n.
          if eqb n 0 then pure 0 else (write_wal writer (WalEntry.z_rem key members) >> pure n))
        y db e
        (λ k.
          update_counted-IsDurable f log key (Zsets.zrem f members) (WalEntry.z_rem key members) y
            db (λ t. refl) (zrem_idle f members) k h)
        r
