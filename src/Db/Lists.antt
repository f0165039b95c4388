-- ===== src/Db/Lists.antt =====
-- The list operations of crates/redis-wasm-core/src/db.rs.
use kvasm.Common.{
  ℕ, String, Option, none, List, [], ◌∷◌, ok, err, pure, ◌>>=◌, ◌>>◌, if◌then◌else◌, eqb,
}
use kvasm.Common.Int.{ℤ}
use kvasm.Value.{new_list}
use kvasm.Value.Lists
use kvasm.Wal.{WalEntry, WalWriterTrait}
use kvasm.Db.{Command, typed, key_not_found, on_live, purge_expired, read_key, upsert, update}
use kvasm.Db.Persist.{write_wal}

module _ {F W : Type 0} where
  unfoldable pub lrange : String → ℤ → ℤ → Command F W (List String)
  unfolding read_key
  lrange key start stop = read_key key [] (Lists.lrange start stop)

  unfoldable pub llen : String → Command F W ℕ
  unfolding read_key
  llen key = read_key key 0 Lists.llen

  unfoldable pub lindex : String → ℤ → Command F W (Option String)
  unfolding read_key
  lindex key index = read_key key none (Lists.lindex index)

  -- `match self.llen(key) { Err(DbError::KeyNotFound) => Ok(0), other => other }`
  unfoldable pub current_len : String → Command F W ℕ
  unfolding llen
  current_len key db =
      let (r, db') = llen key db in (elim r [ err key_not_found ↦ ok 0 | other ↦ other ], db')

module _ {F W : Type 0} (writer : WalWriterTrait W F) where
  unfoldable pub lpush : String → List String → Command F W ℕ
  unfolding purge_expired upsert current_len
  lpush key [] = purge_expired key >> current_len key
  lpush key (v ∷ vs) = do
    purge_expired key
    new_len ← upsert key new_list (typed (Lists.lpush (v ∷ vs)))
    write_wal writer (WalEntry.l_push key (v ∷ vs))
    pure new_len

  unfoldable pub rpush : String → List String → Command F W ℕ
  unfolding purge_expired upsert current_len
  rpush key [] = purge_expired key >> current_len key
  rpush key (v ∷ vs) = do
    purge_expired key
    new_len ← upsert key new_list (typed (Lists.rpush (v ∷ vs)))
    write_wal writer (WalEntry.r_push key (v ∷ vs))
    pure new_len

  -- The log of `lpop` and `rpop`: nothing if nothing was popped.
  unfoldable pub log_popped : List String → WalEntry F → Command F W (List String)
  log_popped [] entry = pure []
  log_popped (x ∷ xs) entry = do write_wal writer entry; pure (x ∷ xs)

  unfoldable pub lpop : String → ℕ → Command F W (List String)
  unfolding on_live update log_popped
  lpop key count = on_live key (ok []) (do
    result ← update key (typed (Lists.lpop count))
    log_popped result (WalEntry.l_pop key count))

  unfoldable pub rpop : String → ℕ → Command F W (List String)
  unfolding on_live update log_popped
  rpop key count = on_live key (ok []) (do
    result ← update key (typed (Lists.rpop count))
    log_popped result (WalEntry.r_pop key count))

  unfoldable pub lset : String → ℤ → String → Command F W Unit
  unfolding on_live update
  lset key index value = on_live key (err key_not_found) (do
    update key (typed (Lists.lset index value))
    write_wal writer (WalEntry.l_set key index value))

  unfoldable pub lrem : String → ℤ → String → Command F W ℕ
  unfolding on_live update
  lrem key count value = on_live key (ok 0) (do
    removed ← update key (typed (Lists.lrem count value))
    if eqb removed 0
        then pure 0
        else do write_wal writer (WalEntry.l_rem key count value); pure removed)

  unfoldable pub ltrim : String → ℤ → ℤ → Command F W Unit
  unfolding on_live update
  ltrim key start stop = on_live key (ok tt) (do
    update key (typed (Lists.ltrim start stop))
    write_wal writer (WalEntry.l_trim key start stop))
