-- ===== src/Db/Hashes.antt =====
-- The hash operations of crates/redis-wasm-core/src/db.rs.
use kvasm.Common.{
  ℕ, String, Bool, false, Option, none, List, [], ok, pure, ◌>>=◌, ◌>>◌, if◌then◌else◌, eqb,
}
use kvasm.Value.{new_hash}
use kvasm.Value.Hashes
use kvasm.Wal.{WalEntry, WalWriterTrait}
use kvasm.Db.{Command, typed, purge_expired, read_key, on_live, upsert, update}
use kvasm.Db.Persist.{write_wal}

module _ {F W : Type 0} where
  unfoldable pub hget : String → String → Command F W (Option String)
  unfolding read_key
  hget key field = read_key key none (Hashes.hget field)

  unfoldable pub hgetall : String → Command F W (List (String × String))
  unfolding read_key
  hgetall key = read_key key [] Hashes.hgetall

  unfoldable pub hexists : String → String → Command F W Bool
  unfolding read_key
  hexists key field = read_key key false (Hashes.hexists field)

  unfoldable pub hlen : String → Command F W ℕ
  unfolding read_key
  hlen key = read_key key 0 Hashes.hlen

  unfoldable pub hkeys : String → Command F W (List String)
  unfolding read_key
  hkeys key = read_key key [] Hashes.hkeys

  unfoldable pub hvals : String → Command F W (List String)
  unfolding read_key
  hvals key = read_key key [] Hashes.hvals

module _ {F W : Type 0} (writer : WalWriterTrait W F) where
  unfoldable pub hset : String → String → String → Command F W ℕ
  unfolding purge_expired upsert
  hset key field value = do
    purge_expired key
    result ← upsert key new_hash (typed (Hashes.hset field value))
    write_wal writer (WalEntry.h_set key field value)
    pure result

  unfoldable pub hdel : String → List String → Command F W ℕ
  unfolding on_live update
  hdel key fields = on_live key (ok 0) (do
    deleted ← update key (typed (Hashes.hdel fields))
    if eqb deleted 0 then pure 0 else do write_wal writer (WalEntry.h_del key fields); pure deleted)
