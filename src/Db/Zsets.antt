-- ===== src/Db/Zsets.antt =====
-- The sorted set operations of crates/redis-wasm-core/src/db.rs.
use kvasm.Common.{
  ℕ, String, Bool, Option, none, List, [], ◌∷◌, ok, err, pure, ◌>>=◌, ◌>>◌, if◌then◌else◌, eqb,
}
use kvasm.Common.Int.{ℤ}
use kvasm.Float.{Float64}
use kvasm.Value.{new_sorted_set}
use kvasm.Value.Zsets
use kvasm.Wal.{WalEntry, WalWriterTrait}
use kvasm.Db.{Command, typed, key_not_found, purge_expired, read_key, on_live, upsert, update}
use kvasm.Db.Persist.{write_wal}

module _ {F W : Type 0} (f : Float64 F) where
  unfoldable pub zscore : String → String → Command F W (Option F)
  unfolding read_key
  zscore key member = read_key key none (Zsets.zscore f member)

  unfoldable pub zrank : String → String → Command F W (Option ℕ)
  unfolding read_key
  zrank key member = read_key key none (Zsets.zrank f member)

  unfoldable pub zrevrank : String → String → Command F W (Option ℕ)
  unfolding read_key
  zrevrank key member = read_key key none (Zsets.zrevrank f member)

  unfoldable pub zrange : String → ℤ → ℤ → Bool → Command F W (List String)
  unfolding read_key
  zrange key start stop with_scores = read_key key [] (Zsets.zrange f start stop with_scores)

  unfoldable pub zrevrange : String → ℤ → ℤ → Bool → Command F W (List String)
  unfolding read_key
  zrevrange key start stop with_scores = read_key key [] (Zsets.zrevrange f start stop with_scores)

  unfoldable pub zrangebyscore : String → F → F → Command F W (List (String × F))
  unfolding read_key
  zrangebyscore key min max = read_key key [] (Zsets.zrangebyscore f min max)

  unfoldable pub zcard : String → Command F W ℕ
  unfolding read_key
  zcard key = read_key key 0 (Zsets.zcard f)

  unfoldable pub zcount : String → F → F → Command F W ℕ
  unfolding read_key
  zcount key min max = read_key key 0 (Zsets.zcount f min max)

  -- `match self.zcard(key) { Err(DbError::KeyNotFound) => Ok(0), Ok(_) => Ok(0), .. }`
  unfoldable pub check_sorted_set : String → Command F W ℕ
  unfolding zcard
  check_sorted_set key db =
      let (r, db') = zcard key db in
      (elim r [ err key_not_found ↦ ok 0 | ok _ ↦ ok 0 | other ↦ other ], db')

module _ {F W : Type 0} (f : Float64 F) (writer : WalWriterTrait W F) where
  unfoldable pub zadd : String → List (String × F) → Command F W ℕ
  unfolding purge_expired upsert check_sorted_set
  zadd key [] = purge_expired key >> check_sorted_set f key
  zadd key (m ∷ ms) = do
    purge_expired key
    added ← upsert key new_sorted_set (typed (Zsets.zadd f (m ∷ ms)))
    write_wal writer (WalEntry.z_add key (m ∷ ms))
    pure added

  unfoldable pub zrem : String → List String → Command F W ℕ
  unfolding on_live update
  zrem key members = on_live key (ok 0) (do
    removed ← update key (typed (Zsets.zrem f members))
    if eqb removed 0
        then pure 0
        else do write_wal writer (WalEntry.z_rem key members); pure removed)
