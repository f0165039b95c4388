-- ===== src/Db/Sets.antt =====
-- The set operations of crates/redis-wasm-core/src/db.rs.
use kvasm.Common.{
  ℕ, String, Bool, false, Option, none, some, List, [], ◌∷◌, ok, err, pure, ◌>>=◌, ◌>>◌,
  if◌then◌else◌, eqb,
}
use kvasm.HashMap.{HashSet, lookup, add, discard}
use kvasm.Value.{as_set, new_set}
use kvasm.Value.Sets
use kvasm.Value.Sets.{retain_in}
use kvasm.Wal.{WalEntry, WalWriterTrait}
use kvasm.Db.{
  Command, typed, wrong_type, key_not_found, del, expired, purge_expired, read_key, on_live, upsert,
  update,
}
use kvasm.Db.Persist.{write_wal}

-- `result.extend(set.iter().cloned())` and `for v in other { result.remove(v); }`
unfoldable pub extend : HashSet → List String → HashSet
extend result [] = result
extend result (x ∷ xs) = extend (add x result) xs

unfoldable pub discard_each : HashSet → List String → HashSet
discard_each result [] = result
discard_each result (x ∷ xs) = discard_each (discard x result) xs

module _ {F W : Type 0} where
  unfoldable pub sismember : String → String → Command F W Bool
  unfolding read_key
  sismember key member = read_key key false (Sets.sismember member)

  unfoldable pub smembers : String → Command F W (List String)
  unfolding read_key
  smembers key = read_key key [] Sets.smembers

  unfoldable pub scard : String → Command F W ℕ
  unfolding read_key
  scard key = read_key key 0 Sets.scard

  -- `match self.scard(key) { Err(DbError::KeyNotFound) => Ok(0), Ok(_) => Ok(0), .. }`
  unfoldable pub check_set : String → Command F W ℕ
  unfolding scard
  check_set key db =
      let (r, db') = scard key db in
      (elim r [ err key_not_found ↦ ok 0 | ok _ ↦ ok 0 | other ↦ other ], db')

  -- The set that a loop meets at a key: the deleted state and `none` at an expired key, `none` at
  -- a missing one, and an error at a key of another type.
  unfoldable pub set_at : String → Command F W (Option HashSet)
  unfolding expired del
  set_at key db =
      if expired key db then (ok none, (del (key ∷ []) db).1) else elim (lookup key db.data_map) [
        | none ↦ (ok none, db)
        | some v ↦ (elim (as_set v) [ ok s ↦ ok (some s) | err e ↦ err (wrong_type e) ], db)
      ]

  -- The loop of `sinter` over the remaining keys: an absent set clears the result and ends it.
  unfoldable pub sinter_loop : List String → HashSet → Command F W (List String)
  sinter_loop [] result = pure result
  sinter_loop (key ∷ ks) result = do
    found ← set_at key
    elim found [ none ↦ pure [] | some other ↦ sinter_loop ks (retain_in other result) ]

  unfoldable pub sinter : List String → Command F W (List String)
  unfolding set_at sinter_loop
  sinter [] = pure []
  sinter (key ∷ ks) = do
    found ← set_at key
    elim found [ none ↦ pure [] | some s ↦ sinter_loop ks s ]

  -- The loop of `sunion`: an absent set adds nothing.
  unfoldable pub sunion_loop : List String → HashSet → Command F W (List String)
  sunion_loop [] result = pure result
  sunion_loop (key ∷ ks) result = do
    found ← set_at key
    sunion_loop ks (elim found [ none ↦ result | some s ↦ extend result s ])

  unfoldable pub sunion : List String → Command F W (List String)
  unfolding set_at sunion_loop
  sunion ks = sunion_loop ks []

  -- The loop of `sdiff` over the other keys.
  unfoldable pub sdiff_loop : List String → HashSet → Command F W (List String)
  sdiff_loop [] result = pure result
  sdiff_loop (key ∷ ks) result = do
    found ← set_at key
    sdiff_loop ks (elim found [ none ↦ result | some other ↦ discard_each result other ])

  unfoldable pub sdiff : String → List String → Command F W (List String)
  unfolding set_at sdiff_loop
  sdiff key other_keys = do
    found ← set_at key
    elim found [ none ↦ pure [] | some s ↦ sdiff_loop other_keys s ]

module _ {F W : Type 0} (writer : WalWriterTrait W F) where
  unfoldable pub sadd : String → List String → Command F W ℕ
  unfolding purge_expired upsert check_set
  sadd key [] = purge_expired key >> check_set key
  sadd key (m ∷ ms) = do
    purge_expired key
    added ← upsert key new_set (typed (Sets.sadd (m ∷ ms)))
    if eqb added 0 then pure 0 else do write_wal writer (WalEntry.s_add key (m ∷ ms)); pure added

  unfoldable pub srem : String → List String → Command F W ℕ
  unfolding on_live update
  srem key members = on_live key (ok 0) (do
    removed ← update key (typed (Sets.srem members))
    if eqb removed 0
        then pure 0
        else do write_wal writer (WalEntry.s_rem key members); pure removed)
