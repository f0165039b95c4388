-- ===== src/Db/Expire.antt =====
-- The expiry operations of crates/redis-wasm-core/src/db.rs, and the sweep of its cleaners.
use kvasm.Common.{
  ℕ, String, Bool, true, false, not, ◌||◌, Option, none, some, [], ◌∷◌, ok, pure, ◌>>◌,
  if◌then◌else◌,
}
use kvasm.Common.Int.{ℤ, negsuc}
use kvasm.HashMap
use kvasm.HashMap.{contains_key, HashMap}
use kvasm.Value.{Value}
use kvasm.Expiry
use kvasm.Expiry.{
  ExpiryManager, saturating_add, saturating_mul, set_expiry_at, ttl_seconds, ttl_ms, is_expired,
  cleanup_expired,
}
use kvasm.Wal.{WalEntry, WalWriterTrait}
use kvasm.Db.{Db, Command, del, expired}
use kvasm.Db.Persist.{write_wal}

module _ {F W : Type 0} where
  -- What `ttl` and `pttl` share.
  unfoldable pub read_ttl : (String → ℕ → ExpiryManager → Option ℤ) → String → Command F W ℤ
  unfolding expired del
  read_ttl ttl_of key db =
      if not (contains_key key db.data_map)
      then (ok (negsuc 1), db)
      else if expired key db
      then (ok (negsuc 1), (del (key ∷ []) db).1)
      else (ok (elim (ttl_of key db.now db.expiry) [ none ↦ negsuc 0 | some t ↦ t ]), db)

  unfoldable pub ttl : String → Command F W ℤ
  unfolding read_ttl
  ttl key = read_ttl ttl_seconds key

  unfoldable pub pttl : String → Command F W ℤ
  unfolding read_ttl
  pttl key = read_ttl ttl_ms key

  -- One tick of the cleaner: `cleanup_expired(|key| db.remove_key_if_expired(key))`.
  unfoldable pub clean : Db F W → Db F W
  unfolding is_expired cleanup_expired
  clean db =
      let callback = λ (key : String) (m : ExpiryManager) (d : HashMap (Value F)).
        if is_expired key db.now m then HashMap.remove key d else d in
      let (expiry', data') = cleanup_expired callback db.now (db.expiry, db.data_map) in
      record db { data_map = data'; expiry = expiry' }

module _ {F W : Type 0} (writer : WalWriterTrait W F) where
  -- `set_expiry_at` and its log entry
  unfoldable pub expire_at : String → ℕ → Command F W Bool
  unfolding expired set_expiry_at
  expire_at key expiry_ms db =
      if not (contains_key key db.data_map) || expired key db
      then (ok false, db)
      else (write_wal writer (WalEntry.expire key expiry_ms) >> pure true)
          (record db { expiry = set_expiry_at key expiry_ms db.expiry })

  unfoldable pub expire : String → ℕ → Command F W Bool
  unfolding expire_at
  expire key seconds db = expire_at key (saturating_add db.now (saturating_mul seconds 1000)) db

  unfoldable pub pexpire : String → ℕ → Command F W Bool
  unfolding expire_at
  pexpire key milliseconds db = expire_at key (saturating_add db.now milliseconds) db

  unfoldable pub persist : String → Command F W Bool
  unfolding expired Expiry.remove
  persist key db =
      if not (contains_key key db.data_map) || expired key db
      then (ok false, db)
      else let (had_expiry, expiry') = Expiry.remove key db.expiry in
        let db' = record db { expiry = expiry' } in
        if had_expiry
        then (write_wal writer (WalEntry.persist key) >> pure true) db'
        else (ok false, db')
