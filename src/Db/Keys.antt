-- ===== src/Db/Keys.antt =====
-- The core key operations of crates/redis-wasm-core/src/db.rs.
use kvasm.Common.{
  ℕ, suc, String, Option, none, some, List, [], ◌∷◌, ok, err, pure, ◌>>=◌, ◌>>◌, if◌then◌else◌, eqb,
}
use kvasm.HashMap
use kvasm.HashMap.{lookup, insert, contains_key}
use kvasm.Value.{ValueType, as_bytes, value_type, string}
use kvasm.Wal.{WalEntry, WalWriterTrait}
use kvasm.Db.{Db, Command, wrong_type, del, expired}
use kvasm.Db.Persist.{write_wal}

module _ {F W : Type 0} where
  -- `get_bytes`
  unfoldable pub get_bytes : String → Command F W (Option (List ℕ))
  unfolding expired del
  get_bytes key db =
      if expired key db then (ok none, (del (key ∷ []) db).1) else elim (lookup key db.data_map) [
        | none ↦ (ok none, db)
        | some v ↦ (elim (as_bytes v) [ ok b ↦ ok (some b) | err e ↦ err (wrong_type e) ], db)
      ]

  -- `get`, over `String::from_utf8_lossy`
  unfoldable pub get : (List ℕ → String) → String → Command F W (Option String)
  unfolding get_bytes
  get from_utf8_lossy key = do
    b ← get_bytes key
    pure (elim b [ none ↦ none | some bytes ↦ some (from_utf8_lossy bytes) ])

  -- The loop of `exists`.
  unfoldable pub exists_loop : List String → ℕ → Db F W → ℕ × Db F W
  unfolding expired del
  exists_loop [] count db = (count, db)
  exists_loop (key ∷ ks) count db =
      exists_loop ks
        (if expired key db
          then count
          else if contains_key key db.data_map
          then suc count
          else count)
        (if expired key db then (del (key ∷ []) db).1 else db)

  unfoldable pub exists : List String → Command F W ℕ
  exists ks db = let (count, db') = exists_loop ks 0 db in (ok count, db')

  -- `type_`
  unfoldable pub type_of : String → Command F W ValueType
  unfolding expired del value_type
  type_of key db =
      if expired key db
      then (ok ValueType.none, (del (key ∷ []) db).1)
      else elim (lookup key db.data_map) [
        | none ↦ (ok ValueType.none, db)
        | some v ↦ (ok (value_type v), db)
      ]

  -- `set`, up to the log
  unfoldable pub store_string : String → List ℕ → Db F W → Db F W
  store_string key value db = record db {
    data_map = insert key (string value) db.data_map;
    expiry = HashMap.remove key db.expiry;
  }

module _ {F W : Type 0} (writer : WalWriterTrait W F) where
  unfoldable pub set : String → List ℕ → Command F W Unit
  unfolding store_string
  set key value db = write_wal writer (WalEntry.set key value none) (store_string key value db)

  unfoldable pub del_async : List String → Command F W ℕ
  unfolding del
  del_async ks = do
    count ← del ks
    if eqb count 0 then pure count else do write_wal writer (WalEntry.del ks); pure count
