-- ===== src/Replay/Durable/Keys.antt =====
-- The commands of crates/redis-wasm-core/src/db.rs on strings, keys and expiry times against their log
-- entries.
use kvasm.Common.{
  ℕ, String, ◌≡◌, refl, Bool, true, false, not, ◌||◌, none, some, List, ◌∷◌, eq_iff, ok, pure, ◌>>◌,
  if◌then◌else◌, arith,
}
use kvasm.Common.Int.{ℤ}
use kvasm.HashMap
use kvasm.HashMap.{HashMap, lookup, insert, contains_key}
use kvasm.HashMap.Laws.{lookup-remove}
use kvasm.Float.{Float64}
use kvasm.Value.{Value, string}
use kvasm.Wal.{WalEntry, WalWriterTrait}
use kvasm.Db.{Db, typed, expired}
use kvasm.Db.Persist.{write_wal}
use kvasm.Db.Strings.{
  append, setrange, incr_by, incr_by_float, incr_value, incr_float_value, bytes_of,
}
use kvasm.Value.Strings
use kvasm.Db.Keys.{set, store_string}
use kvasm.Db.Expire.{expire_at, persist}
use kvasm.Replay.{put_string, apply_entry}
use kvasm.Replay.Agree.{Agree, refl-Agree}
use kvasm.Replay.Durable.{Log, IsDurable, tables, unlogged-IsDurable, write_wal-IsDurable}
use kvasm.Replay.Durable.Parts.{either-IsDurable, log_then-IsDurable, modify_string-IsDurable}

module _ {F : Type 0} where
  -- An operation on strings that succeeds leaves a string.
  append_string :
      (value : List ℕ) (v : Value F) (x : ℕ)
      → (typed (Strings.append value) v).0 ≡ ok x
      → (s : List ℕ) × ((typed (Strings.append value) v).1 ≡ string s)
  unfolding Strings.append bytes_of
  append_string value (string s) x r =
      (bytes_of {F = F} (some (Strings.append value (string s)).1), ground arith)
  append_string value _ x r = absurd (ground arith)

  set_range_string :
      (offset : ℕ) (value : List ℕ) (v : Value F) (x : ℕ)
      → (typed (Strings.set_range offset value) v).0 ≡ ok x
      → (s : List ℕ) × ((typed (Strings.set_range offset value) v).1 ≡ string s)
  unfolding Strings.set_range bytes_of
  set_range_string offset value (string s) x r =
      (bytes_of {F = F} (some (Strings.set_range offset value (string s)).1), ground arith)
  set_range_string offset value _ x r = absurd (ground arith)

  incr_value_string :
      (delta : ℤ) (v : Value F) (x : ℤ)
      → (incr_value delta v).0 ≡ ok x
      → (s : List ℕ) × ((incr_value delta v).1 ≡ string s)
  unfolding incr_value bytes_of
  incr_value_string delta (string s) x r =
      (bytes_of {F = F} (some (incr_value delta (string s)).1), ground arith)
  incr_value_string delta _ x r = absurd (ground arith)

  incr_float_value_string :
      (f : Float64 F) (delta : F) (v : Value F) (x : F)
      → (incr_float_value f delta v).0 ≡ ok x
      → (s : List ℕ) × ((incr_float_value f delta v).1 ≡ string s)
  unfolding incr_float_value bytes_of
  incr_float_value_string f delta (string s) x r =
      (bytes_of {F = F} (some (incr_float_value f delta (string s)).1), ground arith)
  incr_float_value_string f delta _ x r = absurd (ground arith)

module _ {F W : Type 0} (f : Float64 F) {writer : WalWriterTrait W F} (log : Log writer) where
  pub append-IsDurable :
      (key : String) (value : List ℕ) (y : ℕ) (db : Db F W)
      → expired key db ≡ false
      → (append writer key value db).0 ≡ ok y
      → IsDurable f log db
      → IsDurable f log (append writer key value db).1
  unfolding append Strings.append
  append-IsDurable key value y db e r h =
      modify_string-IsDurable f log key (typed (Strings.append value)) y db
        (λ v x. append_string value v x) e r h

  pub setrange-IsDurable :
      (key : String) (offset byte : ℕ) (bytes : List ℕ) (y : ℕ) (db : Db F W)
      → expired key db ≡ false
      → (setrange writer key offset (byte ∷ bytes) db).0 ≡ ok y
      → IsDurable f log db
      → IsDurable f log (setrange writer key offset (byte ∷ bytes) db).1
  unfolding setrange
  setrange-IsDurable key offset byte bytes y db e r h =
      modify_string-IsDurable f log key (typed (Strings.set_range offset (byte ∷ bytes))) y db
        (λ v x. set_range_string offset (byte ∷ bytes) v x) e r h

  pub incr_by-IsDurable :
      (key : String) (delta y : ℤ) (db : Db F W)
      → expired key db ≡ false
      → (incr_by writer key delta db).0 ≡ ok y
      → IsDurable f log db
      → IsDurable f log (incr_by writer key delta db).1
  unfolding incr_by
  incr_by-IsDurable key delta y db e r h =
      modify_string-IsDurable f log key (incr_value delta) y db (λ v x. incr_value_string delta v x)
        e r h

  pub incr_by_float-IsDurable :
      (key : String) (delta y : F) (db : Db F W)
      → expired key db ≡ false
      → (incr_by_float writer f key delta db).0 ≡ ok y
      → IsDurable f log db
      → IsDurable f log (incr_by_float writer f key delta db).1
  unfolding incr_by_float
  incr_by_float-IsDurable key delta y db e r h =
      modify_string-IsDurable f log key (incr_float_value f delta) y db
        (λ v x. incr_float_value_string f delta v x) e r h

  -- SET gives the key a new value and no expiry time, whatever it had.
  pub set-IsDurable :
      (key : String) (value : List ℕ) (y : Unit) (db : Db F W)
      → (set writer key value db).0 ≡ ok y
      → IsDurable f log db
      → IsDurable f log (set writer key value db).1
  unfolding set store_string apply_entry put_string
  set-IsDurable key value y db r h =
      let b = store_string key value db in
      write_wal-IsDurable f log {a = db} {b = b} (WalEntry.set key value none) (tables b)
        (record { compaction_threshold = refl; wal = refl }) refl (refl-Agree (tables b)) r h

  pub expire_at-IsDurable :
      (key : String) (ms : ℕ) (y : Bool) (db : Db F W)
      → (expire_at writer key ms db).0 ≡ ok y
      → IsDurable f log db
      → IsDurable f log (expire_at writer key ms db).1
  unfolding expire_at apply_entry
  expire_at-IsDurable key ms y db r h =
      let b : Db F W = record db { expiry = insert key ms db.expiry } in
      either-IsDurable f log (not (contains_key key db.data_map) || expired key db) (ok false, db)
        ((write_wal writer (WalEntry.expire key ms) >> pure true) b) y (λ _ _. h)
        (λ _ k.
          log_then-IsDurable f log {a = db} {b = b} (WalEntry.expire key ms) (tables b) true y
            (record { compaction_threshold = refl; wal = refl }) refl (refl-Agree (tables b)) k h)
        r

  pub persist-IsDurable :
      (key : String) (y : Bool) (db : Db F W)
      → (persist writer key db).0 ≡ ok y
      → IsDurable f log db
      → IsDurable f log (persist writer key db).1
  unfolding persist apply_entry contains_key
  persist-IsDurable key y db r h =
      let b : Db F W = record db { expiry = HashMap.remove key db.expiry } in
      let logged = (write_wal writer (WalEntry.persist key) >> pure true) b in
      either-IsDurable f log (not (contains_key key db.data_map) || expired key db) (ok false, db)
        (if contains_key key db.expiry then logged else (ok false, b)) y (λ _ _. h)
        (λ _.
          either-IsDurable f log (contains_key key db.expiry) logged (ok false, b) y
            (λ _ k.
              log_then-IsDurable f log {a = db} {b = b} (WalEntry.persist key) (tables b) true y
                (record { compaction_threshold = refl; wal = refl }) refl (refl-Agree (tables b)) k
                h)
            (λ absent _.
              unlogged-IsDurable f log {a = db} {b = b}
                (record { compaction_threshold = refl; wal = refl }) (without key db absent) h))
        r
    where
      without :
          (key : String) (db : Db F W)
          → contains_key key db.expiry ≡ false
          → Agree (tables db) (tables (record db { expiry = HashMap.remove key db.expiry }))
      without key db e = record {
        data_map = λ j. refl;
        expiry = λ j. ground (arith, eq_iff key j, lookup-remove key j db.expiry);
      }
