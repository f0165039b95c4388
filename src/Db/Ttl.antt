-- ===== src/Db/Ttl.antt =====
-- Expiry times as the commands of crates/redis-wasm-core/src/db.rs set and read them.
use kvasm.Common.{
  ℕ, ◌+◌, ◌-◌, ◌*◌, ◌/◌, ◌^◌, ◌<◌, ◌≤◌, String, ◌≡◌, refl, ap, ◌∙◌, true, false, not, ◌||◌, Option,
  none, some, List, ◌==◌, eq_iff, Result, ok, err, pure, ◌>>◌, if◌then◌else◌, arith, Bool-cases,
  Result-cases, inl, inr,
}
use kvasm.Common.Int.{ℤ, pos, negsuc}
use kvasm.HashMap
use kvasm.HashMap.{HashMap, lookup, insert, contains_key}
use kvasm.HashMap.Laws.{lookup-insert, lookup-remove, lookup-insert_self, lookup-remove_self}
use kvasm.Float.{Float64}
use kvasm.Value.{Value, string, as_bytes}
use kvasm.Wal.{WalEntry, WalWriterTrait}
use kvasm.Expiry.{
  u64_limit, as_i64, is_expired, ttl_ms, ttl_seconds, saturating_add, saturating_mul,
}
use kvasm.Expiry.Laws.{live, lookup-cleanup_expired, lookup-cleanup_data, drop_expired}
use kvasm.Db.{Db, DbError, wrong_type, expired, del, del_loop, purge_expired}
use kvasm.Db.Persist.{write_wal}
use kvasm.Db.Frame.{SameTables, write_wal-SameTables}
use kvasm.Db.Keys.{get_bytes, set, store_string}
use kvasm.Db.Expire.{expire_at, expire, pexpire, persist, ttl, pttl, clean, read_ttl}
use kvasm.Db.Valid.{IsValid}

module _ {F : Type 0} where
  -- The replies of TTL and GET, as functions of the tables and the clock.
  abbrev ttl_reply :
      (String → ℕ → HashMap ℕ → Option ℤ)
      → String
      → HashMap (Value F)
      → HashMap ℕ
      → ℕ
      → Result DbError ℤ
  ttl_reply ttl_of key data_map expiry now =
      if not (contains_key key data_map) || is_expired key now expiry
      then ok (negsuc 1)
      else ok (elim (ttl_of key now expiry) [ none ↦ negsuc 0 | some t ↦ t ])

  abbrev bytes_reply : String → HashMap (Value F) → HashMap ℕ → ℕ → Result DbError (Option (List ℕ))
  bytes_reply key data_map expiry now =
      if is_expired key now expiry then ok none else elim (lookup key data_map) [
        | none ↦ ok none
        | some v ↦ elim (as_bytes v) [ ok b ↦ ok (some b) | err e ↦ err (wrong_type e) ]
      ]

module _ {F W : Type 0} where
  -- The value that a client can see at a key: what is stored there unless it has expired.
  abbrev pub visible : String → Db F W → Option (Value F)
  visible key db = if expired key db then none else lookup key db.data_map

  -- In valid tables, a run of the cleaner takes away the values and the times of the keys whose
  -- time has run out and nothing else, and changes nothing that a client can see.
  pub clean_lem :
      (f : Float64 F) (db : Db F W) (j : String)
      → IsValid f db
      → (lookup j (clean db).data_map ≡ visible j db)
        × (lookup j (clean db).expiry ≡ live db.now (lookup j db.expiry))
        × (visible j (clean db) ≡ visible j db)
  unfolding clean expired is_expired
  clean_lem f db j h = ground (
    arith,
    lookup-cleanup_data db.now db.expiry db.data_map j h.expiry_distinct,
    lookup-cleanup_expired (drop_expired db.now) db.now db.expiry db.data_map j h.expiry_distinct,
  )

  -- In valid tables, what a command does first to its key takes away the value and the expiry time
  -- of the key if its time has run out, and leaves the key as it is otherwise; the other keys have
  -- what they had.
  pub purge_expired_lem :
      (f : Float64 F) (key j : String) (db : Db F W)
      → IsValid f db
      → (lookup j (purge_expired key db).1.data_map
          ≡ (if key == j then visible j db else lookup j db.data_map))
        × (lookup j (purge_expired key db).1.expiry
            ≡ (if key == j then live db.now (lookup j db.expiry) else lookup j db.expiry))
  unfolding purge_expired del del_loop expired is_expired contains_key
  purge_expired_lem f key j db h = ground (
    arith,
    eq_iff key j,
    lookup-remove key j db.data_map,
    lookup-remove key j db.expiry,
    h.covered j,
    h.covered key,
  )

  read_ttl-ttl_reply :
      (ttl_of : String → ℕ → HashMap ℕ → Option ℤ) (key : String) (db : Db F W)
      → (read_ttl ttl_of key db).0 ≡ ttl_reply ttl_of key db.data_map db.expiry db.now
  unfolding read_ttl expired
  read_ttl-ttl_reply ttl_of key db = ground arith

  read_ttl-SameTables :
      {a b : Db F W} (ttl_of : String → ℕ → HashMap ℕ → Option ℤ) (key : String)
      → SameTables a b
      → (read_ttl ttl_of key a).0 ≡ (read_ttl ttl_of key b).0
  read_ttl-SameTables {a} {b} ttl_of key s =
      rw
        (
          read_ttl-ttl_reply ttl_of key a,
          read_ttl-ttl_reply ttl_of key b,
          s.data_map,
          s.expiry,
          s.now,
        )
        refl

  get_bytes-bytes_reply :
      (key : String) (db : Db F W)
      → (get_bytes key db).0 ≡ bytes_reply key db.data_map db.expiry db.now
  unfolding get_bytes expired
  get_bytes-bytes_reply key db = ground arith

  get_bytes-SameTables :
      {a b : Db F W} (key : String) → SameTables a b → (get_bytes key a).0 ≡ (get_bytes key b).0
  get_bytes-SameTables {a} {b} key s =
      rw (get_bytes-bytes_reply key a, get_bytes-bytes_reply key b, s.data_map, s.expiry, s.now)
        refl

  visible-SameTables :
      {a b : Db F W} (key : String) → SameTables a b → visible key a ≡ visible key b
  unfolding expired
  visible-SameTables {a} {b} key s = rw (s.data_map, s.expiry, s.now) refl

  get_bytes-store_string :
      (key : String) (value : List ℕ) (db : Db F W)
      → (get_bytes key (store_string key value db)).0 ≡ ok (some value)
  unfolding store_string is_expired as_bytes
  get_bytes-store_string key value db =
      get_bytes-bytes_reply key (store_string key value db)
      ∙ ground (
        arith,
        lookup-insert_self key (string value) db.data_map,
        lookup-remove_self key db.expiry,
      )

  visible-store_string :
      (key j : String) (value : List ℕ) (db : Db F W)
      → visible j (store_string key value db)
        ≡ (if key == j then some (string value) else visible j db)
  unfolding expired is_expired store_string
  visible-store_string key j value db = ground (
    arith,
    eq_iff key j,
    lookup-insert key j (string value) db.data_map,
    lookup-remove key j db.expiry,
  )

module _ {F W : Type 0} (writer : WalWriterTrait W F) where
  -- After SET, whether or not the log took the entry, the key reads as the bytes that were set, it
  -- has no expiry time, and what a client sees at any key j is that value at the key and what was
  -- there before at another.
  pub set_lem :
      (key j : String) (value : List ℕ) (db : Db F W)
      → ((get_bytes key (set writer key value db).1).0 ≡ ok (some value))
        × (lookup key (set writer key value db).1.expiry ≡ none)
        × (visible j (set writer key value db).1
            ≡ (if key == j then some (string value) else visible j db))
  unfolding set store_string
  set_lem key j value db =
      let s =
        write_wal-SameTables writer (WalEntry.set key value none) (store_string key value db) in
      (
        get_bytes-SameTables key s ∙ get_bytes-store_string key value db,
        ap (lookup key) s.expiry ∙ lookup-remove_self key db.expiry,
        visible-SameTables j s ∙ visible-store_string key j value db,
      )

  log_then-SameTables :
      {A : Type 0} (entry : WalEntry F) (a : A) (db : Db F W)
      → SameTables ((write_wal writer entry >> pure a) db).1 db
  log_then-SameTables entry a db = elim (Result-cases (write_wal writer entry db).0) [
    | inl (x, e) ↦ rw e (write_wal-SameTables writer entry db)
    | inr (x, e) ↦ rw e (write_wal-SameTables writer entry db)
  ]

  expire_at-SameTables :
      (key : String) (ms : ℕ) (db : Db F W)
      → contains_key key db.data_map ≡ true
      → expired key db ≡ false
      → SameTables (expire_at writer key ms db).1 (record db { expiry = insert key ms db.expiry })
  unfolding expire_at
  expire_at-SameTables key ms db c e =
      rw (c, e) (log_then-SameTables (WalEntry.expire key ms) true _)

  persist-SameTables :
      (key : String) (db : Db F W)
      → contains_key key db.data_map ≡ true
      → expired key db ≡ false
      → SameTables (persist writer key db).1 (record db { expiry = HashMap.remove key db.expiry })
  unfolding persist
  persist-SameTables key db c e =
      rw (c, e)
        (elim (Bool-cases (contains_key key db.expiry)) [
          | inl x ↦ rw (x, persist) (log_then-SameTables (WalEntry.persist key) true _)
          | inr x ↦ rw (x, persist) (record { data_map = refl; expiry = refl; now = refl })
        ])

  -- What PTTL and TTL read after an expiry time was set.
  pttl-expire_at :
      (key : String) (ms : ℕ) (db : Db F W)
      → contains_key key db.data_map ≡ true
      → expired key db ≡ false
      → db.now < ms
      → (pttl key (expire_at writer key ms db).1).0 ≡ ok (as_i64 (ms - db.now))
  unfolding pttl read_ttl expired is_expired ttl_ms
  pttl-expire_at key ms db c e k =
      read_ttl-SameTables ttl_ms key (expire_at-SameTables key ms db c e) ∙ now_set
    where
      now_set :
          (pttl key (record db { expiry = insert key ms db.expiry })).0 ≡ ok (as_i64 (ms - db.now))
      now_set = ground (arith, lookup-insert_self key ms db.expiry)

  ttl-expire_at :
      (key : String) (ms : ℕ) (db : Db F W)
      → contains_key key db.data_map ≡ true
      → expired key db ≡ false
      → db.now < ms
      → (ttl key (expire_at writer key ms db).1).0 ≡ ok (as_i64 ((ms - db.now) / 1000))
  unfolding ttl read_ttl expired is_expired ttl_seconds
  ttl-expire_at key ms db c e k =
      read_ttl-SameTables ttl_seconds key (expire_at-SameTables key ms db c e) ∙ now_set
    where
      now_set :
          (ttl key (record db { expiry = insert key ms db.expiry })).0
          ≡ ok (as_i64 ((ms - db.now) / 1000))
      now_set = ground (arith, lookup-insert_self key ms db.expiry)

  -- PEXPIRE of a live key by a number of milliseconds that is not 0, and that together with the
  -- clock stays below 2^63, makes PTTL read that number at once, whether or not the log took the
  -- entry.
  pub pttl-pexpire :
      (key : String) (ms : ℕ) (db : Db F W)
      → contains_key key db.data_map ≡ true
      → expired key db ≡ false
      → 0 < ms
      → db.now + ms < 2 ^ 63
      → (pttl key (pexpire writer key ms db).1).0 ≡ ok (pos ms)
  unfolding pexpire
  pttl-pexpire key ms db c e k b =
      pttl-expire_at key (saturating_add db.now ms) db c e (ground arith)
      ∙ (unfold as_i64 in ground arith)

  -- EXPIRE of a live key by a number of seconds that is not 0, and that in milliseconds together
  -- with the clock stays below 2^63, makes TTL read that number at once, whether or not the log
  -- took the entry.
  pub ttl-expire :
      (key : String) (seconds : ℕ) (db : Db F W)
      → contains_key key db.data_map ≡ true
      → expired key db ≡ false
      → 0 < seconds
      → db.now + seconds * 1000 < 2 ^ 63
      → (ttl key (expire writer key seconds db).1).0 ≡ ok (pos seconds)
  unfolding expire
  ttl-expire key seconds db c e k b =
      ttl-expire_at key (saturating_add db.now (saturating_mul seconds 1000)) db c e (ground arith)
      ∙ (unfold as_i64 in ground arith)

  -- PEXPIRE of a live key by at least 2^63 and less than 2^64 milliseconds, at a time before 2^63,
  -- makes PTTL read a negative number.
  pub pttl-pexpire_huge :
      (key : String) (ms : ℕ) (db : Db F W)
      → contains_key key db.data_map ≡ true
      → expired key db ≡ false
      → 2 ^ 63 ≤ ms
      → ms < u64_limit
      → db.now < 2 ^ 63
      → (n : ℕ) × ((pttl key (pexpire writer key ms db).1).0 ≡ ok (negsuc n))
  unfolding pexpire
  pttl-pexpire_huge key ms db c e k b t = (
    u64_limit - 1 - (saturating_add db.now ms - db.now),
    pttl-expire_at key (saturating_add db.now ms) db c e (ground arith)
        ∙ (unfold as_i64 in ground arith),
  )

  -- PERSIST of a live key, whether or not the log took the entry, leaves it without an expiry time,
  -- which PTTL reads as -1, and a client sees at every key what it saw before.
  pub persist_lem :
      (key j : String) (db : Db F W)
      → contains_key key db.data_map ≡ true
      → expired key db ≡ false
      → ((pttl key (persist writer key db).1).0 ≡ ok (negsuc 0))
        × (visible j (persist writer key db).1 ≡ visible j db)
  unfolding pttl read_ttl expired is_expired ttl_ms
  persist_lem key j db c e =
      let s = persist-SameTables key db c e in
      (read_ttl-SameTables ttl_ms key s ∙ cleared, visible-SameTables j s ∙ seen)
    where
      cleared : (pttl key (record db { expiry = HashMap.remove key db.expiry })).0 ≡ ok (negsuc 0)
      cleared = ground (arith, lookup-remove_self key db.expiry)

      seen : visible j (record db { expiry = HashMap.remove key db.expiry }) ≡ visible j db
      seen = ground (arith, eq_iff key j, lookup-remove key j db.expiry)
