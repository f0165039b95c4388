-- ===== src/Db/Valid/Steps.antt =====
-- The commands of crates/redis-wasm-core/src/db.rs as the steps of a database, with the ticks of
-- the clock and of the cleaner between them, and the states that they reach.
use kvasm.Common.{ℕ, ◌≤◌, String, refl, Option, List, Result, arith}
use kvasm.Common.Int.{ℤ}
use kvasm.HashMap.{lookup}
use kvasm.Float.{Float64}
use kvasm.Value.{Value, TypeError}
use kvasm.Value.WellFormed.{IsWellFormed}
use kvasm.Wal.{WalWriterTrait}
use kvasm.Expiry.{is_expired}
use kvasm.Expiry.Laws.{
  cleanup_expired-IsDistinct, cleanup_data-IsDistinct, cleanup_data-AllValues,
  lookup-cleanup_expired, lookup-cleanup_data, drop_expired,
}
use kvasm.Db.{Db, build, del, read_key, read_key_or}
use kvasm.Db.Keys
use kvasm.Db.Strings
use kvasm.Db.Lists
use kvasm.Db.Sets
use kvasm.Db.Zsets
use kvasm.Db.Hashes
use kvasm.Db.Expire
use kvasm.Db.Valid.{IsValid, del-Keeps, read_key-Keeps, read_key_or-Keeps}
use kvasm.Db.Valid.Keys.{set-Keeps, del_async-Keeps, exists-Keeps, expire_at-Keeps, persist-Keeps}
use kvasm.Db.Valid.Commands.{
  sinter-Keeps, sunion-Keeps, sdiff-Keeps, append-Keeps, setrange-Keeps, incr_by-Keeps,
  incr_by_float-Keeps, lpush-Keeps, rpush-Keeps, lpop-Keeps, rpop-Keeps, lset-Keeps, lrem-Keeps,
  ltrim-Keeps, sadd-Keeps, srem-Keeps, zadd-Keeps, zrem-Keeps, hset-Keeps, hdel-Keeps,
}

module _ {F W : Type 0} (f : Float64 F) where
  clean-IsValid : (db : Db F W) → IsValid f db → IsValid f (Expire.clean db)
  unfolding Expire.clean is_expired
  clean-IsValid db h = record {
    healthy = cleanup_data-AllValues (IsWellFormed f) db.now db.expiry db.data_map h.healthy;
    distinct = cleanup_data-IsDistinct db.now db.expiry db.data_map h.distinct;
    expiry_distinct = cleanup_expired-IsDistinct _ db.now db.expiry db.data_map h.expiry_distinct;
    covered = λ j e. ground (
      arith,
      lookup-cleanup_data db.now db.expiry db.data_map j h.expiry_distinct,
      lookup-cleanup_expired (drop_expired db.now) db.now db.expiry db.data_map j h.expiry_distinct,
      h.covered j,
    );
  }

module _ {F W : Type 0} where
  -- `read` and `read_or` stand for the commands that read one value, `expire_at` for `expire` and
  -- `pexpire`.
  pub data Step (f : Float64 F) (writer : WalWriterTrait W F) (db : Db F W) : Db F W → Type 1 where
    tick : (ms : ℕ) → db.now ≤ ms → Step f writer db (record db { now = ms })
    clean : Step f writer db (Expire.clean db)
    delete : (ks : List String) → Step f writer db (del ks db).1
    exists : (ks : List String) → Step f writer db (Keys.exists ks db).1
    read :
        {A : Type 0} (key : String) (default : A) (op : Value F → Result TypeError A)
        → Step f writer db (read_key key default op db).1
    read_or :
        {A : Type 0} (key : String) (default : A) (op : Value F → Result TypeError A)
        → Step f writer db (read_key_or key default op db).1
    sinter : (ks : List String) → Step f writer db (Sets.sinter ks db).1
    sunion : (ks : List String) → Step f writer db (Sets.sunion ks db).1
    sdiff : (key : String) (ks : List String) → Step f writer db (Sets.sdiff key ks db).1
    set : (key : String) (value : List ℕ) → Step f writer db (Keys.set writer key value db).1
    del_async : (ks : List String) → Step f writer db (Keys.del_async writer ks db).1
    expire_at : (key : String) (ms : ℕ) → Step f writer db (Expire.expire_at writer key ms db).1
    persist : (key : String) → Step f writer db (Expire.persist writer key db).1
    append :
        (key : String) (value : List ℕ) → Step f writer db (Strings.append writer key value db).1
    setrange :
        (key : String) (offset : ℕ) (value : List ℕ)
        → Step f writer db (Strings.setrange writer key offset value db).1
    incr_by : (key : String) (delta : ℤ) → Step f writer db (Strings.incr_by writer key delta db).1
    incr_by_float :
        (key : String) (delta : F)
        → Step f writer db (Strings.incr_by_float writer f key delta db).1
    lpush :
        (key : String) (values : List String)
        → Step f writer db (Lists.lpush writer key values db).1
    rpush :
        (key : String) (values : List String)
        → Step f writer db (Lists.rpush writer key values db).1
    lpop : (key : String) (count : ℕ) → Step f writer db (Lists.lpop writer key count db).1
    rpop : (key : String) (count : ℕ) → Step f writer db (Lists.rpop writer key count db).1
    lset :
        (key : String) (index : ℤ) (value : String)
        → Step f writer db (Lists.lset writer key index value db).1
    lrem :
        (key : String) (count : ℤ) (value : String)
        → Step f writer db (Lists.lrem writer key count value db).1
    ltrim :
        (key : String) (start stop : ℤ) → Step f writer db (Lists.ltrim writer key start stop db).1
    sadd :
        (key : String) (members : List String)
        → Step f writer db (Sets.sadd writer key members db).1
    srem :
        (key : String) (members : List String)
        → Step f writer db (Sets.srem writer key members db).1
    zadd :
        (key : String) (members : List (String × F))
        → Step f writer db (Zsets.zadd f writer key members db).1
    zrem :
        (key : String) (members : List String)
        → Step f writer db (Zsets.zrem f writer key members db).1
    hset : (key field value : String) → Step f writer db (Hashes.hset writer key field value db).1
    hdel :
        (key : String) (fields : List String)
        → Step f writer db (Hashes.hdel writer key fields db).1

  -- The states that a new database reaches.
  pub data Reach (f : Float64 F) (writer : WalWriterTrait W F) : Db F W → Type 1 where
    opened : (wal : Option W) (now : ℕ) → Reach f writer (build wal now)
    next : {a b : Db F W} → Reach f writer a → Step f writer a b → Reach f writer b

module _ {F W : Type 0} (f : Float64 F) (writer : WalWriterTrait W F) where
  pub Step-IsValid : {a b : Db F W} → Step f writer a b → IsValid f a → IsValid f b
  Step-IsValid (Step.tick ms k) h = record {
    distinct = h.distinct;
    expiry_distinct = h.expiry_distinct;
    covered = h.covered;
    healthy = h.healthy;
  }
  Step-IsValid Step.clean h = clean-IsValid f _ h
  Step-IsValid (Step.delete ks) h = (del-Keeps ks).at _ h
  Step-IsValid (Step.exists ks) h = (exists-Keeps ks).at _ h
  Step-IsValid (Step.read key default op) h = (read_key-Keeps key default op).at _ h
  Step-IsValid (Step.read_or key default op) h = (read_key_or-Keeps key default op).at _ h
  Step-IsValid (Step.sinter ks) h = (sinter-Keeps ks).at _ h
  Step-IsValid (Step.sunion ks) h = (sunion-Keeps ks).at _ h
  Step-IsValid (Step.sdiff key ks) h = (sdiff-Keeps key ks).at _ h
  Step-IsValid (Step.set key value) h = (set-Keeps writer key value).at _ h
  Step-IsValid (Step.del_async ks) h = (del_async-Keeps writer ks).at _ h
  Step-IsValid (Step.expire_at key ms) h = (expire_at-Keeps writer key ms).at _ h
  Step-IsValid (Step.persist key) h = (persist-Keeps writer key).at _ h
  Step-IsValid (Step.append key value) h = (append-Keeps writer key value).at _ h
  Step-IsValid (Step.setrange key offset value) h = (setrange-Keeps writer key offset value).at _ h
  Step-IsValid (Step.incr_by key delta) h = (incr_by-Keeps writer key delta).at _ h
  Step-IsValid (Step.lpush key values) h = (lpush-Keeps writer key values).at _ h
  Step-IsValid (Step.rpush key values) h = (rpush-Keeps writer key values).at _ h
  Step-IsValid (Step.lpop key count) h = (lpop-Keeps writer key count).at _ h
  Step-IsValid (Step.rpop key count) h = (rpop-Keeps writer key count).at _ h
  Step-IsValid (Step.lset key index value) h = (lset-Keeps writer key index value).at _ h
  Step-IsValid (Step.lrem key count value) h = (lrem-Keeps writer key count value).at _ h
  Step-IsValid (Step.ltrim key start stop) h = (ltrim-Keeps writer key start stop).at _ h
  Step-IsValid (Step.sadd key members) h = (sadd-Keeps writer key members).at _ h
  Step-IsValid (Step.srem key members) h = (srem-Keeps writer key members).at _ h
  Step-IsValid (Step.hset key field value) h = (hset-Keeps writer key field value).at _ h
  Step-IsValid (Step.hdel key fields) h = (hdel-Keeps writer key fields).at _ h
  Step-IsValid (Step.incr_by_float key delta) h = (incr_by_float-Keeps writer key delta).at _ h
  Step-IsValid (Step.zadd key members) h = (zadd-Keeps writer key members).at _ h
  Step-IsValid (Step.zrem key members) h = (zrem-Keeps writer key members).at _ h

  -- In every state that a new database reaches by commands, ticks of the clock and runs of the
  -- cleaner, whatever the log writer does, no key stands twice in a table, a key without data has
  -- no expiry time, and every stored value is well formed: no member stands twice in a set and no
  -- field in a hash, and the two views of a sorted set hold the same members, at scores that
  -- OrderedFloat calls equal.
  pub Reach-IsValid : {db : Db F W} → Reach f writer db → IsValid f db
  unfolding build lookup
  Reach-IsValid (Reach.opened wal now) = record {
    distinct = tt;
    expiry_distinct = tt;
    covered = λ j e. refl;
    healthy = tt;
  }
  Reach-IsValid (Reach.next r step) = Step-IsValid step (Reach-IsValid r)
