-- ===== src/Replay/Durable/Runs.antt =====
-- Runs of the commands of crates/redis-wasm-core/src/db.rs on keys that have not expired, and the log
-- at their end.
use mathlib.Core.Path.{subst}
use kvasm.Common.{
  ℕ, String, ◌≡◌, refl, sym, false, some, [], ◌∷◌, Result, ok, Option-cases, inl, inr,
}
use kvasm.HashMap.{lookup}
use kvasm.Float.{Float64}
use kvasm.Value.{Value, TypeError}
use kvasm.Wal.{WalWriterTrait}
use kvasm.Db.{Db, DbError, expired}
use kvasm.Db.Persist.{set_compaction_threshold}
use kvasm.Db.Valid.{IsValid}
use kvasm.Db.Keys.{set, del_async}
use kvasm.Db.Lists.{lpush, rpush, lpop, rpop, lset, lrem, ltrim, current_len, llen}
use kvasm.Db.Sets.{sadd, srem, check_set, scard}
use kvasm.Db.Zsets.{zadd, zrem, check_sorted_set, zcard}
use kvasm.Db.Hashes.{hset, hdel}
use kvasm.Db.Expire.{expire_at, persist}
use kvasm.Replay.{replay, empty_tables}
use kvasm.Replay.Agree.{refl-Agree}
use kvasm.Replay.Durable.{Log, IsDurable, tables, unlogged-IsDurable}
use kvasm.Replay.Durable.Parts.{purge_then-IsDurable}
use kvasm.Db.Strings.{append, setrange, incr_by, incr_by_float, strlen}
use kvasm.Db.{build, read_key, read_key_or}
use kvasm.Db.Valid.Steps.{Step, Step-IsValid}
use kvasm.Replay.Durable.Commands.{
  lpush-IsDurable, rpush-IsDurable, zadd-IsDurable, sadd-IsDurable, hset-IsDurable, srem-IsDurable,
  hdel-IsDurable, lrem-IsDurable, zrem-IsDurable,
}
use kvasm.Replay.Durable.Lists.{lset-IsDurable, ltrim-IsDurable, lpop-IsDurable, rpop-IsDurable}
use kvasm.Replay.Durable.Keys.{
  append-IsDurable, setrange-IsDurable, incr_by-IsDurable, incr_by_float-IsDurable, set-IsDurable,
  expire_at-IsDurable, persist-IsDurable,
}
use kvasm.Replay.Durable.Del.{del_async-IsDurable}
use kvasm.Replay.Durable.Reads.{AllLive, exists_live, sinter_live, sunion_live, sdiff_live}

-- The result is a success.
abbrev pub Succeeds : {A : Type 0} → Result DbError A → Type 0
Succeeds {A} r = (y : A) × (r ≡ ok y)

module _ {F W : Type 0} (f : Float64 F) {writer : WalWriterTrait W F} (log : Log writer) where
  read_key-IsDurable :
      {A : Type 0} (key : String) (default : A) (op : Value F → Result TypeError A) (db : Db F W)
      → expired key db ≡ false
      → IsDurable f log db
      → IsDurable f log (read_key key default op db).1
  unfolding read_key
  read_key-IsDurable key default op db e h = rw e (elim (Option-cases (lookup key db.data_map)) [
    | inl n ↦ rw (n, read_key) h
    | inr (v, n) ↦ rw (n, read_key) h
  ])

  read_key_or-IsDurable :
      {A : Type 0} (key : String) (default : A) (op : Value F → Result TypeError A) (db : Db F W)
      → expired key db ≡ false
      → IsDurable f log db
      → IsDurable f log (read_key_or key default op db).1
  unfolding read_key_or
  read_key_or-IsDurable key default op db e h = rw e (elim (Option-cases (lookup key db.data_map)) [
    | inl n ↦ rw (n, read_key_or) h
    | inr (v, n) ↦ rw (n, read_key_or) h
  ])

  lpush_nothing-IsDurable :
      (key : String) (y : ℕ) (db : Db F W)
      → expired key db ≡ false
      → (lpush writer key [] db).0 ≡ ok y
      → IsDurable f log db
      → IsDurable f log (lpush writer key [] db).1
  unfolding lpush current_len llen
  lpush_nothing-IsDurable key y db e r h =
      purge_then-IsDurable f log key (current_len key) y db e
        (λ _. read_key-IsDurable key _ _ db e h) r

  rpush_nothing-IsDurable :
      (key : String) (y : ℕ) (db : Db F W)
      → expired key db ≡ false
      → (rpush writer key [] db).0 ≡ ok y
      → IsDurable f log db
      → IsDurable f log (rpush writer key [] db).1
  unfolding rpush current_len llen
  rpush_nothing-IsDurable key y db e r h =
      purge_then-IsDurable f log key (current_len key) y db e
        (λ _. read_key-IsDurable key _ _ db e h) r

  sadd_nothing-IsDurable :
      (key : String) (y : ℕ) (db : Db F W)
      → expired key db ≡ false
      → (sadd writer key [] db).0 ≡ ok y
      → IsDurable f log db
      → IsDurable f log (sadd writer key [] db).1
  unfolding sadd check_set scard
  sadd_nothing-IsDurable key y db e r h =
      purge_then-IsDurable f log key (check_set key) y db e (λ _. read_key-IsDurable key _ _ db e h)
        r

  zadd_nothing-IsDurable :
      (key : String) (y : ℕ) (db : Db F W)
      → expired key db ≡ false
      → (zadd f writer key [] db).0 ≡ ok y
      → IsDurable f log db
      → IsDurable f log (zadd f writer key [] db).1
  unfolding zadd check_sorted_set zcard
  zadd_nothing-IsDurable key y db e r h =
      purge_then-IsDurable f log key (check_sorted_set f key) y db e
        (λ _. read_key-IsDurable key _ _ db e h) r

  setrange_nothing-IsDurable :
      (key : String) (offset y : ℕ) (db : Db F W)
      → expired key db ≡ false
      → (setrange writer key offset [] db).0 ≡ ok y
      → IsDurable f log db
      → IsDurable f log (setrange writer key offset [] db).1
  unfolding setrange strlen
  setrange_nothing-IsDurable key offset y db e r h =
      purge_then-IsDurable f log key (strlen key) y db e (λ _. read_key_or-IsDurable key _ _ db e h)
        r

  -- The steps that the log follows: a tick of the clock, a command on keys that have not expired, and
  -- of the commands that write, one that succeeds. SET, DEL, EXPIRE and PERSIST may also find their
  -- key expired. `del` without the log and the cleaner are not among them.
  unfoldable pub IsLogged : {a b : Db F W} → Step f writer a b → Type 0
  IsLogged (Step.tick ms k) = Unit
  IsLogged {a} (Step.read key default op) = expired key a ≡ false
  IsLogged {a} (Step.read_or key default op) = expired key a ≡ false
  IsLogged {a} (Step.set key value) = Succeeds (set writer key value a).0
  IsLogged {a} (Step.del_async ks) = Succeeds (del_async writer ks a).0
  IsLogged {a} (Step.expire_at key ms) = Succeeds (expire_at writer key ms a).0
  IsLogged {a} (Step.persist key) = Succeeds (persist writer key a).0
  IsLogged {a} (Step.append key value) =
      (expired key a ≡ false) × Succeeds (append writer key value a).0
  IsLogged {a} (Step.setrange key offset value) =
      (expired key a ≡ false) × Succeeds (setrange writer key offset value a).0
  IsLogged {a} (Step.incr_by key delta) =
      (expired key a ≡ false) × Succeeds (incr_by writer key delta a).0
  IsLogged {a} (Step.incr_by_float key delta) =
      (expired key a ≡ false) × Succeeds (incr_by_float writer f key delta a).0
  IsLogged {a} (Step.lpush key values) =
      (expired key a ≡ false) × Succeeds (lpush writer key values a).0
  IsLogged {a} (Step.rpush key values) =
      (expired key a ≡ false) × Succeeds (rpush writer key values a).0
  IsLogged {a} (Step.lpop key count) =
      (expired key a ≡ false) × Succeeds (lpop writer key count a).0
  IsLogged {a} (Step.rpop key count) =
      (expired key a ≡ false) × Succeeds (rpop writer key count a).0
  IsLogged {a} (Step.lset key index value) =
      (expired key a ≡ false) × Succeeds (lset writer key index value a).0
  IsLogged {a} (Step.lrem key count value) =
      (expired key a ≡ false) × Succeeds (lrem writer key count value a).0
  IsLogged {a} (Step.ltrim key from to) =
      (expired key a ≡ false) × Succeeds (ltrim writer key from to a).0
  IsLogged {a} (Step.sadd key members) =
      (expired key a ≡ false) × Succeeds (sadd writer key members a).0
  IsLogged {a} (Step.srem key members) =
      (expired key a ≡ false) × Succeeds (srem writer key members a).0
  IsLogged {a} (Step.zadd key members) =
      (expired key a ≡ false) × Succeeds (zadd f writer key members a).0
  IsLogged {a} (Step.zrem key members) =
      (expired key a ≡ false) × Succeeds (zrem f writer key members a).0
  IsLogged {a} (Step.hset key field value) =
      (expired key a ≡ false) × Succeeds (hset writer key field value a).0
  IsLogged {a} (Step.hdel key fields) =
      (expired key a ≡ false) × Succeeds (hdel writer key fields a).0
  IsLogged {a} (Step.exists ks) = AllLive ks a
  IsLogged {a} (Step.sinter ks) = AllLive ks a
  IsLogged {a} (Step.sunion ks) = AllLive ks a
  IsLogged {a} (Step.sdiff key ks) = AllLive (key ∷ ks) a
  IsLogged Step.clean = ⊥
  IsLogged (Step.delete ks) = ⊥

  -- The databases that a new one with an empty log and no compaction comes to by such steps.
  pub data Run : Db F W → Type 1 where
    opened :
        (w : W) (now : ℕ) → log.Holds [] w → Run (set_compaction_threshold 0 (build (some w) now))
    then : {a b : Db F W} → Run a → (step : Step f writer a b) → IsLogged step → Run b

  Step-IsDurable :
      {a b : Db F W} (step : Step f writer a b)
      → IsLogged step
      → IsValid f a
      → IsDurable f log a
      → IsDurable f log b
  unfolding IsLogged
  Step-IsDurable {a} (Step.tick ms k) l v h =
      unlogged-IsDurable f log (record { compaction_threshold = refl; wal = refl })
        (refl-Agree (tables a)) h
  Step-IsDurable {a} (Step.read key default op) l v h = read_key-IsDurable key default op a l h
  Step-IsDurable {a} (Step.read_or key default op) l v h =
      read_key_or-IsDurable key default op a l h
  Step-IsDurable {a} (Step.set key value) (y, r) v h = set-IsDurable f log key value y a r h
  Step-IsDurable {a} (Step.del_async ks) (y, r) v h = del_async-IsDurable f log ks y a v r h
  Step-IsDurable {a} (Step.expire_at key ms) (y, r) v h = expire_at-IsDurable f log key ms y a r h
  Step-IsDurable {a} (Step.persist key) (y, r) v h = persist-IsDurable f log key y a r h
  Step-IsDurable {a} (Step.append key value) (e, (y, r)) v h =
      append-IsDurable f log key value y a e r h
  Step-IsDurable {a} (Step.setrange key offset []) (e, (y, r)) v h =
      setrange_nothing-IsDurable key offset y a e r h
  Step-IsDurable {a} (Step.setrange key offset (x ∷ xs)) (e, (y, r)) v h =
      setrange-IsDurable f log key offset x xs y a e r h
  Step-IsDurable {a} (Step.incr_by key delta) (e, (y, r)) v h =
      incr_by-IsDurable f log key delta y a e r h
  Step-IsDurable {a} (Step.incr_by_float key delta) (e, (y, r)) v h =
      incr_by_float-IsDurable f log key delta y a e r h
  Step-IsDurable {a} (Step.lpush key []) (e, (y, r)) v h = lpush_nothing-IsDurable key y a e r h
  Step-IsDurable {a} (Step.lpush key (x ∷ xs)) (e, (y, r)) v h =
      lpush-IsDurable f log key x xs y a e r h
  Step-IsDurable {a} (Step.rpush key []) (e, (y, r)) v h = rpush_nothing-IsDurable key y a e r h
  Step-IsDurable {a} (Step.rpush key (x ∷ xs)) (e, (y, r)) v h =
      rpush-IsDurable f log key x xs y a e r h
  Step-IsDurable {a} (Step.lpop key count) (e, (y, r)) v h =
      lpop-IsDurable f log key count y a e r h
  Step-IsDurable {a} (Step.rpop key count) (e, (y, r)) v h =
      rpop-IsDurable f log key count y a e r h
  Step-IsDurable {a} (Step.lset key index value) (e, (y, r)) v h =
      lset-IsDurable f log key index value y a e r h
  Step-IsDurable {a} (Step.lrem key count value) (e, (y, r)) v h =
      lrem-IsDurable f log key count value y a e r h
  Step-IsDurable {a} (Step.ltrim key from to) (e, (y, r)) v h =
      ltrim-IsDurable f log key from to y a e r h
  Step-IsDurable {a} (Step.sadd key []) (e, (y, r)) v h = sadd_nothing-IsDurable key y a e r h
  Step-IsDurable {a} (Step.sadd key (x ∷ xs)) (e, (y, r)) v h =
      sadd-IsDurable f log key x xs y a e r h
  Step-IsDurable {a} (Step.srem key members) (e, (y, r)) v h =
      srem-IsDurable f log key members y a e r h
  Step-IsDurable {a} (Step.zadd key []) (e, (y, r)) v h = zadd_nothing-IsDurable key y a e r h
  Step-IsDurable {a} (Step.zadd key (x ∷ xs)) (e, (y, r)) v h =
      zadd-IsDurable f log key x xs y a e r h
  Step-IsDurable {a} (Step.zrem key members) (e, (y, r)) v h =
      zrem-IsDurable f log key members y a e r h
  Step-IsDurable {a} (Step.hset key field value) (e, (y, r)) v h =
      hset-IsDurable f log key field value y a e r h
  Step-IsDurable {a} (Step.hdel key fields) (e, (y, r)) v h =
      hdel-IsDurable f log key fields y a e r h
  Step-IsDurable Step.clean l v h = absurd l
  Step-IsDurable (Step.delete ks) l v h = absurd l
  Step-IsDurable {a} (Step.exists ks) l v h = subst (IsDurable f log) (sym (exists_live ks a l)) h
  Step-IsDurable {a} (Step.sinter ks) l v h = subst (IsDurable f log) (sym (sinter_live ks a l)) h
  Step-IsDurable {a} (Step.sunion ks) l v h = subst (IsDurable f log) (sym (sunion_live ks a l)) h
  Step-IsDurable {a} (Step.sdiff key ks) l v h =
      subst (IsDurable f log) (sym (sdiff_live key ks a l)) h

  Run-IsValid : {db : Db F W} → Run db → IsValid f db
  unfolding build set_compaction_threshold lookup
  Run-IsValid (Run.opened w now e) = record {
    distinct = tt;
    expiry_distinct = tt;
    covered = λ j e. refl;
    healthy = tt;
  }
  Run-IsValid (Run.then r step l) = Step-IsValid f writer step (Run-IsValid r)

  -- What every run keeps.
  pub Run-IsDurable : {db : Db F W} → Run db → IsDurable f log db
  unfolding build set_compaction_threshold replay
  Run-IsDurable (Run.opened w now e) = record {
    uncompacted = refl;
    w = w;
    attached = refl;
    entries = [];
    holds = e;
    count = 0;
    replayed = empty_tables;
    replays = refl;
    agree = refl-Agree empty_tables;
  }
  Run-IsDurable (Run.then r step l) = Step-IsDurable step l (Run-IsValid r) (Run-IsDurable r)
