-- ===== src/Db/Valid/Commands.antt =====
-- The commands of crates/redis-wasm-core/src/db.rs on values, each by the rules of its parts.
use kvasm.Common.{
  ℕ, arith, String, Option, none, some, List, [], ◌∷◌, Result, pure, ◌>>=◌, Bool-cases,
  Option-cases, inl, inr,
}
use kvasm.Common.Int.{ℤ}
use kvasm.HashMap.{lookup, HashSet}
use kvasm.Float.{Float64}
use kvasm.SortedSet.Synced.{empty-IsSynced}
use kvasm.Value.{Value}
use kvasm.Value.WellFormed.{IsWellFormed, Safe}
use kvasm.Wal.{WalEntry, WalWriterTrait}
use kvasm.Db.{DbError, Command, expired}
use kvasm.Db.Strings.{incr_value, incr_float_value}
use kvasm.Db.Strings.{log_string, modify_string, append, setrange, incr_by, incr_by_float}
use kvasm.Db.Lists.{llen, lpush, rpush, lpop, rpop, lset, lrem, ltrim, current_len, log_popped}
use kvasm.Db.Sets.{
  scard, set_at, sinter_loop, sunion_loop, sdiff_loop, sinter, sunion, sdiff, check_set, sadd, srem,
}
use kvasm.Db.Zsets.{zcard, check_sorted_set, zadd, zrem}
use kvasm.Db.Hashes.{hset, hdel}
use kvasm.Db.Valid.{Keeps, keeps_rules, del-Keeps, read_key-Keeps, write_wal-Keeps, bind-Keeps}

module _ {F : Type 0} (f : Float64 F) where
  incr_value-Safe : (delta : ℤ) → Safe f (incr_value delta)
  unfolding incr_value
  incr_value-Safe delta = record { at = well_formed }
    where
      well_formed : (v : Value F) → IsWellFormed f v → IsWellFormed f (incr_value delta v).1
      well_formed (Value.string s) h = ground arith
      well_formed _ h = h

  incr_float_value-Safe : (delta : F) → Safe f (incr_float_value f delta)
  unfolding incr_float_value
  incr_float_value-Safe delta = record { at = well_formed }
    where
      well_formed : (v : Value F) → IsWellFormed f v → IsWellFormed f (incr_float_value f delta v).1
      well_formed (Value.string s) h = ground arith
      well_formed _ h = h

module _ {F W : Type 0} {f : Float64 F} where
  current_len-Keeps : (key : String) → Keeps f (current_len {F = F} {W = W} key)
  unfolding current_len llen
  current_len-Keeps key = record { at = λ db h. (read_key-Keeps key _ _).at db h }

  check_set-Keeps : (key : String) → Keeps f (check_set {F = F} {W = W} key)
  unfolding check_set scard
  check_set-Keeps key = record { at = λ db h. (read_key-Keeps key _ _).at db h }

  check_sorted_set-Keeps : (key : String) → Keeps f (check_sorted_set {W = W} f key)
  unfolding check_sorted_set zcard
  check_sorted_set-Keeps key = record { at = λ db h. (read_key-Keeps key _ _).at db h }

  set_at-Keeps : (key : String) → Keeps f (set_at {F = F} {W = W} key)
  unfolding set_at
  set_at-Keeps key = record {
    at = λ db h. elim (Bool-cases (expired key db)) [
      | inl e ↦ rw e ((del-Keeps (key ∷ [])).at db h)
      | inr e ↦ rw e (elim (Option-cases (lookup key db.data_map)) [
        | inl n ↦ rw (n, set_at) h
        | inr (v, n) ↦ rw (n, set_at) h
      ])
    ];
  }

  or_empty-Keeps :
      (o : Option HashSet) (g : HashSet → Command F W (List String))
      → ((s : HashSet) → Keeps f (g s))
      → Keeps {F = F} {W = W} {A = List String} f (elim o [ none ↦ pure [] | some s ↦ g s ])
  or_empty-Keeps none g k = search keeps_rules
  or_empty-Keeps (some s) g k = k s

  when_found-Keeps :
      (key : String) (g : HashSet → Command F W (List String))
      → ((s : HashSet) → Keeps f (g s))
      → Keeps {F = F} {W = W} {A = List String} f
          (do found ← set_at key; elim found [ none ↦ pure [] | some s ↦ g s ])
  when_found-Keeps key g k =
      bind-Keeps (set_at key) _ (set_at-Keeps key) (λ o. or_empty-Keeps o g k)

  sinter_loop-Keeps : (ks : List String) (s : HashSet) → Keeps f (sinter_loop {F = F} {W = W} ks s)
  unfolding sinter_loop
  sinter_loop-Keeps [] s = search keeps_rules
  sinter_loop-Keeps (key ∷ ks) s = when_found-Keeps key _ (λ other. sinter_loop-Keeps ks _)

  sunion_loop-Keeps : (ks : List String) (s : HashSet) → Keeps f (sunion_loop {F = F} {W = W} ks s)
  unfolding sunion_loop
  sunion_loop-Keeps [] s = search keeps_rules
  sunion_loop-Keeps (key ∷ ks) s = search (keeps_rules, set_at-Keeps, sunion_loop-Keeps ks)

  sdiff_loop-Keeps : (ks : List String) (s : HashSet) → Keeps f (sdiff_loop {F = F} {W = W} ks s)
  unfolding sdiff_loop
  sdiff_loop-Keeps [] s = search keeps_rules
  sdiff_loop-Keeps (key ∷ ks) s = search (keeps_rules, set_at-Keeps, sdiff_loop-Keeps ks)

  pub sinter-Keeps : (ks : List String) → Keeps f (sinter {F = F} {W = W} ks)
  unfolding sinter
  sinter-Keeps [] = search keeps_rules
  sinter-Keeps (key ∷ ks) = when_found-Keeps key _ (sinter_loop-Keeps ks)

  pub sunion-Keeps : (ks : List String) → Keeps f (sunion {F = F} {W = W} ks)
  unfolding sunion
  sunion-Keeps ks = sunion_loop-Keeps ks []

  pub sdiff-Keeps : (key : String) (ks : List String) → Keeps f (sdiff {F = F} {W = W} key ks)
  unfolding sdiff
  sdiff-Keeps key ks = when_found-Keeps key _ (sdiff_loop-Keeps ks)

module _ {F W : Type 0} {f : Float64 F} (writer : WalWriterTrait W F) where
  log_string-Keeps : (key : String) → Keeps f (log_string writer key)
  unfolding log_string
  log_string-Keeps key = record { at = λ db h. (write_wal-Keeps writer _).at db h }

  modify_string-Keeps :
      {A : Type 0} (key : String) (op : Value F → Result DbError A × Value F)
      → Safe f op
      → Keeps f (modify_string writer key op)
  unfolding modify_string
  modify_string-Keeps key op safe = search (keeps_rules, log_string-Keeps)

  pub append-Keeps : (key : String) (value : List ℕ) → Keeps f (append writer key value)
  unfolding append
  append-Keeps key value = search (keeps_rules, modify_string-Keeps)

  pub setrange-Keeps :
      (key : String) (offset : ℕ) (value : List ℕ) → Keeps f (setrange writer key offset value)
  unfolding setrange
  setrange-Keeps key offset [] = search keeps_rules
  setrange-Keeps key offset (b ∷ value) = search (keeps_rules, modify_string-Keeps)

  pub incr_by-Keeps : (key : String) (delta : ℤ) → Keeps f (incr_by writer key delta)
  unfolding incr_by
  incr_by-Keeps key delta = search (keeps_rules, modify_string-Keeps, incr_value-Safe)

  pub incr_by_float-Keeps : (key : String) (delta : F) → Keeps f (incr_by_float writer f key delta)
  unfolding incr_by_float
  incr_by_float-Keeps key delta = search (keeps_rules, modify_string-Keeps, incr_float_value-Safe)

  pub lpush-Keeps : (key : String) (values : List String) → Keeps f (lpush writer key values)
  unfolding lpush
  lpush-Keeps key [] = search (keeps_rules, current_len-Keeps)
  lpush-Keeps key (v ∷ vs) = search keeps_rules

  pub rpush-Keeps : (key : String) (values : List String) → Keeps f (rpush writer key values)
  unfolding rpush
  rpush-Keeps key [] = search (keeps_rules, current_len-Keeps)
  rpush-Keeps key (v ∷ vs) = search keeps_rules

  log_popped-Keeps :
      (popped : List String) (entry : WalEntry F) → Keeps f (log_popped writer popped entry)
  unfolding log_popped
  log_popped-Keeps [] entry = search keeps_rules
  log_popped-Keeps (x ∷ xs) entry = search keeps_rules

  pub lpop-Keeps : (key : String) (count : ℕ) → Keeps f (lpop writer key count)
  unfolding lpop
  lpop-Keeps key count = search (keeps_rules, log_popped-Keeps)

  pub rpop-Keeps : (key : String) (count : ℕ) → Keeps f (rpop writer key count)
  unfolding rpop
  rpop-Keeps key count = search (keeps_rules, log_popped-Keeps)

  pub lset-Keeps :
      (key : String) (index : ℤ) (value : String) → Keeps f (lset writer key index value)
  unfolding lset
  lset-Keeps key index value = search keeps_rules

  pub lrem-Keeps :
      (key : String) (count : ℤ) (value : String) → Keeps f (lrem writer key count value)
  unfolding lrem
  lrem-Keeps key count value = search keeps_rules

  pub ltrim-Keeps : (key : String) (start stop : ℤ) → Keeps f (ltrim writer key start stop)
  unfolding ltrim
  ltrim-Keeps key start stop = search keeps_rules

  pub sadd-Keeps : (key : String) (members : List String) → Keeps f (sadd writer key members)
  unfolding sadd
  sadd-Keeps key [] = search (keeps_rules, check_set-Keeps)
  sadd-Keeps key (m ∷ ms) = search keeps_rules

  pub srem-Keeps : (key : String) (members : List String) → Keeps f (srem writer key members)
  unfolding srem
  srem-Keeps key members = search keeps_rules

  pub zadd-Keeps :
      (key : String) (members : List (String × F)) → Keeps f (zadd f writer key members)
  unfolding zadd
  zadd-Keeps key [] = search (keeps_rules, check_sorted_set-Keeps)
  zadd-Keeps key (m ∷ ms) = search (keeps_rules, empty-IsSynced)

  pub zrem-Keeps : (key : String) (members : List String) → Keeps f (zrem f writer key members)
  unfolding zrem
  zrem-Keeps key members = search keeps_rules

  pub hset-Keeps : (key field value : String) → Keeps f (hset writer key field value)
  unfolding hset
  hset-Keeps key field value = search keeps_rules

  pub hdel-Keeps : (key : String) (fields : List String) → Keeps f (hdel writer key fields)
  unfolding hdel
  hdel-Keeps key fields = search keeps_rules
