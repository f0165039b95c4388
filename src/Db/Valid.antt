-- ===== src/Db/Valid.antt =====
-- The tables of `RedisWasmDb` of crates/redis-wasm-core/src/db.rs under the parts that its commands
-- share.
pub mod Commands
pub mod Keys
pub mod Steps
use kvasm.Common.{
  ℕ, suc, String, ◌≡◌, refl, sym, ◌∙◌, ap, Bool, true, false, Option, none, some, List, [], ◌∷◌,
  ◌==◌, eq_iff, Result, ok, err, pure, ◌>>=◌, ◌>>◌, if◌then◌else◌, arith, Result-cases,
  Option-cases, Bool-cases, inl, inr,
}
use kvasm.HashMap
use kvasm.HashMap.{HashMap, lookup, insert, contains_key}
use kvasm.HashMap.Laws.{
  IsDistinct, insert-IsDistinct, remove-IsDistinct, lookup-insert, lookup-remove, AllValues,
  insert-AllValues, remove-AllValues, AllValues-lookup,
}
use kvasm.Float.{Float64}
use kvasm.Value.{Value, TypeError, Write}
use kvasm.Value.WellFormed.{
  IsWellFormed, Safe, lpush-Safe, rpush-Safe, lpop-Safe, rpop-Safe, lset-Safe, lrem-Safe,
  ltrim-Safe, append-Safe, set_range-Safe, sadd-Safe, srem-Safe, zadd-Safe, zrem-Safe, hset-Safe,
  hdel-Safe,
}
use kvasm.Wal.{WalEntry, WalWriterTrait}
use kvasm.Db.{
  Db, DbError, Command, del, del_loop, purge_expired, read_key, read_key_or, upsert, update,
  on_live, expired, key_not_found, or_insert_with, typed,
}
use kvasm.Db.Persist.{write_wal}
use kvasm.Db.Frame.{SameTables, write_wal-SameTables}

pub record IsValid {F W : Type 0} (f : Float64 F) (db : Db F W) : Type 0 where
  pub distinct : IsDistinct db.data_map
  pub expiry_distinct : IsDistinct db.expiry
  pub covered : (j : String) → lookup j db.data_map ≡ none → lookup j db.expiry ≡ none
  pub healthy : AllValues (IsWellFormed f) db.data_map

-- A command leaves valid tables valid, whether it succeeds or fails.
pub record Keeps {F W A : Type 0} (f : Float64 F) (m : Command F W A) : Type 0 where
  pub at : (db : Db F W) → IsValid f db → IsValid f (m db).1

pub typed-Safe : {F A : Type 0} {f : Float64 F} (op : Write F A) → Safe f op → Safe f (typed op)
typed-Safe op safe = record { at = safe.at }

module _ {F W : Type 0} {f : Float64 F} where
  pub SameTables-IsValid : {a b : Db F W} → SameTables a b → IsValid f b → IsValid f a
  SameTables-IsValid {a} {b} s h = record {
    distinct = rw s.data_map h.distinct;
    expiry_distinct = rw s.expiry h.expiry_distinct;
    covered = λ j. rw (s.data_map, s.expiry) (h.covered j);
    healthy = rw s.data_map h.healthy;
  }

  -- A key that the tables hold may take a new value, and any key may take a value.
  insert_data-IsValid :
      (key : String) (v : Value F) (db : Db F W)
      → IsWellFormed f v
      → IsValid f db
      → IsValid f (record db { data_map = insert key v db.data_map })
  insert_data-IsValid key v db w h = record {
    distinct = insert-IsDistinct key v db.data_map h.distinct;
    expiry_distinct = h.expiry_distinct;
    covered = λ j e. ground (arith, eq_iff key j, lookup-insert key j v db.data_map, h.covered j);
    healthy = insert-AllValues (IsWellFormed f) key v db.data_map w h.healthy;
  }

  pub del_key-IsValid :
      (key : String) (db : Db F W)
      → IsValid f db
      → IsValid f (record db {
        data_map = HashMap.remove key db.data_map;
        expiry = HashMap.remove key db.expiry;
      })
  del_key-IsValid key db h = record {
    distinct = remove-IsDistinct key db.data_map h.distinct;
    expiry_distinct = remove-IsDistinct key db.expiry h.expiry_distinct;
    covered = λ j e. ground (
      arith,
      eq_iff key j,
      lookup-remove key j db.data_map,
      lookup-remove key j db.expiry,
      h.covered j,
    );
    healthy = remove-AllValues (IsWellFormed f) key db.data_map h.healthy;
  }

  del_loop-IsValid :
      (ks : List String) (count : ℕ) (db : Db F W)
      → IsValid f db
      → IsValid f (del_loop ks count db).1
  unfolding del_loop
  del_loop-IsValid [] count db h = h
  del_loop-IsValid (key ∷ ks) count db h = elim (Bool-cases (contains_key key db.data_map)) [
    | inl e ↦ rw (e, del_loop) (del_loop-IsValid ks (suc count) _ (del_key-IsValid key db h))
    | inr e ↦ rw (e, del_loop) (del_loop-IsValid ks count db h)
  ]

  pub del-Keeps : (ks : List String) → Keeps f (del {F = F} {W = W} ks)
  unfolding del
  del-Keeps ks = record { at = del_loop-IsValid ks 0 }

  or_insert_with-WellFormed :
      (key : String) (fresh : Value F) (db : Db F W)
      → IsWellFormed f fresh
      → IsValid f db
      → IsWellFormed f (or_insert_with fresh (lookup key db.data_map))
  or_insert_with-WellFormed key fresh db w h = elim (Option-cases (lookup key db.data_map)) [
    | inl e ↦ rw e w
    | inr (v, e) ↦ rw e (AllValues-lookup (IsWellFormed f) key v db.data_map h.healthy e)
  ]

  pub upsert-Keeps :
      {A : Type 0} (key : String) (fresh : Value F) (op : Value F → Result DbError A × Value F)
      → IsWellFormed f fresh
      → Safe f op
      → Keeps f (upsert {W = W} key fresh op)
  unfolding upsert
  upsert-Keeps key fresh op w safe = record {
    at = λ db h.
        let v = or_insert_with fresh (lookup key db.data_map) in
        insert_data-IsValid key (op v).1 db (safe.at v (or_insert_with-WellFormed key fresh db w h))
          h;
  }

  pub update-Keeps :
      {A : Type 0} (key : String) (op : Value F → Result DbError A × Value F)
      → Safe f op
      → Keeps f (update {W = W} key op)
  unfolding update
  update-Keeps key op safe = record {
    at = λ db h. elim (Option-cases (lookup key db.data_map)) [
      | inl e ↦ rw (e, update) h
      | inr (v, e) ↦
          rw (e, update)
            (insert_data-IsValid key (op v).1 db
              (safe.at v (AllValues-lookup (IsWellFormed f) key v db.data_map h.healthy e)) h)
    ];
  }

  pub purge_expired-Keeps : (key : String) → Keeps f (purge_expired {F = F} {W = W} key)
  unfolding purge_expired
  purge_expired-Keeps key = record {
    at = λ db h. elim (Bool-cases (expired key db)) [
      | inl e ↦ rw e ((del-Keeps (key ∷ [])).at db h)
      | inr e ↦ rw e h
    ];
  }

  pub read_key-Keeps :
      {A : Type 0} (key : String) (default : A) (op : Value F → Result TypeError A)
      → Keeps f (read_key {W = W} key default op)
  unfolding read_key
  read_key-Keeps key default op = record {
    at = λ db h. elim (Bool-cases (expired key db)) [
      | inl e ↦ rw e ((del-Keeps (key ∷ [])).at db h)
      | inr e ↦ rw e (elim (Option-cases (lookup key db.data_map)) [
        | inl n ↦ rw (n, read_key) h
        | inr (v, n) ↦ rw (n, read_key) h
      ])
    ];
  }

  pub read_key_or-Keeps :
      {A : Type 0} (key : String) (default : A) (op : Value F → Result TypeError A)
      → Keeps f (read_key_or {W = W} key default op)
  unfolding read_key_or
  read_key_or-Keeps key default op = record {
    at = λ db h. elim (Bool-cases (expired key db)) [
      | inl e ↦ rw e ((del-Keeps (key ∷ [])).at db h)
      | inr e ↦ rw e (elim (Option-cases (lookup key db.data_map)) [
        | inl n ↦ rw (n, read_key_or) h
        | inr (v, n) ↦ rw (n, read_key_or) h
      ])
    ];
  }

  pub on_live-Keeps :
      {A : Type 0} (key : String) (early : Result DbError A) (m : Command F W A)
      → Keeps f m
      → Keeps f (on_live key early m)
  unfolding on_live
  on_live-Keeps key early m k = record {
    at = λ db h. elim (Bool-cases (expired key db)) [
      | inl e ↦ rw e ((del-Keeps (key ∷ [])).at db h)
      | inr e ↦ rw e (k.at db h)
    ];
  }

  pub pure-Keeps : {A : Type 0} (a : A) → Keeps {F = F} {W = W} f (pure a)
  pure-Keeps a = record { at = λ db h. h }

  pub bind-Keeps :
      {A B : Type 0} (m : Command F W A) (g : A → Command F W B)
      → Keeps f m
      → ((a : A) → Keeps f (g a))
      → Keeps f (m >>= g)
  bind-Keeps m g km kg = record {
    at = λ db h. elim (Result-cases (m db).0) [
      | inl (a, e) ↦ rw e ((kg a).at (m db).1 (km.at db h))
      | inr (x, e) ↦ rw e (km.at db h)
    ];
  }

  pub if-Keeps :
      {A : Type 0} (b : Bool) (m n : Command F W A)
      → Keeps f m
      → Keeps f n
      → Keeps f (if b then m else n)
  if-Keeps true m n km kn = km
  if-Keeps false m n km kn = kn

module _ {F W : Type 0} {f : Float64 F} (writer : WalWriterTrait W F) where
  pub write_wal-Keeps : (entry : WalEntry F) → Keeps f (write_wal writer entry)
  write_wal-Keeps entry = record {
    at = λ db h. SameTables-IsValid (write_wal-SameTables writer entry db) h;
  }

pub ruleset keeps_rules = (
  pure-Keeps, bind-Keeps, if-Keeps, del-Keeps, upsert-Keeps, update-Keeps, purge_expired-Keeps,
  on_live-Keeps, read_key-Keeps, read_key_or-Keeps, write_wal-Keeps, typed-Safe, lpush-Safe,
  rpush-Safe, lpop-Safe, rpop-Safe, lset-Safe, lrem-Safe, ltrim-Safe, append-Safe, set_range-Safe,
  sadd-Safe, srem-Safe, zadd-Safe, zrem-Safe, hset-Safe, hdel-Safe,
)
