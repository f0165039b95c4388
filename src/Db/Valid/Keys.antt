-- ===== src/Db/Valid/Keys.antt =====
-- The key and expiry operations of crates/redis-wasm-core/src/db.rs.
use kvasm.Common.{
  ℕ, String, ◌≡◌, true, not, ◌||◌, List, [], ◌∷◌, eq_iff, pure, ◌>>◌, arith, Bool-cases, inl, inr,
}
use kvasm.HashMap
use kvasm.HashMap.{HashMap, lookup, insert, contains_key}
use kvasm.HashMap.Laws.{
  insert-IsDistinct, remove-IsDistinct, insert-AllValues, lookup-insert, lookup-remove,
}
use kvasm.Float.{Float64}
use kvasm.Value.WellFormed.{IsWellFormed}
use kvasm.Value.{string}
use kvasm.Wal.{WalEntry, WalWriterTrait}
use kvasm.Db.{Db, expired}
use kvasm.Db.Persist.{write_wal}
use kvasm.Db.Keys.{store_string, set, del_async, exists_loop, exists}
use kvasm.Db.Expire.{expire_at, persist}
use kvasm.Db.Valid.{Keeps, IsValid, keeps_rules, del-Keeps, write_wal-Keeps}

module _ {F W : Type 0} {f : Float64 F} where
  store_string-IsValid :
      (key : String) (value : List ℕ) (db : Db F W)
      → IsValid f db
      → IsValid f (store_string key value db)
  unfolding store_string
  store_string-IsValid key value db h = record {
    distinct = insert-IsDistinct key (string value) db.data_map h.distinct;
    expiry_distinct = remove-IsDistinct key db.expiry h.expiry_distinct;
    covered = λ j e. ground (
      arith,
      eq_iff key j,
      lookup-insert key j (string value) db.data_map,
      lookup-remove key j db.expiry,
      h.covered j,
    );
    healthy = insert-AllValues (IsWellFormed f) key (string value) db.data_map tt h.healthy;
  }

  exists_loop-IsValid :
      (ks : List String) (count : ℕ) (db : Db F W)
      → IsValid f db
      → IsValid f (exists_loop ks count db).1
  unfolding exists_loop
  exists_loop-IsValid [] count db h = h
  exists_loop-IsValid (key ∷ ks) count db h = elim (Bool-cases (expired key db)) [
    | inl e ↦ rw (e, exists_loop) (exists_loop-IsValid ks _ _ ((del-Keeps (key ∷ [])).at db h))
    | inr e ↦ rw (e, exists_loop) (exists_loop-IsValid ks _ db h)
  ]

  pub exists-Keeps : (ks : List String) → Keeps f (exists {F = F} {W = W} ks)
  unfolding exists
  exists-Keeps ks = record { at = exists_loop-IsValid ks 0 }

  set_expiry-IsValid :
      (key : String) (ms : ℕ) (db : Db F W)
      → contains_key key db.data_map ≡ true
      → IsValid f db
      → IsValid f (record db { expiry = insert key ms db.expiry })
  unfolding contains_key
  set_expiry-IsValid key ms db k h = record {
    distinct = h.distinct;
    expiry_distinct = insert-IsDistinct key ms db.expiry h.expiry_distinct;
    covered = λ j e. ground (arith, eq_iff key j, lookup-insert key j ms db.expiry, h.covered j);
    healthy = h.healthy;
  }

  clear_expiry-IsValid :
      (key : String) (db : Db F W)
      → IsValid f db
      → IsValid f (record db { expiry = HashMap.remove key db.expiry })
  clear_expiry-IsValid key db h = record {
    distinct = h.distinct;
    expiry_distinct = remove-IsDistinct key db.expiry h.expiry_distinct;
    covered = λ j e. ground (arith, eq_iff key j, lookup-remove key j db.expiry, h.covered j);
    healthy = h.healthy;
  }

module _ {F W : Type 0} {f : Float64 F} (writer : WalWriterTrait W F) where
  pub set-Keeps : (key : String) (value : List ℕ) → Keeps f (set writer key value)
  unfolding set
  set-Keeps key value = record {
    at = λ db h. (write_wal-Keeps writer _).at _ (store_string-IsValid key value db h);
  }

  pub del_async-Keeps : (ks : List String) → Keeps f (del_async writer ks)
  unfolding del_async
  del_async-Keeps ks = search keeps_rules

  log_then_true-Keeps : (entry : WalEntry F) → Keeps f (write_wal writer entry >> pure true)
  log_then_true-Keeps entry = search keeps_rules

  pub expire_at-Keeps : (key : String) (ms : ℕ) → Keeps f (expire_at writer key ms)
  unfolding expire_at
  expire_at-Keeps key ms = record {
    at = λ db h. elim (Bool-cases (contains_key key db.data_map)) [
      | inr e ↦ rw e h
      | inl e ↦ rw e (elim (Bool-cases (expired key db)) [
        | inl x ↦ rw (x, expire_at) h
        | inr x ↦
            rw (x, expire_at)
              ((log_then_true-Keeps (WalEntry.expire key ms)).at _
                (set_expiry-IsValid key ms db e h))
      ])
    ];
  }

  pub persist-Keeps : (key : String) → Keeps f (persist writer key)
  unfolding persist
  persist-Keeps key = record {
    at = λ db h. elim (Bool-cases (not (contains_key key db.data_map) || expired key db)) [
      | inl e ↦ rw e h
      | inr e ↦ rw e (elim (Bool-cases (contains_key key db.expiry)) [
        | inl x ↦
            rw (x, persist)
              ((log_then_true-Keeps (WalEntry.persist key)).at _ (clear_expiry-IsValid key db h))
        | inr x ↦ rw (x, persist) (clear_expiry-IsValid key db h)
      ])
    ];
  }
