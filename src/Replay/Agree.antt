-- ===== src/Replay/Agree.antt =====
-- Tables that hold the same entries, in any order, under crates/redis-wasm-core/src/wal/replayer.rs.
use kvasm.Common.{
  ℕ, suc, String, ◌≡◌, refl, ◌∙◌, Option, none, some, List, [], ◌∷◌, ◌++◌, eq_iff, Result, ok,
  arith, Option-cases, inl, inr,
}
use kvasm.HashMap
use kvasm.HashMap.{HashMap, lookup, insert}
use kvasm.HashMap.Laws.{lookup-insert, lookup-remove}
use kvasm.Float.{Float64}
use kvasm.Value.{Value, Write, string, new_list, new_set, new_sorted_set, new_hash}
use kvasm.Value.Lists
use kvasm.Value.Sets
use kvasm.Value.Zsets
use kvasm.Value.Hashes
use kvasm.Wal.{WalEntry, WalError}
use kvasm.Db.{or_insert_with}
use kvasm.Replay.{Tables, on_entry, on_existing, drop_keys, put_string, apply_entry, replay}

pub record Agree {F : Type 0} (a b : Tables F) : Type 0 where
  pub data_map : (j : String) → lookup j a.data_map ≡ lookup j b.data_map
  pub expiry : (j : String) → lookup j a.expiry ≡ lookup j b.expiry

pub refl-Agree : {F : Type 0} (t : Tables F) → Agree t t
refl-Agree t = record { data_map = λ j. refl; expiry = λ j. refl }

pub trans-Agree : {F : Type 0} {a b c : Tables F} → Agree a b → Agree b c → Agree a c
trans-Agree p q = record {
  data_map = λ j. p.data_map j ∙ q.data_map j;
  expiry = λ j. p.expiry j ∙ q.expiry j;
}

-- The same answer, and tables that agree.
pub record SameRun {F A : Type 0} (x y : Result WalError A × Tables F) : Type 0 where
  pub result : x.0 ≡ y.0
  pub agree : Agree x.1 y.1

module _ {F : Type 0} where
  insert_data-Agree :
      (key : String) (v : Value F) {a b : Tables F}
      → Agree a b
      → Agree
          (record a { data_map = insert key v a.data_map })
          (record b { data_map = insert key v b.data_map })
  insert_data-Agree key v {a} {b} h = record {
    data_map = λ j. ground (
      arith,
      eq_iff key j,
      lookup-insert key j v a.data_map,
      lookup-insert key j v b.data_map,
      h.data_map j,
    );
    expiry = h.expiry;
  }

  insert_expiry-Agree :
      (key : String) (ms : ℕ) {a b : Tables F}
      → Agree a b
      → Agree
          (record a { expiry = insert key ms a.expiry })
          (record b { expiry = insert key ms b.expiry })
  insert_expiry-Agree key ms {a} {b} h = record {
    data_map = h.data_map;
    expiry = λ j. ground (
      arith,
      eq_iff key j,
      lookup-insert key j ms a.expiry,
      lookup-insert key j ms b.expiry,
      h.expiry j,
    );
  }

  remove_expiry-Agree :
      (key : String) {a b : Tables F}
      → Agree a b
      → Agree
          (record a { expiry = HashMap.remove key a.expiry })
          (record b { expiry = HashMap.remove key b.expiry })
  remove_expiry-Agree key {a} {b} h = record {
    data_map = h.data_map;
    expiry = λ j. ground (
      arith,
      eq_iff key j,
      lookup-remove key j a.expiry,
      lookup-remove key j b.expiry,
      h.expiry j,
    );
  }

  remove_data-Agree :
      (key : String) {a b : Tables F}
      → Agree a b
      → Agree
          (record a { data_map = HashMap.remove key a.data_map })
          (record b { data_map = HashMap.remove key b.data_map })
  remove_data-Agree key {a} {b} h = record {
    data_map = λ j. ground (
      arith,
      eq_iff key j,
      lookup-remove key j a.data_map,
      lookup-remove key j b.data_map,
      h.data_map j,
    );
    expiry = h.expiry;
  }

  on_entry-SameRun :
      {A : Type 0} (key : String) (fresh : Value F) (op : Write F A) {a b : Tables F}
      → Agree a b
      → SameRun (on_entry key fresh op a) (on_entry key fresh op b)
  unfolding on_entry
  on_entry-SameRun key fresh op {a} {b} h = rw (h.data_map key) (record {
    result = refl;
    agree = insert_data-Agree key (op (or_insert_with fresh (lookup key b.data_map))).1 h;
  })

  on_existing-SameRun :
      {A : Type 0} (key : String) (op : Write F A) {a b : Tables F}
      → Agree a b
      → SameRun (on_existing key op a) (on_existing key op b)
  unfolding on_existing
  on_existing-SameRun key op {a} {b} h =
      rw (h.data_map key, on_existing)
        (elim (Option-cases (lookup key b.data_map)) [
          | inl e ↦ rw (e, on_existing) (record { result = refl; agree = h })
          | inr (v, e) ↦
              rw (e, on_existing)
                (record { result = refl; agree = insert_data-Agree key (op v).1 h })
        ])

  drop_keys-Agree :
      (ks : List String) {a b : Tables F} → Agree a b → Agree (drop_keys ks a) (drop_keys ks b)
  unfolding drop_keys
  drop_keys-Agree [] h = h
  drop_keys-Agree (key ∷ ks) h =
      drop_keys-Agree ks (remove_data-Agree key (remove_expiry-Agree key h))

  put_string-Agree :
      (key : String) (value : List ℕ) (expiry : Option ℕ) {a b : Tables F}
      → Agree a b
      → Agree (put_string key value expiry a) (put_string key value expiry b)
  unfolding put_string
  put_string-Agree key value none h =
      insert_data-Agree key (string value) (remove_expiry-Agree key h)
  put_string-Agree key value (some ms) h =
      insert_data-Agree key (string value) (insert_expiry-Agree key ms (remove_expiry-Agree key h))

module _ {F : Type 0} (f : Float64 F) where
  -- An entry does the same to tables that hold the same, and has the same result.
  pub apply_entry-SameRun :
      (entry : WalEntry F) {a b : Tables F}
      → Agree a b
      → SameRun (apply_entry f entry a) (apply_entry f entry b)
  unfolding apply_entry
  apply_entry-SameRun (WalEntry.set key value expiry) h = record {
    result = refl;
    agree = put_string-Agree key value expiry h;
  }
  apply_entry-SameRun (WalEntry.del ks) h = record { result = refl; agree = drop_keys-Agree ks h }
  apply_entry-SameRun (WalEntry.expire key ms) h = record {
    result = refl;
    agree = insert_expiry-Agree key ms h;
  }
  apply_entry-SameRun (WalEntry.l_push key values) h =
      on_entry-SameRun key new_list (Lists.lpush values) h
  apply_entry-SameRun (WalEntry.r_push key values) h =
      on_entry-SameRun key new_list (Lists.rpush values) h
  apply_entry-SameRun (WalEntry.l_pop key count) h = on_existing-SameRun key (Lists.lpop count) h
  apply_entry-SameRun (WalEntry.r_pop key count) h = on_existing-SameRun key (Lists.rpop count) h
  apply_entry-SameRun (WalEntry.l_set key index value) h =
      on_existing-SameRun key (Lists.lset index value) h
  apply_entry-SameRun (WalEntry.l_rem key count value) h =
      on_existing-SameRun key (Lists.lrem count value) h
  apply_entry-SameRun (WalEntry.l_trim key from to) h =
      on_existing-SameRun key (Lists.ltrim from to) h
  apply_entry-SameRun (WalEntry.s_add key members) h =
      on_entry-SameRun key new_set (Sets.sadd members) h
  apply_entry-SameRun (WalEntry.s_rem key members) h = on_existing-SameRun key (Sets.srem members) h
  apply_entry-SameRun (WalEntry.z_add key members) h =
      on_entry-SameRun key new_sorted_set (Zsets.zadd f members) h
  apply_entry-SameRun (WalEntry.z_rem key members) h =
      on_existing-SameRun key (Zsets.zrem f members) h
  apply_entry-SameRun (WalEntry.h_set key field value) h =
      on_entry-SameRun key new_hash (Hashes.hset field value) h
  apply_entry-SameRun (WalEntry.h_del key fields) h = on_existing-SameRun key (Hashes.hdel fields) h
  apply_entry-SameRun (WalEntry.persist key) h = record {
    result = refl;
    agree = remove_expiry-Agree key h;
  }

  -- One more entry at the end of the log is one more entry applied.
  pub replay-snoc :
      (entries : List (WalEntry F)) (entry : WalEntry F) (count m : ℕ) (a b c : Tables F)
      → replay f entries count a ≡ (ok m, b)
      → apply_entry f entry b ≡ (ok tt, c)
      → replay f (entries ++ entry ∷ []) count a ≡ (ok (suc m), c)
  unfolding replay
  replay-snoc [] entry count m a b c h k = ground (arith)
  replay-snoc (e ∷ entries) entry count m a b c h k =
      ground (arith, replay-snoc entries entry (suc count) m (apply_entry f e a).1 b c)
