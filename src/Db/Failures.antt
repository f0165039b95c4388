-- ===== src/Db/Failures.antt =====
-- What a command of crates/redis-wasm-core/src/db.rs leaves behind when it fails after it has made its
-- entry.
use kvasm.Common.{String, ◌≡◌, refl, false, none, some, [], err, ◌==◌, if◌then◌else◌}
use kvasm.HashMap.{lookup}
use kvasm.HashMap.Laws.{lookup-insert}
use kvasm.Float.{Float64}
use kvasm.Value.{string}
use kvasm.Wal.{WalWriterTrait}
use kvasm.Db.{Db, expired, purge_expired, upsert, not_a_float}
use kvasm.Db.Strings.{incr_by_float, incr_float_value, modify_string}

module _ {F W : Type 0} (writer : WalWriterTrait W F) (f : Float64 F) where
  -- INCRBYFLOAT of a key that is not there, by a number whose sum with zero is not finite, fails,
  -- but leaves the empty string at the key and writes nothing to the log; the other keys keep their
  -- values.
  pub incr_by_float_missing :
      (key j : String) (delta : F) (db : Db F W)
      → lookup key db.data_map ≡ none
      → expired key db ≡ false
      → f.is_finite (f.plus f.zero delta) ≡ false
      → ((incr_by_float writer f key delta db).0 ≡ err not_a_float)
        × ((incr_by_float writer f key delta db).1.wal ≡ db.wal)
        × (lookup j (incr_by_float writer f key delta db).1.data_map
            ≡ (if key == j then some (string []) else lookup j db.data_map))
  unfolding incr_by_float modify_string purge_expired upsert incr_float_value
  incr_by_float_missing key j delta db missing live infinite =
      rw (live, missing, infinite) (refl, refl, lookup-insert key j (string []) db.data_map)
