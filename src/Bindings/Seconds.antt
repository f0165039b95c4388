-- ===== src/Bindings/Seconds.antt =====
-- `set` with an expiry time in crates/redis-wasm-bindings/src/lib.rs.
use kvasm.Common.{
  ℕ, ◌+◌, ◌*◌, ◌^◌, ◌<◌, String, ◌≡◌, refl, ap, ◌∙◌, true, false, some, List, ok, arith, eq_refl,
  Result-cases, inl, inr,
}
use kvasm.Common.Int.{pos}
use kvasm.HashMap.{contains_key}
use kvasm.Wal.{WalWriterTrait}
use kvasm.Expiry.{is_expired}
use kvasm.Db.{Db, expired}
use kvasm.Db.Keys
use kvasm.Db.Expire
use kvasm.Db.Ttl.{set_lem, ttl-expire}
use kvasm.Bindings.{call, sync_clock, set}

module _ {F W : Type 0} (writer : WalWriterTrait W F) where
  -- The state in which `set` with a number of seconds leaves the database, if it succeeds.
  set_then_expire :
      (time time' : ℕ) (key : String) (value : List ℕ) (seconds : ℕ) (db : Db F W)
      → (set writer time time' key value (some seconds) db).0 ≡ ok tt
      → (let stored = (Keys.set writer key value (sync_clock time db)).1 in
          (set writer time time' key value (some seconds) db).1
          ≡ (Expire.expire writer key seconds (sync_clock time' stored)).1)
  unfolding set call
  set_then_expire time time' key value seconds db h =
      let stored = Keys.set writer key value (sync_clock time db) in
      elim (Result-cases stored.0) [
        | inl (_, e) ↦
            elim (Result-cases (Expire.expire writer key seconds (sync_clock time' stored.1)).0) [
              | inl (_, e') ↦ rw (e, set, e') refl
              | inr (x, e') ↦ absurd (ground arith)
            ]
        | inr (x, e) ↦ absurd (ground arith)
      ]

  -- A call of `set` with a number of seconds that is not 0, and that in milliseconds together with the
  -- clock at the second reading stays below 2^63, makes TTL read that number, if the call succeeds.
  pub ttl-set :
      (time time' : ℕ) (key : String) (value : List ℕ) (seconds : ℕ) (db : Db F W)
      → (set writer time time' key value (some seconds) db).0 ≡ ok tt
      → 0 < seconds
      → time' + seconds * 1000 < 2 ^ 63
      → (Expire.ttl key (set writer time time' key value (some seconds) db).1).0 ≡ ok (pos seconds)
  unfolding sync_clock contains_key expired is_expired
  ttl-set time time' key value seconds db h k b =
      let stored = (Keys.set writer key value (sync_clock time db)).1 in
      let (_, no_time, seen) = set_lem writer key key value (sync_clock time db) in
      let known : contains_key key stored.data_map ≡ true = ground (arith, eq_refl key) in
      let live : expired key (sync_clock time' stored) ≡ false = ground arith in
      ap (λ d. (Expire.ttl key d).0) (set_then_expire time time' key value seconds db h)
      ∙ ttl-expire writer key seconds (sync_clock time' stored) known live k b
