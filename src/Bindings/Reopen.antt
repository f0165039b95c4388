-- ===== src/Bindings/Reopen.antt =====
-- `with_persistence` of crates/redis-wasm-bindings/src/lib.rs on the store that an earlier session left.
use kvasm.Common.{ℕ, ◌≡◌, refl, ap, some, List, [], ◌∷◌, ◌++◌, String, ok, err, length, arith}
use kvasm.Float.{Float64}
use kvasm.Wal.{WalEntry, indexed_db}
use kvasm.Db.{Db, build}
use kvasm.Db.Persist.{set_wal_len}
use kvasm.Replay.{Tables, empty_tables, replay}
use kvasm.Persistence.{
  Json, IndexedDb, WalCommand, Writer, Reply, next_command, turn, replay_entries, from_wal,
}
use kvasm.Persistence.Flushed.{IndexedDbLaws}
use kvasm.Persistence.Acknowledged.{
  JsonLaws, AllScores, IsLost, Runs, read_until_lost, flush_stored, flush_answered,
}
use kvasm.Bindings.{JsError, with_persistence}

-- What is asked of a database that was opened on the entries of a log.
pub record IsReopened {F W : Type 0} (log : List (WalEntry F)) (t : Tables F) (db : Db F W)
    : Type 0 where
  pub data_map : db.data_map ≡ t.data_map
  pub expiry : db.expiry ≡ t.expiry
  pub wal_len : db.wal_len ≡ length log

module _ {F J V S T : Type 0} (f : Float64 F) (json : Json F J V) (idb : IndexedDb S T J) where
  with_persistence-replay :
      (log : List (WalEntry F)) (s : S) (now count : ℕ) (t : Tables F)
      → replay_entries json idb s ≡ ok log
      → replay f log 0 empty_tables ≡ (ok count, t)
      → (db : Db F (Writer F S)) × (with_persistence f json idb s now ≡ ok db) × IsReopened log t db
  unfolding with_persistence build from_wal set_wal_len replay
  with_persistence-replay [] s now count t h r =
      let same : empty_tables ≡ t = ground arith in
      (
        build (some (from_wal s)) now,
        (rw (h, with_persistence) refl),
        record {
          data_map = ap (λ x. x.data_map) same;
          expiry = ap (λ x. x.expiry) same;
          wal_len = refl;
        },
      )
  with_persistence-replay (e ∷ es) s now count t h r =
      let run = replay f (e ∷ es) 0 empty_tables in
      let fine : run.0 ≡ ok count = ap (λ p. p.0) r in
      (
        record (build (some (from_wal s)) now) {
          data_map = run.1.data_map;
          expiry = run.1.expiry;
          wal_len = length (e ∷ es);
        },
        (rw (h, with_persistence, fine) refl),
        record {
          data_map = ap (λ p. p.1.data_map) r;
          expiry = ap (λ p. p.1.expiry) r;
          wal_len = refl;
        },
      )

  -- Where the task of a session answers a flush without an error, the store can be read, and the
  -- scores in the log are numbers that JSON text keeps, a session that opens the store then starts with the tables to which the whole log replays, and counts its
  -- entries. The log is what stood in the store when the task was started, or the entries of the last
  -- rewrite that succeeded, and behind them every entry that the task has taken since, and its replay
  -- succeeds.
  pub with_persistence-flush :
      (laws : IndexedDbLaws idb) (json_laws : JsonLaws json) {log : List (WalEntry F)}
      {w w' : Writer F S} (js : List J) (now count : ℕ) (t : Tables F)
      → Runs json laws log w
      → AllScores json_laws.IsKept log
      → next_command w ≡ some (WalCommand.flush, w')
      → (turn json idb w).replies ≡ w.replies ++ Reply.flushed (ok tt) ∷ []
      → idb.get_all (turn json idb w).store ≡ ok js
      → replay f log 0 empty_tables ≡ (ok count, t)
      → (db : Db F (Writer F S)) × (with_persistence f json idb (turn json idb w).store now ≡ ok db)
        × IsReopened log t db
  with_persistence-flush laws json_laws {log} {w} js now count t runs kept e answer readable r =
      with_persistence-replay log (turn json idb w).store now count t
        (flush_answered json laws json_laws js runs kept e answer readable) r

  -- Where the task of a session answers a flush without an error, and the store can be read, but the log
  -- has an entry whose text does not parse, also not as an old one, and the scores before it are
  -- numbers that JSON text keeps, a session that opens the store then fails with the error of this
  -- entry.
  pub with_persistence-lost :
      (laws : IndexedDbLaws idb) (json_laws : JsonLaws json) {w w' : Writer F S}
      (before after : List (WalEntry F)) (e : WalEntry F) (x : String) (js : List J) (now : ℕ)
      → Runs json laws (before ++ e ∷ after) w
      → AllScores json_laws.IsKept before
      → IsLost json e x
      → next_command w ≡ some (WalCommand.flush, w')
      → (turn json idb w).replies ≡ w.replies ++ Reply.flushed (ok tt) ∷ []
      → idb.get_all (turn json idb w).store ≡ ok js
      → with_persistence f json idb (turn json idb w).store now
        ≡ err (JsError.log_error (indexed_db x))
  unfolding with_persistence replay_entries
  with_persistence-lost laws json_laws before after e x js now runs kept lost next answer readable =
      rw
        (
          readable,
          with_persistence,
          replay_entries,
          read_until_lost json json_laws before after e x js kept lost
              (flush_stored json laws js runs next answer readable),
        )
        refl
