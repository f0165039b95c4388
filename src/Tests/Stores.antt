-- ===== src/Tests/Stores.antt =====
-- The theorems on the log in IndexedDB and on the sessions that use it, at a small store.
use kvasm.Common.{
  ltb, if◌then◌else◌, ◌==◌, ◌<◌, ℕ, ◌≡◌, refl, String, none, some, List, [], ◌∷◌, ◌++◌, Result, ok,
  err, Exec, length, arith, Result-cases, inl, inr,
}
use kvasm.Common.Int.{pos}
use kvasm.HashMap
use kvasm.HashMap.{lookup, insert, contains_key}
use kvasm.Expiry.{is_expired}
use kvasm.Wal.{WalEntry, indexed_db}
use kvasm.Db.{Db, build}
use kvasm.Db.Keys
use kvasm.Db.Expire
use kvasm.Db.Expire.{expire_at}
use kvasm.Db.Persist.{write_wal, compact_if_needed}
use kvasm.Replay.{empty_tables, replay, apply_entry}
use kvasm.Persistence.{
  upgrade_legacy_set_entry, Json, IndexedDb, WalCommand, Writer, from_wal, send, turn, handle,
  next_command, take_batch, write_batch, append_batch, to_js_all, wal_entry_to_js_value, add_all,
  replay_entries,
}
use kvasm.Persistence.Queue.{pending, taken, turns, turn_takes, turns_settle}
use kvasm.Persistence.Flushed.{IndexedDbLaws}
use kvasm.Persistence.Acknowledged.{JsonLaws, HasScores, Runs, log_after_turn, flush_answered}
use kvasm.Bindings.{JsError, with_persistence, set, call}
use kvasm.Bindings.Reopen.{IsReopened, with_persistence-flush, with_persistence-lost}
use kvasm.Bindings.Seconds.{ttl-set}
use kvasm.Tests.{floats, list_writer}

-- Text for the entries that persist a key: the key. A score of 10 or more is printed as "null".
abbrev key_text : WalEntry ℕ → Result String String
key_text (WalEntry.persist key) = if key == "null" then err "no text" else ok key
key_text (WalEntry.z_add _ ((_, score) ∷ _)) = if ltb score 10 then err "no text" else ok "null"
key_text _ = err "no text"

abbrev key_json : Json ℕ String (Unit {0})
key_json = record {
  to_string = key_text;
  from_string = λ s. if s == "null" then err "null is no number" else ok (WalEntry.persist s);
  js_string = λ s. s;
  as_string = λ s. some s;
  parse_value = λ s. none;
  set_text = λ v. none;
  set_bytes = λ bytes v. v;
  from_value = λ v. none;
}

key_parses :
    (e : WalEntry ℕ) (s : String)
    → HasScores (λ x. x < 10) e
    → key_text e ≡ ok s
    → key_json.from_string s ≡ ok e
key_parses (WalEntry.persist key) s kept h = ground arith
key_parses (WalEntry.set _ _ _) s kept h = absurd (ground arith)
key_parses (WalEntry.del _) s kept h = absurd (ground arith)
key_parses (WalEntry.expire _ _) s kept h = absurd (ground arith)
key_parses (WalEntry.l_push _ _) s kept h = absurd (ground arith)
key_parses (WalEntry.r_push _ _) s kept h = absurd (ground arith)
key_parses (WalEntry.l_pop _ _) s kept h = absurd (ground arith)
key_parses (WalEntry.r_pop _ _) s kept h = absurd (ground arith)
key_parses (WalEntry.l_set _ _ _) s kept h = absurd (ground arith)
key_parses (WalEntry.l_rem _ _ _) s kept h = absurd (ground arith)
key_parses (WalEntry.l_trim _ _ _) s kept h = absurd (ground arith)
key_parses (WalEntry.s_add _ _) s kept h = absurd (ground arith)
key_parses (WalEntry.s_rem _ _) s kept h = absurd (ground arith)
key_parses (WalEntry.z_add _ []) s kept h = absurd (ground arith)
key_parses (WalEntry.z_add _ ((_, score) ∷ _)) s kept h = absurd (ground (arith, kept.0))
key_parses (WalEntry.z_rem _ _) s kept h = absurd (ground arith)
key_parses (WalEntry.h_set _ _ _) s kept h = absurd (ground arith)
key_parses (WalEntry.h_del _ _) s kept h = absurd (ground arith)

abbrev key_json_laws : JsonLaws key_json
key_json_laws = record { IsKept = λ x. x < 10; parses = key_parses; strings = λ s. refl }

abbrev run_all :
    Exec (List String) String (Unit {0}) → List String → Result String (Unit {0}) × List String
run_all block s = elim (block s).0 [ ok _ ↦ (ok tt, (block s).1) | err x ↦ (err x, s) ]

abbrev rows_store : IndexedDb (List String) (List String) String
rows_store = record {
  run = run_all;
  add = λ j t. (ok tt, t ++ j ∷ []);
  clear = λ t. (ok tt, []);
  get_all = λ s. ok s;
  count = λ s. ok (length s);
}

run_all_ok :
    (block : Exec (List String) String (Unit {0})) (s : List String)
    → (run_all block s).0 ≡ ok tt
    → (t : List String) × (t ≡ s) × ((block t).0 ≡ ok tt) × ((run_all block s).1 ≡ (block t).1)
run_all_ok block s h = elim (Result-cases (block s).0) [
  | inl (_, e) ↦ (s, refl, e, rw (e, run_all) refl)
  | inr (x, e) ↦ absurd (ground arith)
]

run_all_err :
    (block : Exec (List String) String (Unit {0})) (s : List String) (x : String)
    → (run_all block s).0 ≡ err x
    → (run_all block s).1 ≡ s
run_all_err block s x h = elim (Result-cases (block s).0) [
  | inl (_, e) ↦ absurd (ground arith)
  | inr (y, e) ↦ rw (e, run_all) refl
]

read_rows : (s js : List String) → rows_store.get_all s ≡ ok js → js ≡ s
read_rows s js h = ground arith

abbrev rows_laws : IndexedDbLaws rows_store
rows_laws = record {
  rows = λ s. s;
  inside = λ t. t;
  committed = run_all_ok;
  aborted = run_all_err;
  added = λ j t h. refl;
  cleared = λ t h. refl;
  read = λ s js h. read_rows s js h;
}

-- An append and a flush are in the queue.
abbrev two_sent : Writer ℕ (List String)
two_sent = send WalCommand.flush (send (WalCommand.append (WalEntry.persist "a")) (from_wal []))

turn_takes_example :
    taken two_sent ++ pending (turn key_json rows_store two_sent) ≡ pending two_sent
turn_takes_example = turn_takes key_json rows_store two_sent

turns_settle_example : pending (turns key_json rows_store 2 two_sent) ≡ []
unfolding send from_wal
turns_settle_example = turns_settle key_json rows_store 2 two_sent (omega arith)

-- The append is written, and the flush is next.
abbrev one_written : Writer ℕ (List String)
one_written = turn key_json rows_store two_sent

abbrev flushing : Writer ℕ (List String)
flushing = record one_written { deferred = none }

one_written-Runs :
    Runs key_json rows_laws (log_after_turn key_json rows_laws two_sent []) one_written
unfolding to_js_all
one_written-Runs = Runs.turned (
    Runs.sent WalCommand.flush
      (Runs.sent (WalCommand.append (WalEntry.persist "a")) (Runs.started [] refl)))

flush_answered_example :
    replay_entries key_json rows_store (turn key_json rows_store one_written).store
    ≡ ok (WalEntry.persist "a" ∷ [])
unfolding send from_wal turn handle next_command take_batch write_batch append_batch to_js_all
    wal_entry_to_js_value add_all
flush_answered_example =
    flush_answered key_json rows_laws key_json_laws {w' = flushing} ("a" ∷ []) one_written-Runs
      (tt, tt) refl refl refl

with_persistence-flush_example :
    (db : Db ℕ (Writer ℕ (List String))) × (with_persistence floats key_json rows_store
        (turn key_json rows_store one_written).store
        7
      ≡ ok db)
    × IsReopened (WalEntry.persist "a" ∷ []) empty_tables db
unfolding send from_wal turn handle next_command take_batch write_batch append_batch to_js_all
    wal_entry_to_js_value add_all replay apply_entry HashMap.remove
with_persistence-flush_example =
    with_persistence-flush floats key_json rows_store rows_laws key_json_laws {w' = flushing}
      ("a" ∷ []) 7 1 empty_tables one_written-Runs (tt, tt) refl refl refl refl

-- The same with an entry behind the first that does not come back.
abbrev three_sent : Writer ℕ (List String)
three_sent = send WalCommand.flush (
    send (WalCommand.append (WalEntry.z_add "z" (("m", 50) ∷ [])))
      (send (WalCommand.append (WalEntry.persist "a")) (from_wal [])))

abbrev two_written : Writer ℕ (List String)
two_written = turn key_json rows_store three_sent

two_written-Runs :
    Runs key_json rows_laws
      (WalEntry.persist "a" ∷ WalEntry.z_add "z" (("m", 50) ∷ []) ∷ [])
      two_written
unfolding to_js_all send from_wal next_command take_batch
two_written-Runs = Runs.turned {log = []} (
    Runs.sent WalCommand.flush (
      Runs.sent (WalCommand.append (WalEntry.z_add "z" (("m", 50) ∷ [])))
        (Runs.sent (WalCommand.append (WalEntry.persist "a")) (Runs.started [] refl))))

with_persistence-lost_example :
    with_persistence floats key_json rows_store (turn key_json rows_store two_written).store 7
    ≡ err (JsError.log_error (indexed_db "null is no number"))
unfolding send from_wal turn handle next_command take_batch write_batch append_batch to_js_all
    wal_entry_to_js_value add_all upgrade_legacy_set_entry
with_persistence-lost_example =
    with_persistence-lost floats key_json rows_store rows_laws key_json_laws
      {w' = record two_written { deferred = none }} (WalEntry.persist "a" ∷ []) []
      (WalEntry.z_add "z" (("m", 50) ∷ [])) "null is no number" ("a" ∷ "null" ∷ []) 7
      two_written-Runs (tt, tt)
      (record { text = "null"; printed = refl; refused = refl; not_legacy = refl }) refl refl refl

ttl-set_example :
    (Expire.ttl "k" (set list_writer 3 4 "k" (1 ∷ []) (some 10) (build (some []) 0)).1).0
    ≡ ok (pos 10)
unfolding set call build Keys.set write_wal Expire.expire contains_key lookup compact_if_needed
    insert is_expired HashMap.remove
ttl-set_example =
    ttl-set list_writer 3 4 "k" (1 ∷ []) 10 (build (some []) 0) refl (omega arith) (omega arith)
