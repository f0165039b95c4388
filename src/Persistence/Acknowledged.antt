-- ===== src/Persistence/Acknowledged.antt =====
-- The task of `WasmWalWriter` in crates/redis-wasm-bindings/src/persistence/indexed_db.rs: what a flush
-- that it answers without an error promises.
use mathlib.Core.Path.{subst}
use mathlib.Core.List.{head-eq_of_cons-eq, tail-eq_of_cons-eq}
use kvasm.Common.{
  ◌≡◌, refl, sym, ap, ◌∙◌, String, Option, none, some, List, [], ◌∷◌, ◌++◌, ok, err, arith,
  Option-cases, Result-cases, inl, inr,
}
use kvasm.Wal.{WalEntry, indexed_db}
use kvasm.Persistence.{
  Json, IndexedDb, WalCommand, Writer, Reply, wal_entry_to_js_value, js_value_to_wal_entry,
  to_js_all, from_js_all, upgrade_legacy_set_entry, append_batch, replay_entries, rewrite_entries,
  take_batch, next_command, write_batch, handle, turn, from_wal, send, lost_append,
}
use kvasm.Persistence.Flushed.{
  IndexedDbLaws, IsStored, append_batch_ok, rewrite_entries_ok, rewrite_entries_err,
}

snoc-eq_of_eq : {A : Type 0} (xs : List A) (a b : A) → xs ++ a ∷ [] ≡ xs ++ b ∷ [] → a ≡ b
snoc-eq_of_eq [] a b h = head-eq_of_cons-eq h
snoc-eq_of_eq (x ∷ xs) a b h = snoc-eq_of_eq xs a b (tail-eq_of_cons-eq h)

-- The scores of some members, of an entry, and of a log satisfy a predicate. ZADD is the one entry
-- that has scores.
module _ {F : Type 0} (P : F → Type 0) where
  abbrev pub MemberScores : List (String × F) → Type 0
  MemberScores [] = Unit
  MemberScores ((_, score) ∷ members) = P score × MemberScores members

  abbrev pub HasScores : WalEntry F → Type 0
  HasScores (WalEntry.z_add key members) = MemberScores members
  HasScores _ = Unit

  abbrev pub AllScores : List (WalEntry F) → Type 0
  AllScores [] = Unit
  AllScores (e ∷ es) = HasScores e × AllScores es

-- What serde_json and wasm-bindgen promise: text that was printed parses to the entry that it was made
-- of where each score in it is a number that JSON text keeps, and a string that became a JS value is
-- read back. An infinity or NaN is printed as `null`, which is no number, so it is not kept; which
-- fractions come back to the last bit depends on the precision that the parser was built with.
pub record JsonLaws {F J V : Type 0} (json : Json F J V) : Type 1 where
  pub IsKept : F → Type 0
  pub parses :
      (e : WalEntry F) (s : String)
      → HasScores IsKept e
      → json.to_string e ≡ ok s
      → json.from_string s ≡ ok e
  pub strings : (s : String) → json.as_string (json.js_string s) ≡ some s

module _ {F J V : Type 0} (json : Json F J V) where
  -- An entry whose text does not parse, also not as an old one.
  pub record IsLost (e : WalEntry F) (x : String) : Type 0 where
    pub text : String
    pub printed : json.to_string e ≡ ok text
    pub refused : json.from_string text ≡ err x
    pub not_legacy : upgrade_legacy_set_entry json text ≡ none

module _ {F J V : Type 0} (json : Json F J V) (laws : JsonLaws json) where
  read_back :
      (e : WalEntry F) (j : J)
      → HasScores laws.IsKept e
      → wal_entry_to_js_value json e ≡ ok j
      → js_value_to_wal_entry json j ≡ ok e
  unfolding wal_entry_to_js_value js_value_to_wal_entry
  read_back e j kept h = elim (Result-cases (json.to_string e)) [
    | inl (s, p) ↦
        let same : json.js_string s ≡ j = ground arith in
        ap (js_value_to_wal_entry json) (sym same)
        ∙ rw (laws.strings s, js_value_to_wal_entry, laws.parses e s kept p) refl
    | inr (x, p) ↦ absurd (ground arith)
  ]

  read_all_back :
      (es : List (WalEntry F)) (js : List J)
      → AllScores laws.IsKept es
      → to_js_all json es ≡ ok js
      → from_js_all json js ≡ ok es
  unfolding to_js_all from_js_all
  read_all_back [] js kept h = let same : [] ≡ js = ground arith in ap (from_js_all json) (sym same)
  read_all_back (e ∷ es) js kept h = elim (Result-cases (wal_entry_to_js_value json e)) [
    | inl (j, p) ↦ elim (Result-cases (to_js_all json es)) [
      | inl (js', q) ↦
          let same : j ∷ js' ≡ js = ground arith in
          ap (from_js_all json) (sym same)
          ∙ rw (read_back e j kept.0 p, from_js_all, read_all_back es js' kept.1 q) refl
      | inr (x, q) ↦ absurd (ground arith)
    ]
    | inr (x, p) ↦ absurd (ground arith)
  ]

  read_lost :
      (e : WalEntry F) (x : String) (j : J)
      → IsLost json e x
      → wal_entry_to_js_value json e ≡ ok j
      → js_value_to_wal_entry json j ≡ err x
  unfolding wal_entry_to_js_value js_value_to_wal_entry
  read_lost e x j lost h =
      let same : json.js_string lost.text ≡ j = ground (arith, lost.printed) in
      ap (js_value_to_wal_entry json) (sym same)
      ∙ rw (laws.strings lost.text, js_value_to_wal_entry, lost.refused, lost.not_legacy) refl

  pub read_until_lost :
      (before after : List (WalEntry F)) (e : WalEntry F) (x : String) (js : List J)
      → AllScores laws.IsKept before
      → IsLost json e x
      → to_js_all json (before ++ e ∷ after) ≡ ok js
      → from_js_all json js ≡ err x
  unfolding to_js_all from_js_all
  read_until_lost [] after e x js kept lost h = elim (Result-cases (wal_entry_to_js_value json e)) [
    | inl (j, p) ↦ elim (Result-cases (to_js_all json after)) [
      | inl (js', q) ↦
          let same : j ∷ js' ≡ js = ground arith in
          ap (from_js_all json) (sym same) ∙ rw (read_lost e x j lost p, from_js_all) refl
      | inr (y, q) ↦ absurd (ground arith)
    ]
    | inr (y, p) ↦ absurd (ground arith)
  ]
  read_until_lost (b ∷ before) after e x js kept lost h =
      elim (Result-cases (wal_entry_to_js_value json b)) [
        | inl (j, p) ↦ elim (Result-cases (to_js_all json (before ++ e ∷ after))) [
          | inl (js', q) ↦
              let same : j ∷ js' ≡ js = ground arith in
              ap (from_js_all json) (sym same)
              ∙ rw
                  (
                    read_back b j kept.0 p,
                    from_js_all,
                    read_until_lost before after e x js' kept.1 lost q,
                  )
                  refl
          | inr (y, q) ↦ absurd (ground arith)
        ]
        | inr (y, p) ↦ absurd (ground arith)
      ]

module _ {F J V S T : Type 0} (json : Json F J V) {idb : IndexedDb S T J}
    (laws : IndexedDbLaws idb) where
  -- The log that the task keeps in the store, if no append fails: its entries after a command.
  abbrev pub log_after : WalCommand F → Writer F S → List (WalEntry F) → List (WalEntry F)
  log_after (WalCommand.append e) w log = log ++ e ∷ (take_batch w.queue).0
  log_after WalCommand.flush w log = log
  log_after WalCommand.count w log = log
  log_after (WalCommand.rewrite entries) w log = elim (rewrite_entries json idb entries w.store).0 [
    | ok _ ↦ entries
    | err _ ↦ log
  ]

  abbrev pub log_after_turn : Writer F S → List (WalEntry F) → List (WalEntry F)
  log_after_turn w log = elim (next_command w) [ none ↦ log | some p ↦ log_after p.0 p.1 log ]

  -- The task was started on a store with some entries; commands were sent and turns were taken, in
  -- any order.
  pub data Runs : List (WalEntry F) → Writer F S → Type 0 where
    started : {log : List (WalEntry F)} (s : S) → IsStored json laws log s → Runs log (from_wal s)
    sent :
        {log : List (WalEntry F)} {w : Writer F S} (c : WalCommand F)
        → Runs log w
        → Runs log (send c w)
    turned :
        {log : List (WalEntry F)} {w : Writer F S}
        → Runs log w
        → Runs (log_after_turn w log) (turn json idb w)

  -- The store has the whole log, unless an append has failed since the last rewrite.
  pub record IsWhole (log : List (WalEntry F)) (w : Writer F S) : Type 0 where
    pub stored : w.append_error ≡ none → IsStored json laws log w.store

  write_batch-IsWhole :
      (log batch : List (WalEntry F)) (w : Writer F S)
      → IsWhole log w
      → IsWhole (log ++ batch) (write_batch json idb batch w)
  unfolding write_batch
  write_batch-IsWhole log batch w h = elim (Result-cases (append_batch json idb batch w.store).0) [
    | inl (_, e) ↦
        rw (e, write_batch)
          (record { stored = λ k. append_batch_ok json laws log batch w.store (h.stored k) e })
    | inr (x, e) ↦ rw (e, write_batch) (record { stored = λ k. absurd (ground arith) })
  ]

  handle-IsWhole :
      (c : WalCommand F) (log : List (WalEntry F)) (w : Writer F S)
      → IsWhole log w
      → IsWhole (log_after c w log) (handle json idb c w)
  unfolding handle
  handle-IsWhole (WalCommand.append e) log w h =
      write_batch-IsWhole log (e ∷ (take_batch w.queue).0) _ (record { stored = h.stored })
  handle-IsWhole WalCommand.flush log w h = record { stored = h.stored }
  handle-IsWhole WalCommand.count log w h = record { stored = h.stored }
  handle-IsWhole (WalCommand.rewrite entries) log w h =
      elim (Result-cases (rewrite_entries json idb entries w.store).0) [
        | inl (_, e) ↦
            rw (e, handle, log_after)
              (record { stored = λ k. rewrite_entries_ok json laws entries w.store e })
        | inr (x, e) ↦
            rw (e, handle, log_after)
              (record {
                stored = λ k. rewrite_entries_err json laws log entries w.store x (h.stored k) e;
              })
      ]

  next_command_lem :
      (w : Writer F S) (p : WalCommand F × Writer F S)
      → next_command w ≡ some p
      → (p.1.append_error ≡ w.append_error) × (p.1.store ≡ w.store) × (p.1.replies ≡ w.replies)
  unfolding next_command
  next_command_lem w p h = ground arith

  next_command-IsWhole :
      (log : List (WalEntry F)) (w : Writer F S) (p : WalCommand F × Writer F S)
      → next_command w ≡ some p
      → IsWhole log w
      → IsWhole log p.1
  next_command-IsWhole log w p e h =
      let (error, store, _) = next_command_lem w p e in
      record { stored = λ k. subst (IsStored json laws log) (sym store) (h.stored (sym error ∙ k)) }

  turn-IsWhole :
      (log : List (WalEntry F)) (w : Writer F S)
      → IsWhole log w
      → IsWhole (log_after_turn w log) (turn json idb w)
  unfolding turn
  turn-IsWhole log w h = elim (Option-cases (next_command w)) [
    | inl e ↦ rw (e, turn, log_after_turn) h
    | inr (p, e) ↦
        rw (e, turn, log_after_turn) (handle-IsWhole p.0 log p.1 (next_command-IsWhole log w p e h))
  ]

  pub Runs-IsWhole : {log : List (WalEntry F)} {w : Writer F S} → Runs log w → IsWhole log w
  unfolding from_wal send
  Runs-IsWhole (Runs.started s stored) = record { stored = λ k. stored }
  Runs-IsWhole (Runs.sent c r) = record { stored = (Runs-IsWhole r).stored }
  Runs-IsWhole (Runs.turned {log} {w} r) = turn-IsWhole log w (Runs-IsWhole r)

  flush_turn :
      (w w' : Writer F S)
      → next_command w ≡ some (WalCommand.flush, w')
      → ((turn json idb w).store ≡ w.store)
        × ((turn json idb w).replies
            ≡ w.replies
              ++ Reply.flushed (elim w.append_error [
                | none ↦ ok tt
                | some msg ↦ err (indexed_db (lost_append msg))
              ])
                ∷ [])
  unfolding turn handle
  flush_turn w w' e =
      let (error, store, replies) = next_command_lem w (WalCommand.flush, w') e in
      let handled : Option (WalCommand F × Writer F S) → Writer F S =
        λ o. elim o [ none ↦ w | some p ↦ handle json idb p.0 p.1 ] in
      (
        ap (λ o. (handled o).store) e ∙ store,
        ap (λ o. (handled o).replies) e ∙ rw (error, replies) refl,
      )

  -- Behind a flush that was answered without an error, the rows of the store are those of the log.
  pub flush_stored :
      {log : List (WalEntry F)} {w w' : Writer F S} (js : List J)
      → Runs log w
      → next_command w ≡ some (WalCommand.flush, w')
      → (turn json idb w).replies ≡ w.replies ++ Reply.flushed (ok tt) ∷ []
      → idb.get_all (turn json idb w).store ≡ ok js
      → to_js_all json log ≡ ok js
  flush_stored {log} {w} {w'} js runs e r readable =
      let (store, replies) = flush_turn w w' e in
      elim (Option-cases w.append_error) [
        | inl none_failed ↦
            (Runs-IsWhole runs).stored none_failed
            ∙ ap ok (sym (laws.read _ js readable ∙ ap laws.rows store))
        | inr (msg, failed) ↦
            let answer = snoc-eq_of_eq w.replies _ _ (sym r ∙ replies) in absurd (ground arith)
      ]

  -- Where the task answers a flush without an error, the store can be read, and the scores in the log
  -- are numbers that JSON text keeps, what is read from the store is the whole log: the entries that
  -- stood there when the task was started, or those of the last rewrite that succeeded, and behind
  -- them every entry that the task has taken from the queue since, in order.
  pub flush_answered :
      (json_laws : JsonLaws json) {log : List (WalEntry F)} {w w' : Writer F S} (js : List J)
      → Runs log w
      → AllScores json_laws.IsKept log
      → next_command w ≡ some (WalCommand.flush, w')
      → (turn json idb w).replies ≡ w.replies ++ Reply.flushed (ok tt) ∷ []
      → idb.get_all (turn json idb w).store ≡ ok js
      → replay_entries json idb (turn json idb w).store ≡ ok log
  unfolding replay_entries
  flush_answered json_laws {log} js runs kept e r readable =
      rw
        (
          readable,
          replay_entries,
          read_all_back json json_laws log js kept (flush_stored js runs e r readable),
        )
        refl

  -- Once an append has failed, and until a rewrite succeeds, a flush is answered with an error.
  pub flush_refused :
      (w w' : Writer F S) (msg : String)
      → next_command w ≡ some (WalCommand.flush, w')
      → w.append_error ≡ some msg
      → (turn json idb w).replies
        ≡ w.replies ++ Reply.flushed (err (indexed_db (lost_append msg))) ∷ []
  flush_refused w w' msg e failed = (flush_turn w w' e).1 ∙ rw failed refl
