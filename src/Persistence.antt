-- ===== src/Persistence.antt =====
-- crates/redis-wasm-bindings/src/persistence/indexed_db.rs and serialization/js_value.rs: the log in an
-- IndexedDB store, and the task that writes it.
pub mod Flushed
pub mod Acknowledged
pub mod Queue
use kvasm.Common.{
  ℕ, suc, zero, String, Bool, Option, none, some, List, [], ◌∷◌, ◌++◌, Result, ok, err, map_err,
  Exec, pure, ◌>>=◌, ◌>>◌, length,
}
use kvasm.Common.Text.{concat}
use kvasm.Wal.{WalEntry, WalError, WalWriterTrait, indexed_db}

-- A `JsValue` is a `J`, a `serde_json::Value` a `V`; errors are their texts.
pub record Json (F J V : Type 0) : Type 0 where
  pub to_string : WalEntry F → Result String String
  pub from_string : String → Result String (WalEntry F)
  pub js_string : String → J
  pub as_string : J → Option String
  pub parse_value : String → Option V
  -- The bytes of the string at "Set" and "value", and the same value with an array there.
  pub set_text : V → Option (List ℕ)
  pub set_bytes : List ℕ → V → V
  pub from_value : V → Option (WalEntry F)

-- An IndexedDB store: `run` is a readwrite transaction `T` around a block.
pub record IndexedDb (S T J : Type 0) : Type 0 where
  pub run : Exec T String (Unit {0}) → S → Result String (Unit {0}) × S
  pub add : J → Exec T String (Unit {0})
  pub clear : Exec T String (Unit {0})
  pub get_all : S → Result String (List J)
  pub count : S → Result String ℕ

module _ {F J V : Type 0} (json : Json F J V) where
  open json use {
    to_string, from_string, js_string, as_string, parse_value, set_text, set_bytes, from_value,
  }

  unfoldable pub wal_entry_to_js_value : WalEntry F → Result String J
  wal_entry_to_js_value entry = elim (to_string entry) [
    | err e ↦ err e
    | ok text ↦ ok (js_string text)
  ]

  unfoldable pub upgrade_legacy_set_entry : String → Option (WalEntry F)
  upgrade_legacy_set_entry text = elim (parse_value text) [
    | none ↦ none
    | some parsed ↦ elim (set_text parsed) [
      | none ↦ none
      | some bytes ↦ from_value (set_bytes bytes parsed)
    ]
  ]

  unfoldable pub js_value_to_wal_entry : J → Result String (WalEntry F)
  unfolding upgrade_legacy_set_entry
  js_value_to_wal_entry value = elim (as_string value) [
    | none ↦ err "Expected string"
    | some text ↦ elim (from_string text) [
      | ok entry ↦ ok entry
      | err e ↦ elim (upgrade_legacy_set_entry text) [ none ↦ err e | some entry ↦ ok entry ]
    ]
  ]

  -- `.map(..).collect::<Result<_, _>>()`
  unfoldable pub to_js_all : List (WalEntry F) → Result String (List J)
  unfolding wal_entry_to_js_value
  to_js_all [] = ok []
  to_js_all (e ∷ es) =
      let rest = to_js_all es in
      elim (wal_entry_to_js_value e) [
        | err x ↦ err x
        | ok j ↦ elim rest [ err x ↦ err x | ok js ↦ ok (j ∷ js) ]
      ]

  unfoldable pub from_js_all : List J → Result String (List (WalEntry F))
  unfolding js_value_to_wal_entry
  from_js_all [] = ok []
  from_js_all (j ∷ js) =
      let rest = from_js_all js in
      elim (js_value_to_wal_entry j) [
        | err x ↦ err x
        | ok e ↦ elim rest [ err x ↦ err x | ok es ↦ ok (e ∷ es) ]
      ]

module _ {S T J : Type 0} (idb : IndexedDb S T J) where
  -- `for entry in &js_entries { store.add(entry).await?; }`
  unfoldable pub add_all : List J → Exec T String (Unit {0})
  add_all [] = pure tt
  add_all (j ∷ js) = idb.add j >> add_all js

module _ {F J V S T : Type 0} (json : Json F J V) (idb : IndexedDb S T J) where
  unfoldable pub append_batch : List (WalEntry F) → S → Result String (Unit {0}) × S
  unfolding to_js_all add_all
  append_batch entries store = elim (to_js_all json entries) [
    | err x ↦ (err x, store)
    | ok js_entries ↦ idb.run (add_all idb js_entries) store
  ]

  unfoldable pub replay_entries : S → Result WalError (List (WalEntry F))
  unfolding from_js_all
  replay_entries store = elim (idb.get_all store) [
    | err x ↦ err (indexed_db x)
    | ok raw ↦ map_err indexed_db (from_js_all json raw)
  ]

  unfoldable pub rewrite_entries : List (WalEntry F) → S → Result String (Unit {0}) × S
  unfolding to_js_all add_all
  rewrite_entries entries store = elim (to_js_all json entries) [
    | err x ↦ (err x, store)
    | ok js_entries ↦ idb.run (idb.clear >> add_all idb js_entries) store
  ]

  unfoldable pub count_entries : S → Result WalError ℕ
  count_entries store = map_err indexed_db (idb.count store)

pub data WalCommand (F : Type 0) : Type 0 where
  append : WalEntry F → WalCommand F
  flush count : WalCommand F
  rewrite : List (WalEntry F) → WalCommand F

-- What the task sends back.
pub data Reply : Type 0 where
  flushed : Result WalError (Unit {0}) → Reply
  counted : Result WalError ℕ → Reply
  rewritten : Result WalError (Unit {0}) → Reply

-- The task of `WasmWalWriter::from_wal`, the queue that feeds it, and the replies so far.
pub record Writer (F S : Type 0) : Type 0 where
  pub queue : List (WalCommand F)
  pub deferred : Option (WalCommand F)
  pub append_error : Option String
  pub store : S
  pub replies : List Reply

module _ {F : Type 0} where
  -- `while let Ok(Some(next)) = receiver.try_next()`: the appends that follow, the command that ends
  -- them, and the rest of the queue.
  unfoldable pub take_batch :
      List (WalCommand F) → List (WalEntry F) × Option (WalCommand F) × List (WalCommand F)
  take_batch [] = ([], none, [])
  take_batch (WalCommand.append entry ∷ cs) =
      let (batch, other, rest) = take_batch cs in (entry ∷ batch, other, rest)
  take_batch (c ∷ cs) = ([], some c, cs)

  -- `deferred.take()`, else the next command of the queue.
  unfoldable pub next_command : {S : Type 0} → Writer F S → Option (WalCommand F × Writer F S)
  next_command w = elim w.deferred [
    | some c ↦ some (c, record w { deferred = none })
    | none ↦ elim w.queue [ [] ↦ none | c ∷ cs ↦ some (c, record w { queue = cs }) ]
  ]

-- The text of a flush that fails.
unfoldable pub lost_append : String → String
unfolding concat
lost_append msg =
    concat "a WAL append failed; the log is incomplete until a compaction rewrites it: " msg

-- `append_error.get_or_insert_with(..)`
abbrev pub get_or_insert : Option String → String → Option String
get_or_insert none x = some x
get_or_insert (some old) x = some old

module _ {F J V S T : Type 0} (json : Json F J V) (idb : IndexedDb S T J) where
  -- A batch of appends.
  unfoldable pub write_batch : List (WalEntry F) → Writer F S → Writer F S
  unfolding append_batch concat
  write_batch batch w =
      let (r, store') = append_batch json idb batch w.store in
      elim r [
        | ok _ ↦ record w { store = store' }
        | err x ↦ record w {
          store = store';
          append_error = get_or_insert w.append_error (concat "IndexedDB error: " x);
        }
      ]

  -- One command.
  unfoldable pub handle : WalCommand F → Writer F S → Writer F S
  unfolding take_batch write_batch rewrite_entries count_entries lost_append
  handle (WalCommand.append entry) w =
      let (batch, other, rest) = take_batch w.queue in
      write_batch (entry ∷ batch) (record w { queue = rest; deferred = other })
  handle WalCommand.flush w =
      let result : Result WalError (Unit {0}) = elim w.append_error [
        | none ↦ ok tt
        | some msg ↦ err (indexed_db (lost_append msg))
      ] in
      record w { replies = w.replies ++ Reply.flushed result ∷ [] }
  handle WalCommand.count w = record w {
    replies = w.replies ++ Reply.counted (count_entries json idb w.store) ∷ [];
  }
  handle (WalCommand.rewrite entries) w =
      let (r, store') = rewrite_entries json idb entries w.store in
      elim r [
        | ok _ ↦ record w {
          store = store';
          append_error = none;
          replies = w.replies ++ Reply.rewritten (ok tt) ∷ [];
        }
        | err x ↦ record w {
          store = store';
          replies = w.replies ++ Reply.rewritten (err (indexed_db x)) ∷ [];
        }
      ]

  -- One turn of the loop; where no command is there, the task waits.
  unfoldable pub turn : Writer F S → Writer F S
  unfolding next_command handle
  turn w = elim (next_command w) [ none ↦ w | some p ↦ handle p.0 p.1 ]

module _ {F S : Type 0} where
  -- `from_wal`
  unfoldable pub from_wal : S → Writer F S
  from_wal store = record {
    queue = [];
    deferred = none;
    append_error = none;
    store = store;
    replies = [];
  }

  -- `unbounded_send`
  unfoldable pub send : WalCommand F → Writer F S → Writer F S
  send c w = record w { queue = w.queue ++ c ∷ [] }
