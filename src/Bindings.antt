-- ===== src/Bindings.antt =====
-- `WasmDb` of crates/redis-wasm-bindings/src/lib.rs: the commands as JavaScript calls them, with the
-- clock that each call reads first.
pub mod Pairs
pub mod Reopen
pub mod Seconds
use kvasm.Common.{
  ℕ, suc, zero, ◌+◌, ◌-◌, ◌^◌, ◌%◌, eqb, String, Bool, true, false, Option, none, some, List, [],
  ◌∷◌, Result, ok, err, map_err, Exec, pure, ◌>>=◌, ◌>>◌, ltb, if◌then◌else◌, length,
}
use kvasm.Common.Int.{ℤ, pos, negsuc}
use kvasm.Float.{Float64}
use kvasm.Value.{TypeError}
use kvasm.Wal.{WalEntry, WalError, WalWriterTrait}
use kvasm.Db.{Db, DbError, Command, build}
use kvasm.Db.Keys
use kvasm.Db.Strings
use kvasm.Db.Zsets
use kvasm.Db.Expire
use kvasm.Db.Persist
use kvasm.Replay.{Tables, replay}
use kvasm.Persistence.{Json, IndexedDb, Writer, from_wal, replay_entries}

-- A `JsValue` that stands for an error: its text, or the error of which it has the text.
pub data JsError : Type 0 where
  db_error : DbError → JsError
  log_error : WalError → JsError
  text : String → JsError

-- The arguments that a call does not give a type.
pub data JsValue (F : Type 0) : Type 0 where
  string : String → JsValue F
  number : F → JsValue F
  other : JsValue F

-- A call: it may read the clock more than once, so it takes the times that it reads.
abbrev pub Call : Type 0 → Type 0 → Type 0 → Type 0
Call F W A = Db F W → Result JsError A × Db F W

module _ {F W : Type 0} where
  -- `sync_clock()`
  unfoldable pub sync_clock : ℕ → Db F W → Db F W
  sync_clock time db = record db { now = time }

  -- `self.db().command().to_js_value()`
  unfoldable pub call : {A : Type 0} → ℕ → Command F W A → Call F W A
  unfolding sync_clock
  call time command db =
      let (r, db') = command (sync_clock time db) in (map_err JsError.db_error r, db')

  unfoldable pub get_buffer : ℕ → String → Call F W (Option (List ℕ))
  unfolding call
  get_buffer time key = call time (Keys.get_bytes key)

  -- `has`
  unfoldable pub has : ℕ → String → Call F W Bool
  unfolding call
  has time key = do count ← call time (Keys.exists (key ∷ [])); pure (ltb 0 count)

  unfoldable pub ttl : ℕ → String → Call F W ℤ
  unfolding call
  ttl time key = call time (Expire.ttl key)

  -- The argument is a `u32`.
  unfoldable pub set_compaction_threshold : ℕ → ℕ → Db F W → Db F W
  unfolding sync_clock
  set_compaction_threshold time threshold db =
      Persist.set_compaction_threshold threshold (sync_clock time db)

-- What the conversion of a JS number to an `i64` does: whether the number is a safe integer, and the
-- cast.
pub record JsNumber (N : Type 0) : Type 0 where
  pub is_safe : N → Bool
  pub as_i64 : N → ℤ

unfoldable pub not_an_integer_text : String
not_an_integer_text = "ERR value is not an integer or out of range"

unfoldable pub safe_integer : {N : Type 0} → JsNumber N → N → Result JsError ℤ
unfolding not_an_integer_text
safe_integer js delta =
    if js.is_safe delta then ok (js.as_i64 delta) else err (JsError.text not_an_integer_text)

-- `i64::checked_neg`
unfoldable pub checked_neg : ℤ → Option ℤ
checked_neg (pos zero) = some (pos zero)
checked_neg (pos (suc n)) = some (negsuc n)
checked_neg (negsuc n) = if ltb n (2 ^ 63 - 1) then some (pos (n + 1)) else none

module _ {F W : Type 0} (writer : WalWriterTrait W F) where
  -- `set` and `set_buffer`: the clock is read again before `expire`.
  unfoldable pub set : ℕ → ℕ → String → List ℕ → Option ℕ → Call F W (Unit {0})
  unfolding call
  set time time' key value ex = do
    call time (Keys.set writer key value)
    elim ex [
      | none ↦ pure tt
      | some seconds ↦ call time' (Expire.expire writer key seconds) >> pure tt
    ]

  unfoldable pub set_value : ℕ → ℕ → String → List ℕ → Option ℕ → Call F W (Unit {0})
  unfolding call
  set_value time time' key value ttl_ms = do
    call time (Keys.set writer key value)
    elim ttl_ms [ none ↦ pure tt | some ms ↦ call time' (Expire.pexpire writer key ms) >> pure tt ]

  unfoldable pub delete : ℕ → String → Call F W Bool
  unfolding call
  delete time key = do count ← call time (Keys.del_async writer (key ∷ [])); pure (ltb 0 count)

  unfoldable pub incrby : {N : Type 0} → JsNumber N → ℕ → String → N → Call F W ℤ
  unfolding call safe_integer
  incrby js time key delta db = elim (safe_integer js delta) [
    | err e ↦ (err e, db)
    | ok d ↦ call time (Strings.incr_by writer key d) db
  ]

  unfoldable pub decrby : {N : Type 0} → JsNumber N → ℕ → String → N → Call F W ℤ
  unfolding call safe_integer checked_neg not_an_integer_text
  decrby js time key delta db = elim (safe_integer js delta) [
    | err e ↦ (err e, db)
    | ok d ↦ elim (checked_neg d) [
      | none ↦ (err (JsError.text not_an_integer_text), db)
      | some d' ↦ call time (Strings.incr_by writer key d') db
    ]
  ]

  unfoldable pub save : ℕ → Call F W Unit
  unfolding call
  save time = call time (Persist.flush_wal writer)

  unfoldable pub compact : ℕ → Call F W Unit
  unfolding call
  compact time = call time (Persist.compact writer)

module _ {F : Type 0} where
  -- `members.chunks(2)`, of an even number of members
  unfoldable pub parse_pairs : List (JsValue F) → Result JsError (List (String × F))
  parse_pairs [] = ok []
  parse_pairs (JsValue.string member ∷ JsValue.number score ∷ rest) = elim (parse_pairs rest) [
    | err e ↦ err e
    | ok parsed ↦ ok ((member, score) ∷ parsed)
  ]
  parse_pairs (JsValue.string member ∷ _) = err (JsError.text "zadd score must be a number")
  parse_pairs (_ ∷ _) = err (JsError.text "zadd member must be a string")

  -- `for (member, score) in result`
  unfoldable pub flatten : List (String × F) → List (JsValue F)
  flatten [] = []
  flatten ((member, score) ∷ rest) = JsValue.string member ∷ JsValue.number score ∷ flatten rest

module _ {F W : Type 0} (f : Float64 F) (writer : WalWriterTrait W F) where
  unfoldable pub zadd : ℕ → String → List (JsValue F) → Call F W ℕ
  unfolding call parse_pairs
  zadd time key members db =
      if eqb (length members % 2) 0
      then elim (parse_pairs members) [
        | err e ↦ (err e, db)
        | ok parsed ↦ call time (Zsets.zadd f writer key parsed) db
      ]
      else (err (JsError.text "zadd expects [member, score, ...] pairs"), db)

module _ {F W : Type 0} (f : Float64 F) where
  unfoldable pub zrangebyscore : ℕ → String → F → F → Call F W (List (JsValue F))
  unfolding call flatten
  zrangebyscore time key min max = do
    result ← call time (Zsets.zrangebyscore f key min max)
    pure (flatten result)

module _ {F J V S T : Type 0} (f : Float64 F) (json : Json F J V) (idb : IndexedDb S T J) where
  -- `with_persistence`, of a store that is open, at a time
  unfoldable pub with_persistence : S → ℕ → Result JsError (Db F (Writer F S))
  unfolding build from_wal replay_entries replay Persist.set_wal_len
  with_persistence store now = elim (replay_entries json idb store) [
    | err e ↦ err (JsError.log_error e)
    | ok entries ↦
        let db : Db F (Writer F S) = build (some (from_wal store)) now in
        elim entries [
          | [] ↦ ok db
          | e ∷ es ↦
              let tables : Tables F = record { data_map = db.data_map; expiry = db.expiry } in
              let (r, t) = replay f (e ∷ es) 0 tables in
              elim r [
                | err x ↦ err (JsError.log_error x)
                | ok _ ↦ ok (
                    Persist.set_wal_len (length (e ∷ es))
                      (record db { data_map = t.data_map; expiry = t.expiry }))
              ]
        ]
  ]
