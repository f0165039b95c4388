-- ===== src/Replay/Durable/Parts.antt =====
-- The shapes of the commands of crates/redis-wasm-core/src/db.rs against their log entries.
use mathlib.Core.Path.{subst}
use kvasm.Common.{
  ℕ, String, ◌≡◌, ◌≢◌, refl, sym, ap, ◌∙◌, Bool, true, false, some, List, eq_iff, Result, ok, pure,
  ◌>>=◌, ◌>>◌, if◌then◌else◌, eqb, arith, Option-cases, inl, inr, bind_ok,
}
use kvasm.HashMap
use kvasm.HashMap.{HashMap, lookup, insert, contains_key}
use kvasm.HashMap.Laws.{lookup-insert, lookup-remove, lookup-insert_self}
use kvasm.Float.{Float64}
use kvasm.Value.{Value, Write, string, new_empty_string}
use kvasm.Wal.{WalEntry, WalWriterTrait}
use kvasm.Expiry.{get_expiry_ms}
use kvasm.Db.{
  Db, DbError, Command, or_insert_with, typed, upsert, update, purge_expired, expired, on_live,
}
use kvasm.Db.Persist.{write_wal}
use kvasm.Db.Strings.{modify_string, log_string, bytes_of}
use kvasm.Replay.{Tables, as_io, on_entry, on_existing, put_string, apply_entry}
use kvasm.Replay.Agree.{Agree, refl-Agree}
use kvasm.Replay.Durable.{Log, IsDurable, SameLog, tables, unlogged-IsDurable, write_wal-IsDurable}

module _ {F W : Type 0} (f : Float64 F) {writer : WalWriterTrait W F} (log : Log writer) where
  pub log_then-IsDurable :
      {A : Type 0} {a b : Db F W} (entry : WalEntry F) (t : Tables F) (x y : A)
      → SameLog f log a b
      → apply_entry f entry (tables a) ≡ (ok tt, t)
      → Agree t (tables b)
      → ((write_wal writer entry >> pure x) b).0 ≡ ok y
      → IsDurable f log a
      → IsDurable f log ((write_wal writer entry >> pure x) b).1
  log_then-IsDurable {a} {b} entry t x y s e g r h =
      let (u, p, _, q) = bind_ok (write_wal writer entry) (λ _. pure x) b y r in
      subst (IsDurable f log) (sym q) (write_wal-IsDurable f log entry t s e g p h)

  -- An entry that is made where it is missing, and the operation logged.
  pub upsert_log-IsDurable :
      {A : Type 0} (key : String) (fresh : Value F) (op : Write F A) (entry : WalEntry F) (x y : A)
      (db : Db F W)
      → ((t : Tables F) → apply_entry f entry t ≡ on_entry key fresh op t)
      → (upsert key fresh (typed op) db).0 ≡ ok x
      → ((write_wal writer entry >> pure x) (upsert key fresh (typed op) db).1).0 ≡ ok y
      → IsDurable f log db
      → IsDurable f log ((write_wal writer entry >> pure x) (upsert key fresh (typed op) db).1).1
  unfolding upsert on_entry
  upsert_log-IsDurable key fresh op entry x y db same p r h =
      let v = or_insert_with fresh (lookup key db.data_map) in
      let b = (upsert key fresh (typed op) db).1 in
      let fine : (op v).0 ≡ ok x = ground arith in
      log_then-IsDurable {a = db} {b = b} entry (tables b) x y
        (record { compaction_threshold = refl; wal = refl })
        (same (tables db) ∙ ap (λ k. (as_io k, tables b)) fine) (refl-Agree (tables b)) r h

  pub upsert-IsDurable :
      {A : Type 0} (key : String) (fresh : Value F) (op : Write F A) (entry : WalEntry F) (y : A)
      (db : Db F W)
      → ((t : Tables F) → apply_entry f entry t ≡ on_entry key fresh op t)
      → ((upsert key fresh (typed op) >>= λ x. (write_wal writer entry >> pure x)) db).0 ≡ ok y
      → IsDurable f log db
      → IsDurable f log
          ((upsert key fresh (typed op) >>= λ x. (write_wal writer entry >> pure x)) db).1
  upsert-IsDurable key fresh op entry y db same r h =
      let (x, p, r', q) =
        bind_ok (upsert key fresh (typed op)) (λ x. (write_wal writer entry >> pure x)) db y r in
      subst (IsDurable f log) (sym q) (upsert_log-IsDurable key fresh op entry x y db same p r' h)

  -- The same for an entry that is there.
  pub update_log-IsDurable :
      {A : Type 0} (key : String) (op : Write F A) (entry : WalEntry F) (x y : A) (db : Db F W)
      → ((t : Tables F) → apply_entry f entry t ≡ on_existing key op t)
      → (update key (typed op) db).0 ≡ ok x
      → ((write_wal writer entry >> pure x) (update key (typed op) db).1).0 ≡ ok y
      → IsDurable f log db
      → IsDurable f log ((write_wal writer entry >> pure x) (update key (typed op) db).1).1
  unfolding update on_existing
  update_log-IsDurable key op entry x y db same p r h =
      let b = (update key (typed op) db).1 in
      let applied : on_existing key op (tables db) ≡ (ok tt, tables b) = ground arith in
      let untouched : SameLog f log db b = ground arith in
      log_then-IsDurable {a = db} {b = b} entry (tables b) x y untouched
        (same (tables db) ∙ applied) (refl-Agree (tables b)) r h

  pub update-IsDurable :
      {A : Type 0} (key : String) (op : Write F A) (entry : WalEntry F) (y : A) (db : Db F W)
      → ((t : Tables F) → apply_entry f entry t ≡ on_existing key op t)
      → ((update key (typed op) >>= λ x. (write_wal writer entry >> pure x)) db).0 ≡ ok y
      → IsDurable f log db
      → IsDurable f log ((update key (typed op) >>= λ x. (write_wal writer entry >> pure x)) db).1
  update-IsDurable key op entry y db same r h =
      let (x, p, r', q) =
        bind_ok (update key (typed op)) (λ x. (write_wal writer entry >> pure x)) db y r in
      subst (IsDurable f log) (sym q) (update_log-IsDurable key op entry x y db same p r' h)

  -- A command on a key that has not expired starts with its work.
  pub purge_then-IsDurable :
      {A : Type 0} (key : String) (m : Command F W A) (y : A) (db : Db F W)
      → expired key db ≡ false
      → ((m db).0 ≡ ok y → IsDurable f log (m db).1)
      → ((purge_expired key >> m) db).0 ≡ ok y
      → IsDurable f log ((purge_expired key >> m) db).1
  unfolding purge_expired
  purge_then-IsDurable key m y db e = rw e (λ k. k)

  -- A branch on the count: nothing in the log if there was nothing to count.
  pub counted-IsDurable :
      {A : Type 0} (t : Bool) (zero_result y : A) (m : Command F W A) (b : Db F W)
      → (t ≡ true → IsDurable f log b)
      → ((m b).0 ≡ ok y → IsDurable f log (m b).1)
      → ((if t then pure zero_result else m) b).0 ≡ ok y
      → IsDurable f log ((if t then pure zero_result else m) b).1
  counted-IsDurable true z y m b h k r = h refl
  counted-IsDurable false z y m b h k r = k r

  -- The database after an operation on a value that was there, and that it left as it was.
  pub same_value-Agree :
      (key : String) (v : Value F) (db : Db F W)
      → lookup key db.data_map ≡ some v
      → Agree (tables db) (tables (record db { data_map = insert key v db.data_map }))
  same_value-Agree key v db e = record {
    data_map = λ j. ground (arith, eq_iff key j, lookup-insert key j v db.data_map);
    expiry = λ j. refl;
  }

  pub update_idle-IsDurable :
      {A : Type 0} (key : String) (op : Write F A) (nothing : A) (db : Db F W)
      → ((v : Value F) → (op v).0 ≡ ok nothing → (op v).1 ≡ v)
      → (update key (typed op) db).0 ≡ ok nothing
      → IsDurable f log db
      → IsDurable f log (update key (typed op) db).1
  unfolding update
  update_idle-IsDurable key op nothing db idle r h = elim (Option-cases (lookup key db.data_map)) [
    | inl e ↦ rw (e, update) h
    | inr (v, e) ↦
        let fine : (op v).0 ≡ ok nothing = ground arith in
        rw (e, update, idle v fine)
          (unlogged-IsDurable f log (record { compaction_threshold = refl; wal = refl })
            (same_value-Agree key v db e) h)
  ]

  -- An operation on an existing value that is logged if it counted anything.
  pub update_counted-IsDurable :
      (key : String) (op : Write F ℕ) (entry : WalEntry F) (y : ℕ) (db : Db F W)
      → ((t : Tables F) → apply_entry f entry t ≡ on_existing key op t)
      → ((v : Value F) → (op v).0 ≡ ok 0 → (op v).1 ≡ v)
      → ((update key (typed op) >>= λ n.
            if eqb n 0 then pure 0 else (write_wal writer entry >> pure n))
          db).0
        ≡ ok y
      → IsDurable f log db
      → IsDurable f log
          ((update key (typed op) >>= λ n.
              if eqb n 0 then pure 0 else (write_wal writer entry >> pure n))
            db).1
  update_counted-IsDurable key op entry y db same idle r h =
      let (n, p, r', q) =
        bind_ok (update key (typed op))
          (λ n. if eqb n 0 then pure 0 else (write_wal writer entry >> pure n)) db y r in
      subst (IsDurable f log) (sym q) (
        counted-IsDurable (eqb n 0) 0 y (write_wal writer entry >> pure n)
          (update key (typed op) db).1
          (λ z.
            let zero_n : n ≡ 0 = ground arith in
            update_idle-IsDurable key op 0 db idle (p ∙ ap ok zero_n) h)
          (λ k. update_log-IsDurable key op entry n y db same p k h) r')

  upsert_idle-IsDurable :
      {A : Type 0} (key : String) (fresh : Value F) (op : Write F A) (nothing : A) (db : Db F W)
      → ((v : Value F) → (op v).0 ≡ ok nothing → (op v).1 ≡ v)
      → (op fresh).0 ≢ ok nothing
      → (upsert key fresh (typed op) db).0 ≡ ok nothing
      → IsDurable f log db
      → IsDurable f log (upsert key fresh (typed op) db).1
  unfolding upsert
  upsert_idle-IsDurable key fresh op nothing db idle busy r h =
      elim (Option-cases (lookup key db.data_map)) [
        | inl e ↦ let fine : (op fresh).0 ≡ ok nothing = ground arith in absurd (busy fine)
        | inr (v, e) ↦
            let fine : (op v).0 ≡ ok nothing = ground arith in
            rw (e, upsert, idle v fine)
              (unlogged-IsDurable f log (record { compaction_threshold = refl; wal = refl })
                (same_value-Agree key v db e) h)
      ]

  -- An operation on an entry, made where it was missing, that is logged if it counted anything: on
  -- a fresh entry it counts something.
  pub upsert_counted-IsDurable :
      (key : String) (fresh : Value F) (op : Write F ℕ) (entry : WalEntry F) (y : ℕ) (db : Db F W)
      → ((t : Tables F) → apply_entry f entry t ≡ on_entry key fresh op t)
      → ((v : Value F) → (op v).0 ≡ ok 0 → (op v).1 ≡ v)
      → (op fresh).0 ≢ ok 0
      → ((upsert key fresh (typed op) >>= λ n.
            if eqb n 0 then pure 0 else (write_wal writer entry >> pure n))
          db).0
        ≡ ok y
      → IsDurable f log db
      → IsDurable f log
          ((upsert key fresh (typed op) >>= λ n.
              if eqb n 0 then pure 0 else (write_wal writer entry >> pure n))
            db).1
  upsert_counted-IsDurable key fresh op entry y db same idle busy r h =
      let (n, p, r', q) =
        bind_ok (upsert key fresh (typed op))
          (λ n. if eqb n 0 then pure 0 else (write_wal writer entry >> pure n)) db y r in
      subst (IsDurable f log) (sym q) (
        counted-IsDurable (eqb n 0) 0 y (write_wal writer entry >> pure n)
          (upsert key fresh (typed op) db).1
          (λ z.
            let zero_n : n ≡ 0 = ground arith in
            upsert_idle-IsDurable key fresh op 0 db idle busy (p ∙ ap ok zero_n) h)
          (λ k. upsert_log-IsDurable key fresh op entry n y db same p k h) r')

  -- The tables that the entry of a string gives, and those that the operation on it gives.
  put_string-Agree :
      (key : String) (s : List ℕ) (db : Db F W)
      → Agree
          (put_string key s (lookup key db.expiry) (tables db))
          (tables (record db { data_map = insert key (string s) db.data_map }))
  unfolding put_string
  put_string-Agree key s db = elim (Option-cases (lookup key db.expiry)) [
    | inl e ↦
        rw (e, put_string)
          (record {
            data_map = λ j. refl;
            expiry = λ j. ground (arith, eq_iff key j, lookup-remove key j db.expiry);
          })
    | inr (ms, e) ↦
        rw (e, put_string)
          (record {
            data_map = λ j. refl;
            expiry = λ j. ground (
              arith,
              eq_iff key j,
              lookup-insert key j ms (HashMap.remove key db.expiry),
              lookup-remove key j db.expiry,
            );
          })
  ]

  upsert_string-IsDurable :
      {A : Type 0} (key : String) (op : Value F → Result DbError A × Value F) (y : A) (db : Db F W)
      → ((v : Value F) (x : A) → (op v).0 ≡ ok x → (s : List ℕ) × ((op v).1 ≡ string s))
      → ((upsert key new_empty_string op >>= λ x. (log_string writer key >> pure x)) db).0 ≡ ok y
      → IsDurable f log db
      → IsDurable f log
          ((upsert key new_empty_string op >>= λ x. (log_string writer key >> pure x)) db).1
  unfolding upsert log_string apply_entry bytes_of get_expiry_ms
  upsert_string-IsDurable key op y db strings r h =
      let (x, p, r', q) =
        bind_ok (upsert key new_empty_string op) (λ x. (log_string writer key >> pure x)) db y r in
      let v = or_insert_with new_empty_string (lookup key db.data_map) in
      let b = (upsert key new_empty_string op db).1 in
      let bytes = bytes_of (lookup key b.data_map) in
      let expiry = lookup key db.expiry in
      let (s, left) = strings v x p in
      let same : Agree (put_string key bytes expiry (tables db)) (tables b) =
        rw (lookup-insert_self key (op v).1 db.data_map, left) (put_string-Agree key s db) in
      subst (IsDurable f log) (sym q) (
        log_then-IsDurable {a = db} {b = b} (WalEntry.set key bytes expiry)
          (put_string key bytes expiry (tables db)) x y
          (record { compaction_threshold = refl; wal = refl }) refl same r' h)

  -- The string that an operation leaves, logged with the expiry time that the key has.
  pub modify_string-IsDurable :
      {A : Type 0} (key : String) (op : Value F → Result DbError A × Value F) (y : A) (db : Db F W)
      → ((v : Value F) (x : A) → (op v).0 ≡ ok x → (s : List ℕ) × ((op v).1 ≡ string s))
      → expired key db ≡ false
      → (modify_string writer key op db).0 ≡ ok y
      → IsDurable f log db
      → IsDurable f log (modify_string writer key op db).1
  unfolding modify_string
  modify_string-IsDurable key op y db strings e r h =
      purge_then-IsDurable key
        (upsert key new_empty_string op >>= λ x. (log_string writer key >> pure x)) y db e
        (λ k. upsert_string-IsDurable key op y db strings k h) r

  -- A command on an existing value goes on where the key has not expired.
  pub on_live-IsDurable :
      {A : Type 0} (key : String) (early : Result DbError A) (m : Command F W A) (y : A)
      (db : Db F W)
      → expired key db ≡ false
      → ((m db).0 ≡ ok y → IsDurable f log (m db).1)
      → (on_live key early m db).0 ≡ ok y
      → IsDurable f log (on_live key early m db).1
  unfolding on_live
  on_live-IsDurable key early m y db e = rw e (λ k. k)

  -- An operation on an existing value whose last act is the write to the log.
  pub update_write-IsDurable :
      {A : Type 0} (key : String) (op : Write F A) (entry : WalEntry F) (y : Unit) (db : Db F W)
      → ((t : Tables F) → apply_entry f entry t ≡ on_existing key op t)
      → ((update key (typed op) >> write_wal writer entry) db).0 ≡ ok y
      → IsDurable f log db
      → IsDurable f log ((update key (typed op) >> write_wal writer entry) db).1
  unfolding update on_existing
  update_write-IsDurable key op entry y db same r h =
      let (x, p, r', q) = bind_ok (update key (typed op)) (λ _. write_wal writer entry) db y r in
      let b = (update key (typed op) db).1 in
      let applied : on_existing key op (tables db) ≡ (ok tt, tables b) = ground arith in
      let untouched : SameLog f log db b = ground arith in
      subst (IsDurable f log) (sym q) (
        write_wal-IsDurable f log {a = db} {b = b} entry (tables b) untouched
          (same (tables db) ∙ applied) (refl-Agree (tables b)) r' h)

  -- A test, and what either branch leaves.
  pub either-IsDurable :
      {A : Type 0} (t : Bool) (m n : Result DbError A × Db F W) (y : A)
      → (t ≡ true → m.0 ≡ ok y → IsDurable f log m.1)
      → (t ≡ false → n.0 ≡ ok y → IsDurable f log n.1)
      → (if t then m else n).0 ≡ ok y
      → IsDurable f log (if t then m else n).1
  either-IsDurable true m n y h k = h refl
  either-IsDurable false m n y h k = k refl
