-- ===== src/Replay/Durable/Del.antt =====
-- DEL of crates/redis-wasm-core/src/db.rs against its log entry.
use mathlib.Core.Path.{subst}
use kvasm.Common.{
  ℕ, suc, ◌≤◌, String, ◌≡◌, refl, sym, false, none, List, [], ◌∷◌, ok, pure, ◌>>◌, eqb, arith,
  Bool-cases, inl, inr,
}
use kvasm.HashMap
use kvasm.HashMap.{HashMap, lookup, insert, contains_key}
use kvasm.HashMap.Laws.{remove_absent}
use kvasm.Float.{Float64}
use kvasm.Wal.{WalEntry, WalWriterTrait}
use kvasm.Db.{Db, del, del_loop}
use kvasm.Db.Persist.{write_wal}
use kvasm.Db.Valid.{IsValid, del_key-IsValid}
use kvasm.Db.Keys.{del_async}
use kvasm.Replay.{drop_keys, apply_entry}
use kvasm.Replay.Agree.{Agree, refl-Agree}
use kvasm.Replay.Durable.{Log, IsDurable, SameLog, tables}
use kvasm.Replay.Durable.Parts.{counted-IsDurable, log_then-IsDurable}

module _ {F W : Type 0} (f : Float64 F) {writer : WalWriterTrait W F} (log : Log writer) where
  del_loop-SameLog :
      (ks : List String) (n : ℕ) (db : Db F W) → SameLog f log db (del_loop ks n db).1
  unfolding del_loop
  del_loop-SameLog [] n db = record { compaction_threshold = refl; wal = refl }
  del_loop-SameLog (key ∷ ks) n db = elim (Bool-cases (contains_key key db.data_map)) [
    | inl e ↦
        rw (e, del_loop)
          (let s = del_loop-SameLog ks (suc n) _ in
            record { compaction_threshold = s.compaction_threshold; wal = s.wal })
    | inr e ↦ rw (e, del_loop) (del_loop-SameLog ks n db)
  ]

  absent :
      {V : Type 0} (key : String) (m : HashMap V) → contains_key key m ≡ false → lookup key m ≡ none
  unfolding contains_key
  absent key m e = ground arith

  -- DEL takes out of the tables what its entry takes out of them.
  del_loop-Agree :
      (ks : List String) (n : ℕ) (db : Db F W)
      → IsValid f db
      → Agree (drop_keys ks (tables db)) (tables (del_loop ks n db).1)
  unfolding del_loop drop_keys
  del_loop-Agree [] n db h = refl-Agree (tables db)
  del_loop-Agree (key ∷ ks) n db h = elim (Bool-cases (contains_key key db.data_map)) [
    | inl e ↦ rw (e, del_loop) (del_loop-Agree ks (suc n) _ (del_key-IsValid key db h))
    | inr e ↦
        let gone = absent key db.data_map e in
        rw
          (
            remove_absent key db.data_map gone,
            remove_absent key db.expiry (h.covered key gone),
            e,
            del_loop,
          )
          (del_loop-Agree ks n db h)
  ]

  del_loop_idle :
      (ks : List String) (n : ℕ) (db : Db F W)
      → (n ≤ (del_loop ks n db).0) × ((del_loop ks n db).0 ≡ n → (del_loop ks n db).1 ≡ db)
  unfolding del_loop
  del_loop_idle [] n db = ground arith
  del_loop_idle (key ∷ ks) n db = elim (Bool-cases (contains_key key db.data_map)) [
    | inl e ↦
        rw (e, del_loop)
          (let rest = del_loop_idle ks (suc n) (record db {
            data_map = HashMap.remove key db.data_map;
            expiry = HashMap.remove key db.expiry;
          }) in
            (omega (arith, rest), λ x. absurd (omega (arith, rest))))
    | inr e ↦ rw (e, del_loop) (del_loop_idle ks n db)
  ]

  pub del_async-IsDurable :
      (ks : List String) (y : ℕ) (db : Db F W)
      → IsValid f db
      → (del_async writer ks db).0 ≡ ok y
      → IsDurable f log db
      → IsDurable f log (del_async writer ks db).1
  unfolding del_async del apply_entry
  del_async-IsDurable ks y db valid r h =
      let count = (del_loop ks 0 db).0 in
      let b = (del_loop ks 0 db).1 in
      counted-IsDurable f log (eqb count 0) count y
        (write_wal writer (WalEntry.del ks) >> pure count) b
        (λ z. subst (IsDurable f log) (sym ((del_loop_idle ks 0 db).1 (ground arith))) h)
        (λ k.
          log_then-IsDurable f log {a = db} {b = b} (WalEntry.del ks) (drop_keys ks (tables db))
            count y (del_loop-SameLog ks 0 db) refl (del_loop-Agree ks 0 db valid) k h)
        r
