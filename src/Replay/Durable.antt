-- ===== src/Replay/Durable.antt =====
-- The entries that crates/redis-wasm-core/src/db.rs writes to the log, and their replay by
-- crates/redis-wasm-core/src/wal/replayer.rs, against the tables of the database.
pub mod Parts
pub mod Commands
pub mod Lists
pub mod Keys
pub mod Del
pub mod Runs
pub mod Expired
pub mod Reads
pub mod Disk
use mathlib.Core.Path.{subst}
use kvasm.Common.{
  ℕ, suc, ◌+◌, ◌%◌, ◌^◌, String, ◌≡◌, refl, sym, ap, ◌∙◌, Bool, true, false, Option, none, some,
  List, [], ◌∷◌, ◌++◌, ◌==◌, eq_iff, Result, ok, err, map_err, pure, ◌>>=◌, ◌>>◌, if◌then◌else◌,
  arith, Option-cases, Result-cases, Bool-cases, inl, inr,
}
use kvasm.HashMap
use kvasm.HashMap.{HashMap, lookup, insert}
use kvasm.HashMap.Laws.{lookup-insert, lookup-remove}
use kvasm.Float.{Float64}
use kvasm.Value.{Value, Write, string}
use kvasm.Wal.{WalEntry, WalError, WalWriterTrait}
use kvasm.Expiry.{u64_limit}
use kvasm.Db.{Db, DbError, Command, or_insert_with, typed, upsert, update}
use kvasm.Db.Persist.{write_wal, compact_if_needed}
use kvasm.Db.Frame.{SameTables, write_wal-SameTables}
use kvasm.Replay.{
  Tables, Apply, as_io, on_entry, on_existing, drop_keys, put_string, apply_entry, replay,
  empty_tables,
}
use kvasm.Replay.Agree.{Agree, refl-Agree, trans-Agree, SameRun, apply_entry-SameRun, replay-snoc}

-- What a log does: `Holds es w` says that a writer in the state `w` has a log of the entries `es`,
-- and an append that succeeds puts its entry at the end.
pub record Log {W F : Type 0} (writer : WalWriterTrait W F) : Type 1 where
  pub Holds : List (WalEntry F) → W → Type 0
  pub appended :
      {es : List (WalEntry F)} (entry : WalEntry F) (w : W)
      → Holds es w
      → (writer.append entry w).0 ≡ ok tt
      → Holds (es ++ entry ∷ []) (writer.append entry w).1

module _ {F W : Type 0} where
  -- `data_for_replay()` and `expiry_for_replay()` of a database
  abbrev pub tables : Db F W → Tables F
  tables db = record { data_map = db.data_map; expiry = db.expiry }

module _ {F W : Type 0} (writer : WalWriterTrait W F) where
  -- A write that succeeds, of a log without compaction.
  pub write_wal-append :
      (entry : WalEntry F) (db : Db F W) (w : W)
      → db.wal ≡ some w
      → db.compaction_threshold ≡ 0
      → (write_wal writer entry db).0 ≡ ok tt
      → ((writer.append entry w).0 ≡ ok tt)
        × ((write_wal writer entry db).1.wal ≡ some (writer.append entry w).1)
        × ((write_wal writer entry db).1.compaction_threshold ≡ 0)
  unfolding write_wal compact_if_needed
  write_wal-append entry db w e z r = ground arith

module _ {F W : Type 0} (f : Float64 F) {writer : WalWriterTrait W F} (log : Log writer) where
  -- A database without compaction whose log, replayed into empty tables, gives its tables.
  pub record IsDurable (db : Db F W) : Type 0 where
    pub uncompacted : db.compaction_threshold ≡ 0
    pub w : W
    pub attached : db.wal ≡ some w
    pub entries : List (WalEntry F)
    pub holds : log.Holds entries w
    pub count : ℕ
    pub replayed : Tables F
    pub replays : replay f entries 0 empty_tables ≡ (ok count, replayed)
    pub agree : Agree replayed (tables db)

  -- The tables of `b` are those of `a`, up to order, and the log is untouched.
  pub record SameLog (a b : Db F W) : Type 0 where
    pub compaction_threshold : b.compaction_threshold ≡ a.compaction_threshold
    pub wal : b.wal ≡ a.wal

  pub unlogged-IsDurable :
      {a b : Db F W} → SameLog a b → Agree (tables a) (tables b) → IsDurable a → IsDurable b
  unlogged-IsDurable s g h = record {
    uncompacted = s.compaction_threshold ∙ h.uncompacted;
    w = h.w;
    attached = s.wal ∙ h.attached;
    entries = h.entries;
    holds = h.holds;
    count = h.count;
    replayed = h.replayed;
    replays = h.replays;
    agree = trans-Agree h.agree g;
  }

  -- A change of the tables that the entry makes as well, and then the entry in the log.
  pub write_wal-IsDurable :
      {a b : Db F W} (entry : WalEntry F) (t : Tables F)
      → SameLog a b
      → apply_entry f entry (tables a) ≡ (ok tt, t)
      → Agree t (tables b)
      → (write_wal writer entry b).0 ≡ ok tt
      → IsDurable a
      → IsDurable (write_wal writer entry b).1
  write_wal-IsDurable {a} {b} entry t s e g r h =
      let run = apply_entry-SameRun f entry h.agree in
      let d = (apply_entry f entry h.replayed).1 in
      let applied : apply_entry f entry h.replayed ≡ (ok tt, d) = ground (arith, run.result) in
      let (fine, wal, threshold) =
        write_wal-append writer entry b h.w (s.wal ∙ h.attached)
          (s.compaction_threshold ∙ h.uncompacted) r in
      let same = write_wal-SameTables writer entry b in
      record {
        uncompacted = threshold;
        w = (writer.append entry h.w).1;
        attached = wal;
        entries = h.entries ++ entry ∷ [];
        holds = log.appended entry h.w h.holds fine;
        count = suc h.count;
        replayed = d;
        replays =
            replay-snoc f h.entries entry 0 h.count empty_tables h.replayed d h.replays applied;
        agree =
            trans-Agree (trans-Agree run.agree (subst (λ x. Agree x.1 (tables b)) (sym e) g))
              (record {
                data_map = λ j. sym (ap (lookup j) same.data_map);
                expiry = λ j. sym (ap (lookup j) same.expiry);
              });
      }
