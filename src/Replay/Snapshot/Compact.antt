-- ===== src/Replay/Snapshot/Compact.antt =====
-- `compact` of crates/redis-wasm-core/src/db.rs with the `NativeWalWriter` of wal/writer.rs, and the
-- replay of the file that it leaves.
use mathlib.Core.Path.{subst}
use kvasm.Common.{
  ℕ, suc, ◌<◌, ◌^◌, ◌≡◌, refl, ap, ◌∙◌, false, some, List, ok, length, arith, Result-cases, inl,
  inr,
}
use kvasm.Float.{Float64}
use kvasm.Wal.{WalEntry, WalWriterTrait}
use kvasm.Wal.Native.{Codec, FileIo, NativeWalWriter, native_writer}
use kvasm.Wal.Native.Frames.{FileLaws, CutFrames, short-AllFit}
use kvasm.Wal.Native.Stored.{Holds, rewrite-Holds}
use kvasm.Db.{Db}
use kvasm.Db.Persist.{compact, snapshot_entries}
use kvasm.Db.Frame.{SameTables}
use kvasm.Db.Valid.{IsValid}
use kvasm.Replay.{Tables, empty_tables}
use kvasm.Replay.Reader.{replay_from, native_reader}
use kvasm.Replay.Reader.Frames.{CodecLaws}
use kvasm.Replay.Reader.Stored.{replay_from-CutFrames}
use kvasm.Replay.Snapshot.Kept.{Restores, snapshot_entries_lem}

compact_ok :
    {F W : Type 0} (writer : WalWriterTrait W F) (db : Db F W) (w w' : W)
    → db.wal ≡ some w
    → db.compacting ≡ false
    → (compact writer db).0 ≡ ok tt
    → (compact writer db).1.wal ≡ some w'
    → ((writer.rewrite (snapshot_entries db) w).0 ≡ ok tt)
      × ((writer.rewrite (snapshot_entries db) w).1 ≡ w')
      × SameTables (compact writer db).1 db
unfolding compact snapshot_entries
compact_ok writer db w w' e i r k = elim (Result-cases (writer.rewrite (snapshot_entries db) w).0) [
  | inl (_, fine) ↦ (
    fine,
    ground arith,
    (rw (e, compact, i, fine) (record { data_map = refl; expiry = refl; now = refl })),
  )
  | inr (x, failed) ↦ absurd (ground arith)
]

module _ {F B D : Type 0} (codec : Codec F) {io : FileIo B D} (disk : FileLaws io) where
  -- A compaction that succeeds, of a database with valid tables and a native writer that holds a
  -- log, while no other compaction is under way: if the file that it leaves has less than 2^32 bytes,
  -- these replay, with fuel for one entry more than there are bytes, without an error into empty
  -- tables, and restore what a snapshot of the database keeps; the tables stay as they were.
  pub compact_lem :
      (f : Float64 F) (laws : CodecLaws codec) (db : Db F (NativeWalWriter F B D))
      (w w' : NativeWalWriter F B D) (log : List (WalEntry F))
      → IsValid f db
      → db.wal ≡ some w
      → Holds codec disk log w
      → db.compacting ≡ false
      → (compact (native_writer codec io) db).0 ≡ ok tt
      → (compact (native_writer codec io) db).1.wal ≡ some w'
      → length (disk.file w'.disk) < 2 ^ 32
      → (count : ℕ) × (t : Tables F) × (replay_from f
            (native_reader codec)
            (suc (length (disk.file w'.disk)))
            (disk.file w'.disk)
            0
            empty_tables
          ≡ some (ok count, t))
        × Restores f db t
        × SameTables (compact (native_writer codec io) db).1 db
  unfolding native_writer
  compact_lem f laws db w w' log valid e held i r k short =
      let (count, t, run, restores) = snapshot_entries_lem f db valid in
      let (fine, same, tables) = compact_ok (native_writer codec io) db w w' e i r k in
      let cut : CutFrames codec (snapshot_entries db) (disk.file w'.disk) =
        subst (λ w. CutFrames codec (snapshot_entries db) (disk.file w.disk)) same
          (rewrite-Holds codec disk (snapshot_entries db) w held fine).0 in
      (
        count,
        t,
        replay_from-CutFrames f laws empty_tables cut (short-AllFit codec cut short) ∙ ap some run,
        restores,
        tables,
      )
