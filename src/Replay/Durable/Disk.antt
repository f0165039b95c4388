-- ===== src/Replay/Durable/Disk.antt =====
-- Runs of the commands of crates/redis-wasm-core/src/db.rs with the `NativeWalWriter` of wal/writer.rs,
-- and the replay of its file by the reader of wal/replayer.rs.
use mathlib.Core.Path.{subst}
use kvasm.Common.{ℕ, suc, ◌<◌, ◌^◌, ◌≡◌, ap, ◌∙◌, some, ok, length, arith}
use kvasm.Float.{Float64}
use kvasm.Wal.Native.{Codec, FileIo, NativeWalWriter, flush, native_writer}
use kvasm.Wal.Native.Frames.{FileLaws, CutFrames, short-AllFit}
use kvasm.Wal.Native.Stored.{Holds, append-Holds, flush-Holds}
use kvasm.Db.{Db}
use kvasm.Db.Persist.{flush_wal}
use kvasm.Replay.{Tables, empty_tables}
use kvasm.Replay.Agree.{Agree}
use kvasm.Replay.Reader.{replay_from, native_reader}
use kvasm.Replay.Reader.Frames.{CodecLaws}
use kvasm.Replay.Reader.Stored.{replay_from-CutFrames}
use kvasm.Replay.Durable.{Log, tables}
use kvasm.Replay.Durable.Runs.{Run, Run-IsDurable}

module _ {F B D : Type 0} (codec : Codec F) {io : FileIo B D} (disk : FileLaws io) where
  -- The native writer as a log: its file has the frames of entries, and its buffer those after them.
  unfoldable pub native_log : Log (native_writer codec io)
  unfolding native_writer
  native_log = record { Holds = Holds codec disk; appended = append-Holds codec disk }

  flush_wal_ok :
      (db : Db F (NativeWalWriter F B D)) (w w' : NativeWalWriter F B D)
      → db.wal ≡ some w
      → (flush_wal (native_writer codec io) db).0 ≡ ok tt
      → (flush_wal (native_writer codec io) db).1.wal ≡ some w'
      → ((flush codec io w).0 ≡ ok tt) × ((flush codec io w).1 ≡ w')
  unfolding flush_wal native_writer
  flush_wal_ok db w w' e r k = ground arith

  -- Runs on a database with a native writer, which start with an empty log and without compaction. If
  -- a flush of the log then succeeds and the file has less than 2^32 bytes, its bytes replay, with fuel
  -- for one entry more than there are bytes, without an error into empty tables, and give tables that
  -- hold at every key the value and the expiry time that the database holds. In a run, each command
  -- finds its keys not expired, but for SET, DEL, EXPIRE and PERSIST, which may find them expired; a
  -- command that writes succeeds; and neither the cleaner nor the deletion without the log is called.
  pub Run-replay_from :
      (f : Float64 F) (laws : CodecLaws codec) {db : Db F (NativeWalWriter F B D)}
      (w : NativeWalWriter F B D)
      → Run f native_log db
      → (flush_wal (native_writer codec io) db).0 ≡ ok tt
      → (flush_wal (native_writer codec io) db).1.wal ≡ some w
      → length (disk.file w.disk) < 2 ^ 32
      → (count : ℕ) × (t : Tables F) × (replay_from f
            (native_reader codec)
            (suc (length (disk.file w.disk)))
            (disk.file w.disk)
            0
            empty_tables
          ≡ some (ok count, t))
        × Agree t (tables db)
  unfolding native_log
  Run-replay_from f laws {db} w run r k short =
      let h = Run-IsDurable f native_log run in
      let (fine, same) = flush_wal_ok db h.w w h.attached r k in
      let cut : CutFrames codec h.entries (disk.file w.disk) =
        subst (λ w. CutFrames codec h.entries (disk.file w.disk)) same
          (flush-Holds codec disk h.w h.holds fine).0 in
      (
        h.count,
        h.replayed,
        replay_from-CutFrames f laws empty_tables cut (short-AllFit codec cut short)
            ∙ ap some h.replays,
        h.agree,
      )
