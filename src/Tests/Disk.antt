-- ===== src/Tests/Disk.antt =====
-- The theorems on databases whose log is in a file, at small databases.
use kvasm.Common.{
  ℕ, ◌≡◌, refl, none, some, List, [], ◌∷◌, Result, ok, err, ◌==◌, eq_iff, eqb, ◌&&◌, if◌then◌else◌,
  arith,
}
use kvasm.HashMap.{lookup, insert}
use kvasm.Value.{list}
use kvasm.Value.Lists
use kvasm.Value.Lists.{push_back_all}
use kvasm.Wal.{WalEntry, WalError, serialization}
use kvasm.Wal.Native.{
  Codec, NativeWalWriter, append, flush, rewrite, drain, write_frame, write_frames, u32_le_bytes,
  native_writer,
}
use kvasm.Wal.Native.Frames.{CutFrames}
use kvasm.Wal.Native.Stored.{Holds}
use kvasm.Expiry.{is_expired, get_expiry_ms}
use kvasm.Db.{Db, build, expired, purge_expired, upsert}
use kvasm.Db.Persist.{
  write_wal, flush_wal, set_compaction_threshold, compact_if_needed, compact, snapshot_entries,
  snapshot_loop, is_empty_collection, value_entries,
}
use kvasm.Db.Lists.{rpush}
use kvasm.Db.Frame.{SameTables}
use kvasm.Db.Valid.{IsValid}
use kvasm.Db.Valid.Steps.{Step}
use kvasm.Replay.{Tables, replay, empty_tables, apply_entry, on_entry}
use kvasm.Replay.Agree.{Agree, refl-Agree}
use kvasm.Replay.Reader.{replay_from, native_reader}
use kvasm.Replay.Reader.Frames.{CodecLaws}
use kvasm.Replay.Durable.{IsDurable, tables}
use kvasm.Replay.Durable.Runs.{Run, IsLogged}
use kvasm.Replay.Durable.Disk.{native_log, Run-replay_from}
use kvasm.Replay.Durable.Expired.{rpush_expired_lem}
use kvasm.Replay.Snapshot.Kept.{Restores}
use kvasm.Replay.Snapshot.Compact.{compact_lem}
use kvasm.Tests.{floats}
use kvasm.Tests.Files.{memory, memory_laws}

-- A codec for the entries that push "old" or "new" to the key "k", and that let it expire at 5.
abbrev encode_push : WalEntry ℕ → Result WalError (List ℕ)
encode_push (WalEntry.r_push key (v ∷ [])) =
    if key == "k"
    then if v == "old" then ok (0 ∷ []) else if v == "new" then ok (1 ∷ []) else err serialization
    else err serialization
encode_push (WalEntry.expire key ms) =
    if key == "k" && eqb ms 5 then ok (2 ∷ []) else err serialization
encode_push _ = err serialization

abbrev decode_push : List ℕ → Result WalError (WalEntry ℕ)
decode_push [] = err serialization
decode_push (b ∷ _) =
    if eqb b 0
    then ok (WalEntry.r_push "k" ("old" ∷ []))
    else if eqb b 1
    then ok (WalEntry.r_push "k" ("new" ∷ []))
    else ok (WalEntry.expire "k" 5)

abbrev push_codec : Codec ℕ
push_codec = record { encode = encode_push; decode = decode_push }

push_decodes :
    (e : WalEntry ℕ) (bytes : List ℕ) → encode_push e ≡ ok bytes → decode_push bytes ≡ ok e
push_decodes (WalEntry.r_push key []) bytes h = absurd (ground arith)
push_decodes (WalEntry.r_push key (v ∷ [])) bytes h =
    ground (arith, eq_iff key "k", eq_iff v "old", eq_iff v "new")
push_decodes (WalEntry.r_push key (v ∷ _ ∷ _)) bytes h = absurd (ground arith)
push_decodes (WalEntry.expire key ms) bytes h = ground (arith, eq_iff key "k")
push_decodes (WalEntry.set _ _ _) bytes h = absurd (ground arith)
push_decodes (WalEntry.del _) bytes h = absurd (ground arith)
push_decodes (WalEntry.l_push _ _) bytes h = absurd (ground arith)
push_decodes (WalEntry.l_pop _ _) bytes h = absurd (ground arith)
push_decodes (WalEntry.r_pop _ _) bytes h = absurd (ground arith)
push_decodes (WalEntry.l_set _ _ _) bytes h = absurd (ground arith)
push_decodes (WalEntry.l_rem _ _ _) bytes h = absurd (ground arith)
push_decodes (WalEntry.l_trim _ _ _) bytes h = absurd (ground arith)
push_decodes (WalEntry.s_add _ _) bytes h = absurd (ground arith)
push_decodes (WalEntry.s_rem _ _) bytes h = absurd (ground arith)
push_decodes (WalEntry.z_add _ _) bytes h = absurd (ground arith)
push_decodes (WalEntry.z_rem _ _) bytes h = absurd (ground arith)
push_decodes (WalEntry.h_set _ _ _) bytes h = absurd (ground arith)
push_decodes (WalEntry.h_del _ _) bytes h = absurd (ground arith)
push_decodes (WalEntry.persist _) bytes h = absurd (ground arith)

abbrev push_codec_laws : CodecLaws push_codec
push_codec_laws = record { decodes = push_decodes }

-- A writer that writes each two entries.
abbrev empty_writer : NativeWalWriter ℕ (Unit {0}) (List ℕ)
empty_writer = record { buffer = []; buffer_size = 2; writer = tt; disk = [] }

empty_writer-Holds : Holds push_codec memory_laws [] empty_writer
empty_writer-Holds = record {
  stored = [];
  framed = CutFrames.nil;
  clean = refl;
  at_end = tt;
  all = refl;
}

abbrev new_db : Db ℕ (NativeWalWriter ℕ (Unit {0}) (List ℕ))
new_db = set_compaction_threshold 0 (build (some empty_writer) 0)

abbrev one_pushed : Db ℕ (NativeWalWriter ℕ (Unit {0}) (List ℕ))
one_pushed = (rpush (native_writer push_codec memory) "k" ("old" ∷ []) new_db).1

-- Its log in the file.
abbrev one_flushed : NativeWalWriter ℕ (Unit {0}) (List ℕ)
one_flushed = record empty_writer { disk = 1 ∷ 0 ∷ 0 ∷ 0 ∷ 0 ∷ [] }

one_pushed-Run : Run floats (native_log push_codec memory_laws) one_pushed
unfolding native_log native_writer append build IsLogged rpush write_wal compact_if_needed expired
    is_expired lookup purge_expired upsert Lists.rpush set_compaction_threshold push_back_all
one_pushed-Run =
    Run.then (Run.opened empty_writer 0 empty_writer-Holds) (Step.rpush "k" ("old" ∷ []))
      (refl, (1, refl))

Run-replay_from_example :
    (count : ℕ) × (t : Tables ℕ) × (replay_from floats
        (native_reader push_codec)
        6
        (1 ∷ 0 ∷ 0 ∷ 0 ∷ 0 ∷ [])
        0
        empty_tables
      ≡ some (ok count, t))
    × Agree t (tables one_pushed)
unfolding native_writer append flush drain write_frames write_frame u32_le_bytes build rpush
    write_wal flush_wal compact_if_needed expired is_expired lookup purge_expired upsert Lists.rpush
    set_compaction_threshold
Run-replay_from_example =
    Run-replay_from push_codec memory_laws floats push_codec_laws one_flushed one_pushed-Run refl
      refl (omega arith)

abbrev two_buffered : List (WalEntry ℕ)
two_buffered = WalEntry.r_push "k" ("old" ∷ []) ∷ WalEntry.expire "k" 5 ∷ []

abbrev two_writer : NativeWalWriter ℕ (Unit {0}) (List ℕ)
two_writer = record empty_writer { buffer = two_buffered; buffer_size = 10 }

two_writer-Holds : Holds push_codec memory_laws two_buffered two_writer
two_writer-Holds = record {
  stored = [];
  framed = CutFrames.nil;
  clean = refl;
  at_end = tt;
  all = refl;
}

-- A list "k" whose time is 5, at a time, with its log in a buffer.
abbrev one_list : ℕ → Db ℕ (NativeWalWriter ℕ (Unit {0}) (List ℕ))
one_list now = record new_db {
  data_map = ("k", list ("old" ∷ [])) ∷ [];
  expiry = ("k", 5) ∷ [];
  wal = some two_writer;
  now = now;
}

one_list-IsDurable : (now : ℕ) → IsDurable floats (native_log push_codec memory_laws) (one_list now)
unfolding replay apply_entry on_entry Lists.rpush push_back_all lookup insert native_log build
    set_compaction_threshold
one_list-IsDurable now = record {
  uncompacted = refl;
  w = two_writer;
  attached = refl;
  entries = two_buffered;
  holds = two_writer-Holds;
  count = 2;
  replayed = record { data_map = ("k", list ("old" ∷ [])) ∷ []; expiry = ("k", 5) ∷ [] };
  replays = refl;
  agree = refl-Agree _;
}

rpush_expired_lem_example :
    (w : NativeWalWriter ℕ (Unit {0}) (List ℕ)) × (es : List (WalEntry ℕ)) × ((rpush
        (native_writer push_codec memory)
        "k"
        ("new" ∷ [])
        (one_list 6)).1.wal
      ≡ some w)
    × Holds push_codec memory_laws es w
    × (lookup "k" (rpush (native_writer push_codec memory) "k" ("new" ∷ []) (one_list 6)).1.data_map
        ≡ some (list ("new" ∷ [])))
    × (lookup "k" (rpush (native_writer push_codec memory) "k" ("new" ∷ []) (one_list 6)).1.expiry
        ≡ none)
    × (lookup "k" (replay floats es 0 empty_tables).1.data_map ≡ some (list ("old" ∷ "new" ∷ [])))
    × (lookup "k" (replay floats es 0 empty_tables).1.expiry ≡ some 5)
unfolding lookup write_wal compact_if_needed native_log native_writer append build
    set_compaction_threshold
rpush_expired_lem_example =
    rpush_expired_lem floats (native_log push_codec memory_laws) "k" "new" ("old" ∷ []) 5
      (one_list 6) refl refl (omega arith) refl (one_list-IsDurable 6)

one_list-IsValid : (now : ℕ) → IsValid floats (one_list now)
unfolding lookup build set_compaction_threshold
one_list-IsValid now = record {
  distinct = (refl, tt);
  expiry_distinct = (refl, tt);
  covered = λ j h. ground arith;
  healthy = (tt, tt);
}

compact_lem_example :
    (count : ℕ) × (t : Tables ℕ) × (replay_from floats
        (native_reader push_codec)
        11
        (1 ∷ 0 ∷ 0 ∷ 0 ∷ 0 ∷ 1 ∷ 0 ∷ 0 ∷ 0 ∷ 2 ∷ [])
        0
        empty_tables
      ≡ some (ok count, t))
    × Restores floats (one_list 2) t
    × SameTables (compact (native_writer push_codec memory) (one_list 2)).1 (one_list 2)
unfolding compact snapshot_entries snapshot_loop is_empty_collection value_entries get_expiry_ms
    is_expired lookup native_writer rewrite write_frames write_frame u32_le_bytes build
    set_compaction_threshold
compact_lem_example =
    compact_lem push_codec memory_laws floats push_codec_laws (one_list 2) _
      (record empty_writer { disk = 1 ∷ 0 ∷ 0 ∷ 0 ∷ 0 ∷ 1 ∷ 0 ∷ 0 ∷ 0 ∷ 2 ∷ []; buffer_size = 10 })
      _ (one_list-IsValid 2) refl two_writer-Holds refl refl refl (omega arith)
