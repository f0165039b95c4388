-- ===== src/Tests/Files.antt =====
-- The theorems on the log in a file, at a small file.
use mathlib.Core.List.{append-nil}
use kvasm.Common.{
  ℕ, suc, ◌<◌, ◌^◌, ◌≡◌, refl, sym, ap, ◌∙◌, none, some, List, [], ◌∷◌, ◌++◌, Result, ok, err, ◌==◌,
  eq_iff, if◌then◌else◌, length, arith,
}
use kvasm.Wal.{WalEntry, WalError, io, serialization}
use kvasm.Wal.Native.{
  Codec, FileIo, NativeWalWriter, new, append, flush, rewrite, drain, write_frame, write_frames,
  u32_le_bytes,
}
use kvasm.Wal.Native.Frames.{Frames, FileLaws}
use kvasm.Wal.Native.Calls.{Calls, rewrite_truncates}
use kvasm.Replay.{Tables, empty_tables, replay}
use kvasm.Replay.Reader.{replay_from, native_reader}
use kvasm.Replay.Reader.Frames.{CodecLaws, replay_from_ends}
use kvasm.Replay.Reader.Stored.{
  and_then, replay_from-short_tail, replay_from-torn_body, replay_from-Calls,
}
use kvasm.Tests.{floats}

-- A codec for the entries that set the key "k".
abbrev encode_set : WalEntry ℕ → Result WalError (List ℕ)
encode_set (WalEntry.set key bytes none) = if key == "k" then ok bytes else err serialization
encode_set _ = err serialization

abbrev set_codec : Codec ℕ
set_codec = record { encode = encode_set; decode = λ bytes. ok (WalEntry.set "k" bytes none) }

set_decodes :
    (e : WalEntry ℕ) (bytes : List ℕ) → encode_set e ≡ ok bytes → set_codec.decode bytes ≡ ok e
set_decodes (WalEntry.set key value none) bytes h = ground (arith, eq_iff key "k")
set_decodes (WalEntry.set key value (some _)) bytes h = absurd (ground arith)
set_decodes (WalEntry.del _) bytes h = absurd (ground arith)
set_decodes (WalEntry.expire _ _) bytes h = absurd (ground arith)
set_decodes (WalEntry.l_push _ _) bytes h = absurd (ground arith)
set_decodes (WalEntry.r_push _ _) bytes h = absurd (ground arith)
set_decodes (WalEntry.l_pop _ _) bytes h = absurd (ground arith)
set_decodes (WalEntry.r_pop _ _) bytes h = absurd (ground arith)
set_decodes (WalEntry.l_set _ _ _) bytes h = absurd (ground arith)
set_decodes (WalEntry.l_rem _ _ _) bytes h = absurd (ground arith)
set_decodes (WalEntry.l_trim _ _ _) bytes h = absurd (ground arith)
set_decodes (WalEntry.s_add _ _) bytes h = absurd (ground arith)
set_decodes (WalEntry.s_rem _ _) bytes h = absurd (ground arith)
set_decodes (WalEntry.z_add _ _) bytes h = absurd (ground arith)
set_decodes (WalEntry.z_rem _ _) bytes h = absurd (ground arith)
set_decodes (WalEntry.h_set _ _ _) bytes h = absurd (ground arith)
set_decodes (WalEntry.h_del _ _) bytes h = absurd (ground arith)
set_decodes (WalEntry.persist _) bytes h = absurd (ground arith)

abbrev set_codec_laws : CodecLaws set_codec
set_codec_laws = record { decodes = set_decodes }

-- A disk that never fails, and a writer without a buffer of its own.
abbrev pub memory : FileIo (Unit {0}) (List ℕ)
memory = record {
  open_append = λ d. (ok tt, d);
  open_truncated = λ d. (ok tt, []);
  write_all = λ bytes s. (ok tt, (s.0, s.1 ++ bytes));
  flush = λ s. (ok tt, s);
  close = λ b d. d;
  file_len = λ d. ok (length d);
}

abbrev pub memory_laws : FileLaws memory
memory_laws = record {
  file = λ d. d;
  pending = λ b. [];
  AtEnd = λ b d. Unit;
  opened = λ d b h. (refl, refl, tt);
  created = λ d b h. (refl, refl, tt);
  wrote =
      λ bytes b d at h. (append-nil (d ++ bytes) ∙ ap (λ x. x ++ bytes) (sym (append-nil d)), tt);
  flushed = λ b d at h. (sym (append-nil d), refl, tt);
  closed = λ b d h. refl;
  closed_at_end = λ b other d h at. tt;
}

abbrev five : WalEntry ℕ
five = WalEntry.set "k" (5 ∷ []) none

-- A writer whose buffer holds two entries before it writes.
abbrev fresh_writer : NativeWalWriter ℕ (Unit {0}) (List ℕ)
fresh_writer = record { buffer = []; buffer_size = 2; writer = tt; disk = [] }

abbrev one_buffered : NativeWalWriter ℕ (Unit {0}) (List ℕ)
one_buffered = (append set_codec memory five fresh_writer).1

five-Fits : (bytes : List ℕ) → encode_set five ≡ ok bytes → length bytes < 2 ^ 32
five-Fits bytes h = let same : 5 ∷ [] ≡ bytes = ground arith in omega (arith, ap length same)

one_buffered-Calls : Calls set_codec memory_laws (five ∷ []) one_buffered
unfolding new append
one_buffered-Calls =
    Calls.appended five (Calls.opened {w = fresh_writer} 2 [] Frames.nil refl) five-Fits refl

replay_from-Calls_example :
    (let s = (flush set_codec memory one_buffered).1.disk in
      replay_from floats (native_reader set_codec) (suc (length s)) s 0 empty_tables)
    ≡ some (replay floats (five ∷ []) 0 empty_tables)
unfolding flush drain append write_frames write_frame
replay_from-Calls_example =
    replay_from-Calls floats set_codec_laws memory_laws empty_tables one_buffered-Calls refl

abbrev framed_five : Frames set_codec (five ∷ []) (u32_le_bytes 1 ++ (5 ∷ []) ++ [])
framed_five = Frames.frame {bytes = 5 ∷ []} refl (omega arith) Frames.nil

replay_from-short_tail_example :
    (let s = (u32_le_bytes 1 ++ (5 ∷ []) ++ []) ++ 9 ∷ 0 ∷ [] in
      replay_from floats (native_reader set_codec) (suc (length s)) s 0 empty_tables)
    ≡ some (replay floats (five ∷ []) 0 empty_tables)
replay_from-short_tail_example =
    replay_from-short_tail floats set_codec_laws (9 ∷ 0 ∷ []) 0 empty_tables framed_five
      (omega arith)

replay_from-torn_body_example :
    (let s = (u32_le_bytes 1 ++ (5 ∷ []) ++ []) ++ (u32_le_bytes 3 ++ 8 ∷ []) in
      replay_from floats (native_reader set_codec) (suc (length s)) s 0 empty_tables)
    ≡ some (and_then floats (replay floats (five ∷ []) 0 empty_tables) (λ _ t. (err io, t)))
replay_from-torn_body_example =
    replay_from-torn_body floats set_codec_laws 3 (8 ∷ []) 0 empty_tables framed_five (omega arith)
      (omega arith)

replay_from_ends_example :
    (r : Result WalError ℕ × Tables ℕ) × (replay_from floats
        (native_reader set_codec)
        4
        (1 ∷ 0 ∷ 0 ∷ [])
        0
        empty_tables
      ≡ some r)
replay_from_ends_example =
    replay_from_ends floats set_codec 4 (1 ∷ 0 ∷ 0 ∷ []) 0 empty_tables (omega arith)

abbrev full_writer : NativeWalWriter ℕ (Unit {0}) (List ℕ)
full_writer = record { buffer = []; buffer_size = 2; writer = tt; disk = 1 ∷ 0 ∷ 0 ∷ 0 ∷ 5 ∷ [] }

rewrite_truncates_example :
    ((rewrite set_codec memory (WalEntry.persist "k" ∷ []) full_writer).0 ≡ err serialization)
    × ((rewrite set_codec memory (WalEntry.persist "k" ∷ []) full_writer).1.disk ≡ [])
    × ((rewrite set_codec memory (WalEntry.persist "k" ∷ []) full_writer).1.buffer ≡ [])
rewrite_truncates_example =
    rewrite_truncates set_codec memory_laws (WalEntry.persist "k") [] full_writer tt serialization
      refl refl
