-- ===== src/Replay/Reader/Stored.antt =====
-- The replay of the file that `NativeWalWriter` of crates/redis-wasm-core/src/wal/writer.rs wrote, by
-- the reader of wal/replayer.rs.
use mathlib.Core.Path.{subst}
use mathlib.Core.List.{append_assoc, append-nil}
use kvasm.Common.{
  ℕ, suc, zero, ◌^◌, ◌<◌, ◌≡◌, refl, ap, ◌∙◌, false, Option, none, some, List, [], ◌∷◌, ◌++◌,
  Result, ok, err, leb, length, length-append, arith, Result-cases, inl, inr,
}
use kvasm.Float.{Float64}
use kvasm.Wal.{WalEntry, WalError, io}
use kvasm.Wal.Native.{Codec, FileIo, NativeWalWriter, u32_le_bytes, flush}
use kvasm.Wal.Native.Frames.{Frames, CutFrames, FileLaws, AllFit, CutFrames-Frames}
use kvasm.Wal.Native.Stored.{flush-Holds}
use kvasm.Wal.Native.Calls.{Calls, Calls-Holds, Calls-AllFit}
use kvasm.Replay.{Tables, apply_entry, replay}
use kvasm.Replay.Reader.{
  replay_from, read_exact, decode_body, read_body, native_next, native_reader, vec_reader,
}
use kvasm.Replay.Reader.Frames.{CodecLaws, native_next-frame, native_next-prefix}

module _ {F : Type 0} (f : Float64 F) where
  -- `replay` over the entries that a `VecWalReader` has is the replay of their list.
  pub replay_from-vec_reader :
      (es : List (WalEntry F)) (fuel count : ℕ) (t : Tables F)
      → length es < fuel
      → replay_from f vec_reader fuel es count t ≡ some (replay f es count t)
  unfolding replay_from vec_reader replay
  replay_from-vec_reader es zero count t h = absurd (omega arith)
  replay_from-vec_reader [] (suc fuel) count t h = refl
  replay_from-vec_reader (e ∷ es) (suc fuel) count t h = elim (Result-cases (apply_entry f e t).0) [
    | inl (_, applied) ↦
        rw (applied, replay_from, replay)
          (replay_from-vec_reader es fuel (suc count) (apply_entry f e t).1 (omega arith))
    | inr (x, failed) ↦ rw (failed, replay_from, replay) refl
  ]

  -- What a replay that ended well goes on with.
  abbrev pub and_then :
      Result WalError ℕ × Tables F
      → (ℕ → Tables F → Result WalError ℕ × Tables F)
      → Result WalError ℕ × Tables F
  and_then (ok n, t) k = k n t
  and_then (err e, t) k = (err e, t)

  and_then_done : (p : Result WalError ℕ × Tables F) → and_then p (λ n t. (ok n, t)) ≡ p
  and_then_done (ok n, t) = refl
  and_then_done (err e, t) = refl

module _ {F : Type 0} (f : Float64 F) (codec : Codec F) where
  -- The rest of one turn of the loop, after the read.
  abbrev after_read :
      ℕ
      → ℕ
      → Tables F
      → Result WalError (Option (WalEntry F)) × List ℕ
      → Option (Result WalError ℕ × Tables F)
  after_read fuel count t p = elim p.0 [
    | err x ↦ some (err x, t)
    | ok read ↦ elim read [
      | none ↦ some (ok count, t)
      | some entry ↦ elim (apply_entry f entry t).0 [
        | err x ↦ some (err x, (apply_entry f entry t).1)
        | ok _ ↦ replay_from f (native_reader codec) fuel p.1 (suc count) (apply_entry f entry t).1
      ]
    ]
  ]

  replay_from-read :
      (fuel count : ℕ) (t : Tables F) (s : List ℕ)
      {p : Result WalError (Option (WalEntry F)) × List ℕ}
      → native_next codec s ≡ p
      → replay_from f (native_reader codec) (suc fuel) s count t ≡ after_read fuel count t p
  unfolding replay_from native_reader
  replay_from-read fuel count t s e = ap (after_read fuel count t) e

read_exact-short : (n : ℕ) (s : List ℕ) → length s < n → read_exact n s ≡ (none, [])
unfolding read_exact
read_exact-short n s h = let short : leb n (length s) ≡ false = ground arith in rw short refl

module _ {F : Type 0} (f : Float64 F) {codec : Codec F} (laws : CodecLaws codec) where
  module _ (tail : List ℕ) (k : ℕ → Tables F → Result WalError ℕ × Tables F)
      (ends : (fuel count : ℕ) (t : Tables F)
        → length tail < fuel
        → replay_from f (native_reader codec) fuel tail count t ≡ some (k count t)) where
    replay_from-frames :
        {es : List (WalEntry F)} {s : List ℕ} (fuel count : ℕ) (t : Tables F)
        → Frames codec es s
        → length (s ++ tail) < fuel
        → replay_from f (native_reader codec) fuel (s ++ tail) count t
          ≡ some (and_then f (replay f es count t) k)
    unfolding replay_from native_reader replay u32_le_bytes
    replay_from-frames fuel count t Frames.nil h = ends fuel count t h
    replay_from-frames zero count t (Frames.frame _ _ _) h = absurd (omega arith)
    replay_from-frames (suc fuel) count t
          (Frames.frame {e = e} {bytes = bytes} {es = es} {s = s} x b c) h =
        let split = append_assoc (u32_le_bytes (length bytes) ++ bytes) s tail in
        let next = ap (native_next codec) split ∙ native_next-frame laws e bytes (s ++ tail) x b in
        let enough : length (s ++ tail) < fuel =
          omega (arith, ap length split, length-append bytes (s ++ tail), h) in
        replay_from-read f codec fuel count t _ next ∙ elim (Result-cases (apply_entry f e t).0) [
          | inl (_, applied) ↦
              rw (applied, replay, after_read)
                (replay_from-frames fuel (suc count) (apply_entry f e t).1 c enough)
          | inr (y, failed) ↦ rw (failed, replay, after_read) refl
        ]

  -- A file with the frames of some entries replays as the list of these entries does, also when fewer
  -- than four bytes follow the frames, with fuel for one entry more than the file has bytes.
  pub replay_from-short_tail :
      {es : List (WalEntry F)} {s : List ℕ} (tail : List ℕ) (count : ℕ) (t : Tables F)
      → Frames codec es s
      → length tail < 4
      → replay_from f (native_reader codec) (suc (length (s ++ tail))) (s ++ tail) count t
        ≡ some (replay f es count t)
  unfolding native_next read_body
  replay_from-short_tail {es} {s} tail count t framed h =
      replay_from-frames tail (λ n t. (ok n, t)) ends (suc (length (s ++ tail))) count t framed
        (omega arith)
      ∙ ap some (and_then_done f (replay f es count t))
    where
      ends :
          (fuel count : ℕ) (t : Tables F)
          → length tail < fuel
          → replay_from f (native_reader codec) fuel tail count t ≡ some (ok count, t)
      ends zero count t k = absurd (omega arith)
      ends (suc fuel) count t k =
          replay_from-read f codec fuel count t tail
            (ap (read_body codec) (read_exact-short 4 tail h))

  -- Where frames are followed by a length prefix and fewer bytes than it says, the entries of the
  -- frames are applied, and then, unless one of them failed, the replay fails.
  pub replay_from-torn_body :
      {es : List (WalEntry F)} {s : List ℕ} (n : ℕ) (part : List ℕ) (count : ℕ) (t : Tables F)
      → Frames codec es s
      → n < 2 ^ 32
      → length part < n
      → replay_from f
          (native_reader codec)
          (suc (length (s ++ (u32_le_bytes n ++ part))))
          (s ++ (u32_le_bytes n ++ part))
          count
          t
        ≡ some (and_then f (replay f es count t) (λ _ t'. (err io, t')))
  unfolding decode_body
  replay_from-torn_body {es} {s} n part count t framed h short =
      replay_from-frames (u32_le_bytes n ++ part) (λ _ t'. (err io, t')) ends _ count t framed
        (omega arith)
    where
      ends :
          (fuel count : ℕ) (t : Tables F)
          → length (u32_le_bytes n ++ part) < fuel
          → replay_from f (native_reader codec) fuel (u32_le_bytes n ++ part) count t
            ≡ some (err io, t)
      ends zero count t k = absurd (omega arith)
      ends (suc fuel) count t k = replay_from-read f codec fuel count t (u32_le_bytes n ++ part) (
          native_next-prefix codec n part h
          ∙ ap (decode_body codec) (read_exact-short n part short))

  -- A file with the frames of entries each of which fits.
  pub replay_from-CutFrames :
      {es : List (WalEntry F)} {s : List ℕ} (t : Tables F)
      → CutFrames codec es s
      → AllFit codec es
      → replay_from f (native_reader codec) (suc (length s)) s 0 t ≡ some (replay f es 0 t)
  replay_from-CutFrames {es} {s} t cut fits =
      let all =
        replay_from-short_tail {s = s} [] 0 t (CutFrames-Frames codec cut fits) (omega arith) in
      subst
        (λ x. replay_from f (native_reader codec) (suc (length x)) x 0 t ≡ some (replay f es 0 t))
        (append-nil s) all

  -- A native writer all of whose calls succeeded, the last of them a flush, has a file that replays as
  -- the list of the entries since the file was opened or rewritten, behind those that stood in it
  -- then. Each entry has an encoding whose length 32 bits can hold.
  pub replay_from-Calls :
      {B D : Type 0} {file_io : FileIo B D} (disk : FileLaws file_io) {es : List (WalEntry F)}
      {w : NativeWalWriter F B D} (t : Tables F)
      → Calls codec disk es w
      → (flush codec file_io w).0 ≡ ok tt
      → (let s = disk.file (flush codec file_io w).1.disk in
          replay_from f (native_reader codec) (suc (length s)) s 0 t)
        ≡ some (replay f es 0 t)
  replay_from-Calls disk {es} {w} t calls r =
      replay_from-CutFrames t (flush-Holds codec disk w (Calls-Holds codec disk calls) r).0
        (Calls-AllFit codec disk calls)
