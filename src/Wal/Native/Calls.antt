-- ===== src/Wal/Native/Calls.antt =====
-- Sequences of calls of `NativeWalWriter` of crates/redis-wasm-core/src/wal/writer.rs.
use kvasm.Common.{ℕ, ◌≡◌, refl, ap, ◌∙◌, List, [], ◌∷◌, ◌++◌, ok, err, ◌>>◌}
use kvasm.Wal.{WalEntry, WalError}
use kvasm.Wal.Native.{
  Codec, FileIo, NativeWalWriter, new, write_frame, write_frames, append, flush, rewrite,
}
use kvasm.Wal.Native.Frames.{
  Frames, FileLaws, Fits, AllFit, AllFit-append, Frames-AllFit, Frames-CutFrames,
}
use kvasm.Wal.Native.Stored.{Holds, new-Holds, append-Holds, flush-Holds, rewrite-Holds}

module _ {F B D : Type 0} (codec : Codec F) {io : FileIo B D} (laws : FileLaws io) where
  write_frames_stop :
      (e : WalEntry F) (es : List (WalEntry F)) (x : WalError) (s : B × D)
      → codec.encode e ≡ err x
      → (write_frames codec io (e ∷ es) >> io.flush) s ≡ (err x, s)
  unfolding write_frames write_frame
  write_frames_stop e es x s failed = rw (failed, write_frames, write_frame) refl

  -- A rewrite opens the file with truncation before it encodes: where the first entry cannot be
  -- encoded the rewrite fails, the file is empty, and the
  -- buffer is too.
  pub rewrite_truncates :
      (e : WalEntry F) (es : List (WalEntry F)) (w : NativeWalWriter F B D) (b : B) (x : WalError)
      → (io.open_truncated w.disk).0 ≡ ok b
      → codec.encode e ≡ err x
      → ((rewrite codec io (e ∷ es) w).0 ≡ err x)
        × (laws.file (rewrite codec io (e ∷ es) w).1.disk ≡ [])
        × ((rewrite codec io (e ∷ es) w).1.buffer ≡ [])
  unfolding rewrite
  rewrite_truncates e es w b x opened failed =
      let (empty, clean, _) = laws.created w.disk b opened in
      let stops = write_frames_stop e es x (b, (io.open_truncated w.disk).1) failed in
      rw (opened, rewrite, stops)
        (
          refl,
          ap (λ p. laws.file (io.close p.1.0 p.1.1)) stops ∙ laws.closed b _ clean ∙ empty,
          refl,
        )

  -- What a writer has done while its calls succeed: it was opened on a file with the frames of some
  -- entries, and each entry that it was given has an encoding whose length 32 bits can hold.
  pub data Calls : List (WalEntry F) → NativeWalWriter F B D → Type 0 where
    opened :
        {es : List (WalEntry F)} {w : NativeWalWriter F B D} (buffer_size : ℕ) (d : D)
        → Frames codec es (laws.file d)
        → (new {F = F} codec io buffer_size d).0 ≡ ok w
        → Calls es w
    appended :
        {es : List (WalEntry F)} {w : NativeWalWriter F B D} (entry : WalEntry F)
        → Calls es w
        → Fits codec entry
        → (append codec io entry w).0 ≡ ok tt
        → Calls (es ++ entry ∷ []) (append codec io entry w).1
    flushed :
        {es : List (WalEntry F)} {w : NativeWalWriter F B D}
        → Calls es w
        → (flush codec io w).0 ≡ ok tt
        → Calls es (flush codec io w).1
    rewritten :
        {es : List (WalEntry F)} {w : NativeWalWriter F B D} (entries : List (WalEntry F))
        → Calls es w
        → AllFit codec entries
        → (rewrite codec io entries w).0 ≡ ok tt
        → Calls entries (rewrite codec io entries w).1

  pub Calls-Holds :
      {es : List (WalEntry F)} {w : NativeWalWriter F B D} → Calls es w → Holds codec laws es w
  Calls-Holds (Calls.opened {w = w} buffer_size d framed e) =
      new-Holds codec laws buffer_size d w (Frames-CutFrames codec framed) e
  Calls-Holds (Calls.appended entry c fits r) = append-Holds codec laws entry _ (Calls-Holds c) r
  Calls-Holds (Calls.flushed c r) = (flush-Holds codec laws _ (Calls-Holds c) r).1
  Calls-Holds (Calls.rewritten entries c fits r) =
      (rewrite-Holds codec laws entries _ (Calls-Holds c) r).1

  pub Calls-AllFit :
      {es : List (WalEntry F)} {w : NativeWalWriter F B D} → Calls es w → AllFit codec es
  Calls-AllFit (Calls.opened buffer_size d framed e) = Frames-AllFit codec framed
  Calls-AllFit (Calls.appended {es = es} entry c fits r) =
      AllFit-append codec es (entry ∷ []) (Calls-AllFit c) (fits, tt)
  Calls-AllFit (Calls.flushed c r) = Calls-AllFit c
  Calls-AllFit (Calls.rewritten entries c fits r) = fits
