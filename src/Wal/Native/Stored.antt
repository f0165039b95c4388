-- ===== src/Wal/Native/Stored.antt =====
-- What `NativeWalWriter` of crates/redis-wasm-core/src/wal/writer.rs has in its file and in its
-- buffer while its calls succeed.
use mathlib.Core.Path.{subst}
use mathlib.Core.List.{append_assoc, append-nil}
use kvasm.Common.{
  ℕ, ◌^◌, ◌%◌, ◌≡◌, refl, sym, ap, ◌∙◌, List, [], ◌∷◌, ◌++◌, ok, ◌>>◌, leb, length, bind_ok, arith,
  Bool-cases, Result-cases, inl, inr, ◌⊎◌,
}
use kvasm.Wal.{WalEntry}
use kvasm.Wal.Native.{
  Codec, FileIo, u32_le_bytes, NativeWalWriter, new, write_frame, write_frames, drain, append,
  flush, rewrite,
}
use kvasm.Wal.Native.Frames.{CutFrames, FileLaws, CutFrames-append}

List-cases {ℓ} : {A : Type ℓ} (xs : List A) → (xs ≡ []) ⊎ ((y : A) × (ys : List A) × (xs ≡ y ∷ ys))
List-cases [] = inl refl
List-cases (y ∷ ys) = inr (y, ys, refl)

module _ {F B D : Type 0} (codec : Codec F) {io : FileIo B D} (laws : FileLaws io) where
  -- What is in the file, and behind it what is still to be written.
  abbrev written : B × D → List ℕ
  written s = laws.file s.1 ++ laws.pending s.0

  abbrev AtEnd : B × D → Type 0
  AtEnd s = laws.AtEnd s.0 s.1

  write_frame_ok :
      (e : WalEntry F) (s : B × D)
      → AtEnd s
      → (write_frame codec io e s).0 ≡ ok tt
      → (bytes : List ℕ) × (codec.encode e ≡ ok bytes)
        × (written (write_frame codec io e s).1
            ≡ written s ++ (u32_le_bytes (length bytes % 2 ^ 32) ++ bytes))
        × AtEnd (write_frame codec io e s).1
  unfolding write_frame
  write_frame_ok e s at h = elim (Result-cases (codec.encode e)) [
    | inl (bytes, encoded) ↦
        let prefix = u32_le_bytes (length bytes % 2 ^ 32) in
        elim (Result-cases (io.write_all prefix s).0) [
          | inl (a, first) ↦
              let s' = (io.write_all prefix s).1 in
              let second : (io.write_all bytes s').0 ≡ ok tt = ground arith in
              let (wrote, at') = laws.wrote prefix s.0 s.1 at first in
              let (wrote', at'') = laws.wrote bytes s'.0 s'.1 at' second in
              (
                bytes,
                encoded,
                (rw (encoded, first)
                    (wrote' ∙ ap (λ x. x ++ bytes) wrote ∙ append_assoc (written s) prefix bytes)),
                (rw (encoded, write_frame, first) at''),
              )
          | inr (x, first) ↦ absurd (ground arith)
        ]
    | inr (x, encoded) ↦ absurd (ground arith)
  ]

  write_frames_ok :
      (es : List (WalEntry F)) (s : B × D)
      → AtEnd s
      → (write_frames codec io es s).0 ≡ ok tt
      → (bytes : List ℕ) × CutFrames codec es bytes
        × (written (write_frames codec io es s).1 ≡ written s ++ bytes)
        × AtEnd (write_frames codec io es s).1
  unfolding write_frames
  write_frames_ok [] s at h = ([], CutFrames.nil, sym (append-nil (written s)), at)
  write_frames_ok (e ∷ es) s at h =
      let (_, first, more, same) = bind_ok (write_frame codec io e) _ s tt h in
      let (bytes, encoded, wrote, at') = write_frame_ok e s at first in
      let s' = (write_frame codec io e s).1 in
      let (rest, framed, wrote', at'') = write_frames_ok es s' at' more in
      let prefix = u32_le_bytes (length bytes % 2 ^ 32) in
      (
        prefix ++ bytes ++ rest,
        CutFrames.frame encoded framed,
        ap written same
            ∙ wrote'
            ∙ ap (λ x. x ++ rest) wrote
            ∙ append_assoc (written s) (prefix ++ bytes) rest,
        subst AtEnd (sym same) at'',
      )

  -- Frames written behind what is in the file, and flushed.
  flushed_ok :
      (es : List (WalEntry F)) (b : B) (d : D)
      → laws.pending b ≡ []
      → laws.AtEnd b d
      → ((write_frames codec io es >> io.flush) (b, d)).0 ≡ ok tt
      → (bytes : List ℕ) × CutFrames codec es bytes
        × (laws.file ((write_frames codec io es >> io.flush) (b, d)).1.1 ≡ laws.file d ++ bytes)
        × (laws.pending ((write_frames codec io es >> io.flush) (b, d)).1.0 ≡ [])
        × AtEnd ((write_frames codec io es >> io.flush) (b, d)).1
  flushed_ok es b d clean at h =
      let (_, wrote, flush, same) = bind_ok (write_frames codec io es) _ (b, d) tt h in
      let (bytes, framed, all, at') = write_frames_ok es (b, d) at wrote in
      let s' = (write_frames codec io es (b, d)).1 in
      let (file, none_left, at'') = laws.flushed s'.0 s'.1 at' flush in
      (
        bytes,
        framed,
        ap (λ s. laws.file s.1) same
            ∙ file
            ∙ all
            ∙ ap (λ p. laws.file d ++ p ++ bytes) clean
            ∙ ap (λ x. x ++ bytes) (append-nil (laws.file d)),
        ap (λ s. laws.pending s.0) same ∙ none_left,
        subst AtEnd (sym same) at'',
      )

  -- The file has the frames of some entries, and the buffer the entries `es` after these.
  pub record Holds (es : List (WalEntry F)) (w : NativeWalWriter F B D) : Type 0 where
    pub stored : List (WalEntry F)
    pub framed : CutFrames codec stored (laws.file w.disk)
    pub clean : laws.pending w.writer ≡ []
    pub at_end : laws.AtEnd w.writer w.disk
    pub all : stored ++ w.buffer ≡ es

  drain-Holds :
      {es : List (WalEntry F)} (w : NativeWalWriter F B D)
      → Holds es w
      → (drain codec io w).0 ≡ ok tt
      → CutFrames codec es (laws.file (drain codec io w).1.disk) × Holds es (drain codec io w).1
  unfolding drain
  drain-Holds {es} w h r =
      let (bytes, framed, file, clean, at_end) =
        flushed_ok w.buffer w.writer w.disk h.clean h.at_end r in
      let now : CutFrames codec es (laws.file (drain codec io w).1.disk) =
        subst (CutFrames codec es) (sym file) (
          subst (λ x. CutFrames codec x (laws.file w.disk ++ bytes)) h.all
            (CutFrames-append codec h.framed framed)) in
      (
        now,
        record { stored = es; framed = now; clean = clean; at_end = at_end; all = append-nil es },
      )

  pub new-Holds :
      {es : List (WalEntry F)} (buffer_size : ℕ) (d : D) (w : NativeWalWriter F B D)
      → CutFrames codec es (laws.file d)
      → (new {F = F} codec io buffer_size d).0 ≡ ok w
      → Holds es w
  unfolding new
  new-Holds {es} buffer_size d w framed e = elim (Result-cases (io.open_append d).0) [
    | inl (b, opened) ↦
        let (same, clean, at_end) = laws.opened d b opened in
        let made : NativeWalWriter F B D = record {
          buffer = [];
          buffer_size = buffer_size;
          writer = b;
          disk = (io.open_append d).1;
        } in
        let is_made : made ≡ w = ground arith in
        subst (Holds es) is_made (record {
          stored = es;
          framed = subst (CutFrames codec es) (sym same) framed;
          clean = clean;
          at_end = at_end;
          all = append-nil es;
        })
    | inr (x, failed) ↦ absurd (ground arith)
  ]

  pub append-Holds :
      {es : List (WalEntry F)} (entry : WalEntry F) (w : NativeWalWriter F B D)
      → Holds es w
      → (append codec io entry w).0 ≡ ok tt
      → Holds (es ++ entry ∷ []) (append codec io entry w).1
  unfolding append
  append-Holds {es} entry w h r =
      let w' = record w { buffer = w.buffer ++ entry ∷ [] } in
      let buffered : Holds (es ++ entry ∷ []) w' = record {
        stored = h.stored;
        framed = h.framed;
        clean = h.clean;
        at_end = h.at_end;
        all = sym (append_assoc h.stored w.buffer (entry ∷ [])) ∙ ap (λ x. x ++ entry ∷ []) h.all;
      } in
      elim (Bool-cases (leb w.buffer_size (length (w.buffer ++ entry ∷ [])))) [
        | inl e ↦ rw (e, append) (drain-Holds w' buffered (ground arith)).1
        | inr e ↦ rw (e, append) buffered
      ]

  pub flush-Holds :
      {es : List (WalEntry F)} (w : NativeWalWriter F B D)
      → Holds es w
      → (flush codec io w).0 ≡ ok tt
      → CutFrames codec es (laws.file (flush codec io w).1.disk) × Holds es (flush codec io w).1
  unfolding flush
  flush-Holds {es} w h r = elim (List-cases w.buffer) [
    | inl e ↦
        let all : h.stored ≡ es =
          sym (append-nil h.stored) ∙ ap (λ x. h.stored ++ x) (sym e) ∙ h.all in
        rw (e, flush) (subst (λ x. CutFrames codec x (laws.file w.disk)) all h.framed, h)
    | inr (x, xs, e) ↦ rw (e, flush) (drain-Holds w h (ground arith))
  ]

  pub rewrite-Holds :
      {es : List (WalEntry F)} (entries : List (WalEntry F)) (w : NativeWalWriter F B D)
      → Holds es w
      → (rewrite codec io entries w).0 ≡ ok tt
      → CutFrames codec entries (laws.file (rewrite codec io entries w).1.disk)
        × Holds entries (rewrite codec io entries w).1
  unfolding rewrite
  rewrite-Holds {es} entries w h r = elim (Result-cases (io.open_truncated w.disk).0) [
    | inl (b, opened) ↦
        let (empty, clean, at) = laws.created w.disk b opened in
        let d = (io.open_truncated w.disk).1 in
        elim (Result-cases ((write_frames codec io entries >> io.flush) (b, d)).0) [
          | inl (_, fine) ↦
              let (bytes, framed, file, clean', at') = flushed_ok entries b d clean at fine in
              let s = ((write_frames codec io entries >> io.flush) (b, d)).1 in
              let now : CutFrames codec entries (laws.file (io.close w.writer s.1)) =
                subst (CutFrames codec entries)
                  (sym (laws.closed w.writer _ h.clean ∙ file ∙ ap (λ x. x ++ bytes) empty))
                  framed in
              rw (opened, fine, rewrite)
                (
                  now,
                  record {
                    stored = entries;
                    framed = now;
                    clean = clean';
                    at_end = laws.closed_at_end w.writer _ _ h.clean at';
                    all = append-nil entries;
                  },
                )
          | inr (x, e) ↦ absurd (ground arith)
        ]
    | inr (x, opened) ↦ absurd (ground arith)
  ]
