-- ===== src/Wal/Native/Frames.antt =====
-- The file of `NativeWalWriter` of crates/redis-wasm-core/src/wal/writer.rs, as a sequence of frames.
use mathlib.Core.Path.{subst}
use mathlib.Core.List.{append_assoc}
use kvasm.Common.{ℕ, ◌<◌, ◌^◌, ◌%◌, ◌≡◌, sym, arith, length-append, List, [], ◌∷◌, ◌++◌, ok, length}
use kvasm.Wal.{WalEntry}
use kvasm.Wal.Native.{Codec, FileIo, u32_le_bytes}

-- `s` is the frames of `es`, one after the other.
pub data Frames {F : Type 0} (codec : Codec F) : List (WalEntry F) → List ℕ → Type 0 where
  nil : Frames codec [] []
  frame :
      {e : WalEntry F} {bytes : List ℕ} {es : List (WalEntry F)} {s : List ℕ}
      → codec.encode e ≡ ok bytes
      → length bytes < 2 ^ 32
      → Frames codec es s
      → Frames codec (e ∷ es) (u32_le_bytes (length bytes) ++ bytes ++ s)

-- The same where the length of an entry may be more than 32 bits can hold, and is then cut off.
pub data CutFrames {F : Type 0} (codec : Codec F) : List (WalEntry F) → List ℕ → Type 0 where
  nil : CutFrames codec [] []
  frame :
      {e : WalEntry F} {bytes : List ℕ} {es : List (WalEntry F)} {s : List ℕ}
      → codec.encode e ≡ ok bytes
      → CutFrames codec es s
      → CutFrames codec (e ∷ es) (u32_le_bytes (length bytes % 2 ^ 32) ++ bytes ++ s)

-- What std promises. A `BufWriter` has bytes that are not in the file yet. It writes at a place in the
-- file: `AtEnd` says that this is the end of the file, as it always is in append mode, and after an
-- opening that empties the file until another handle changes the file. Then a write that succeeds
-- puts its bytes behind those that wait, and a flush that succeeds leaves none. A drop with none
-- changes no file, and so no end.
pub record FileLaws {B D : Type 0} (io : FileIo B D) : Type 1 where
  pub file : D → List ℕ
  pub pending : B → List ℕ
  pub AtEnd : B → D → Type 0
  pub opened :
      (d : D) (b : B)
      → (io.open_append d).0 ≡ ok b
      → (file (io.open_append d).1 ≡ file d) × (pending b ≡ []) × AtEnd b (io.open_append d).1
  pub created :
      (d : D) (b : B)
      → (io.open_truncated d).0 ≡ ok b
      → (file (io.open_truncated d).1 ≡ []) × (pending b ≡ []) × AtEnd b (io.open_truncated d).1
  pub wrote :
      (bytes : List ℕ) (b : B) (d : D)
      → AtEnd b d
      → (io.write_all bytes (b, d)).0 ≡ ok tt
      → (file (io.write_all bytes (b, d)).1.1 ++ pending (io.write_all bytes (b, d)).1.0
          ≡ (file d ++ pending b) ++ bytes)
        × AtEnd (io.write_all bytes (b, d)).1.0 (io.write_all bytes (b, d)).1.1
  pub flushed :
      (b : B) (d : D)
      → AtEnd b d
      → (io.flush (b, d)).0 ≡ ok tt
      → (file (io.flush (b, d)).1.1 ≡ file d ++ pending b)
        × (pending (io.flush (b, d)).1.0 ≡ [])
        × AtEnd (io.flush (b, d)).1.0 (io.flush (b, d)).1.1
  pub closed : (b : B) (d : D) → pending b ≡ [] → file (io.close b d) ≡ file d
  pub closed_at_end :
      (b other : B) (d : D) → pending b ≡ [] → AtEnd other d → AtEnd other (io.close b d)

module _ {F : Type 0} (codec : Codec F) where
  pub Frames-append :
      {xs ys : List (WalEntry F)} {s t : List ℕ}
      → Frames codec xs s
      → Frames codec ys t
      → Frames codec (xs ++ ys) (s ++ t)
  Frames-append Frames.nil k = k
  Frames-append {ys = ys} {t = t} (Frames.frame {bytes = bytes} {s = s} e b h) k =
      subst (Frames codec _) (sym (append_assoc (u32_le_bytes (length bytes) ++ bytes) s t))
        (Frames.frame e b (Frames-append h k))

  pub CutFrames-append :
      {xs ys : List (WalEntry F)} {s t : List ℕ}
      → CutFrames codec xs s
      → CutFrames codec ys t
      → CutFrames codec (xs ++ ys) (s ++ t)
  CutFrames-append CutFrames.nil k = k
  CutFrames-append {ys = ys} {t = t} (CutFrames.frame {bytes = bytes} {s = s} e h) k =
      subst (CutFrames codec _)
        (sym (append_assoc (u32_le_bytes (length bytes % 2 ^ 32) ++ bytes) s t))
        (CutFrames.frame e (CutFrames-append h k))

  -- The encoding of an entry has a length that 32 bits can hold.
  abbrev pub Fits : WalEntry F → Type 0
  Fits e = (bytes : List ℕ) → codec.encode e ≡ ok bytes → length bytes < 2 ^ 32

  abbrev pub AllFit : List (WalEntry F) → Type 0
  AllFit [] = Unit
  AllFit (e ∷ es) = Fits e × AllFit es

  pub AllFit-append : (xs ys : List (WalEntry F)) → AllFit xs → AllFit ys → AllFit (xs ++ ys)
  AllFit-append [] ys h k = k
  AllFit-append (x ∷ xs) ys h k = (h.0, AllFit-append xs ys h.1 k)

  -- Nothing was cut off where each entry fits.
  pub CutFrames-Frames :
      {es : List (WalEntry F)} {s : List ℕ} → CutFrames codec es s → AllFit es → Frames codec es s
  CutFrames-Frames CutFrames.nil h = Frames.nil
  CutFrames-Frames (CutFrames.frame {e = entry} {bytes = bytes} {es = es} {s = s} e k) h =
      let small = h.0 bytes e in
      let size : length bytes ≡ length bytes % 2 ^ 32 = omega arith in
      subst (λ n. Frames codec (entry ∷ es) (u32_le_bytes n ++ bytes ++ s)) size
        (Frames.frame e small (CutFrames-Frames k h.1))

  pub Frames-CutFrames :
      {es : List (WalEntry F)} {s : List ℕ} → Frames codec es s → CutFrames codec es s
  Frames-CutFrames Frames.nil = CutFrames.nil
  Frames-CutFrames (Frames.frame {e = entry} {bytes = bytes} {es = es} {s = s} e small k) =
      let size : length bytes % 2 ^ 32 ≡ length bytes = omega arith in
      subst (λ n. CutFrames codec (entry ∷ es) (u32_le_bytes n ++ bytes ++ s)) size
        (CutFrames.frame e (Frames-CutFrames k))

  encoded_same :
      {e : WalEntry F} {a b : List ℕ} → codec.encode e ≡ ok a → codec.encode e ≡ ok b → a ≡ b
  encoded_same h k = ground arith

  pub Frames-AllFit : {es : List (WalEntry F)} {s : List ℕ} → Frames codec es s → AllFit es
  Frames-AllFit Frames.nil = tt
  Frames-AllFit (Frames.frame e small k) =
      ((λ b h. subst (λ x. length x < 2 ^ 32) (encoded_same e h) small), Frames-AllFit k)

  -- Each entry fits in a file of less than 2^32 bytes.
  pub short-AllFit :
      {es : List (WalEntry F)} {s : List ℕ} → CutFrames codec es s → length s < 2 ^ 32 → AllFit es
  unfolding u32_le_bytes
  short-AllFit CutFrames.nil h = tt
  short-AllFit (CutFrames.frame {bytes = bytes} {s = s} e k) h =
      let sum = length-append bytes s in
      let small : length bytes < 2 ^ 32 = omega (arith, sum, h) in
      (
        (λ b h. subst (λ x. length x < 2 ^ 32) (encoded_same e h) small),
        short-AllFit k (omega (arith, sum, h)),
      )
