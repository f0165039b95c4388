-- ===== src/Replay/Reader/Frames.antt =====
-- The native reader of crates/redis-wasm-core/src/wal/replayer.rs on the frames of a list of entries.
use mathlib.Core.List.{append_assoc}
use kvasm.Common.{
  ℕ, suc, zero, ◌^◌, ◌<◌, ◌≤◌, ◌≡◌, refl, ap, ◌∙◌, true, Option, none, some, List, [], ◌∷◌, ◌++◌,
  Result, ok, err, leb, length, take, drop, length-append, length-drop, arith, Option-cases,
  Result-cases, inl, inr,
}
use kvasm.Float.{Float64}
use kvasm.Wal.{WalEntry, WalError}
use kvasm.Wal.Native.{Codec, u32_le_bytes}
use kvasm.Replay.{Tables, apply_entry}
use kvasm.Replay.Reader.{
  replay_from, read_exact, from_le_bytes, decode_body, read_body, native_next, native_reader,
}

-- What bincode promises: what was encoded decodes to the entry that it was made of.
pub record CodecLaws {F : Type 0} (codec : Codec F) : Type 0 where
  pub decodes :
      (e : WalEntry F) (bytes : List ℕ) → codec.encode e ≡ ok bytes → codec.decode bytes ≡ ok e

from_le_bytes-u32_le_bytes : (n : ℕ) → n < 2 ^ 32 → from_le_bytes (u32_le_bytes n) ≡ n
unfolding from_le_bytes u32_le_bytes
from_le_bytes-u32_le_bytes n h = omega arith

module _ {A : Type 0} where
  take-append : (xs ys : List A) → take (length xs) (xs ++ ys) ≡ xs
  take-append [] ys = refl
  take-append (x ∷ xs) ys = ap (λ l. x ∷ l) (take-append xs ys)

  drop-append : (xs ys : List A) → drop (length xs) (xs ++ ys) ≡ ys
  drop-append [] ys = refl
  drop-append (x ∷ xs) ys = drop-append xs ys

read_exact-append : (bytes s : List ℕ) → read_exact (length bytes) (bytes ++ s) ≡ (some bytes, s)
unfolding read_exact
read_exact-append bytes s =
    let fits : leb (length bytes) (length (bytes ++ s)) ≡ true =
      ground (arith, length-append bytes s) in
    rw (fits, take-append bytes s, drop-append bytes s) refl

read_exact-prefix :
    (n : ℕ) (s : List ℕ) → read_exact 4 (u32_le_bytes n ++ s) ≡ (some (u32_le_bytes n), s)
unfolding u32_le_bytes
read_exact-prefix n s = read_exact-append (u32_le_bytes n) s

module _ {F : Type 0} (codec : Codec F) where
  pub native_next-prefix :
      (n : ℕ) (s : List ℕ)
      → n < 2 ^ 32
      → native_next codec (u32_le_bytes n ++ s) ≡ decode_body codec (read_exact n s)
  unfolding native_next read_body
  native_next-prefix n s h =
      ap (read_body codec) (read_exact-prefix n s)
      ∙ ap (λ m. decode_body codec (read_exact m s)) (from_le_bytes-u32_le_bytes n h)

module _ {F : Type 0} {codec : Codec F} (laws : CodecLaws codec) where
  pub native_next-frame :
      (e : WalEntry F) (bytes s : List ℕ)
      → codec.encode e ≡ ok bytes
      → length bytes < 2 ^ 32
      → native_next codec (u32_le_bytes (length bytes) ++ bytes ++ s) ≡ (ok (some e), s)
  unfolding decode_body
  native_next-frame e bytes s h k =
      ap (native_next codec) (append_assoc (u32_le_bytes (length bytes)) bytes s)
      ∙ native_next-prefix codec (length bytes) (bytes ++ s) k
      ∙ ap (decode_body codec) (read_exact-append bytes s)
      ∙ rw (laws.decodes e bytes h, decode_body) refl

read_exact_le : (n : ℕ) (s : List ℕ) → length (read_exact n s).1 ≤ length s
unfolding read_exact
read_exact_le n s = ground (arith, length-drop n s)

read_exact_lt :
    (n : ℕ) (s bytes : List ℕ)
    → 0 < n
    → (read_exact n s).0 ≡ some bytes
    → length (read_exact n s).1 < length s
unfolding read_exact
read_exact_lt n s bytes k e = ground (arith, length-drop n s)

module _ {F : Type 0} (codec : Codec F) where
  decode_body_rest : (p : Option (List ℕ) × List ℕ) → (decode_body codec p).1 ≡ p.1
  unfolding decode_body
  decode_body_rest (none, s) = refl
  decode_body_rest (some bytes, s) = elim (Result-cases (codec.decode bytes)) [
    | inl (e, h) ↦ rw (h, decode_body) refl
    | inr (e, h) ↦ rw (h, decode_body) refl
  ]

  read_body_le :
      (p : Option (List ℕ) × List ℕ) (e : WalEntry F)
      → (read_body codec p).0 ≡ ok (some e)
      → (bytes : List ℕ) × (p.0 ≡ some bytes) × (length (read_body codec p).1 ≤ length p.1)
  unfolding read_body
  read_body_le (none, s) e h = absurd (ground arith)
  read_body_le (some len_bytes, s) e h = (
    len_bytes,
    refl,
    rw (decode_body_rest (read_exact (from_le_bytes len_bytes) s)) (read_exact_le _ s),
  )

  -- Each entry takes at least the four bytes of its length.
  native_next-length :
      (s : List ℕ) (e : WalEntry F)
      → (native_next codec s).0 ≡ ok (some e)
      → length (native_next codec s).1 < length s
  unfolding native_next
  native_next-length s e h =
      let (bytes, found, le) = read_body_le (read_exact 4 s) e h in
      let lt = read_exact_lt 4 s bytes (omega arith) found in omega arith

module _ {F : Type 0} (f : Float64 F) (codec : Codec F) where
  -- Whatever the bytes of a log file are, its replay ends: fuel for one entry more than the file has
  -- bytes is never used up.
  pub replay_from_ends :
      (fuel : ℕ) (s : List ℕ) (count : ℕ) (t : Tables F)
      → length s < fuel
      → (r : Result WalError ℕ × Tables F) × (replay_from f (native_reader codec) fuel s count t
          ≡ some r)
  unfolding replay_from native_reader
  replay_from_ends zero s count t h = absurd (omega arith)
  replay_from_ends (suc fuel) s count t h = elim (Result-cases (native_next codec s).0) [
    | inl (next, e) ↦ elim (Option-cases next) [
      | inl n ↦ rw (e, n, replay_from, native_reader) ((ok count, t), refl)
      | inr (entry, n) ↦
          let found : (native_next codec s).0 ≡ ok (some entry) = e ∙ ap ok n in
          let shorter = native_next-length codec s entry found in
          elim (Result-cases (apply_entry f entry t).0) [
            | inl (_, applied) ↦
                rw (found, applied, replay_from, native_reader)
                  (replay_from_ends fuel (native_next codec s).1 (suc count)
                    (apply_entry f entry t).1 (omega arith))
            | inr (x, failed) ↦
                rw (found, failed, replay_from, native_reader)
                  ((err x, (apply_entry f entry t).1), refl)
          ]
    ]
    | inr (x, e) ↦ rw (e, replay_from, native_reader) ((err x, t), refl)
  ]
