-- ===== src/Replay/Reader.antt =====
-- The readers of crates/redis-wasm-core/src/wal/replayer.rs, and `replay` over any of them.
pub mod Frames
pub mod Stored
use kvasm.Common.{
  ℕ, suc, zero, ◌+◌, ◌*◌, Option, none, some, List, [], ◌∷◌, Result, ok, err, leb, if◌then◌else◌,
  length, take, drop,
}
use kvasm.Float.{Float64}
use kvasm.Wal.{WalEntry, WalError, io}
use kvasm.Wal.Native.{Codec}
use kvasm.Replay.{Tables, apply_entry}

-- The trait `WalReader`: an implementation keeps a state `R`.
pub record WalReader (R F : Type 0) : Type 0 where
  pub next_entry : R → Result WalError (Option (WalEntry F)) × R

module _ {R F : Type 0} (f : Float64 F) (reader : WalReader R F) where
  -- `replay`: `none` when the fuel is used up.
  unfoldable pub replay_from : ℕ → R → ℕ → Tables F → Option (Result WalError ℕ × Tables F)
  replay_from zero r count t = none
  replay_from (suc fuel) r count t =
      let (read, r') = reader.next_entry r in
      elim read [
        | err e ↦ some (err e, t)
        | ok next ↦ elim next [
          | none ↦ some (ok count, t)
          | some entry ↦
              let (applied, t') = apply_entry f entry t in
              elim applied [ err e ↦ some (err e, t') | ok _ ↦ replay_from fuel r' (suc count) t' ]
        ]
      ]

-- `VecWalReader`: the entries that are left.
unfoldable pub vec_reader : {F : Type 0} → WalReader (List (WalEntry F)) F
vec_reader = record {
  next_entry =
      λ entries. elim entries [ [] ↦ (ok none, []) | entry ∷ rest ↦ (ok (some entry), rest) ];
}

-- `read_exact`, of a file of which these bytes are left: too few bytes are `UnexpectedEof`.
unfoldable pub read_exact : ℕ → List ℕ → Option (List ℕ) × List ℕ
read_exact n s = if leb n (length s) then (some (take n s), drop n s) else (none, [])

-- `u32::from_le_bytes`
unfoldable pub from_le_bytes : List ℕ → ℕ
from_le_bytes [] = 0
from_le_bytes (b ∷ bytes) = b + 256 * from_le_bytes bytes

module _ {F : Type 0} (codec : Codec F) where
  -- `WalEntry::decode(&self.buffer)?`, once the buffer has been read.
  unfoldable pub decode_body :
      Option (List ℕ) × List ℕ → Result WalError (Option (WalEntry F)) × List ℕ
  decode_body (none, s) = (err io, s)
  decode_body (some bytes, s) = elim (codec.decode bytes) [
    | err e ↦ (err e, s)
    | ok entry ↦ (ok (some entry), s)
  ]

  -- The entry behind a length prefix; a file that ends before it or within it has no more entries.
  unfoldable pub read_body :
      Option (List ℕ) × List ℕ → Result WalError (Option (WalEntry F)) × List ℕ
  unfolding from_le_bytes read_exact decode_body
  read_body (none, s) = (ok none, s)
  read_body (some len_bytes, s) = decode_body (read_exact (from_le_bytes len_bytes) s)

  -- `next_entry` of `NativeWalReader`
  unfoldable pub native_next : List ℕ → Result WalError (Option (WalEntry F)) × List ℕ
  unfolding read_exact read_body
  native_next s = read_body (read_exact 4 s)

  unfoldable pub native_reader : WalReader (List ℕ) F
  native_reader = record { next_entry = native_next }
