-- ===== src/Wal/Native.antt =====
-- `NativeWalWriter` of crates/redis-wasm-core/src/wal/writer.rs: the log in a file, each entry
-- behind its length.
pub mod Frames
pub mod Stored
pub mod Calls
use kvasm.Common.{
  ℕ, ◌/◌, ◌%◌, ◌^◌, ◌≡◌, List, [], ◌∷◌, ◌++◌, Result, ok, err, Exec, pure, lift, ◌>>=◌, ◌>>◌, leb,
  if◌then◌else◌, length,
}
use kvasm.Wal.{WalEntry, WalError, WalWriterTrait}

-- `WalEntry::encode` and `WalEntry::decode`, which are bincode's.
pub record Codec (F : Type 0) : Type 0 where
  pub encode : WalEntry F → Result WalError (List ℕ)
  pub decode : List ℕ → Result WalError (WalEntry F)

-- A `BufWriter<File>` is a `B`, what the disk holds is a `D`; `close` is the drop of a `BufWriter`,
-- which writes what it still has and ignores errors.
pub record FileIo (B D : Type 0) : Type 0 where
  pub open_append : D → Result WalError B × D
  pub open_truncated : D → Result WalError B × D
  pub write_all : List ℕ → Exec (B × D) WalError (Unit {0})
  pub flush : Exec (B × D) WalError (Unit {0})
  pub close : B → D → D
  pub file_len : D → Result WalError ℕ

-- `len as u32`, and its `to_le_bytes()`
unfoldable pub u32_le_bytes : ℕ → List ℕ
u32_le_bytes n = n % 256 ∷ n / 256 % 256 ∷ n / 65536 % 256 ∷ n / 16777216 % 256 ∷ []

-- The state of the writer, with the disk.
pub record NativeWalWriter (F B D : Type 0) : Type 0 where
  pub buffer : List (WalEntry F)
  pub buffer_size : ℕ
  pub writer : B
  pub disk : D

module _ {F B D : Type 0} (codec : Codec F) (io : FileIo B D) where
  -- `NativeWalWriter::new`
  unfoldable pub new : ℕ → D → Result WalError (NativeWalWriter F B D) × D
  new buffer_size disk =
      let (opened, disk') = io.open_append disk in
      elim opened [
        | err e ↦ (err e, disk')
        | ok b ↦ (
          ok (record { buffer = []; buffer_size = buffer_size; writer = b; disk = disk' }),
          disk',
        )
      ]

  -- The length prefix and the data.
  unfoldable pub write_frame : WalEntry F → Exec (B × D) WalError (Unit {0})
  unfolding u32_le_bytes
  write_frame e = do
    bytes ← lift (codec.encode e)
    io.write_all (u32_le_bytes (length bytes % 2 ^ 32))
    io.write_all bytes

  -- `for e in entries`
  unfoldable pub write_frames : List (WalEntry F) → Exec (B × D) WalError (Unit {0})
  write_frames [] = pure tt
  write_frames (e ∷ es) = write_frame e >> write_frames es

  -- The buffer is drained, also when a write fails.
  unfoldable pub drain : NativeWalWriter F B D → Result WalError (Unit {0}) × NativeWalWriter F B D
  drain w =
      let (r, s) = (write_frames w.buffer >> io.flush) (w.writer, w.disk) in
      (r, record w { buffer = []; writer = s.0; disk = s.1 })

  unfoldable pub append :
      WalEntry F → NativeWalWriter F B D → Result WalError (Unit {0}) × NativeWalWriter F B D
  append entry w =
      let w' = record w { buffer = w.buffer ++ entry ∷ [] } in
      if leb w.buffer_size (length w'.buffer) then drain w' else (ok tt, w')

  unfoldable pub flush : NativeWalWriter F B D → Result WalError (Unit {0}) × NativeWalWriter F B D
  flush w = elim w.buffer [ [] ↦ (ok tt, w) | _ ∷ _ ↦ drain w ]

  unfoldable pub size : NativeWalWriter F B D → Result WalError ℕ × NativeWalWriter F B D
  size w = (io.file_len w.disk, w)

  -- On success the old `BufWriter` is dropped, on failure the new one.
  unfoldable pub rewrite :
      List (WalEntry F) → NativeWalWriter F B D → Result WalError (Unit {0}) × NativeWalWriter F B D
  rewrite entries w =
      let (opened, disk') = io.open_truncated w.disk in
      elim opened [
        | err e ↦ (err e, record w { buffer = []; disk = disk' })
        | ok b ↦
            let (r, s) = (write_frames entries >> io.flush) (b, disk') in
            elim r [
              | err e ↦ (err e, record w { buffer = []; disk = io.close s.0 s.1 })
              | ok _ ↦ (ok tt, record w { buffer = []; writer = s.0; disk = io.close w.writer s.1 })
            ]
      ]

  unfoldable pub native_writer : WalWriterTrait (NativeWalWriter F B D) F
  native_writer = record { append = append; flush = flush; size = size; rewrite = rewrite }
