-- ===== src/Replay/Snapshot.antt =====
-- The entries that a compaction of crates/redis-wasm-core/src/db.rs writes, under the replay of
-- crates/redis-wasm-core/src/wal/replayer.rs.
pub mod Leads
pub mod Values
pub mod Kept
pub mod Compact
