-- ===== src/Lib.antt =====
-- Kvasm: a store with the commands of Redis, in memory, with expiry times and a write-ahead log.
--
-- The model follows the core crate, crates/redis-wasm-core/src, and of the crate for browsers,
-- crates/redis-wasm-bindings/src, the parts that keep a log and pass messages on.
-- - HashMap: `HashMap`, `DashMap` and `HashSet` with string keys, as lists of entries in the order
--   in which they iterate. HashMap/Laws has what lookups, sizes and the absence of double keys do
--   under each change, HashMap/Append what they do when one is put behind another.
-- - Float: `f64` and `OrderedFloat`, a parameter of everything that keeps scores.
-- - SortedSet: `SortedSet` of types/mod.rs. SortedSet/Order is about its ordered half alone,
--   SortedSet/Synced about the two halves together.
-- - Value: `Value` of types/mod.rs, with a child for the operations on each type of value, and
--   beside each the laws of these operations. Value/Range is `clamp_range`, which LRANGE, LTRIM,
--   GETRANGE, ZRANGE and ZREVRANGE share. Value/Idle says when an operation leaves a value alone.
-- - Expiry: `ExpiryManager` of expiry/mod.rs. The clock is a number.
-- - Wal: the entries of wal/log.rs, and the trait of wal/writer.rs as a record of operations on a
--   state of the writer's own, which the database takes as a parameter. Wal/Native is
--   `NativeWalWriter`, over a parameter for the files and buffers of std and one for bincode;
--   Wal/Native/Frames says what its file looks like, Stored and Calls what it holds after calls.
-- - Db: `RedisWasmDb` of db.rs as a record, and each method as a function from a database to a
--   result and a database: what was written before a failure stays written. The children of Db
--   are the commands on each type of value, and Db/Persist is the writing of the log and its
--   compaction. Db/Frame, Db/Valid, Db/Ttl, Db/Failures
--   and Db/Strings/RoundTrip are about these commands. Db/Glob is KEYS with its patterns.
-- - Replay: `WalReplayer` of wal/replayer.rs over a list of entries. Replay/Agree compares tables by
--   their lookups, Replay/Durable the log with the tables; Replay/Durable/Disk is about the file of the
--   native writer. Replay/Reader has the readers and the
--   replay over any of them, Replay/Snapshot the entries that a compaction writes.
-- - Persistence: persistence/indexed_db.rs and serialization/js_value.rs, the log in IndexedDB and the
--   task that writes it from a queue. Persistence/Queue is about the order of the commands, Flushed
--   about the store, Acknowledged about the answers.
-- - PubSub: pubsub/mod.rs of the core, and in PubSub/Tabs pubsub.rs of the bindings.
-- - Bindings: the calls of `WasmDb` in lib.rs that do more than pass their arguments on. Each reads the
--   clock first. Bindings/Reopen is about a session that opens the log of another.
-- - Tests: the theorems at concrete values.
--
-- A command calls the expiry table first, deletes the key if its time has run out, works on the
-- value, and then writes an entry to the log; the writer may fail, and a write may start a
-- compaction, whose failure does not reach the caller.
--
-- Machine integers: `u64` and `usize` sums that the source checks or saturates are written out with
-- their limits, the cast of a `u64` to `i64` wraps, and the counter of log entries wraps at 2^64.
-- The printing of an integer gets 20 steps, one for each digit: no integer in the range of `i64` has
-- more. The loop of `replay` over a reader runs on fuel; each entry of a file takes at least the four
-- bytes of its length, so one step more than the file has bytes is enough.
--
-- What the code takes from other crates is a parameter, with what their documentation promises as
-- laws: floats, bincode, serde_json, regex, files and `BufWriter`, IndexedDB transactions, the channels of
-- tokio and of futures. The laws are met by the small instances in Tests.
--
-- Not modelled: timers, and the opening of files and of IndexedDB; the calls of the bindings that
-- only pass their arguments on; and two commands that interleave at an await.
pub mod Common
pub mod HashMap
pub mod Float
pub mod SortedSet
pub mod Value
pub mod Expiry
pub mod Wal
pub mod Db
pub mod Replay
pub mod Persistence
pub mod PubSub
pub mod Bindings
pub mod Tests
