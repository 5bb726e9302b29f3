-- ===== src/Lib.antt =====
-- xtable is a transactional key-value and record service over S3-compatible storage. This library
-- models its transactional core.
--
-- The parts and how they interact. A client begins a transaction, stages writes, registers reads, and
-- commits or aborts (xtable-tx/src/coordinator.rs). The coordinator keeps its state in a local store over
-- redb (xtable-storage/src/store.rs): the rows of transactions, the staged writes, a write-ahead log, a
-- version chain for each key (xtable-storage/src/version_chain.rs), and a registry of the snapshots that
-- transactions read at. The lock manager (xtable-tx/src/si_lock_manager.rs) records reads and writes as
-- edges between transactions and reports two-cycles at commit. A commit appends to the chains in one redb
-- transaction, then makes its writes visible in the memtables (xtable-storage/src/memtable.rs). The flush
-- loop (xtable-storage/src/flush.rs) writes each full memtable to a chunk file (xtable-storage/src/chunk.rs)
-- in S3 and cuts the log; a reader (xtable-storage/src/read.rs) looks through the memtables, the record index
-- and the chunks. The collector aborts stale transactions and prunes chains below the oldest
-- registered snapshot (xtable-tx/src/gc.rs). After a crash, the recovery settles the transactions that the
-- log leaves open (xtable-tx/src/recovery.rs). The schema layer names records and schemas by storage keys
-- (xtable-schema/src/key.rs), which the coordinator parses again, and answers queries over the JSON bodies of
-- records (xtable-schema/src/query.rs).
--
-- Files and code.
--   Prelude, Prelude/*    shared names; maps as association lists in key order; u64 arithmetic
--   Errors                xtable-core/src/error.rs, xtable-tx/src/error.rs, xtable-backend/src/error.rs
--   Records               xtable-storage/src/txn_state.rs, version_index.rs, wal.rs, and the rows of chunks
--   Chain                 xtable-storage/src/version_chain.rs; Chain/Order, Read, Prune: its laws
--   Store                 xtable-storage/src/store.rs: Defs the tables, Meta the counters and the log, Txns
--                         the rows of transactions, Chains the appends, Pins the registry, Gc the collection;
--                         Chains/Append, Bulk, Conflict, Gc/Chains, Versions, History, Best, Retention,
--                         Pins/Laws: their laws; Index the record index and the schemas, Chunks the chunk index
--                         and the rest of the tables; Index/Laws, Truncate: their laws
--   Locks                 xtable-storage/src/locks.rs; Cahill is xtable-tx/src/cahill.rs; Manager and Ends are
--                         xtable-tx/src/si_lock_manager.rs; Manager/Edges, Detect, Abort, Growth, Skew:
--                         its laws
--   Memtable              xtable-storage/src/memtable.rs; Set is MemTableSet and the search of read.rs;
--                         Visible, Bounds, Set/Publish, Set/Rotate: their laws
--   World                 what the coordinator, the flush and the readers act on, and their actions, with the
--                         two requests of xtable-backend/src/client.rs; Frame, Inversion, Objects: rules on runs
--   Coordinator           xtable-tx/src/coordinator.rs: Begin, Commit, Abort, Keys; Frame, Isolation, Once, WriteSet,
--                         Atomic, Outcome, Repeat, Checks, Conflict, Calls, Ended, Aborted: its laws;
--                         Fixture: the states of the tests
--   Recovery              xtable-tx/src/recovery.rs; Frame, Settled, Sweep, Closed: its laws
--   Sweep                 xtable-tx/src/gc.rs; Stale, Aborts: its laws
--   Wire                  byte strings, a cursor over them and UTF-8; Reads, Shrinks: rules on readers
--   Chunk                 xtable-storage/src/chunk.rs: the header and the footer; Entry the entries, Bloom the
--                         filter, Writer the writer and decompress_body; HeaderTrip, FooterTrip, EntryTrip,
--                         FileTrip, Ends, Index, NoFalseNegatives, Panics: their laws
--   Flush                 xtable-storage/src/flush.rs; Names the key of an object; Frame, Durable, Uploads,
--                         Finds, Search, Readable, Loop: its laws
--   Read                  xtable-storage/src/read.rs; Snapshot, Newest: its laws
--   Query                 xtable-schema/src/query.rs; Sorted, Pages: its laws
--   SchemaKey             xtable-schema/src/key.rs; Parse its parsers; Laws, RoundTrip: their laws
--   Text                  the methods of str and u32 that keys need; Laws: what they do to joined texts
-- The Tests module of a part has runs of it and its results at a concrete state.
--
-- State and steps. A redb table is a field of LocalStore, and an operation of the store is a pure function
-- on the record, since a redb transaction is atomic. An action of the coordinator,
-- the flush or a reader is a function on a World, which returns a value or an error with the world it leaves. The world has a schedule, a list of answers
-- to the questions whether a redb transaction, a file operation or a request to S3 fails and whether a
-- try_lock is refused; a statement for all worlds is one for every schedule. A commit or an abort is
-- one step, since the commit_lock lets one of them run at a time. stage, read and heartbeat take no lock: each
-- is a function for the call alone, and the runs of Coordinator/Calls cut it where it has read the row, with any
-- steps in between. A theorem about one call is about a call that no other changes the row under.
--
-- Bounds. A u64 counter wraps or saturates where the source says so (Prelude/Words); all loops are
-- structural, but two that have fuel: one shows a u32 in ten digits, of which none has more, the other reads
-- the entries of a body, whose length is enough.
--
-- Not modelled: the bincode bytes of rows; message texts; metrics and tracing; the S3 client beyond
-- two requests; the rebuild of indices from the bucket; the validation of bodies and the schema
-- engine; authentication, configuration and HTTP. zstd, crc32fast, xxh3, bincode and the numbers of
-- serde_json are parameters (Chunk.Codecs, Query.Numbers), as is the most entries that a vector has room
-- for. The ULIDs of a new transaction and a new chunk, the clock's reading and the digests are arguments.
pub mod Chain
pub mod Chunk
pub mod Coordinator
pub mod Errors
pub mod Flush
pub mod Locks
pub mod Memtable
pub mod Prelude
pub mod Query
pub mod Read
pub mod Records
pub mod Recovery
pub mod SchemaKey
pub mod Store
pub mod Sweep
pub mod Text
pub mod Wire
pub mod World
