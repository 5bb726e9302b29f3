-- ===== src/Store.antt =====
-- xtable-storage/src/store.rs: the local store over redb, a record with a field for each table.
-- A redb write transaction is atomic, so an operation is a pure function on the record: it returns
-- the new record, or an error and no record, which is the transaction dropped unfinished. Failures
-- of redb itself, of a `begin`, a read or a `commit`, are added where the coordinator calls the
-- operations. The bincode encoding of the rows is left out: a table holds the rows themselves.
mod Defs
mod Tests
pub mod Meta
pub mod Txns
pub mod Chains
pub mod Pins
pub mod Gc
pub mod Index
pub mod Chunks
pub mod Truncate
pub use Defs.{RecordKey, LocalStore}
