-- ===== src/Store/Defs.antt =====
-- The tables of the store (xtable-storage/src/cf.rs) that the model has.
use xtable.Prelude.{ℕ, String, Map}
use xtable.Chain.{VersionChain}
use xtable.Records.{
  TxnStateRecord, WriteSetEntry, BlobRecord, VersionRecord, WalRecord, StoredRecordVersion,
  RecordIndexEntry, StoredRecord, SchemaIndexEntry, MultipartState, ChunkIndexEntry,
}

-- `(space, table, record_id)`
abbrev pub RecordKey : Type 0
RecordKey = String × String × String

-- the two shapes of a row of the record index: bincode reads the bytes of a bare entry as a bare entry
-- only, and the bytes of a row with a body as either
pub data RecordRow : Type 0 where
  with_body : StoredRecord → RecordRow
  bare : RecordIndexEntry → RecordRow

pub record LocalStore : Type 0 where
  pub versions : Map String VersionRecord
  pub meta : Map String ℕ
  pub wal : Map ℕ WalRecord
  pub txn_state : Map String TxnStateRecord
  pub write_set : Map (String × String) WriteSetEntry
  pub staged_blobs : Map String BlobRecord
  pub version_chains : Map String VersionChain
  pub active_snapshots : Map ℕ ℕ
  pub record_versions : Map (RecordKey × ℕ) StoredRecordVersion
  pub record_index : Map RecordKey RecordRow
  pub schema_index : Map (String × String) SchemaIndexEntry
  pub chunk_index : Map String ChunkIndexEntry
  pub multipart : Map String MultipartState
