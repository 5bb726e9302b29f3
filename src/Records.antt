-- ===== src/Records.antt =====
-- The rows of the local store: xtable-storage/src/txn_state.rs, version_index.rs and wal.rs, with
-- the status of xtable-core/src/headers.rs. Where the source formats a reason into a text, the
-- model keeps the values that are formatted.
use xtable.Prelude.{ℕ, String, Bool, true, false, Option, none, some, List, []}
use xtable.Errors.{XtableError}

pub data TxnStatus : Type 0 where
  active committing committed aborted : TxnStatus

abbrev pub is_active : TxnStatus → Bool
is_active active = true
is_active _ = false

-- `==` on `TxnStatus`
abbrev pub same_status : TxnStatus → TxnStatus → Bool
same_status active active = true
same_status committing committing = true
same_status committed committed = true
same_status aborted aborted = true
same_status _ _ = false

unfoldable pub as_str : TxnStatus → String
as_str active = "active"
as_str committing = "committing"
as_str committed = "committed"
as_str aborted = "aborted"

pub record TxnStateRecord : Type 0 where
  pub status : TxnStatus
  pub snapshot_version : ℕ
  pub started_at_ms : ℕ
  pub last_heartbeat_ms : ℕ
  pub idempotency_key : Option String
  pub read_keys : List String
  pub write_keys : List String
  pub alloc_versions : List (String × ℕ)
  pub uploaded_keys : List String

abbrev pub new_active : ℕ → Option String → ℕ → TxnStateRecord
new_active snapshot_version idempotency_key now_ms = record {
  status = active;
  snapshot_version = snapshot_version;
  started_at_ms = now_ms;
  last_heartbeat_ms = now_ms;
  idempotency_key = idempotency_key;
  read_keys = [];
  write_keys = [];
  alloc_versions = [];
  uploaded_keys = [];
}

-- a byte string
abbrev pub Bytes : Type 0
Bytes = List ℕ

pub record WriteSetEntry : Type 0 where
  pub backend_key : String
  pub body_handle : Option String
  pub inline_body : Option Bytes
  pub size : ℕ
  pub content_type : Option String
  pub user_meta : List (String × String)
  pub deleted : Bool

pub record BlobRecord : Type 0 where
  pub path : String
  pub size : ℕ
  pub sha256 : String
  pub created_at_ms : ℕ

pub record RecordIndexEntry : Type 0 where
  pub commit_version : ℕ
  pub deleted : Bool
  pub chunk_id : String
  pub schema_version : ℕ
  pub txn_id : String
  pub updated_ms : ℕ

pub record StoredRecordVersion : Type 0 where
  pub entry : RecordIndexEntry
  pub body : Bytes

pub record VersionRecord : Type 0 where
  pub latest_version : ℕ
  pub latest_etag : String
  pub latest_backend_key : String
  pub last_writer_txn_id : String
  pub tombstone : Bool
  pub size : ℕ
  pub last_modified_unix_ms : ℕ

-- the reasons that the code formats into the `reason` of an `Aborted` row
pub data AbortReason : Type 0 where
  cahill_cycle : String → AbortReason
  snapshot_conflict : String → ℕ → ℕ → AbortReason
  commit_failed : XtableError → AbortReason
  explicit_abort stale_timeout crash_recovery : AbortReason

pub data WalRecord : Type 0 where
  begin : String → ℕ → Option String → WalRecord
  stage : String → String → Option String → WalRecord
  committing_keys : String → List String → WalRecord
  committed_at : String → ℕ → WalRecord
  commit_result : String → ℕ → Bool → WalRecord
  aborted_for : String → AbortReason → WalRecord
  memtable_flushed : String → ℕ → ℕ → WalRecord

-- `WalRecord::txn_id`
unfoldable pub wal_txn_id : WalRecord → Option String
wal_txn_id (begin t _ _) = some t
wal_txn_id (stage t _ _) = some t
wal_txn_id (committing_keys t _) = some t
wal_txn_id (committed_at t _) = some t
wal_txn_id (commit_result t _ _) = some t
wal_txn_id (aborted_for t _) = some t
wal_txn_id (memtable_flushed _ _ _) = none

-- `WalRecord::chunk_id`
unfoldable pub wal_chunk_id : WalRecord → Option String
wal_chunk_id (memtable_flushed c _ _) = some c
wal_chunk_id _ = none

unfoldable pub is_terminal : WalRecord → Bool
is_terminal (committed_at _ _) = true
is_terminal (commit_result _ _ _) = true
is_terminal (aborted_for _ _) = true
is_terminal _ = false

-- a row of the record index: the body as JSON text, empty for a tombstone
pub record StoredRecord : Type 0 where
  pub entry : RecordIndexEntry
  pub body_json : String

pub record SchemaIndexEntry : Type 0 where
  pub latest_version : ℕ
  pub chunk_s3_key : String
  pub registered_ms : ℕ

pub record MultipartState : Type 0 where
  pub upload_id : String
  pub key : String
  pub backend_upload_id : String
  pub parts : List (ℕ × String × ℕ)
  pub txn_id : Option String

pub data ChunkStatus : Type 0 where
  live compacting deleted_chunk : ChunkStatus

pub record ChunkIndexEntry : Type 0 where
  pub s3_key : String
  pub space : String
  pub table : String
  pub shard : ℕ
  pub key_min : Bytes
  pub key_max : Bytes
  pub commit_version_min : ℕ
  pub commit_version_max : ℕ
  pub wal_seq_first : ℕ
  pub wal_seq_last : ℕ
  pub sha256_body : String
  pub size_bytes : ℕ
  pub etag : String
  pub bloom : Option Bytes
  pub flushed_at_ms : ℕ
  pub status : ChunkStatus
