-- ===== src/Store/Chunks.antt =====
-- The chunk index and the multipart rows of the store, and what xtable-storage/src/flush.rs adds to the
-- store: the sequence number that is flushed and the truncation of the log.
use xtable.Prelude.{
  ℕ, String, Option, none, some, List, [], ◌∷◌, Map, lookup, insert, remove, leb, length, nat_key,
  string_key, if◌then◌else◌,
}
use xtable.Chain.{VersionChain}
use xtable.Records.{
  TxnStatus, WriteSetEntry, MultipartState, ChunkStatus, ChunkIndexEntry, WalRecord,
}
use xtable.Store.Defs.{LocalStore}
use xtable.Store.Meta.{counter}
use xtable.Store.Txns.{get_txn_state, put_txn_state}

unfoldable pub put_chunk_index : String → ChunkIndexEntry → LocalStore → LocalStore
put_chunk_index chunk_id entry s = record s { chunk_index = insert chunk_id entry s.chunk_index }

unfoldable pub get_chunk_index : String → LocalStore → Option ChunkIndexEntry
get_chunk_index chunk_id s = lookup chunk_id s.chunk_index

unfoldable pub delete_chunk_index : String → LocalStore → LocalStore
delete_chunk_index chunk_id s = record s { chunk_index = remove chunk_id s.chunk_index }

-- the table iterates in the order of its keys, which is the order that the source sorts by
unfoldable pub iter_all_chunk_index : LocalStore → List (String × ChunkIndexEntry)
iter_all_chunk_index s = s.chunk_index

abbrev pub mark_deleted :
    String
    → Option ChunkIndexEntry
    → List (String × ChunkIndexEntry)
    → List (String × ChunkIndexEntry)
mark_deleted id none rest = rest
mark_deleted id (some rec) rest = (id, record rec { status = ChunkStatus.deleted_chunk }) ∷ rest

-- the rows that are written back, from one read of the table
unfoldable pub marked : List String → Map String ChunkIndexEntry → List (String × ChunkIndexEntry)
marked [] m = []
marked (id ∷ ids) m = mark_deleted id (lookup id m) (marked ids m)

unfoldable pub insert_chunks :
    List (String × ChunkIndexEntry) → Map String ChunkIndexEntry → Map String ChunkIndexEntry
insert_chunks [] m = m
insert_chunks ((id, rec) ∷ updated) m = insert_chunks updated (insert id rec m)

-- with no ids, and with no rows to write, the store stays as it is
unfoldable pub mark_chunks_deleted : List String → LocalStore → LocalStore
mark_chunks_deleted chunk_ids s = record s {
  chunk_index = insert_chunks (marked chunk_ids s.chunk_index) s.chunk_index;
}

unfoldable pub put_multipart : String → MultipartState → LocalStore → LocalStore
put_multipart upload_id rec s = record s { multipart = insert upload_id rec s.multipart }

unfoldable pub get_multipart : String → LocalStore → Option MultipartState
get_multipart upload_id s = lookup upload_id s.multipart

unfoldable pub delete_multipart : String → LocalStore → LocalStore
delete_multipart upload_id s = record s { multipart = remove upload_id s.multipart }

unfoldable pub iter_all_multipart : LocalStore → List (String × MultipartState)
iter_all_multipart s = s.multipart

abbrev pub flat_rows : Map (String × String) WriteSetEntry → List (String × String × WriteSetEntry)
flat_rows [] = []
flat_rows (((t, key), rec) ∷ rows) = (t, key, rec) ∷ flat_rows rows

unfoldable pub iter_all_write_sets : LocalStore → List (String × String × WriteSetEntry)
iter_all_write_sets s = flat_rows s.write_set

unfoldable pub iter_all_chains : LocalStore → List (String × VersionChain)
iter_all_chains s = s.version_chains

-- the version is not used
unfoldable pub mark_committed : String → ℕ → LocalStore → LocalStore
mark_committed txn_id commit_version s = elim (get_txn_state txn_id s) [
  | none ↦ s
  | some rec ↦ put_txn_state txn_id (record rec { status = TxnStatus.committed }) s
]

unfoldable pub set_flushed_seq : ℕ → LocalStore → LocalStore
set_flushed_seq seq s = record s { meta = insert "last_flushed_seq" seq s.meta }

unfoldable pub last_flushed_seq : LocalStore → ℕ
last_flushed_seq s = counter "last_flushed_seq" s

-- the loop over the log, which stops at the first row above the limit
unfoldable pub to_remove : ℕ → Map ℕ WalRecord → List ℕ
to_remove up_to [] = []
to_remove up_to ((seq, _) ∷ rows) =
    let rest = to_remove up_to rows in if leb seq up_to then seq ∷ rest else []

unfoldable pub remove_rows : List ℕ → Map ℕ WalRecord → Map ℕ WalRecord
remove_rows [] m = m
remove_rows (seq ∷ seqs) m = remove_rows seqs (remove seq m)

unfoldable pub truncate_wal : ℕ → LocalStore → ℕ × LocalStore
truncate_wal up_to s =
    let seqs = to_remove up_to s.wal in (length seqs, record s { wal = remove_rows seqs s.wal })
