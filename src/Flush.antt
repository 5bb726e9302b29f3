-- ===== src/Flush.antt =====
-- xtable-storage/src/flush.rs: the flush of a memtable to a chunk file in S3, as actions on the world. The
-- ULID of the chunk and the clock's reading are arguments. The rows of a memtable are visited in key order,
-- for the order of a concurrent map.
pub mod Names
pub mod Frame
pub mod Durable
pub mod Uploads
pub mod Finds
pub mod Search
pub mod Readable
pub mod Loop
mod Tests
use xtable.Prelude.{
  ℕ, String, Bool, true, false, Option, none, some, List, [], ◌∷◌, ◌++◌, Map, length, ◌==◌, ◌||◌,
  nat_key, if◌then◌else◌,
}
use xtable.Prelude.Words.{u64_max}
use xtable.Errors.{XtableError, Result, ok, err}
use xtable.Records.{Bytes, WalRecord, ChunkStatus, ChunkIndexEntry}
use xtable.Store.{LocalStore, RecordKey}
use xtable.Store.Meta.{append_wal}
use xtable.Store.Index.{update_record_index_chunk_id_for_version}
use xtable.Store.Chunks.{put_chunk_index, set_flushed_seq, truncate_wal}
use xtable.Memtable.{MemEntry, MemTable, invisible, is_invisible}
use xtable.Memtable.Set.{MemTableSet, take_immutables, try_rotate_active}
use xtable.Chunk.{ChunkEntry, ChunkHeader, ChunkFooter, Codecs, field, chunk_magic, chunk_version}
use xtable.Chunk.Writer.{ChunkWriter, new_writer, append, finalize}
use xtable.Flush.Names.{compute_shard, s3_key}
use xtable.Wire.{le}
use xtable.Wire.Utf8.{as_bytes}
use xtable.World.{
  World, Exec, Done, return, raise, update, redb, redb_do, put_object, ignore, each, ◌>>=◌, ◌>>◌,
}

abbrev pub chunk_entry : MemEntry → ChunkEntry
chunk_entry e = record {
  space = e.key.0;
  table = e.key.1;
  record_id = e.key.2;
  value = e.value.bytes;
  commit_version = e.commit_version;
  txn_id = e.txn_id;
  deleted = e.deleted;
  content_type = e.content_type;
  user_meta = e.user_meta;
  schema_version = e.schema_version;
  wal_seq = e.wal_seq;
}

-- the entries of the rows that a commit has made visible
unfoldable pub visible_rows : Map RecordKey MemEntry → List MemEntry
visible_rows [] = []
visible_rows ((_, e) ∷ rows) =
    let rest = visible_rows rows in if is_invisible e then rest else e ∷ rest

-- the buffer that the length is taken of repeats `ChunkHeader::encode`
unfoldable pub header_bytes_len : ChunkHeader → ℕ
header_bytes_len h = length (
    chunk_magic
    ++ (le 2 chunk_version
        ++ (field (as_bytes h.chunk_id) (
            le 8 h.created_at_ms
            ++ (le 8 h.compressed_body_len
                ++ (le 8 h.uncompressed_len
                    ++ (field (as_bytes h.space) (
                        field (as_bytes h.table)
                          (field h.key_min (field h.key_max (le 8 h.record_count)))))))))))

-- the content type and the metadata of the object are left out; the tag is not surfaced
unfoldable pub upload_chunk : String → Bytes → Exec String
upload_chunk key file = do _ ← put_object key file; return ""

unfoldable pub update_record_index_after_flush : MemTable → String → Exec Done
update_record_index_after_flush mt chunk_id =
    each
      (λ (e : MemEntry).
        redb (update_record_index_chunk_id_for_version e.key e.commit_version chunk_id)
        >>= (λ _. return tt))
      (visible_rows mt.rows)

-- what is written to the store once the chunk index has the chunk
unfoldable pub record_progress : MemTable → String → Exec Done
record_progress mt chunk_id = do
  ignore (update_record_index_after_flush mt chunk_id)
  _ ← redb (append_wal (WalRecord.memtable_flushed chunk_id mt.latest_seq mt.version_max))
  redb_do (set_flushed_seq mt.latest_seq)
  ignore (redb (truncate_wal mt.latest_seq))

-- what is written to the store when the file is uploaded
unfoldable pub record_flush : MemTable → String → ChunkIndexEntry → Exec Done
record_flush mt chunk_id entry = do
  redb_do (put_chunk_index chunk_id entry)
  record_progress mt chunk_id

module _ (codecs : Codecs) where
  -- the writer is made by the first entry, with the space and the table of it
  abbrev pub write_entry : String → MemEntry → Option ChunkWriter → Option ChunkWriter
  write_entry chunk_id e none =
      some (append codecs (chunk_entry e) (new_writer chunk_id e.key.0 e.key.1))
  write_entry chunk_id e (some w) = some (append codecs (chunk_entry e) w)

  unfoldable pub write_entries : String → List MemEntry → Option ChunkWriter → Option ChunkWriter
  write_entries chunk_id [] writer = writer
  write_entries chunk_id (e ∷ es) writer = write_entries chunk_id es (write_entry chunk_id e writer)

  abbrev pub index_entry :
      MemTable → String → ChunkHeader → ChunkFooter → Bytes → String → ℕ → ChunkIndexEntry
  index_entry mt chunk_id header footer file etag now = record {
    s3_key = s3_key codecs header chunk_id;
    space = header.space;
    table = header.table;
    shard = compute_shard codecs header.key_min;
    key_min = header.key_min;
    key_max = header.key_max;
    commit_version_min = mt.version_min;
    commit_version_max = mt.version_max;
    wal_seq_first = mt.earliest_seq;
    wal_seq_last = mt.latest_seq;
    sha256_body = "";
    size_bytes = length file;
    etag = etag;
    bloom = some footer.bloom;
    flushed_at_ms = now;
    status = ChunkStatus.live;
  }

  -- the slice of the compressed body, which nothing reads, is left out: it lies inside the file
  -- (header_bytes_len-finalize in Flush/Uploads.antt)
  abbrev pub upload_and_record :
      MemTable → String → ℕ → Result (Bytes × ChunkHeader × ChunkFooter) → Exec Done
  upload_and_record mt chunk_id now (err e) = raise e
  upload_and_record mt chunk_id now (ok (file, header, footer)) = do
    etag ← upload_chunk (s3_key codecs header chunk_id) file
    record_flush mt chunk_id (index_entry mt chunk_id header footer file etag now)

  abbrev pub flush_writer : MemTable → String → ℕ → Option ChunkWriter → Exec Done
  flush_writer mt chunk_id now none = return tt
  flush_writer mt chunk_id now (some writer) =
      upload_and_record mt chunk_id now (finalize codecs writer now)

  -- an empty memtable, and one without a visible entry, has nothing to flush
  unfoldable pub flush_one : MemTable → String → ℕ → Exec Done
  flush_one mt chunk_id now =
      if mt.earliest_seq == u64_max || mt.latest_seq == 0
      then return tt
      else flush_writer mt chunk_id now (write_entries chunk_id (visible_rows mt.rows) none)

  -- a table whose flush fails goes back to the queue
  abbrev pub requeue : MemTable → Result Done × World → Result Done × World
  requeue mt (ok _, w) = (ok tt, w)
  requeue mt (err _, w) =
      (ok tt, record w { mems = record w.mems { flushing = w.mems.flushing ++ mt ∷ [] } })

  unfoldable pub flush_or_requeue : (MemTable → String) → ℕ → MemTable → Exec Done
  flush_or_requeue ulid now mt w = requeue mt (flush_one mt (ulid mt) now w)

  abbrev pub taken : World → List MemTable × World
  taken w = ((take_immutables w.mems).0, record w { mems = (take_immutables w.mems).1 })

  -- one turn of the loop after it was woken by a rotation; `ulid` gives the ids that are drawn
  unfoldable pub flush_turn : (MemTable → String) → ℕ → Exec Done
  flush_turn ulid now = update taken >>= each (flush_or_requeue ulid now)

  -- and after it was woken by the clock, with `free` for `try_write` on the active table
  unfoldable pub flush_tick : (MemTable → String) → ℕ → Bool → Exec Done
  flush_tick ulid now free = do
    update (λ w. (tt, record w { mems = (try_rotate_active now free w.mems).1 }))
    flush_turn ulid now
