-- ===== src/Read.antt =====
-- xtable-storage/src/read.rs: the read of a record at a snapshot, through the memtables, the record index and
-- the chunks. The test of the version after `get_visible` asks what `get_visible` has asked already, since
-- nothing runs between them here.
pub mod Snapshot
pub mod Newest
mod Tests
use xtable.Prelude.{
  ℕ, ◌≡◌, String, Bool, true, false, not, ◌&&◌, Option, none, some, List, [], ◌∷◌, reverse, ltb,
  ◌+◌, ◌-◌, ◌%◌, leb, ◌==◌, string_key, if◌then◌else◌,
}
use xtable.Prelude.Words.{u64_mod, add_u64}
use mathlib.Core.Option
use xtable.Errors.{XtableError}
use xtable.Records.{Bytes, RecordIndexEntry, StoredRecordVersion, ChunkIndexEntry}
use xtable.Store.{RecordKey}
use xtable.Store.Gc.{get_record_version_at_snapshot}
use xtable.Store.Index.{get_record_index}
use xtable.Store.Chunks.{get_chunk_index}
use xtable.Memtable.{MemEntry, get_visible}
use xtable.Memtable.Set.{MemTableSet, first_visible}
use xtable.Wire.{Parsed, done, failed, panicked}
use xtable.Chunk.{ChunkEntry, Codecs, compose_key_bytes}
use xtable.Chunk.Entry.{decode_body_entries}
use xtable.Chunk.Bloom.{bloom_may_contain}
use xtable.Chunk.Writer.{decompress_body}
use xtable.World.{World, Exec, return, raise, update, redb_read, get_object, ◌>>=◌}

pub data ReadSource : Type 0 where
  active immutable record_index chunk not_found : ReadSource

pub record ReadResult : Type 0 where
  pub body : Bytes
  pub commit_version : ℕ
  pub txn_id : String
  pub deleted : Bool
  pub content_type : Option String
  pub user_meta : List (String × String)
  pub schema_version : ℕ
  pub source : ReadSource

-- what a call comes to that returned no error: a result, or a panic in a decoder
pub data Reply : Type 0 where
  answer : Option ReadResult → Reply
  panic : Reply

abbrev pub entry_to_result : MemEntry → ReadSource → ReadResult
entry_to_result e source = record {
  body = e.value.bytes;
  commit_version = e.commit_version;
  txn_id = e.txn_id;
  deleted = e.deleted;
  content_type = e.content_type;
  user_meta = e.user_meta;
  schema_version = e.schema_version;
  source = source;
}

abbrev pub tombstone_result : RecordIndexEntry → ReadResult
tombstone_result idx = record {
  body = [];
  commit_version = idx.commit_version;
  txn_id = idx.txn_id;
  deleted = true;
  content_type = none;
  user_meta = [];
  schema_version = idx.schema_version;
  source = ReadSource.not_found;
}

-- the body that stands in the history
abbrev pub inline_result : StoredRecordVersion → ReadResult
inline_result stored = record {
  body = stored.body;
  commit_version = stored.entry.commit_version;
  txn_id = stored.entry.txn_id;
  deleted = false;
  content_type = none;
  user_meta = [];
  schema_version = stored.entry.schema_version;
  source = ReadSource.record_index;
}

abbrev pub chunk_result : ChunkEntry → ReadResult
chunk_result e = record {
  body = e.value;
  commit_version = e.commit_version;
  txn_id = e.txn_id;
  deleted = e.deleted;
  content_type = e.content_type;
  user_meta = e.user_meta;
  schema_version = e.schema_version;
  source = if e.deleted then ReadSource.not_found else ReadSource.chunk;
}

abbrev pub entry_matches : RecordKey → ℕ → ChunkEntry → Bool
entry_matches key snapshot e =
    e.space == key.0
    && (e.table == key.1 && (e.record_id == key.2 && leb e.commit_version snapshot))

-- `max_by_key` keeps the last one of the greatest
abbrev pub later : Option ChunkEntry → ChunkEntry → Option ChunkEntry
later none e = some e
later (some best) e = if ltb e.commit_version best.commit_version then some best else some e

-- the filter and `max_by_key`, in one pass
unfoldable pub newest_match :
    RecordKey → ℕ → Option ChunkEntry → List ChunkEntry → Option ChunkEntry
newest_match key snapshot best [] = best
newest_match key snapshot best (e ∷ es) =
    newest_match key snapshot (if entry_matches key snapshot e then later best e else best) es

-- the loop over a body ends, so that `none` is no case of the code
abbrev pub search_entries : RecordKey → ℕ → Option (Parsed (List ChunkEntry)) → Exec Reply
search_entries key snapshot none = return panic
search_entries key snapshot (some (done es _)) =
    return (answer (Option.map chunk_result (newest_match key snapshot none es)))
search_entries key snapshot (some (failed e)) = raise e
search_entries key snapshot (some panicked) = return panic

-- `max - min + 1` on `u64`, which wraps in a release build
unfoldable pub version_span : ℕ → ℕ → ℕ
version_span min_version max_version = add_u64 ((max_version + u64_mod - min_version) % u64_mod) 1

abbrev pub search_body : Codecs → RecordKey → ℕ → ℕ → Parsed Bytes → Exec Reply
search_body codecs key snapshot expected (done body _) =
    search_entries key snapshot (decode_body_entries codecs expected body)
search_body codecs key snapshot expected (failed e) = raise e
search_body codecs key snapshot expected panicked = return panic

-- steps 1 and 2 of `read_at_snapshot`
unfoldable pub read_memory : RecordKey → ℕ → MemTableSet → Option ReadResult
read_memory key snapshot mems = elim (get_visible key snapshot mems.active) [
  | some e ↦ some (entry_to_result e ReadSource.active)
  | none ↦
      Option.map (λ e. entry_to_result e ReadSource.immutable)
        (first_visible key snapshot (reverse mems.flushing))
]

module _ (codecs : Codecs) where
  -- whether the filter of a chunk, where it has one, denies the key
  abbrev pub denies : Option Bytes → RecordKey → Bool
  denies none key = false
  denies (some bloom) key =
      not (bloom_may_contain codecs bloom (compose_key_bytes key.0 key.1 key.2))

  abbrev pub search_chunk : RecordKey → ℕ → Option ChunkIndexEntry → Exec Reply
  search_chunk key snapshot none = return (answer none)
  search_chunk key snapshot (some c) =
      if denies c.bloom key
      then return (answer none)
      else (get_object c.s3_key >>= (λ file.
          search_body codecs key snapshot (version_span c.commit_version_min c.commit_version_max)
            (decompress_body codecs file)))

  unfoldable pub read_from_chunk : RecordKey → ℕ → RecordIndexEntry → Exec Reply
  read_from_chunk key snapshot idx =
      redb_read (get_chunk_index idx.chunk_id) >>= search_chunk key snapshot

  abbrev pub is_empty : Bytes → Bool
  is_empty [] = true
  is_empty (b ∷ bs) = false

  -- a row with a body, beside the chunk that its pointer finds
  abbrev pub with_pointer :
      RecordKey → ℕ → StoredRecordVersion → Option ChunkIndexEntry → Exec Reply
  with_pointer key snapshot stored none = return (answer (some (inline_result stored)))
  with_pointer key snapshot stored (some _) = read_from_chunk key snapshot stored.entry

  abbrev pub from_history : RecordKey → ℕ → StoredRecordVersion → Exec Reply
  from_history key snapshot stored =
      if stored.entry.deleted
      then return (answer (some (tombstone_result stored.entry)))
      else if is_empty stored.body
      then read_from_chunk key snapshot stored.entry
      else (redb_read (get_chunk_index stored.entry.chunk_id) >>= with_pointer key snapshot stored)

  -- the legacy row, which is of the latest version only
  abbrev pub from_latest : RecordKey → ℕ → Option RecordIndexEntry → Exec Reply
  from_latest key snapshot none = return (answer none)
  from_latest key snapshot (some idx) =
      if ltb snapshot idx.commit_version
      then return (answer none)
      else if idx.deleted
      then return (answer (some (tombstone_result idx)))
      else read_from_chunk key snapshot idx

  abbrev pub from_version : RecordKey → ℕ → Option StoredRecordVersion → Exec Reply
  from_version key snapshot (some stored) = from_history key snapshot stored
  from_version key snapshot none = redb_read (get_record_index key) >>= from_latest key snapshot

  abbrev pub from_memory : RecordKey → ℕ → Option ReadResult → Exec Reply
  from_memory key snapshot (some r) = return (answer (some r))
  from_memory key snapshot none =
      redb_read (get_record_version_at_snapshot key snapshot) >>= from_version key snapshot

  unfoldable pub read_at_snapshot : RecordKey → ℕ → Exec Reply
  read_at_snapshot key snapshot =
      update (λ w. (read_memory key snapshot w.mems, w)) >>= from_memory key snapshot
