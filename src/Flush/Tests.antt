-- ===== src/Flush/Tests.antt =====
-- Runs of the flush.
use xtable.Prelude.{
  ◌≡◌, refl, true, false, none, [], ◌∷◌, map, length, lookup, insert, remove, string_key,
  triple_key,
}
use xtable.Prelude.Words.{u64_max, add_u64}
use mathlib.Core.Option
use xtable.Errors.{Result, ok}
use xtable.Records.{Bytes, RecordIndexEntry, StoredRecordVersion}
use xtable.Store.Meta.{append_wal}
use xtable.Store.Index.{update_record_index_chunk_id_for_version}
use xtable.Store.Chunks.{
  put_chunk_index, get_chunk_index, set_flushed_seq, truncate_wal, to_remove, remove_rows,
}
use xtable.Memtable.{MemEntry, MemTable, new_memtable, get_visible, is_invisible, visible_at}
use xtable.Store.Gc.{get_record_version_at_snapshot, best_version}
use xtable.Memtable.Set.{take_immutables, first_visible}
use xtable.Wire.{le, byte, read_le, split_at, slice, text, from_le}
use xtable.Wire.Utf8.{as_bytes, decode, to_char}
use xtable.Chunk.{
  footer_bytes, Codecs, encode_header, encode_footer, compose_key_bytes, decode_header,
  expect_magic, read_header,
}
use xtable.Chunk.Entry.{
  encode_entry, entry_payload, encode_meta, decode_body_entries, decode_entries, decode_entry,
  decode_payload, split_nul, read_meta,
}
use xtable.Chunk.Bloom.{
  build_bloom, add_keys, set_bit, or_at, zeros, byte_at, has_bit, bloom_may_contain,
}
use xtable.Chunk.Writer.{
  append, sample_keys, finalize, min_from, max_from, new_writer, footer_of, ChunkWriter,
  decompress_body,
}
use xtable.Read.{version_span, Reply, newest_match, read_from_chunk, read_memory, read_at_snapshot}
use xtable.Chunk.EntryTrip
use xtable.Chunk.HeaderTrip
use xtable.Chunk.FileTrip.{append_all}
use xtable.World.{
  World, return, redb, redb_do, redb_read, put_object, get_object, ignore, each, update, ◌>>=◌,
}
use xtable.Coordinator.Fixture.{start}
use xtable.Text.{show_before}
use xtable.Flush.Names.{compute_shard}
use xtable.Flush.{
  chunk_entry, visible_rows, write_entries, header_bytes_len, upload_chunk,
  update_record_index_after_flush, record_progress, record_flush, flush_one, flush_or_requeue,
  flush_turn,
}
use xtable.Flush.Durable.{IsDurable, flush_one-IsDurable}

-- stand-ins for the other packages
abbrev plain : Codecs
plain = record {
  compress = ok;
  decompress = ok;
  crc32 = length;
  xxh3_64 = length;
  entry_capacity = 1_000_000;
  serialize_index = λ ks. ok (length ks ∷ []);
  deserialize_index = λ bs. ok [];
}

abbrev entry : MemEntry
entry = record {
  key = ("s", "t", "r");
  value = record { bytes = 1 ∷ 2 ∷ [] };
  commit_version = 4;
  txn_id = "x";
  deleted = false;
  content_type = none;
  user_meta = [];
  schema_version = 1;
  wal_seq = 3;
  size_bytes = 2;
}

abbrev staged : MemEntry
staged = record entry { key = ("s", "t", "z"); commit_version = u64_max }

abbrev table : MemTable
table = record (new_memtable 0 0) {
  rows = (("s", "t", "r"), entry) ∷ (("s", "t", "z"), staged) ∷ [];
  earliest_seq = 3;
  latest_seq = 3;
  version_min = 4;
  version_max = 4;
}

-- the version of the record before the flush, without a chunk
abbrev unflushed : StoredRecordVersion
unflushed = record {
  entry = record {
    commit_version = 4;
    deleted = false;
    chunk_id = "";
    schema_version = 1;
    txn_id = "x";
    updated_ms = 0;
  };
  body = [];
}

abbrev waiting : World
waiting = record start {
  mems = record start.mems { flushing = table ∷ [] };
  store = record start.store { record_versions = ((("s", "t", "r"), 4), unflushed) ∷ [] };
}

read_runs : Unit {0}
unfolding read_from_chunk decompress_body decode_header expect_magic read_header read_le split_at
    slice text from_le decode_body_entries decode_entries decode_entry decode_payload split_nul
    read_meta decode to_char newest_match byte version_span
read_runs = tt

runs : Unit {0}
unfolding lookup insert remove add_u64 append_wal update_record_index_chunk_id_for_version
    put_chunk_index get_chunk_index set_flushed_seq truncate_wal to_remove remove_rows get_visible
    is_invisible visible_at le as_bytes encode_header encode_footer compose_key_bytes encode_entry
    entry_payload encode_meta build_bloom add_keys set_bit or_at zeros byte_at has_bit
    bloom_may_contain append sample_keys finalize min_from max_from return redb redb_do redb_read
    put_object get_object ignore each update ◌>>=◌ show_before compute_shard visible_rows
    write_entries header_bytes_len upload_chunk update_record_index_after_flush record_progress
    record_flush flush_one flush_or_requeue flush_turn take_immutables
runs = tt

abbrev after : World
after = (flush_one plain table "c1" 9 waiting).1

uploaded : length after.objects ≡ 1
unfolding runs
uploaded = refl

-- a bucket that refuses the upload
abbrev refused : World
refused = record waiting { schedule = true ∷ [] }

flush_one-IsDurable_example : IsDurable "c1" refused (flush_one plain table "c1" 9 refused).1
flush_one-IsDurable_example = flush_one-IsDurable plain table "c1" 9 refused

nothing_cut : (flush_one plain table "c1" 9 refused).1.store.meta ≡ []
unfolding runs
nothing_cut = refl

requeued : length (flush_turn plain (λ _. "c1") 9 refused).1.mems.flushing ≡ 1
unfolding runs
requeued = refl

abbrev writer : ChunkWriter
writer = append_all plain (map chunk_entry (entry ∷ [])) (new_writer "c1" "s" "t")

abbrev body : Bytes
body = encode_entry plain (chunk_entry entry)

abbrev footer_file : Bytes
footer_file = footer_bytes plain (footer_of plain writer) (1 ∷ [])

abbrev pointer : RecordIndexEntry
pointer = record {
  commit_version = 4;
  deleted = false;
  chunk_id = "c1";
  schema_version = 1;
  txn_id = "x";
  updated_ms = 0;
}

abbrev read_back : Result Reply × World
read_back = read_from_chunk plain ("s", "t", "r") 7 pointer after

-- the version of the record after the flush, in the chunk
abbrev flushed : StoredRecordVersion
flushed = record unflushed { entry = record unflushed.entry { chunk_id = "c1" } }

-- the flushed memtable is dropped
abbrev settled : World
settled = record after { mems = record after.mems { flushing = [] } }

history_runs : Unit {0}
unfolding read_at_snapshot read_memory first_visible get_record_version_at_snapshot best_version
history_runs = tt

abbrev looked_up : Result Reply × World
looked_up = read_at_snapshot plain ("s", "t", "r") 7 settled
