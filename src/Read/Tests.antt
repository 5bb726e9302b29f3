-- ===== src/Read/Tests.antt =====
-- Runs of the read of a record.
use xtable.Prelude.{ℕ, ◌≡◌, refl, false, some, none, [], ◌∷◌, lookup, string_key, arith}
use xtable.Errors.{ok}
use xtable.Records.{StoredRecordVersion}
use xtable.Store.Gc.{get_record_version_at_snapshot, best_version}
use xtable.Store.Gc.History.{IsHistory}
use xtable.Store.Index.{get_record_index}
use xtable.Store.Chunks.{get_chunk_index}
use xtable.Memtable.{new_memtable, get_visible, visible_at}
use xtable.Memtable.Set.{first_visible}
use xtable.Chunk.{ChunkEntry, Codecs}
use xtable.World.{World, return, raise, update, redb_read, get_object, ◌>>=◌}
use xtable.Coordinator.Fixture.{start}
use xtable.Read.{
  answer, newest_match, inline_result, read_memory, read_from_chunk, read_at_snapshot,
}
use xtable.Read.Snapshot.{IsInSight, read_at_snapshot-IsInSight}

abbrev plain : Codecs
plain = record {
  compress = ok;
  decompress = ok;
  crc32 = λ bs. 0;
  xxh3_64 = λ bs. 0;
  entry_capacity = 1_000_000;
  serialize_index = λ ks. ok [];
  deserialize_index = λ bs. ok [];
}

abbrev version : ℕ → StoredRecordVersion
version v = record {
  entry = record {
    commit_version = v;
    deleted = false;
    chunk_id = "none";
    schema_version = 1;
    txn_id = "x";
    updated_ms = 0;
  };
  body = v ∷ [];
}

-- two versions of one record in the history
abbrev two_versions : World
two_versions = record start {
  store = record start.store {
    record_versions = ((("s", "t", "r"), 3), version 3) ∷ ((("s", "t", "r"), 8), version 8) ∷ [];
  };
}

runs : Unit {0}
unfolding lookup get_record_version_at_snapshot best_version get_record_index get_chunk_index
    get_visible visible_at first_visible return raise update redb_read get_object ◌>>=◌ newest_match
    read_memory read_from_chunk read_at_snapshot new_memtable
runs = tt

reads_old :
    read_at_snapshot plain ("s", "t", "r") 5 two_versions
    ≡ (ok (answer (some (inline_result (version 3)))), two_versions)
unfolding runs
reads_old = refl

reads_nothing :
    read_at_snapshot plain ("s", "t", "r") 2 two_versions ≡ (ok (answer none), two_versions)
unfolding runs
reads_nothing = refl

ordered : IsHistory two_versions.store.record_versions
ordered = (refl, omega arith, ((λ e. omega arith), tt), (refl, omega arith, tt, tt))

read_at_snapshot-IsInSight_example : IsInSight 5 (answer (some (inline_result (version 3))))
read_at_snapshot-IsInSight_example =
    read_at_snapshot-IsInSight plain ("s", "t", "r") 5 two_versions two_versions
      (answer (some (inline_result (version 3)))) ordered reads_old

abbrev entry : ℕ → ChunkEntry
entry v = record {
  space = "s";
  table = "t";
  record_id = "r";
  value = [];
  commit_version = v;
  txn_id = "x";
  deleted = false;
  content_type = none;
  user_meta = [];
  schema_version = 1;
  wal_seq = 0;
}

finds_newest :
    newest_match ("s", "t", "r") 5 none (entry 2 ∷ entry 4 ∷ entry 9 ∷ []) ≡ some (entry 4)
unfolding runs
finds_newest = refl
