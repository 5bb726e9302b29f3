-- ===== src/Store/Index/Tests.antt =====
-- Runs of the record index and of the truncation of the log.
use xtable.Prelude.{
  ℕ, ◌≡◌, ◌≢◌, refl, String, false, some, none, [], ◌∷◌, lookup, insert, remove, leb, nat_key,
  string_key, triple_key, pair_key, if◌then◌else◌, arith,
}
use mathlib.Core.Option
use xtable.Errors.{ok}
use xtable.Records.{RecordIndexEntry, WalRecord}
use xtable.Wire.Utf8.{as_bytes}
use xtable.Store.Defs.{LocalStore, RecordKey}
use xtable.Store.Index.{
  get_record_index, get_record_index_with_body, put_record_index_with_body,
  update_record_index_chunk_id_for_version,
}
use xtable.Store.Index.Laws.{put_comm}
use xtable.Store.Chunks.{truncate_wal, to_remove, remove_rows}
use xtable.Store.Truncate.{truncate_wal_lem}
use xtable.Coordinator.Fixture.{empty}

abbrev entry : ℕ → RecordIndexEntry
entry v = record {
  commit_version = v;
  deleted = false;
  chunk_id = "none";
  schema_version = 1;
  txn_id = "x";
  updated_ms = 0;
}

abbrev key : RecordKey
key = ("s", "t", "r")

abbrev twice : LocalStore
twice =
    put_record_index_with_body key (entry 3) "{}"
      (put_record_index_with_body key (entry 8) "[]" empty)

runs : Unit {0}
unfolding lookup insert remove as_bytes get_record_index put_record_index_with_body
    update_record_index_chunk_id_for_version truncate_wal to_remove remove_rows
    get_record_index_with_body
runs = tt

keeps_newest : get_record_index key twice ≡ some (entry 8)
unfolding runs
keeps_newest = refl

body_text :
    get_record_index_with_body {Json = String} "null" (λ s. ok s) key twice
    ≡ ok (some (entry 8, "[]"))
unfolding runs
body_text = refl

-- the flush of the older version leaves the pointer of the newer one
pointer_kept :
    get_record_index key (update_record_index_chunk_id_for_version key 3 "c" twice).1
    ≡ some (entry 8)
unfolding runs
pointer_kept = refl

three_ne_eight : ◌≢◌ {A = ℕ} 3 8
three_ne_eight e = omega arith

put_comm_example :
    let first =
      put_record_index_with_body key
        (entry 8)
        "[]"
        (put_record_index_with_body key (entry 3) "{}" empty) in
    let second =
      put_record_index_with_body key
        (entry 3)
        "{}"
        (put_record_index_with_body key (entry 8) "[]" empty) in
    (lookup key first.record_index ≡ lookup key second.record_index)
    × (lookup (key, 3) first.record_versions ≡ lookup (key, 3) second.record_versions)
put_comm_example = put_comm key key (key, 3) (entry 3) (entry 8) "{}" "[]" empty three_ne_eight

abbrev logged : LocalStore
logged = record empty {
  wal =
      (1, WalRecord.committed_at "a" 1)
      ∷ (2, WalRecord.committed_at "b" 2)
      ∷ (4, WalRecord.committed_at "c" 3)
      ∷ [];
}

truncate_wal_lem_example :
    lookup 4 (truncate_wal 2 logged).1.wal ≡ (if leb 4 2 then none else lookup 4 logged.wal)
truncate_wal_lem_example =
    truncate_wal_lem 2 logged 4 (omega arith, (omega arith, (omega arith, tt)))

two_removed : (truncate_wal 2 logged).0 ≡ 2
unfolding runs
two_removed = refl
