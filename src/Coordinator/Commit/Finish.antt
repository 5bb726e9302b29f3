-- ===== src/Coordinator/Commit/Finish.antt =====
-- xtable-tx/src/coordinator.rs: the last part of `commit_inner`, after the chains are published.
use xtable.Prelude.{
  ℕ, String, true, Option, none, some, List, [], ◌∷◌, ◌++◌, map, lookup, string_key,
}
use mathlib.Core.Option
use xtable.Records.{Bytes, TxnStateRecord, WriteSetEntry, committed, WalRecord}
use xtable.Store.{RecordKey}
use xtable.Store.Txns.{get_blob, delete_blob, delete_write_entry}
use xtable.Store.Chains.{ChainAppend}
use xtable.Locks.Ends.{mark_committed}
use xtable.Memtable.{MemEntry}
use xtable.Memtable.Set.{put_invisible, publish}
use xtable.World.{
  CommitEvent, Exec, Done, return, update, redb_read, redb_do, ignore, to_option, try_lock, each,
  ◌>>=◌, ◌>>◌,
}
use xtable.Coordinator.{log, save, unpin}
use xtable.Coordinator.Keys.{parse_record_key}
use xtable.Coordinator.Abort.{joined, remove_path}
use xtable.Coordinator.Commit.Enter.{CommitOutcome}

abbrev pub mem_key : String → RecordKey
mem_key key = Option.get_or (parse_record_key key) ("", "", key)

abbrev pub mem_entry : String → ℕ → List (String × Bytes) → String × WriteSetEntry → MemEntry
mem_entry txn_id version bodies (key, we) = record {
  key = mem_key key;
  value = record { bytes = Option.get_or (lookup key bodies) [] };
  commit_version = version;
  txn_id = txn_id;
  deleted = we.deleted;
  content_type = we.content_type;
  user_meta = we.user_meta;
  schema_version = 0;
  wal_seq = version;
  size_bytes = we.size;
}

-- one write of the transaction becomes visible in the memtables
unfoldable pub publish_memtable :
    String → ℕ → List (String × Bytes) → ℕ → String × WriteSetEntry → Exec Done
publish_memtable txn_id version bodies now write = do
  update (λ w. (
    tt,
    record w { mems = (put_invisible (mem_entry txn_id version bodies write) now w.mems).1 },
  ))
  free ← try_lock
  update (λ w. (tt, record w { mems = publish (mem_key write.0) version version free w.mems }))

-- `fire_post_commit_hooks`
abbrev pub fire_post_commit_hooks : CommitEvent → Exec Done
fire_post_commit_hooks event = update (λ w. (tt, record w { events = w.events ++ event ∷ [] }))

abbrev pub commit_event : String → ℕ → List ChainAppend → CommitEvent
commit_event txn_id version rows = record {
  txn_id = txn_id;
  commit_version = version;
  writes =
      map
        (λ r. record {
          key = r.key;
          commit_version = (r.entry).commit_version;
          deleted = (r.entry).deleted;
          size = (r.entry).size;
        })
        rows;
}

-- the spilled body of a write that is committed
abbrev pub collect_blob : String → String → Option String → Exec Done
collect_blob txn_id backend_key none = return tt
collect_blob txn_id backend_key (some handle) = do
  found ← to_option (redb_read (get_blob handle))
  ignore (redb_do (delete_blob handle))
  remove_path (joined found)
  ignore (redb_do (delete_write_entry txn_id backend_key))

unfoldable pub collect_staged : String → String × WriteSetEntry → Exec Done
collect_staged txn_id write = collect_blob txn_id (write.1).backend_key (write.1).body_handle

unfoldable pub finish :
    String
    → TxnStateRecord
    → ℕ
    → List (String × WriteSetEntry)
    → List (String × Bytes)
    → List ChainAppend
    → ℕ
    → Exec CommitOutcome
finish txn_id txn version entries bodies rows now = do
  log (WalRecord.committed_at txn_id version)
  log (WalRecord.commit_result txn_id version true)
  save txn_id (record txn { status = committed })
  each (publish_memtable txn_id version bodies now) entries
  update (λ w. (tt, record w { locks = mark_committed txn_id version now w.locks }))
  fire_post_commit_hooks (commit_event txn_id version rows)
  unpin txn.snapshot_version
  each (collect_staged txn_id) entries
  return (record { commit_version = version })
