-- ===== src/Coordinator/Fixture.antt =====
-- States for the runs of the coordinator and of the recovery, and the definitions that a run unfolds. It
-- models no code of its own.
use xtable.Prelude.{String, true, false, none, [], ◌∷◌, lookup, insert, remove, modify, string_key}
use xtable.Prelude.Words
use xtable.Records.{Bytes, TxnStateRecord, committed, active}
use xtable.Chain
use xtable.Chain.{VersionEntry}
use xtable.Store.{LocalStore}
use xtable.Store.Meta
use xtable.Store.Txns
use xtable.Store.Txns.{get_txn_state}
use xtable.Store.Chains
use xtable.Store.Chains.{read_chain}
use xtable.Store.Pins
use xtable.Store.Gc
use xtable.Locks
use xtable.Locks.Cahill
use xtable.Locks.Manager
use xtable.Locks.Ends
use xtable.Locks.Manager.{new_manager}
use xtable.Memtable
use xtable.Memtable.{default_policy, new_memtable}
use xtable.Memtable.Set
use xtable.Memtable.Set.{new_set}
use xtable.World.{
  World, return, raise, update, redb, redb_read, redb_try, redb_do, read_file, write_file,
  remove_file, try_lock, ◌>>=◌, ignore, to_option, on_error, each,
}
use xtable.Coordinator.{require_active, heartbeat, status}
use xtable.Coordinator.Keys.{parse_record_key}
use xtable.Text
use xtable.Coordinator.Begin
use xtable.Coordinator.Begin.{begin, stage, read}
use xtable.Coordinator.Abort
use xtable.Coordinator.Abort.{abort}
use xtable.Coordinator.Commit.Enter
use xtable.Coordinator.Commit.Enter.{CommitOutcome}
use xtable.Coordinator.Commit.Finish
use xtable.Coordinator.Commit
use xtable.Coordinator.Commit.Reconcile
use xtable.Coordinator.Commit.{commit}
use xtable.Coordinator.Calls.{aborting, perform, resume}

unfoldable pub program : Unit {0}
unfolding lookup insert remove modify Words.add_u64 Words.saturating_add Chain.new_entry
    Chain.tombstone Chain.latest_commit_version Chain.append Chain.keep_from Chain.prune_below
    Meta.next_global_version Meta.put_versions_bulk Meta.next_wal_seq Meta.append_wal
    Txns.put_txn_state get_txn_state Txns.delete_txn_state Txns.compare_and_set_txn_status
    Txns.put_write_entry Txns.delete_write_entry Txns.iter_write_set Txns.put_blob Txns.get_blob
    Txns.delete_blob read_chain Chains.append_one Chains.append_all Chains.insert_sorted Chains.sort
    Chains.append_chain_entries_bulk Pins.capture_and_register_snapshot Pins.unregister_snapshot
    Gc.prune_all Gc.total_removed Gc.prune_history Gc.gc_chains_inner Locks.add Cahill.in_peers_of
    Cahill.first_common Manager.begin_txn Manager.new_in_edges Manager.record_read
    Manager.register_read Manager.add_readers Manager.mirror Manager.register_write
    Manager.find_dangerous_structure Ends.out_edges_snapshot Ends.my_writes Ends.mirror_committed
    Ends.commit_writers Ends.apply_committed Ends.mark_committed Ends.mark_aborted
    Memtable.new_memtable Memtable.put_invisible Memtable.publish Memtable.should_flush
    Set.maybe_rotate Set.put_invisible Set.publish return raise update redb redb_read redb_try
    redb_do read_file write_file remove_file try_lock ◌>>=◌ ignore to_option on_error each
    require_active heartbeat status Text.strip_prefix Text.strip_suffix Text.split_slash
    parse_record_key begin stage read Begin.body_of Begin.stage_body Abort.drop_staged
    Abort.drop_and_log Abort.abort_txn abort Commit.materialize Commit.check_cycle
    Commit.check_snapshot Commit.prepare Commit.publish Commit.commit_owned Reconcile.all_published
    Reconcile.reconcile_failed_commit commit Enter.enter Finish.publish_memtable
    Finish.collect_staged Finish.finish perform resume
program = tt

abbrev pub empty : LocalStore
empty = record {
  versions = [];
  meta = [];
  wal = [];
  txn_state = [];
  write_set = [];
  staged_blobs = [];
  version_chains = [];
  active_snapshots = [];
  record_versions = [];
  record_index = [];
  schema_index = [];
  chunk_index = [];
  multipart = [];
}

abbrev pub start : World
start = record {
  store = empty;
  locks = new_manager;
  mems = new_set (new_memtable 0 0) default_policy;
  files = [];
  objects = [];
  events = [];
  schedule = [];
}

-- stand-ins for the digests
abbrev pub sha : Bytes → String
sha b = "sha"

abbrev pub short : String → String
short s = "id"

abbrev pub put : String → String → World → World
put t key w = (stage sha short "spill" t key (1 ∷ 2 ∷ []) none [] false 0 w).1

abbrev pub key_a : String
key_a = "_xtable/acme/users/a.json"

abbrev pub key_b : String
key_b = "_xtable/acme/users/b.json"

-- two transactions at one snapshot that write the same key, the first one a second key as well
abbrev pub both_staged : World
both_staged =
    put "t2" key_a
      (put "t1" key_b (put "t1" key_a (begin "t2" none 0 (begin "t1" none 0 start).1).1))

abbrev pub first_done : World
first_done = (commit "t1" 0 both_staged).1

-- the tenth action outside the process fails, which is the append to the chains
abbrev pub failing : World
failing = record both_staged {
  schedule = false ∷ false ∷ false ∷ false ∷ false ∷ false ∷ false ∷ false ∷ false ∷ true ∷ [];
}

-- the eleventh fails, after the chains are published
abbrev pub late : World
late = record both_staged {
  schedule =
      false ∷ false ∷ false ∷ false ∷ false ∷ false ∷ false ∷ false ∷ false ∷ false ∷ true ∷ [];
}

abbrev pub answer : CommitOutcome
answer = record { commit_version = 1 }

-- the row of the second transaction after the first has committed
abbrev pub second : TxnStateRecord
second = record {
  status = active;
  snapshot_version = 0;
  started_at_ms = 0;
  last_heartbeat_ms = 0;
  idempotency_key = none;
  read_keys = [];
  write_keys = key_a ∷ [];
  alloc_versions = [];
  uploaded_keys = [];
}

-- the row of the first transaction after its commit
abbrev pub first : TxnStateRecord
first = record {
  status = committed;
  snapshot_version = 0;
  started_at_ms = 0;
  last_heartbeat_ms = 0;
  idempotency_key = none;
  read_keys = [];
  write_keys = key_a ∷ key_b ∷ [];
  alloc_versions = (key_a, 1) ∷ (key_b, 1) ∷ [];
  uploaded_keys = [];
}

abbrev pub after_second : World
after_second = perform sha short "spill" "t2" aborting first_done

abbrev pub aborted_first : World
aborted_first = (abort "t1" both_staged).1
