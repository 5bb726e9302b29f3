-- ===== src/Coordinator/Commit.antt =====
-- xtable-tx/src/coordinator.rs: `commit`, `commit_inner` in the order of its steps, and
-- `reconcile_failed_commit`. The flag that `commit_inner` sets through a reference once it owns the
-- state Committing is the split of the method in `enter` and `commit_owned`: an error of the second
-- part is reconciled, one of the first is not.
pub mod Enter
pub mod Finish
pub mod Reconcile
use xtable.Prelude.{
  ℕ, ◌≡◌, ◌&&◌, String, Bool, true, false, not, Option, none, some, List, [], ◌∷◌, map, any, all,
  max, find, ◌==◌, nat_key, string_key, leb, ltb, if◌then◌else◌,
}
use mathlib.Core.Option
use xtable.Errors.{XtableError, conflict, TxnError, storage}
use xtable.Records.{
  Bytes, TxnStateRecord, WriteSetEntry, BlobRecord, committing, committed, aborted, same_status,
  WalRecord, VersionRecord, cahill_cycle, snapshot_conflict, commit_failed,
}
use xtable.Chain.{VersionChain, VersionEntry, new_entry, tombstone, latest_commit_version}
use xtable.Store.Meta.{next_global_version, put_versions_bulk}
use xtable.Store.Txns.{iter_write_set, get_blob}
use xtable.Store.Chains.{read_chain, is_empty, ChainAppend, append_chain_entries_bulk}
use xtable.Locks.Manager.{find_dangerous_structure}
use xtable.Locks.Ends.{mark_committed}
use xtable.World.{
  World, Exec, Done, return, raise, update, redb, redb_read, redb_do, redb_try, ignore, to_option,
  on_error, read_file, each, ◌>>=◌, ◌>>◌,
}
use xtable.Coordinator.{throw, log, save, find_txn, unpin, forget}
use xtable.Coordinator.Keys.{sort_keys}
use xtable.Coordinator.Begin.{blob_path}
use xtable.Coordinator.Commit.Enter.{
  CommitOutcome, Entry, done, owned, enter, max_version, known_version,
}
use xtable.Coordinator.Commit.Finish.{finish}
use xtable.Coordinator.Commit.Reconcile.{reconcile_failed_commit}

-- the body of a staged write: inline, in a spill file, or none
abbrev pub body_from : Option Bytes → Option String → Exec Bytes
body_from (some bytes) handle = return bytes
body_from none (some handle) = redb_read (get_blob handle) >>= blob_path >>= read_file
body_from none none = return []

abbrev pub staged_body : WriteSetEntry → Exec Bytes
staged_body e = body_from e.inline_body e.body_handle

-- the rows of the write set have distinct keys, so the hash map is the list of the pairs
unfoldable pub materialize : List (String × WriteSetEntry) → Exec (List (String × Bytes))
materialize [] = return []
materialize ((key, e) ∷ entries) = do
  body ← staged_body e
  bodies ← materialize entries
  return ((key, body) ∷ bodies)

-- refuse the commit: the abort is logged and saved, and the pin released
abbrev pub refuse_snapshot : String → TxnStateRecord → String → ℕ → Exec Done
refuse_snapshot txn_id txn key latest = do
  log (WalRecord.aborted_for txn_id (snapshot_conflict key txn.snapshot_version latest))
  save txn_id (record txn { status = aborted })
  unpin txn.snapshot_version
  raise conflict

abbrev pub refuse_cycle : String → TxnStateRecord → String → Exec Done
refuse_cycle txn_id txn peer = do
  log (WalRecord.aborted_for txn_id (cahill_cycle peer))
  save txn_id (record txn { status = aborted })
  forget txn_id
  unpin txn.snapshot_version
  throw TxnError.conflict

abbrev pub refuse_if_dangerous : String → TxnStateRecord → Option String → Exec Done
refuse_if_dangerous txn_id txn none = return tt
refuse_if_dangerous txn_id txn (some peer) = refuse_cycle txn_id txn peer

unfoldable pub check_cycle : String → TxnStateRecord → Exec Done
check_cycle txn_id txn =
    update (λ w. (find_dangerous_structure txn_id w.locks, w)) >>= refuse_if_dangerous txn_id txn

-- a transaction without writes takes no version of its own
abbrev pub allocate : TxnStateRecord → List String → Exec ℕ
allocate txn [] = return txn.snapshot_version
allocate txn (k ∷ ks) = redb next_global_version

abbrev pub judge : String → TxnStateRecord → String → VersionChain → Exec Done
judge txn_id txn key chain =
    if not (is_empty chain) && ltb txn.snapshot_version (latest_commit_version chain)
    then refuse_snapshot txn_id txn key (latest_commit_version chain)
    else return tt

unfoldable pub check_snapshot : String → TxnStateRecord → String → Exec Done
check_snapshot txn_id txn key = redb_read (read_chain key) >>= judge txn_id txn key

abbrev pub write_of : String → List (String × WriteSetEntry) → Option (String × WriteSetEntry)
write_of key entries = find (λ e. e.0 == key) entries

abbrev pub is_deleted : Option (String × WriteSetEntry) → Bool
is_deleted none = false
is_deleted (some e) = (e.1).deleted

abbrev pub size_of : Option (String × WriteSetEntry) → ℕ
size_of none = 0
size_of (some e) = (e.1).size

abbrev pub version_entry : String → ℕ → List (String × WriteSetEntry) → String × ℕ → VersionEntry
version_entry txn_id now entries (k, v) =
    if is_deleted (write_of k entries)
    then tombstone v k txn_id now
    else new_entry v "" k txn_id (size_of (write_of k entries)) now

-- the batch for the chains, in the order of the keys
abbrev pub batch :
    String
    → TxnStateRecord
    → ℕ
    → List (String × WriteSetEntry)
    → List (String × ℕ)
    → List ChainAppend
batch txn_id txn now entries alloc =
    map
      (λ a. record {
        key = a.0;
        entry = version_entry txn_id now entries a;
        snapshot_version = txn.snapshot_version;
      })
      alloc

abbrev pub version_record :
    String → ℕ → List (String × WriteSetEntry) → String × ℕ → String × VersionRecord
version_record txn_id now entries (k, v) = (
  k,
  record {
    latest_version = v;
    latest_etag = "";
    latest_backend_key = k;
    last_writer_txn_id = txn_id;
    tombstone = is_deleted (write_of k entries);
    size = size_of (write_of k entries);
    last_modified_unix_ms = now;
  },
)

abbrev pub with_versions : List (String × ℕ) → TxnStateRecord → TxnStateRecord
with_versions alloc txn = record txn { alloc_versions = alloc; uploaded_keys = [] }

-- the transaction's row while it holds the state Committing and knows its versions
unfoldable pub prepare : String → TxnStateRecord → List String → ℕ → Exec TxnStateRecord
prepare txn_id txn sorted_keys version = do
  each (check_snapshot txn_id txn) sorted_keys
  log (WalRecord.committing_keys txn_id sorted_keys)
  save txn_id (with_versions (map (λ k. (k, version)) sorted_keys) txn)
  return (with_versions (map (λ k. (k, version)) sorted_keys) txn)

-- the steps from the chains on; `txn` has its versions
unfoldable pub publish :
    String
    → TxnStateRecord
    → ℕ
    → List (String × WriteSetEntry)
    → List (String × Bytes)
    → ℕ
    → Exec CommitOutcome
publish txn_id txn version entries bodies now = do
  redb_try (append_chain_entries_bulk (batch txn_id txn now entries txn.alloc_versions))
  redb_do (put_versions_bulk (map (version_record txn_id now entries) txn.alloc_versions))
  finish txn_id txn version entries bodies (batch txn_id txn now entries txn.alloc_versions) now

abbrev pub found : Option TxnStateRecord → Exec TxnStateRecord
found none = throw TxnError.unknown_txn
found (some txn) = return txn

-- what `commit_inner` does once it owns the state Committing
unfoldable pub commit_owned : String → ℕ → Exec CommitOutcome
commit_owned txn_id now = do
  txn ← (find_txn txn_id >>= found)
  entries ← redb_read (iter_write_set txn_id)
  bodies ← materialize entries
  check_cycle txn_id txn
  version ← allocate txn (sort_keys txn.write_keys)
  ready ← prepare txn_id txn (sort_keys txn.write_keys) version
  publish txn_id ready version entries bodies now

abbrev pub run_entry : String → ℕ → Entry → Exec CommitOutcome
run_entry txn_id now (done outcome) = return outcome
run_entry txn_id now owned = on_error (commit_owned txn_id now) (reconcile_failed_commit txn_id now)

unfoldable pub commit : String → ℕ → Exec CommitOutcome
commit txn_id now = enter txn_id >>= run_entry txn_id now
