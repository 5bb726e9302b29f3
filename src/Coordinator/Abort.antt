-- ===== src/Coordinator/Abort.antt =====
-- xtable-tx/src/coordinator.rs: `abort`.
use xtable.Prelude.{String, Bool, true, false, Option, none, some, if◌then◌else◌}
use xtable.Errors.{TxnError}
use xtable.Records.{
  TxnStatus, active, committed, aborted, TxnStateRecord, WriteSetEntry, BlobRecord, same_status,
  WalRecord, explicit_abort,
}
use xtable.Store.Txns.{
  compare_and_set_txn_status, iter_write_set, get_blob, delete_blob, delete_write_entry,
}
use xtable.World.{
  Exec, Done, return, redb, redb_read, redb_do, ignore, to_option, remove_file, each, ◌>>=◌, ◌>>◌,
}
use xtable.Coordinator.{throw, log, find_txn, unpin, forget}

-- the row of a blob, where the read succeeds and there is one
abbrev pub joined : Option (Option BlobRecord) → Option BlobRecord
joined none = none
joined (some o) = o

abbrev pub remove_path : Option BlobRecord → Exec Done
remove_path none = return tt
remove_path (some rec) = ignore (remove_file rec.path)

abbrev pub drop_handle : Option String → Exec Done
drop_handle none = return tt
drop_handle (some handle) = do
  found ← to_option (redb_read (get_blob handle))
  remove_path (joined found)
  ignore (redb_do (delete_blob handle))

unfoldable pub drop_staged : String → String × WriteSetEntry → Exec Done
drop_staged txn_id (_, entry) =
    drop_handle entry.body_handle >> ignore (redb_do (delete_write_entry txn_id entry.backend_key))

unfoldable pub drop_and_log : String → TxnStateRecord → Exec Done
drop_and_log txn_id txn = do
  writes ← redb_read (iter_write_set txn_id)
  each (drop_staged txn_id) writes
  log (WalRecord.aborted_for txn_id explicit_abort)
  unpin txn.snapshot_version
  forget txn_id

abbrev pub if_taken : String → TxnStateRecord → Bool → Exec Done
if_taken txn_id txn true = drop_and_log txn_id txn
if_taken txn_id txn false = throw TxnError.invalid_state

abbrev pub abort_in : String → TxnStateRecord → TxnStatus → Exec Done
abort_in txn_id txn st =
    if same_status st committed
    then throw TxnError.invalid_state
    else if same_status st aborted
    then return tt
    else if same_status st active
    then redb (compare_and_set_txn_status txn_id active aborted) >>= if_taken txn_id txn
    else throw TxnError.invalid_state

unfoldable pub abort_txn : String → Option TxnStateRecord → Exec Done
abort_txn txn_id none = throw TxnError.unknown_txn
abort_txn txn_id (some txn) = abort_in txn_id txn txn.status

unfoldable pub abort : String → Exec Done
abort txn_id = find_txn txn_id >>= abort_txn txn_id
