-- ===== src/Coordinator/Commit/Reconcile.antt =====
-- xtable-tx/src/coordinator.rs: `reconcile_failed_commit`.
use xtable.Prelude.{
  ℕ, ◌&&◌, String, Bool, true, false, Option, none, some, List, [], ◌∷◌, any, ◌==◌, nat_key,
  string_key, if◌then◌else◌,
}
use xtable.Errors.{XtableError}
use xtable.Records.{
  TxnStateRecord, committing, committed, aborted, same_status, WalRecord, commit_failed,
}
use xtable.Chain.{VersionChain}
use xtable.Store.Chains.{read_chain}
use xtable.Locks.Ends.{mark_committed}
use xtable.World.{Exec, Done, return, update, redb_read, ignore, to_option, ◌>>=◌, ◌>>◌}
use xtable.Coordinator.{log, save, find_txn, unpin, forget}
use xtable.Coordinator.Commit.Enter.{known_version}

abbrev pub has_entry : String → ℕ → Option VersionChain → Bool
has_entry txn_id version none = false
has_entry txn_id version (some chain) =
    any (λ e. e.txn_id == txn_id && e.commit_version == version) chain.entries

abbrev pub if_there : Exec Bool → String → ℕ → Option VersionChain → Exec Bool
if_there rest txn_id version chain = if has_entry txn_id version chain then rest else return false

-- whether every allocated version is in its chain; a chain that cannot be read counts as without it
unfoldable pub all_published : String → List (String × ℕ) → Exec Bool
all_published txn_id [] = return true
all_published txn_id ((key, version) ∷ alloc) =
    let rest = all_published txn_id alloc in
    to_option (redb_read (read_chain key)) >>= if_there rest txn_id version

abbrev pub was_published : String → List (String × ℕ) → Exec Bool
was_published txn_id [] = return false
was_published txn_id (a ∷ alloc) = all_published txn_id (a ∷ alloc)

abbrev pub settle : String → TxnStateRecord → XtableError → ℕ → Bool → Exec Done
settle txn_id txn cause now true = do
  ignore (save txn_id (record txn { status = committed }))
  update (λ w. (tt, record w { locks = mark_committed txn_id (known_version txn) now w.locks }))
  unpin txn.snapshot_version
settle txn_id txn cause now false = do
  ignore (log (WalRecord.aborted_for txn_id (commit_failed cause)))
  ignore (save txn_id (record txn { status = aborted }))
  forget txn_id
  unpin txn.snapshot_version

abbrev pub reconcile : String → XtableError → ℕ → Option (Option TxnStateRecord) → Exec Done
reconcile txn_id cause now none = return tt
reconcile txn_id cause now (some none) = return tt
reconcile txn_id cause now (some (some txn)) =
    if same_status txn.status committing
    then was_published txn_id txn.alloc_versions >>= settle txn_id txn cause now
    else return tt

unfoldable pub reconcile_failed_commit : String → ℕ → XtableError → Exec Done
reconcile_failed_commit txn_id now cause =
    to_option (find_txn txn_id) >>= reconcile txn_id cause now
