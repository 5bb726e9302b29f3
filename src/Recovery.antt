-- ===== src/Recovery.antt =====
-- xtable-tx/src/recovery.rs: what is done at start-up with the transactions that a crash left open. The
-- hash maps of the scan are maps in key order, so the transactions are visited in the order of their
-- ids; the clock's reading is an argument.
pub mod Frame
pub mod Settled
pub mod Sweep
pub mod Closed
mod Tests
use xtable.Prelude.{
  ℕ, ◌+◌, ◌≡◌, String, Bool, true, false, not, Option, none, some, List, [], ◌∷◌, ◌++◌, Map, lookup,
  insert, any, length, leb, ltb, ◌==◌, nat_key, string_key, if◌then◌else◌,
}
use mathlib.Core.Option
use xtable.Records.{
  TxnStatus, active, committing, committed, aborted, TxnStateRecord, new_active, WalRecord,
  wal_txn_id, crash_recovery,
}
use xtable.Chain.{VersionChain, latest_commit_version}
use xtable.Store.Meta.{iter_wal}
use xtable.Store.Txns.{iter_write_set}
use xtable.Store.Chains.{read_chain}
use xtable.World.{Exec, Done, return, redb_read, to_option, each, ◌>>=◌, ◌>>◌}
use xtable.Coordinator.{log, save, find_txn, unpin}
use xtable.Coordinator.Abort.{drop_staged, joined}
use xtable.Coordinator.Commit.Enter.{known_version}

pub record RecoveryReport : Type 0 where
  pub already_committed : ℕ
  pub chain_won_wal_race : ℕ
  pub partial_uploads_aborted : ℕ

abbrev pub no_report : RecoveryReport
no_report = record { already_committed = 0; chain_won_wal_race = 0; partial_uploads_aborted = 0 }

-- what the log says of the transactions: the last status, and the keys of the last Committing row
pub record Scan : Type 0 where
  pub last_status : Map String TxnStatus
  pub last_uploaded : Map String (List String)

-- `entry(id).or_insert(Active)`
abbrev pub or_active : String → Scan → Scan
or_active t s = elim (lookup t s.last_status) [
  | some _ ↦ s
  | none ↦ record s { last_status = insert t active s.last_status }
]

abbrev pub set_status : String → TxnStatus → Scan → Scan
set_status t st s = record s { last_status = insert t st s.last_status }

abbrev pub note : WalRecord → Scan → Scan
note (WalRecord.begin t _ _) s = or_active t s
note (WalRecord.stage t _ _) s = or_active t s
note (WalRecord.committing_keys t ks) s = record s {
  last_status = insert t committing s.last_status;
  last_uploaded = insert t ks s.last_uploaded;
}
note (WalRecord.committed_at t _) s = set_status t committed s
note (WalRecord.commit_result t _ _) s = set_status t committed s
note (WalRecord.aborted_for t _) s = set_status t aborted s
note (WalRecord.memtable_flushed _ _ _) s = s

unfoldable pub scan : List (ℕ × WalRecord) → Scan → Scan
scan [] s = s
scan ((_, rec) ∷ rows) s = scan rows (note rec s)

abbrev pub release_pin : Option TxnStateRecord → Exec Done
release_pin none = return tt
release_pin (some txn) = unpin txn.snapshot_version

abbrev pub joined_txn : Option (Option TxnStateRecord) → Option TxnStateRecord
joined_txn none = none
joined_txn (some o) = o

abbrev pub save_aborted : String → ℕ → Option TxnStateRecord → Exec Done
save_aborted t now (some r) = save t (record r { status = aborted; last_heartbeat_ms = now })
save_aborted t now none = save t (record (new_active 0 none now) { status = aborted })

unfoldable pub abort_txn_no_uploads : String → ℕ → Exec Done
abort_txn_no_uploads t now = do
  writes ← redb_read (iter_write_set t)
  each (drop_staged t) writes
  log (WalRecord.aborted_for t crash_recovery)
  state ← to_option (find_txn t)
  release_pin (joined_txn state)
  row ← find_txn t
  save_aborted t now row

-- how many of the keys are in their chains at their versions, and whether some key is not
pub record Tally : Type 0 where
  pub published : ℕ
  pub pending : List String

abbrev pub count : String → ℕ → VersionChain → Tally → Tally
count key version chain c =
    if latest_commit_version chain == version
    then record c { published = c.published + 1 }
    else record c { pending = c.pending ++ key ∷ [] }

abbrev pub contains_key : List String → String → Bool
contains_key ks key = any (λ k. k == key) ks

unfoldable pub tally : List String → List (String × ℕ) → Tally → Exec Tally
tally uploaded [] c = return c
tally uploaded ((key, version) ∷ alloc) c =
    let rest = tally uploaded alloc in
    if contains_key uploaded key
    then redb_read (read_chain key) >>= (λ chain. rest (count key version chain c))
    else rest c

unfoldable pub backfill : String → TxnStateRecord → Exec Done
backfill t rec = do
  log (WalRecord.committed_at t (known_version rec))
  log (WalRecord.commit_result t (known_version rec) true)
  save t (record rec { status = committed })

abbrev pub decide : String → ℕ → TxnStateRecord → RecoveryReport → Tally → Exec RecoveryReport
decide t now rec report c =
    if not (length c.pending == 0)
    then abort_txn_no_uploads t now
      >> return (record report { partial_uploads_aborted = report.partial_uploads_aborted + 1 })
    else if ltb 0 c.published
    then backfill t rec
      >> return (record report { chain_won_wal_race = report.chain_won_wal_race + 1 })
    else abort_txn_no_uploads t now >> return report

-- a row that is not final, by what the log says of the transaction
abbrev pub settle_open :
    String → ℕ → List String → TxnStateRecord → RecoveryReport → TxnStatus → Exec RecoveryReport
settle_open t now uploaded rec report active = abort_txn_no_uploads t now >> return report
settle_open t now uploaded rec report committing =
    tally uploaded rec.alloc_versions (record { published = 0; pending = [] })
    >>= decide t now rec report
settle_open t now uploaded rec report committed = return report
settle_open t now uploaded rec report aborted = return report

abbrev pub settle_row :
    String
    → ℕ
    → List String
    → TxnStatus
    → RecoveryReport
    → TxnStateRecord
    → TxnStatus
    → Exec RecoveryReport
settle_row t now uploaded logged report rec committed =
    return (record report { already_committed = report.already_committed + 1 })
settle_row t now uploaded logged report rec aborted = return report
settle_row t now uploaded logged report rec active = settle_open t now uploaded rec report logged
settle_row t now uploaded logged report rec committing =
    settle_open t now uploaded rec report logged

abbrev pub settle_stored :
    String
    → ℕ
    → List String
    → TxnStatus
    → RecoveryReport
    → Option TxnStateRecord
    → Exec RecoveryReport
settle_stored t now uploaded logged report none = return report
settle_stored t now uploaded logged report (some rec) =
    settle_row t now uploaded logged report rec rec.status

-- one turn of the loop
unfoldable pub recover_txn :
    ℕ → String → List String → TxnStatus → RecoveryReport → Exec RecoveryReport
recover_txn now t uploaded logged report = find_txn t >>= settle_stored t now uploaded logged report

unfoldable pub recover_all :
    ℕ → Map String (List String) → List (String × TxnStatus) → RecoveryReport → Exec RecoveryReport
recover_all now uploads [] report = return report
recover_all now uploads ((t, logged) ∷ rows) report = do
  report' ← recover_txn now t (Option.get_or (lookup t uploads) []) logged report
  recover_all now uploads rows report'

abbrev pub recover_scanned : ℕ → Scan → Exec RecoveryReport
recover_scanned now s = recover_all now s.last_uploaded s.last_status no_report

unfoldable pub recover : ℕ → Exec RecoveryReport
recover now = do
  rows ← redb_read iter_wal
  recover_scanned now (scan rows (record { last_status = []; last_uploaded = [] }))
