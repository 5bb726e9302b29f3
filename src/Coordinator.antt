-- ===== src/Coordinator.antt =====
-- xtable-tx/src/coordinator.rs: the transaction coordinator, a function on the world for each of its
-- methods, as it runs when no other call comes in between. The `commit_lock` lets one commit or abort run at a
-- time; `stage`, `read` and `heartbeat` take no lock, and Calls splits them where they have read the row of
-- their transaction. A ULID, the clock and the digests come from other crates: the id of a new transaction and the
-- clock's reading are arguments (one reading for a whole call), the digests are parameters.
pub mod Keys
pub mod Begin
pub mod Commit
pub mod Abort
pub mod Frame
pub mod Isolation
pub mod Once
pub mod WriteSet
pub mod Atomic
pub mod Outcome
pub mod Repeat
pub mod Checks
pub mod Conflict
pub mod Calls
pub mod Ended
pub mod Aborted
pub mod Fixture
mod Tests
use xtable.Prelude.{
  ℕ, ◌≡◌, String, Bool, true, false, Option, none, some, List, [], ◌∷◌, map, max, any, ◌==◌,
  string_key, if◌then◌else◌, nat_key,
}
use xtable.Errors.{XtableError, TxnError, from_txn, Result, ok, err}
use xtable.Records.{
  TxnStatus, active, committing, committed, aborted, TxnStateRecord, same_status, WalRecord,
}
use xtable.Store.Meta.{append_wal}
use xtable.Store.Txns.{put_txn_state, get_txn_state}
use xtable.Store.Pins.{unregister_snapshot}
use xtable.Locks.Ends.{mark_aborted}
use xtable.World.{
  World, Exec, Done, return, raise, update, redb, redb_read, redb_do, ignore, ◌>>=◌, ◌>>◌,
}

module _ {A : Type 0} where
  abbrev pub throw : TxnError → Exec A
  throw e = raise (from_txn e)

abbrev pub log : WalRecord → Exec ℕ
log rec = redb (append_wal rec)

abbrev pub save : String → TxnStateRecord → Exec Done
save txn_id txn = redb_do (put_txn_state txn_id txn)

abbrev pub find_txn : String → Exec (Option TxnStateRecord)
find_txn txn_id = redb_read (get_txn_state txn_id)

abbrev pub unpin : ℕ → Exec Done
unpin snapshot = ignore (redb_do (unregister_snapshot snapshot))

abbrev pub forget : String → Exec Done
forget txn_id = update (λ w. (tt, record w { locks = mark_aborted txn_id w.locks }))

abbrev pub if_active : Option TxnStateRecord → Exec TxnStateRecord
if_active none = throw TxnError.unknown_txn
if_active (some t) = if same_status t.status active then return t else throw TxnError.invalid_state

unfoldable pub require_active : String → Exec TxnStateRecord
require_active txn_id = find_txn txn_id >>= if_active

abbrev pub snapshot_of : Option TxnStateRecord → Exec ℕ
snapshot_of none = throw TxnError.unknown_txn
snapshot_of (some t) = return t.snapshot_version

unfoldable pub transaction_snapshot : String → Exec ℕ
transaction_snapshot txn_id = find_txn txn_id >>= snapshot_of

abbrev pub status_of : Option TxnStateRecord → Exec TxnStatus
status_of none = throw TxnError.unknown_txn
status_of (some t) = return t.status

unfoldable pub status : String → Exec TxnStatus
status txn_id = find_txn txn_id >>= status_of

-- `heartbeat` from the row that it has read
abbrev pub heartbeat_on : String → ℕ → TxnStateRecord → Exec Done
heartbeat_on txn_id now txn = save txn_id (record txn { last_heartbeat_ms = now })

unfoldable pub heartbeat : String → ℕ → Exec Done
heartbeat txn_id now = require_active txn_id >>= heartbeat_on txn_id now
