-- ===== src/Coordinator/Commit/Enter.antt =====
-- xtable-tx/src/coordinator.rs: the first part of `commit_inner`: the idempotent replay and the
-- conditional, durable step to the state Committing.
use xtable.Prelude.{ℕ, String, Bool, true, false, Option, none, some, List, [], ◌∷◌, max}
use xtable.Errors.{TxnError}
use xtable.Records.{TxnStatus, active, committing, committed, aborted, TxnStateRecord}
use xtable.Store.Txns.{compare_and_set_txn_status}
use xtable.World.{Exec, return, redb, ◌>>=◌}
use xtable.Coordinator.{throw, find_txn}

pub record CommitOutcome : Type 0 where
  pub commit_version : ℕ

-- the commit is answered, or this call owns the state Committing
pub data Entry : Type 0 where
  done : CommitOutcome → Entry
  owned : Entry

-- the largest of the allocated versions, if there is one
abbrev pub max_version : List (String × ℕ) → ℕ → ℕ
max_version [] fallback = fallback
max_version ((k, v) ∷ []) fallback = v
max_version ((k, v) ∷ a ∷ alloc) fallback = max v (max_version (a ∷ alloc) fallback)

abbrev pub known_version : TxnStateRecord → ℕ
known_version txn = max_version txn.alloc_versions txn.snapshot_version

-- the answer for a transaction that is not active
abbrev pub answer : TxnStateRecord → TxnStatus → Exec Entry
answer txn committed = return (done (record { commit_version = known_version txn }))
answer txn aborted = throw TxnError.aborted
answer txn _ = throw TxnError.invalid_state

-- after the conditional step has failed
abbrev pub lost_race : Option TxnStateRecord → Exec Entry
lost_race none = throw TxnError.unknown_txn
lost_race (some txn) = answer txn txn.status

abbrev pub after_step : String → Bool → Exec Entry
after_step txn_id true = return owned
after_step txn_id false = find_txn txn_id >>= lost_race

abbrev pub take_over : String → TxnStateRecord → TxnStatus → Exec Entry
take_over txn_id txn active =
    redb (compare_and_set_txn_status txn_id active committing) >>= after_step txn_id
take_over txn_id txn status = answer txn status

abbrev pub replay : String → Option TxnStateRecord → Exec Entry
replay txn_id none = throw TxnError.unknown_txn
replay txn_id (some txn) = take_over txn_id txn txn.status

unfoldable pub enter : String → Exec Entry
enter txn_id = find_txn txn_id >>= replay txn_id
