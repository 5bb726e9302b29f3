-- ===== src/Sweep.antt =====
-- xtable-tx/src/gc.rs: the periodic sweep, which aborts transactions without a recent heartbeat and
-- collects the version chains. Times are natural numbers: a cut-off before the epoch is 0, which no
-- heartbeat is below either.
pub mod Stale
pub mod Aborts
mod Tests
use xtable.Prelude.{
  ℕ, ◌+◌, ◌-◌, ◌*◌, String, Bool, true, false, ◌&&◌, Option, none, some, List, [], ◌∷◌, Map, ltb,
  if◌then◌else◌,
}
use xtable.Records.{active, aborted, TxnStateRecord, same_status, WalRecord, stale_timeout}
use xtable.Store.{LocalStore}
use xtable.Store.Txns.{compare_and_set_txn_status, iter_write_set}
use xtable.Store.Gc.{gc_chains_at_active_snapshot}
use xtable.World.{Exec, return, redb, redb_read, each, ◌>>=◌, ◌>>◌}
use xtable.Coordinator.{log, find_txn, unpin}
use xtable.Coordinator.Abort.{drop_staged}

abbrev pub is_stale_txn : ℕ → TxnStateRecord → Bool
is_stale_txn cutoff rec = same_status rec.status active && ltb rec.last_heartbeat_ms cutoff

unfoldable pub stale_ids : ℕ → Map String TxnStateRecord → List String
stale_ids cutoff [] = []
stale_ids cutoff ((t, rec) ∷ rows) =
    let rest = stale_ids cutoff rows in if is_stale_txn cutoff rec then t ∷ rest else rest

unfoldable pub clean : String → TxnStateRecord → Exec Bool
clean t state = do
  writes ← redb_read (iter_write_set t)
  each (drop_staged t) writes
  log (WalRecord.aborted_for t stale_timeout)
  unpin state.snapshot_version
  return true

-- the claim of the Active state came first
abbrev pub if_claimed : String → TxnStateRecord → Bool → Exec Bool
if_claimed t state true = clean t state
if_claimed t state false = return false

abbrev pub claim : String → Option TxnStateRecord → Exec Bool
claim t none = return false
claim t (some state) =
    if same_status state.status active
    then redb (compare_and_set_txn_status t active aborted) >>= if_claimed t state
    else return false

unfoldable pub abort_txn_local : String → Exec Bool
abort_txn_local t = find_txn t >>= claim t

abbrev pub count_if : Bool → ℕ → ℕ
count_if true n = n + 1
count_if false n = n

unfoldable pub abort_all : List String → ℕ → Exec ℕ
abort_all [] n = return n
abort_all (t ∷ ts) n = do done ← abort_txn_local t; abort_all ts (count_if done n)

unfoldable pub sweep_stale_txns : ℕ → ℕ → Exec ℕ
sweep_stale_txns timeout_secs now = do
  stale ← redb_read (λ s. stale_ids (now - timeout_secs * 1000) s.txn_state)
  abort_all stale 0

unfoldable pub gc_version_chains : Exec (ℕ × ℕ)
gc_version_chains = redb gc_chains_at_active_snapshot

pub record CombinedSweep : Type 0 where
  pub aborted_txns : ℕ
  pub chains_pruned : ℕ
  pub entries_removed : ℕ

unfoldable pub sweep_all : ℕ → ℕ → Exec CombinedSweep
sweep_all timeout_secs now = do
  n ← sweep_stale_txns timeout_secs now
  counts ← gc_version_chains
  return (record { aborted_txns = n; chains_pruned = counts.0; entries_removed = counts.1 })
