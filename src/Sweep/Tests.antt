-- ===== src/Sweep/Tests.antt =====
-- Runs of the sweep, and its theorems at those states.
use xtable.Prelude.{◌≡◌, refl, ap, ==→ne, string_key, inl, inr}
use xtable.Errors.{ok}
use xtable.Records.{active, aborted, committed}
use xtable.Store.Txns.{get_txn_state}
use xtable.Store.Gc
use xtable.World.{World}
use xtable.Coordinator.{status, heartbeat}
use xtable.Coordinator.Fixture.{program, both_staged, first_done}
use xtable.Sweep.{
  stale_ids, clean, abort_txn_local, abort_all, sweep_stale_txns, gc_version_chains, sweep_all,
  is_stale_txn,
}
use mathlib.Core.Option
use xtable.Records.{TxnStateRecord, new_active}
use xtable.Prelude.{true, some, none}
use xtable.World.Inversion.{Returns}
use xtable.Sweep.Aborts.{IsAborted, sweep-IsAborted}
use xtable.Sweep.Stale.{IsLive, sweep-live}

sweeping : Unit {0}
unfolding program stale_ids clean abort_txn_local abort_all sweep_stale_txns gc_version_chains
    sweep_all Gc.gc_chains_at_active_snapshot
sweeping = tt

-- the second transaction has had a heartbeat
abbrev beaten : World
beaten = (heartbeat "t2" 500000 both_staged).1

one_is_stale : (sweep_stale_txns 300 600000 beaten).0 ≡ ok 1
unfolding sweeping
one_is_stale = refl

first_is_aborted : (status "t1" (sweep_stale_txns 300 600000 beaten).1).0 ≡ ok aborted
unfolding sweeping
first_is_aborted = refl

second_is_active : (status "t2" (sweep_stale_txns 300 600000 beaten).1).0 ≡ ok active
unfolding sweeping
second_is_active = refl

committed_is_kept : (status "t1" (sweep_stale_txns 300 600000 first_done).1).0 ≡ ok committed
unfolding sweeping
committed_is_kept = refl

beaten-IsLive : IsLive "t2" 300000 beaten.store.txn_state
unfolding sweeping
beaten-IsLive rec (inl e) = elim (==→ne "t2" "t1" refl (ap (λ x. x.0) e)) [ ]
beaten-IsLive rec (inr (inl e)) = ap (λ x. is_stale_txn 300000 x.1) e
beaten-IsLive rec (inr (inr m)) = elim m [ ]

sweep-live_example :
    get_txn_state "t2" beaten.store
    ≡ get_txn_state "t2" (sweep_stale_txns 300 600000 beaten).1.store
sweep-live_example = sweep-live "t2" 300 600000 beaten beaten-IsLive

-- the first transaction has had no heartbeat
abbrev idle_row : TxnStateRecord
idle_row = Option.get_or (get_txn_state "t1" beaten.store) (new_active 0 none 0)

idle_there : get_txn_state "t1" beaten.store ≡ some idle_row
unfolding sweeping
idle_there = refl

idle-IsStale : is_stale_txn 300000 idle_row ≡ true
unfolding sweeping
idle-IsStale = refl

abbrev swept : World
swept = (sweep_stale_txns 300 600000 beaten).1

sweep-Returns : Returns (sweep_stale_txns 300 600000) beaten 1 swept
unfolding sweeping
sweep-Returns = refl

sweep-IsAborted_example : IsAborted "t1" swept.store
sweep-IsAborted_example =
    sweep-IsAborted "t1" 300 600000 1 idle_row beaten swept idle_there idle-IsStale sweep-Returns
