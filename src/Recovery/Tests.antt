-- ===== src/Recovery/Tests.antt =====
-- Runs of the recovery after crashes of a commit at several points, and its theorems at those states.
use xtable.Prelude.{
  ◌≡◌, refl, inl, inr, ap, subst, String, ==→ne, string_key, Bool, true, false, none, some, List,
  [], ◌∷◌, ◌++◌, Elem,
}
use xtable.Errors.{ok}
use xtable.Records.{TxnStateRecord, TxnStatus, active, committing, committed, aborted}
use xtable.Store.Meta
use xtable.Store.Txns.{get_txn_state}
use xtable.World.{World}
use xtable.World.Inversion.{Returns}
use xtable.Coordinator.{status}
use xtable.Coordinator.Commit.{commit}
use xtable.Coordinator.Fixture.{program, key_a, key_b, both_staged}
use xtable.Recovery.{
  RecoveryReport, no_report, recover, recover_txn, recover_all, tally, backfill,
  abort_txn_no_uploads, scan,
}
use xtable.Recovery.Settled.{IsSettled, is_open}
use xtable.Recovery.Closed.{recover-keeps_closed}
use xtable.Recovery.Sweep.{recover-IsSettled, recover-chains, scanned}

recovery : Unit {0}
unfolding program Meta.iter_wal recover recover_txn recover_all tally backfill abort_txn_no_uploads
    scan
recovery = tt

abbrev works : List Bool
works = false ∷ false ∷ false ∷ false ∷ false ∷ []

abbrev stops : List Bool
stops = true ∷ true ∷ true ∷ true ∷ true ∷ true ∷ true ∷ true ∷ true ∷ true ∷ []

-- the process stops after the append to the chains
abbrev crashed : World
crashed =
    record (commit "t1" 0 (record both_staged { schedule = works ++ works ++ stops ++ stops })).1 {
      schedule = [];
    }

crashed_row : (status "t1" crashed).0 ≡ ok committing
unfolding recovery
crashed_row = refl

recovered_row : (status "t1" (recover 9 crashed).1).0 ≡ ok committed
unfolding recovery
recovered_row = refl

other_row : (status "t2" (recover 9 crashed).1).0 ≡ ok aborted
unfolding recovery
other_row = refl

race_is_counted : (recover 9 crashed).0 ≡ ok (record no_report { chain_won_wal_race = 1 })
unfolding recovery
race_is_counted = refl

-- the process stops before the append to the chains
abbrev early : World
early =
    record (commit "t1" 0 (record both_staged {
      schedule = works ++ false ∷ false ∷ false ∷ false ∷ stops ++ stops;
    })).1 { schedule = [] }

early_recovered : (status "t1" (recover 9 early).1).0 ≡ ok aborted
unfolding recovery
early_recovered = refl

-- the process stops after the log has the Committed row and before the row of the transaction is saved
abbrev stuck : World
stuck =
    record (commit "t1" 0 (record both_staged {
      schedule = works ++ works ++ false ∷ false ∷ false ∷ stops ++ stops;
    })).1 { schedule = [] }

stuck_row : (status "t1" stuck).0 ≡ ok committing
unfolding recovery
stuck_row = refl

stuck_for_ever : (status "t1" (recover 9 stuck).1).0 ≡ ok committing
unfolding recovery
stuck_for_ever = refl

-- the row of the transaction after the crash
abbrev open_row : TxnStateRecord
open_row = record {
  status = committing;
  snapshot_version = 0;
  started_at_ms = 0;
  last_heartbeat_ms = 0;
  idempotency_key = none;
  read_keys = [];
  write_keys = key_a ∷ key_b ∷ [];
  alloc_versions = (key_a, 1) ∷ (key_b, 1) ∷ [];
  uploaded_keys = [];
}

open_there : get_txn_state "t1" crashed.store ≡ some open_row
unfolding recovery
open_there = refl

logged_there : Elem ("t1", committing) (scanned crashed.store).last_status
unfolding recovery
logged_there = inl refl

abbrev report : RecoveryReport
report = record no_report { chain_won_wal_race = 1 }

abbrev recovered : World
recovered = (recover 9 crashed).1

recover-Returns : Returns (recover 9) crashed report recovered
unfolding recovery
recover-Returns = refl

recover-IsSettled_example : IsSettled "t1" recovered.store
recover-IsSettled_example =
    recover-IsSettled "t1" committing 9 open_row report crashed recovered logged_there refl
      open_there recover-Returns

stuck_rows : (scanned stuck.store).last_status ≡ ("t1", committed) ∷ ("t2", active) ∷ []
unfolding recovery
stuck_rows = refl

closed_in :
    (logged : TxnStatus)
    → Elem {A = String × TxnStatus} ("t1", logged) (("t1", committed) ∷ ("t2", active) ∷ [])
    → is_open logged ≡ false
closed_in logged (inl e) = ap is_open (ap (λ (x : String × TxnStatus). x.1) e)
closed_in logged (inr (inl e)) =
    absurd (==→ne "t1" "t2" refl (ap (λ (x : String × TxnStatus). x.0) e))
closed_in logged (inr (inr m)) = elim m [ ]

recover-keeps_closed_example :
    get_txn_state "t1" stuck.store ≡ get_txn_state "t1" (recover 9 stuck).1.store
recover-keeps_closed_example = recover-keeps_closed "t1" 9 stuck (λ logged m.
    closed_in logged (subst (Elem {A = String × TxnStatus} ("t1", logged)) stuck_rows m))

recover-chains_example : crashed.store.version_chains ≡ (recover 9 crashed).1.store.version_chains
recover-chains_example = recover-chains 9 crashed
