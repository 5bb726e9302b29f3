-- ===== src/Coordinator/Tests.antt =====
-- Runs of the coordinator, with and without failures, and its theorems at those states.
use xtable.Prelude.{
  ◌≡◌, ◌≢◌, refl, inl, String, true, false, none, some, [], length, ==→ne, string_key,
}
use xtable.Errors.{ok, err, conflict, internal, storage}
use xtable.Records.{active, committed, aborted, TxnStateRecord}
use xtable.Store.Txns.{get_txn_state}
use xtable.Store.Chains.{read_chain}
use xtable.Store.Chains.Append.{IsOrdered}
use xtable.World.{World, next_fails, advance}
use xtable.World.Inversion.{Returns}
use xtable.Coordinator.{require_active, status}
use xtable.Coordinator.Keys.{parse_record_key}
use xtable.Coordinator.Abort.{abort}
use xtable.Coordinator.Commit.{commit}
use xtable.Coordinator.Atomic.{commit-IsOrdered}
use xtable.Coordinator.Outcome.{IsCommitted}
use xtable.Coordinator.Repeat.{commit-IsCommitted, commit-commit}
use xtable.Coordinator.Conflict.{stale-commit}
use xtable.Coordinator.Checks.{is_stale}
use xtable.Coordinator.Calls.{aborting, beating, resume, locked, refused, Run, stop, next}
use xtable.Coordinator.Ended.{Run-final}
use xtable.Coordinator.Fixture.{
  program, sha, short, key_a, both_staged, first_done, failing, late, answer, second, first,
  after_second, aborted_first,
}

parses : parse_record_key "_xtable/acme/users/a/b.json" ≡ some ("acme", "users", "a/b")
unfolding program
parses = refl

parses_schema :
    parse_record_key "_xtable/acme/_schema/users/v1.json"
    ≡ some ("acme", "_schema", "users/v1.json")
unfolding program
parses_schema = refl

parses_nothing : parse_record_key "other/acme/users" ≡ none
unfolding program
parses_nothing = refl

first_commits : (commit "t1" 0 both_staged).0 ≡ ok (record { commit_version = 1 })
unfolding program
first_commits = refl

second_conflicts : (commit "t2" 0 first_done).0 ≡ err conflict
unfolding program
second_conflicts = refl

status_of_second : (status "t2" (commit "t2" 0 first_done).1).0 ≡ ok aborted
unfolding program
status_of_second = refl

two_chains : length first_done.store.version_chains ≡ 2
unfolding program
two_chains = refl

no_pin_left_by_first : length first_done.store.active_snapshots ≡ 1
unfolding program
no_pin_left_by_first = refl

append_fails : (commit "t1" 0 failing).0 ≡ err storage
unfolding program
append_fails = refl

nothing_published : length (commit "t1" 0 failing).1.store.version_chains ≡ 0
unfolding program
nothing_published = refl

aborted_by_reconcile : (status "t1" (commit "t1" 0 failing).1).0 ≡ ok aborted
unfolding program
aborted_by_reconcile = refl

late_failure : (commit "t1" 0 late).0 ≡ err storage
unfolding program
late_failure = refl

committed_by_reconcile : (status "t1" (commit "t1" 0 late).1).0 ≡ ok committed
unfolding program
committed_by_reconcile = refl

abort_of_committed : (abort "t1" first_done).0 ≡ err internal
unfolding program
abort_of_committed = refl

first-Returns : Returns (commit "t1" 0) both_staged answer first_done
unfolding program
first-Returns = refl

both-IsOrdered : IsOrdered both_staged.store
unfolding program
both-IsOrdered key = tt

commit-IsOrdered_example : IsOrdered (commit "t1" 0 both_staged).1.store
commit-IsOrdered_example = commit-IsOrdered "t1" 0 both_staged both-IsOrdered

commit-IsCommitted_example : IsCommitted "t1" answer first_done.store
commit-IsCommitted_example = commit-IsCommitted "t1" 0 both_staged first_done answer first-Returns

nothing_fails : next_fails first_done.schedule ≡ false
unfolding program
nothing_fails = refl

commit-commit_example : commit "t1" 5 first_done ≡ (ok answer, advance first_done)
commit-commit_example =
    commit-commit "t1" 0 5 both_staged first_done answer first-Returns nothing_fails

second_there : get_txn_state "t2" first_done.store ≡ some second
unfolding program
second_there = refl

second_is_stale : is_stale 0 (read_chain key_a first_done.store) ≡ true
unfolding program
second_is_stale = refl

stale-commit_example : ¬ (commit "t2" 0 first_done ≡ (ok answer, first_done))
stale-commit_example =
    stale-commit "t2" 0 second key_a first_done first_done answer second_there refl (inl refl)
      second_is_stale

abbrev after_refusal : World
after_refusal = (require_active "t1" after_second).1

too_late : require_active "t1" after_second ≡ (err internal, after_refusal)
unfolding program
too_late = refl

-- the row of the first transaction before its commit
abbrev before_commit : TxnStateRecord
before_commit = record first { status = active; alloc_versions = [] }

apart : ◌≢◌ {A = String} "t1" "t2"
apart = ==→ne "t1" "t2" refl

first_there : get_txn_state "t1" first_done.store ≡ some first
unfolding program
first_there = refl

-- an abort of the other transaction, and a heartbeat of the first one that comes too late
run : Run sha short "spill" (first_done, []) (after_refusal, [])
run =
    next (first_done, []) (after_second, []) (after_refusal, [])
      (locked "t2" aborting first_done [] refl)
      (next (after_second, []) (after_refusal, []) (after_refusal, [])
        (refused "t1" internal after_second after_refusal [] too_late) (stop (after_refusal, [])))

Run-final_example : get_txn_state "t1" after_refusal.store ≡ some first
Run-final_example =
    Run-final sha short "spill" "t1" first first_done after_refusal [] [] run first_there refl tt

-- A heartbeat that has read the row before the commit of its transaction, and goes on after it, makes the
-- committed transaction active again.
revived :
    (status "t1" (resume sha short "spill" "t1" (beating 9) before_commit first_done)).0 ≡ ok active
unfolding program
revived = refl

before_commit-there : get_txn_state "t1" both_staged.store ≡ some before_commit
unfolding program
before_commit-there = refl

first_abort-Returns : Returns (abort "t1") both_staged tt aborted_first
unfolding program
first_abort-Returns = refl
