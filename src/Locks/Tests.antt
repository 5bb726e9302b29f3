-- ===== src/Locks/Tests.antt =====
-- Runs of the lock manager, and the theorems at those states.
use xtable.Prelude.{
  ◌≡◌, refl, ◌≢◌, ◌↔◌, String, true, none, some, [], ◌∷◌, any, length, ◌==◌, ==→ne, nat_key,
  string_key, lookup, insert, remove, modify,
}
use mathlib.Core.Option
use xtable.Errors.{ok, err, storage}
use xtable.Locks.{add, SiTxnLocks, contains_in_edge_from}
use xtable.Locks.Cahill.{in_peers_of, first_common, detect_dangerous_structure}
use xtable.Locks.Manager.{
  SiLockManager, new_manager, fresh_locks, begin_txn, register_read, record_read, new_in_edges,
  register_write, add_readers, mirror, find_dangerous_structure, readers,
}
use xtable.Locks.Ends.{
  mark_committed, out_edges_snapshot, my_writes, mirror_committed, commit_writers, apply_committed,
  mark_aborted, evict_recent_older_than, active_txn_ids, snapshot_for_persist,
}
use xtable.Locks.Manager.Detect.{IsDangerous, find_dangerous_structure_iff}
use xtable.Locks.Manager.Skew.{write_skew_detected}

abbrev two_txns : SiLockManager
two_txns = record new_manager { by_txn = ("a", fresh_locks 3) ∷ ("b", fresh_locks 3) ∷ [] }

program : Unit {0}
unfolding lookup insert remove modify add contains_in_edge_from in_peers_of first_common
    detect_dangerous_structure begin_txn register_read record_read new_in_edges register_write
    add_readers mirror find_dangerous_structure mark_committed out_edges_snapshot my_writes
    mirror_committed commit_writers apply_committed mark_aborted evict_recent_older_than
    active_txn_ids snapshot_for_persist
program = tt

abbrev both_read : SiLockManager
both_read = register_read "b" "x" 3 "e" (register_read "a" "y" 3 "e" two_txns)

abbrev both_wrote : SiLockManager
both_wrote = register_write "b" "y" 4 (register_write "a" "x" 4 both_read)

begin_again : begin_txn "a" 5 two_txns ≡ err storage
unfolding program
begin_again = refl

begin_both :
    (begin_txn "b" 3 record {
      by_txn = ("a", fresh_locks 3) ∷ [];
      readers_of = [];
      writers_of = [];
      recent = [];
      recent_floor_version = 0;
    })
    ≡ ok two_txns
unfolding program
begin_both = refl

one_write_is_fine : find_dangerous_structure "a" (register_write "a" "x" 4 both_read) ≡ none
unfolding program
one_write_is_fine = refl

skew : find_dangerous_structure "a" both_wrote ≡ some "b"
unfolding program
skew = refl

skew_other_side : find_dangerous_structure "b" both_wrote ≡ some "a"
unfolding program
skew_other_side = refl

aborted_peer : find_dangerous_structure "b" (mark_aborted "a" both_wrote) ≡ none
unfolding program
aborted_peer = refl

-- a read that comes after the write it misses, and before that write's commit, adds no edge
late_read : new_in_edges "x" 3 (register_write "a" "x" 4 two_txns) ≡ []
unfolding program
late_read = refl

read_after_commit :
    length (new_in_edges "x" 3 (mark_committed "a" 4 0 (register_write "a" "x" 4 two_txns))) ≡ 1
unfolding program
read_after_commit = refl

one_left_active :
    active_txn_ids (mark_committed "a" 4 0 (register_write "a" "x" 4 two_txns)) ≡ "b" ∷ []
unfolding program
one_left_active = refl

abbrev locks_of : String → SiLockManager → SiTxnLocks
locks_of t m = Option.get_or (lookup t m.by_txn) (fresh_locks 0)

found_a : lookup "a" both_wrote.by_txn ≡ some (locks_of "a" both_wrote)
unfolding program
found_a = refl

find_dangerous_structure_iff_example :
    ((p : String) × (find_dangerous_structure "a" both_wrote ≡ some p))
    ↔ ((p : String) × IsDangerous "a" p both_wrote)
find_dangerous_structure_iff_example = find_dangerous_structure_iff "a" both_wrote

distinct : ◌≢◌ {A = String} "a" "b"
distinct = ==→ne "a" "b" refl

tracked_a : lookup "a" both_read.by_txn ≡ some (locks_of "a" both_read)
unfolding program
tracked_a = refl

tracked_b : lookup "b" both_read.by_txn ≡ some (locks_of "b" both_read)
unfolding program
tracked_b = refl

b_read_x : any (λ r. r == "b") (readers "x" both_read) ≡ true
unfolding program
b_read_x = refl

a_read_y : any (λ r. r == "a") (readers "y" both_read) ≡ true
unfolding program
a_read_y = refl

write_skew_detected_example :
    ((p : String) × (find_dangerous_structure "a" both_wrote ≡ some p))
    × ((p : String) × (find_dangerous_structure "b" both_wrote ≡ some p))
write_skew_detected_example =
    write_skew_detected "a" "b" "x" "y" 4 4 both_read (locks_of "a" both_read)
      (locks_of "b" both_read) distinct tracked_a tracked_b b_read_x a_read_y
