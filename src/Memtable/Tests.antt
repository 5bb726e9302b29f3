-- ===== src/Memtable/Tests.antt =====
-- Runs of the memtables, and the theorems at those states.
use xtable.Prelude.{
  ℕ, ◌≡◌, refl, true, false, Option, none, some, List, [], ◌∷◌, length, lookup, insert, modify,
  nat_key, string_key, triple_key, if◌then◌else◌, leb, arith,
}
use xtable.Prelude.Words.{add_u64}
use xtable.Store.{RecordKey}
use xtable.Memtable.{
  invisible, MemEntry, MemTable, FlushPolicy, new_memtable, put_invisible, publish, get_visible,
  visible_at, is_invisible, serialized, should_flush, set_version,
}
use xtable.Memtable.Bounds.{IsBounded}
use xtable.Memtable.Set.{
  MemTableSet, new_set, first_visible, read_memtables, maybe_rotate, try_rotate_active,
  should_rotate_active, take_immutables,
}
use xtable.Memtable.Set
use xtable.Memtable.Set.Publish.{read_memtables-publish}
use xtable.Memtable.Set.Rotate.{IsNumbered}

program : Unit {0}
unfolding lookup insert modify add_u64 new_memtable put_invisible publish get_visible visible_at
    is_invisible serialized should_flush first_visible read_memtables maybe_rotate try_rotate_active
    should_rotate_active take_immutables Set.put_invisible Set.publish
program = tt

abbrev key : RecordKey
key = ("acme", "users", "u1")

abbrev entry : ℕ → ℕ → MemEntry
entry version size = record {
  key = key;
  value = record { bytes = 1 ∷ [] };
  commit_version = version;
  txn_id = "t";
  deleted = false;
  content_type = none;
  user_meta = [];
  schema_version = 0;
  wal_seq = 5;
  size_bytes = size;
}

abbrev one : MemTable
one = (put_invisible (entry invisible 10) (new_memtable 0 0)).1

small_entry_counts_64 : one.bytes_estimate ≡ 64
unfolding program
small_entry_counts_64 = refl

staged : get_visible key 1000 one ≡ none
unfolding program
staged = refl

published : get_visible key 7 (publish key 5 7 one) ≡ some (entry 7 10)
unfolding program
published = refl

too_early : get_visible key 6 (publish key 5 7 one) ≡ none
unfolding program
too_early = refl

abbrev tiny : FlushPolicy
tiny = record { memtable_size_bytes = 100; memtable_age = 60000; soft_limit_bytes = 80 }

abbrev set : MemTableSet
set = new_set (new_memtable 0 0) tiny

-- the second entry is large enough to rotate the tables
abbrev two_commits : MemTableSet
two_commits =
    Set.publish key 9 9 true
      (Set.put_invisible (entry 9 200) 0
        (Set.publish key 7 7 true (Set.put_invisible (entry 7 10) 0 set).1)).1

rotated : length two_commits.flushing ≡ 1
unfolding program
rotated = refl

reads_the_second : read_memtables key 9 two_commits ≡ some (entry 9 200)
unfolding program
reads_the_second = refl

-- an entry of an earlier commit waits in the queue; the next commit of its key relabels it
abbrev waiting : MemTableSet
waiting = (Set.put_invisible (entry 7 200) 0 set).1

abbrev later : MemTableSet
later = Set.publish key 9 9 true (Set.put_invisible (entry 9 10) 0 waiting).1

abbrev versions : List MemTable → List (Option ℕ)
versions [] = []
versions (m ∷ ms) = version (lookup key m.rows) ∷ versions ms
  where
    version : Option MemEntry → Option ℕ
    version none = none
    version (some e) = some e.commit_version

before : versions waiting.flushing ≡ some 7 ∷ []
unfolding program
before = refl

after : versions later.flushing ≡ some 9 ∷ []
unfolding program
after = refl

no_rotation_while_busy : (try_rotate_active 70000 false waiting).0 ≡ false
unfolding program
no_rotation_while_busy = refl

rotation_by_age : (try_rotate_active 70000 true waiting).0 ≡ true
unfolding program
rotation_by_age = refl

new-IsBounded : IsBounded (new_memtable 0 0)
unfolding program
new-IsBounded k e h = ground arith

read_memtables-publish_example :
    read_memtables key 9 (Set.publish key 9 9 true (Set.put_invisible (entry 9 200) 0 waiting).1)
    ≡ (if leb 9 9 then some (set_version 9 (entry 9 200)) else none)
read_memtables-publish_example = read_memtables-publish (entry 9 200) 0 9 9 9 waiting (omega arith)

abbrev queued : MemTable
queued = (put_invisible (entry 7 200) (new_memtable 0 0)).1

waiting-IsNumbered : IsNumbered waiting.flushing waiting.active.id
unfolding program
waiting-IsNumbered = (omega arith, tt, tt)
