-- ===== src/Memtable/Set.antt =====
-- xtable-storage/src/memtable.rs: the active memtable and the ones that wait for their flush, oldest
-- first, and the search through them of xtable-storage/src/read.rs. Whether two handles are one
-- table (`Arc::ptr_eq`) is asked of the ids, which a set never gives twice. Whether `try_lock` gets
-- the queue and `try_write` the active table are arguments. A stored permit of `flush_notify` is a
-- Boolean; the admission semaphore is left out.
pub mod Publish
pub mod Rotate
use xtable.Prelude.{
  ℕ, ◌+◌, ◌≡◌, String, Bool, true, false, not, Option, none, some, List, [], ◌∷◌, ◌++◌, map,
  reverse, ◌==◌, nat_key, if◌then◌else◌,
}
use xtable.Store.{RecordKey}
use xtable.Memtable.{MemEntry, MemTable, FlushPolicy, new_memtable, should_flush, get_visible}
use xtable.Memtable

pub record MemTableSet : Type 0 where
  pub active : MemTable
  pub flushing : List MemTable
  pub notified : Bool
  pub policy : FlushPolicy
  pub max_immutables : ℕ

abbrev pub new_set : MemTable → FlushPolicy → MemTableSet
new_set initial policy = record {
  active = initial;
  flushing = [];
  notified = false;
  policy = policy;
  max_immutables = 4;
}

-- a fresh table takes the place of the active one, which joins the queue
abbrev pub rotate : ℕ → ℕ → MemTableSet → MemTableSet
rotate new_id now s = record s {
  active = new_memtable new_id now;
  flushing = s.flushing ++ s.active ∷ [];
  notified = true;
}

unfoldable pub maybe_rotate : MemTable → ℕ → MemTableSet → MemTableSet
maybe_rotate current now s =
    if not (s.active.id == current.id) then s else rotate (current.id + 1) now s

unfoldable pub put_invisible : MemEntry → ℕ → MemTableSet → ℕ × MemTableSet
put_invisible e now s =
    let (delta, active) = Memtable.put_invisible e s.active in
    let s₁ = record s { active = active } in
    (delta, if should_flush s.policy now active then maybe_rotate active now s₁ else s₁)

-- `free` tells whether `try_lock` gets the queue
unfoldable pub publish : RecordKey → ℕ → ℕ → Bool → MemTableSet → MemTableSet
publish key wal_seq v free s = record s {
  active = Memtable.publish key wal_seq v s.active;
  flushing = if free then map (Memtable.publish key wal_seq v) s.flushing else s.flushing;
}

unfoldable pub should_rotate_active : ℕ → MemTableSet → Bool
should_rotate_active now s = should_flush s.policy now s.active

-- `free` tells whether `try_write` gets the active table; nothing runs between the read of the
-- active table and the write lock, so the two handles are one
unfoldable pub try_rotate_active : ℕ → Bool → MemTableSet → Bool × MemTableSet
try_rotate_active now free s =
    if not (should_rotate_active now s)
    then (false, s)
    else if not free
    then (false, s)
    else (true, rotate (s.active.id + 1) now s)

unfoldable pub take_immutables : MemTableSet → List MemTable × MemTableSet
take_immutables s = (s.flushing, record s { flushing = [] })

-- the first table of a list that has a visible entry of the key
unfoldable pub first_visible : RecordKey → ℕ → List MemTable → Option MemEntry
first_visible key snapshot [] = none
first_visible key snapshot (m ∷ ms) = elim (get_visible key snapshot m) [
  | some e ↦ some e
  | none ↦ first_visible key snapshot ms
]

-- steps 1 and 2 of `read_at_snapshot` in read.rs
unfoldable pub read_memtables : RecordKey → ℕ → MemTableSet → Option MemEntry
read_memtables key snapshot s = first_visible key snapshot (s.active ∷ reverse s.flushing)
