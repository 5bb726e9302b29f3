-- ===== src/Memtable/Bounds.antt =====
-- The running bounds of a memtable hold for each of its entries.
use xtable.Prelude.{
  ℕ, ◌≤◌, ◌≡◌, ◌⊎◌, some, lookup, ==→eq, nat_key, string_key, triple_key, arith, inl, inr,
  Option-cases,
}
use xtable.Store.{RecordKey}
use xtable.Memtable.{invisible, MemEntry, MemTable, put_invisible, publish}
use xtable.Memtable.Visible.{lookup-put_invisible, lookup-publish}

-- an entry is staged, or its version is within the bounds; its sequence number is within its own
abbrev pub Fits : MemTable → MemEntry → Type 0
Fits m e =
    ((e.commit_version ≡ invisible)
      ⊎ ((m.version_min ≤ e.commit_version) × (e.commit_version ≤ m.version_max)))
    × (m.earliest_seq ≤ e.wal_seq)
    × (e.wal_seq ≤ m.latest_seq)

abbrev pub IsBounded : MemTable → Type 0
IsBounded m = (k : RecordKey) (e : MemEntry) → lookup k m.rows ≡ some e → Fits m e

-- The bounds on the versions and on the sequence numbers stay right when an entry is staged.
pub put_invisible-IsBounded :
    (e : MemEntry) (m : MemTable) → IsBounded m → IsBounded (put_invisible e m).1
unfolding put_invisible
put_invisible-IsBounded e m b k f h = ground (arith, lookup-put_invisible e m k, b k f)

-- The bounds on the versions and on the sequence numbers stay right when an entry is published.
pub publish-IsBounded :
    (k : RecordKey) (w v : ℕ) (m : MemTable) → IsBounded m → IsBounded (publish k w v m)
unfolding publish
publish-IsBounded k w v m b q f h = elim (Option-cases (lookup q m.rows)) [
  | inl absent ↦ absurd (ground (arith, lookup-publish k w v m q))
  | inr (e, there) ↦ ground (arith, lookup-publish k w v m q, b q e there, ==→eq k q)
]
