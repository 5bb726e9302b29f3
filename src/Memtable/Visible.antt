-- ===== src/Memtable/Visible.antt =====
-- What a reader sees of an entry before and after it is published.
use xtable.Prelude.{
  ℕ, ◌<◌, ◌≡◌, Option, none, some, lookup, lookup-insert, lookup-modify, map_at, ◌==◌, ==→eq,
  nat_key, string_key, triple_key, if◌then◌else◌, leb, arith,
}
use xtable.Store.{RecordKey}
use xtable.Memtable.{
  invisible, MemEntry, MemTable, visible_at, put_invisible, publish, set_version, get_visible,
}

pub lookup-put_invisible :
    (e : MemEntry) (m : MemTable) (q : RecordKey)
    → lookup q (put_invisible e m).1.rows ≡ (if e.key == q then some e else lookup q m.rows)
unfolding put_invisible
lookup-put_invisible e m q = lookup-insert e.key e m.rows q

pub lookup-publish :
    (k : RecordKey) (w v : ℕ) (m : MemTable) (q : RecordKey)
    → lookup q (publish k w v m).rows ≡ map_at (k == q) (set_version v) (lookup q m.rows)
unfolding publish
lookup-publish k w v m q =
    ground (arith, lookup-modify k (set_version v) m.rows q, ==→eq k q, gone (lookup q m.rows))
  where
    gone : (o : Option MemEntry) → o ≡ none → map_at (k == q) (set_version v) o ≡ none
    gone o h = ground arith

-- Staging an entry and publishing it at a version makes it visible, with that version, at exactly
-- the snapshots from the version on; what is seen of the other keys does not change. The version is
-- below the mark of a staged entry.
pub get_visible-publish :
    (e : MemEntry) (m : MemTable) (w v snapshot : ℕ) (q : RecordKey)
    → v < invisible
    → get_visible q snapshot (publish e.key w v (put_invisible e m).1) ≡ (
        if e.key == q
        then if leb v snapshot then some (set_version v e) else none
        else get_visible q snapshot m)
unfolding get_visible visible_at
get_visible-publish e m w v snapshot q h =
    ground (arith, lookup-publish e.key w v (put_invisible e m).1 q, lookup-put_invisible e m q)
