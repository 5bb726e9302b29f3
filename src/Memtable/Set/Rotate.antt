-- ===== src/Memtable/Set/Rotate.antt =====
-- Rotation gives each table an id of its own and hides nothing from a reader.
use xtable.Prelude.{
  ℕ, ◌+◌, ◌<◌, ◌≡◌, refl, ◌∙◌, ap, Bool, List, [], ◌∷◌, ◌++◌, reverse, All, nat_key, if◌then◌else◌,
  arith, inl, inr, Bool-cases,
}
use xtable.Store.{RecordKey}
use xtable.Memtable.{MemEntry, MemTable, new_memtable, should_flush}
use xtable.Memtable
use xtable.Memtable.Set.{
  MemTableSet, rotate, put_invisible, try_rotate_active, should_rotate_active, first_visible,
  read_memtables,
}
use xtable.Memtable.Set.Publish.{
  reverse-snoc, first_visible-miss, new-IsSilent, put_invisible-cases,
}

-- the ids ascend along the queue and end with the active table's, so no two tables share one
abbrev pub IsNumbered : List MemTable → ℕ → Type 0
IsNumbered [] n = Unit
IsNumbered (m ∷ ms) n = (m.id < n) × All (λ k. m.id < k.id) ms × IsNumbered ms n

IsNumbered-snoc :
    (ms : List MemTable) (m : MemTable) (n : ℕ)
    → IsNumbered ms m.id
    → m.id < n
    → IsNumbered (ms ++ m ∷ []) n
IsNumbered-snoc [] m n h lt = (lt, tt, tt)
IsNumbered-snoc (x ∷ ms) m n h lt = (ground arith, after ms h.1, IsNumbered-snoc ms m n h.2 lt)
  where
    after : (xs : List MemTable) → All (λ k. x.id < k.id) xs → All (λ k. x.id < k.id) (xs ++ m ∷ [])
    after [] a = (h.0, tt)
    after (y ∷ ys) a = (a.0, after ys a.1)

rotate-IsNumbered :
    (now : ℕ) (s : MemTableSet)
    → IsNumbered s.flushing s.active.id
    → let s' = rotate (s.active.id + 1) now s in IsNumbered s'.flushing s'.active.id
unfolding new_memtable
rotate-IsNumbered now s h = IsNumbered-snoc s.flushing s.active (s.active.id + 1) h (omega arith)

-- Staging an entry, with the rotation that it may bring, keeps the ids of the waiting tables and of
-- the active one strictly ascending; so comparing ids is comparing tables.
pub put_invisible-IsNumbered :
    (e : MemEntry) (now : ℕ) (s : MemTableSet)
    → IsNumbered s.flushing s.active.id
    → let s' = (put_invisible e now s).1 in IsNumbered s'.flushing s'.active.id
unfolding Memtable.put_invisible
put_invisible-IsNumbered e now s h = elim (put_invisible-cases e now s) [
  | inl kept ↦ rw (kept, same) h
  | inr moved ↦ rw moved (rotate-IsNumbered now staged (rw same h))
]
  where
    m : MemTable
    m = (Memtable.put_invisible e s.active).1

    staged : MemTableSet
    staged = record s { active = m }

    same : m.id ≡ s.active.id
    same = refl

read_memtables-rotate :
    (key : RecordKey) (snapshot id now : ℕ) (s : MemTableSet)
    → read_memtables key snapshot (rotate id now s) ≡ read_memtables key snapshot s
unfolding read_memtables
read_memtables-rotate key snapshot id now s =
    ap (λ ms. first_visible key snapshot (new_memtable id now ∷ ms))
      (reverse-snoc s.flushing [] s.active)
    ∙ first_visible-miss key snapshot (new_memtable id now) (s.active ∷ reverse s.flushing)
        (new-IsSilent key snapshot id now)

-- The flush loop's rotation changes nothing that a reader of the memtables finds, keeps the ids
-- strictly ascending, and reports exactly whether the active table was replaced.
pub try_rotate_active_lem :
    (key : RecordKey) (snapshot now : ℕ) (free : Bool) (s : MemTableSet)
    → IsNumbered s.flushing s.active.id
    → let (rotated, s') = try_rotate_active now free s in
      (read_memtables key snapshot s' ≡ read_memtables key snapshot s)
      × IsNumbered s'.flushing s'.active.id
      × (s'.active.id ≡ (if rotated then s.active.id + 1 else s.active.id))
unfolding try_rotate_active new_memtable
try_rotate_active_lem key snapshot now free s h = elim (Bool-cases (should_rotate_active now s)) [
  | inr fits ↦ rw fits (refl, h, refl)
  | inl full ↦ elim (Bool-cases free) [
    | inr busy ↦ rw (full, busy) (refl, h, refl)
    | inl got ↦
        rw (full, got)
          (
            read_memtables-rotate key snapshot (s.active.id + 1) now s,
            rotate-IsNumbered now s h,
            refl,
          )
  ]
]
