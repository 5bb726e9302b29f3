-- ===== src/Memtable/Set/Publish.antt =====
-- A commit's write to the memtables, staged and published, as a reader of the set sees it: also when
-- the staged entry has been moved into the queue in between.
use xtable.Prelude.{
  ℕ, ◌+◌, ◌<◌, ◌≡◌, ◌⊎◌, refl, ◌∙◌, ap, true, false, none, some, List, [], ◌∷◌, ◌++◌, map, reverse,
  lookup, All, ==_self, nat_key, string_key, triple_key, if◌then◌else◌, leb, arith, inl, inr,
  Bool-cases, Option-cases,
}
use mathlib.Core.List.{reverse_aux}
use xtable.Store.{RecordKey}
use xtable.Memtable.{
  invisible, MemEntry, MemTable, new_memtable, visible_at, get_visible, should_flush, set_version,
  when_visible,
}
use xtable.Memtable
use xtable.Memtable.Visible.{lookup-publish, get_visible-publish}
use xtable.Memtable.Set.{
  MemTableSet, maybe_rotate, rotate, put_invisible, publish, first_visible, read_memtables,
}

module _ (key : RecordKey) (snapshot : ℕ) where
  -- the table answers nothing
  abbrev pub IsSilent : MemTable → Type 0
  IsSilent m = get_visible key snapshot m ≡ none

  first_visible-silent :
      (ms : List MemTable) → All IsSilent ms → first_visible key snapshot ms ≡ none
  unfolding first_visible
  first_visible-silent [] h = refl
  first_visible-silent (m ∷ ms) h = rw (h.0, first_visible) (first_visible-silent ms h.1)

  first_visible-hit :
      (m : MemTable) (ms : List MemTable) (e : MemEntry)
      → get_visible key snapshot m ≡ some e
      → first_visible key snapshot (m ∷ ms) ≡ some e
  unfolding first_visible
  first_visible-hit m ms e h = rw (h, first_visible) refl

  pub first_visible-miss :
      (m : MemTable) (ms : List MemTable)
      → IsSilent m
      → first_visible key snapshot (m ∷ ms) ≡ first_visible key snapshot ms
  unfolding first_visible
  first_visible-miss m ms h = rw (h, first_visible) refl

  pub new-IsSilent : (id now : ℕ) → IsSilent (new_memtable id now)
  unfolding new_memtable get_visible lookup
  new-IsSilent id now = refl

  All-reverse_aux :
      (ms r : List MemTable) → All IsSilent ms → All IsSilent r → All IsSilent (reverse_aux ms r)
  All-reverse_aux [] r h k = k
  All-reverse_aux (m ∷ ms) r h k = All-reverse_aux ms (m ∷ r) h.1 (h.0, k)

  published_new-IsSilent :
      (w v id now : ℕ) → IsSilent (Memtable.publish key w v (new_memtable id now))
  unfolding new_memtable Memtable.publish get_visible lookup
  published_new-IsSilent w v id now = refl

  published-IsSilent :
      (w v : ℕ) (m : MemTable) → leb v snapshot ≡ false → IsSilent (Memtable.publish key w v m)
  unfolding get_visible visible_at
  published-IsSilent w v m late = elim (Option-cases (lookup key m.rows)) [
    | inl absent ↦ ground (arith, lookup-publish key w v m key)
    | inr (e, there) ↦ ground (arith, lookup-publish key w v m key, ==_self key)
  ]

  All-published :
      (w v : ℕ) (ms : List MemTable)
      → leb v snapshot ≡ false
      → All IsSilent (map (Memtable.publish key w v) ms)
  All-published w v [] late = tt
  All-published w v (m ∷ ms) late = (published-IsSilent w v m late, All-published w v ms late)

pub reverse-snoc :
    (ms r : List MemTable) (m : MemTable) → reverse_aux (ms ++ m ∷ []) r ≡ m ∷ reverse_aux ms r
reverse-snoc [] r m = refl
reverse-snoc (x ∷ ms) r m = reverse-snoc ms (x ∷ r) m

map-snoc :
    (f : MemTable → MemTable) (ms : List MemTable) (m : MemTable)
    → map f (ms ++ m ∷ []) ≡ map f ms ++ f m ∷ []
map-snoc f [] m = refl
map-snoc f (x ∷ ms) m = ap (λ xs. f x ∷ xs) (map-snoc f ms m)

-- the two shapes of the set after the insert
pub put_invisible-cases :
    (e : MemEntry) (now : ℕ) (s : MemTableSet)
    → let m = (Memtable.put_invisible e s.active).1 in
      let s' = (put_invisible e now s).1 in
      (s' ≡ record s { active = m }) ⊎ (s' ≡ rotate (m.id + 1) now (record s { active = m }))
unfolding put_invisible maybe_rotate
put_invisible-cases e now s =
    let m = (Memtable.put_invisible e s.active).1 in
    elim (Bool-cases (should_flush s.policy now m)) [
      | inl full ↦ rw (full, ==_self m.id) (inr refl)
      | inr fits ↦ rw fits (inl refl)
    ]

-- After a commit has staged an entry and published it at a version, with the queue free, a reader of
-- the memtables finds that entry, with that version, at exactly the snapshots from the version on,
-- and no entry of its key at the older ones; this holds whether or not the insert rotated the tables.
pub read_memtables-publish :
    (e : MemEntry) (now w v snapshot : ℕ) (s : MemTableSet)
    → v < invisible
    → read_memtables e.key snapshot (publish e.key w v true (put_invisible e now s).1)
      ≡ (if leb v snapshot then some (set_version v e) else none)
unfolding read_memtables publish
read_memtables-publish e now w v snapshot s small = elim (Bool-cases (leb v snapshot)) [
  | inr late ↦ rw late (
      first_visible-silent e.key snapshot ((p s').active ∷ reverse (p s').flushing) (
        published-IsSilent e.key snapshot w v s'.active late,
        All-reverse_aux e.key snapshot (map pub_ s'.flushing) []
            (All-published e.key snapshot w v s'.flushing late) tt,
      ))
  | inl on ↦ rw on (elim (put_invisible-cases e now s) [
    | inl kept ↦ rw kept (
        first_visible-hit e.key snapshot (pub_ m) (reverse (map pub_ s.flushing)) (set_version v e)
          (here on))
    | inr moved ↦
        let old = reverse (map pub_ s.flushing) in
        rw (moved, map-snoc pub_ s.flushing m, reverse-snoc (map pub_ s.flushing) [] (pub_ m))
          (first_visible-miss e.key snapshot (pub_ (new_memtable (m.id + 1) now)) (pub_ m ∷ old)
              fresh
            ∙ first_visible-hit e.key snapshot (pub_ m) old (set_version v e) (here on))
  ])
]
  where
    m : MemTable
    m = (Memtable.put_invisible e s.active).1

    s' : MemTableSet
    s' = (put_invisible e now s).1

    pub_ : MemTable → MemTable
    pub_ = Memtable.publish e.key w v

    p : MemTableSet → MemTableSet
    p = publish e.key w v true

    fresh : get_visible e.key snapshot (pub_ (new_memtable (m.id + 1) now)) ≡ none
    fresh = published_new-IsSilent e.key snapshot w v (m.id + 1) now

    here : leb v snapshot ≡ true → get_visible e.key snapshot (pub_ m) ≡ some (set_version v e)
    here on = ground (arith, get_visible-publish e s.active w v snapshot e.key small, ==_self e.key)
