-- ===== src/Flush/Finds.antt =====
-- The search of the entries of a memtable that were written to a chunk finds what the memtable shows.
use Prim.Native.Nat.{Ordering}
use Prim.Native.Nat.Ordering.{lt, eq, gt}
use Prim.Native.String.{compare}
use xtable.Prelude.{
  ℕ, ◌≡◌, refl, sym, ◌∙◌, ap, Bool, true, false, ◌&&◌, Option, none, some, [], ◌∷◌, map, Map,
  lookup, leb, ◌==◌, ==→eq, nat_key, string_key, triple_key, is_eq, then_with, if◌then◌else◌,
  Bool-cases, inl, inr,
}
use mathlib.Core.Option
use xtable.Store.{RecordKey}
use xtable.Memtable.{MemEntry, is_invisible, visible_at, when_visible}
use xtable.Chunk.{ChunkEntry}
use xtable.Read.{entry_matches, later, newest_match}
use xtable.Flush.{chunk_entry, visible_rows}

-- each row of the table stands under the key of its entry, and under no key there are two
abbrev pub IsKeyed : Map RecordKey MemEntry → Type 0
IsKeyed [] = Unit
IsKeyed ((k, e) ∷ rows) = (e.key ≡ k) × (lookup k rows ≡ none) × IsKeyed rows

is_eq-then_with :
    (o p q : Ordering) (x : Bool)
    → (is_eq o && (is_eq p && (is_eq q && x))) ≡ (is_eq (then_with o (then_with p q)) && x)
is_eq-then_with lt p q x = refl
is_eq-then_with gt p q x = refl
is_eq-then_with eq lt q x = refl
is_eq-then_with eq gt q x = refl
is_eq-then_with eq eq q x = refl

pub entry_matches_lem :
    (key : RecordKey) (s : ℕ) (x : ChunkEntry)
    → entry_matches key s x
      ≡ (◌==◌ {K = RecordKey} (x.space, x.table, x.record_id) key && leb x.commit_version s)
entry_matches_lem key s x =
    is_eq-then_with (compare x.space key.0) (compare x.table key.1) (compare x.record_id key.2)
      (leb x.commit_version s)

no_match :
    (key : RecordKey) (s : ℕ) (e : MemEntry)
    → (e.key == key) ≡ false
    → entry_matches key s (chunk_entry e) ≡ false
no_match key s e other = entry_matches_lem key s (chunk_entry e) ∙ rw other refl

module _ (key : RecordKey) (s : ℕ) where
  abbrev search : Option ChunkEntry → Map RecordKey MemEntry → Option ChunkEntry
  search best rows = newest_match key s best (map chunk_entry (visible_rows rows))

  search-hidden :
      (best : Option ChunkEntry) (k : RecordKey) (e : MemEntry) (rows : Map RecordKey MemEntry)
      → is_invisible e ≡ true
      → search best ((k, e) ∷ rows) ≡ search best rows
  unfolding visible_rows
  search-hidden best k e rows hidden =
      ap (λ es. newest_match key s best (map chunk_entry es)) (rw hidden refl)

  search-shown :
      (best : Option ChunkEntry) (k : RecordKey) (e : MemEntry) (rows : Map RecordKey MemEntry)
      → is_invisible e ≡ false
      → search best ((k, e) ∷ rows)
        ≡ search
            (if entry_matches key s (chunk_entry e) then later best (chunk_entry e) else best)
            rows
  unfolding visible_rows newest_match
  search-shown best k e rows shown =
      let shows : visible_rows ((k, e) ∷ rows) ≡ e ∷ visible_rows rows = rw shown refl in
      ap (λ es. newest_match key s best (map chunk_entry es)) shows

  -- an entry of another key makes no difference
  search-other :
      (best : Option ChunkEntry) (k : RecordKey) (e : MemEntry) (rows : Map RecordKey MemEntry)
      → (e.key == key) ≡ false
      → search best ((k, e) ∷ rows) ≡ search best rows
  search-other best k e rows other = elim (Bool-cases (is_invisible e)) [
    | inl hidden ↦ search-hidden best k e rows hidden
    | inr shown ↦ search-shown best k e rows shown ∙ rw (no_match key s e other) refl
  ]

  -- of a key that the table does not have nothing is found
  absent :
      (best : Option ChunkEntry) (rows : Map RecordKey MemEntry)
      → IsKeyed rows
      → lookup key rows ≡ none
      → search best rows ≡ best
  unfolding lookup visible_rows newest_match
  absent best [] h row = refl
  absent best ((k, e) ∷ rows) (named, once, h) row = elim (Bool-cases (k == key)) [
    | inl same ↦ absurd (cc (rw same at row))
    | inr other ↦
        search-other best k e rows (ap (λ x. x == key) named ∙ other)
        ∙ absent best rows h (rw other at row)
  ]

  found_one :
      (e : MemEntry)
      → (e.key == key) ≡ true
      → is_invisible e ≡ false
      → (if entry_matches key s (chunk_entry e) then some (chunk_entry e) else none)
        ≡ Option.map chunk_entry (when_visible s (some e))
  unfolding is_invisible visible_at
  found_one e same shown =
      rw (entry_matches_lem key s (chunk_entry e), same, shown)
        (elim (Bool-cases (leb e.commit_version s)) [
          | inl seen ↦ rw seen refl
          | inr above ↦ rw above refl
        ])

  hidden_one :
      (e : MemEntry)
      → is_invisible e ≡ true
      → none ≡ Option.map chunk_entry (when_visible s (some e))
  unfolding is_invisible visible_at
  hidden_one e hidden = rw hidden refl

  -- The search finds the entry of a key that the memtable shows at the snapshot, and nothing where it shows
  -- none.
  pub newest_match-visible_rows :
      (rows : Map RecordKey MemEntry)
      → IsKeyed rows
      → newest_match key s none (map chunk_entry (visible_rows rows))
        ≡ Option.map chunk_entry (when_visible s (lookup key rows))
  unfolding lookup visible_rows newest_match
  newest_match-visible_rows [] h = refl
  newest_match-visible_rows ((k, e) ∷ rows) (named, once, h) = elim (Bool-cases (k == key)) [
    | inr other ↦ rw other (
        search-other none k e rows (ap (λ x. x == key) named ∙ other)
        ∙ newest_match-visible_rows rows h)
    | inl same ↦
        let gone : lookup key rows ≡ none =
          ap (λ x. lookup x rows) (sym (==→eq k key same)) ∙ once in
        elim (Bool-cases (is_invisible e)) [
          | inl hidden ↦
              rw same (
                search-hidden none k e rows hidden
                ∙ (absent none rows h gone ∙ hidden_one e hidden))
          | inr shown ↦ rw same (
              search-shown none k e rows shown
              ∙ (absent _ rows h gone ∙ found_one e (ap (λ x. x == key) named ∙ same) shown))
        ]
  ]
