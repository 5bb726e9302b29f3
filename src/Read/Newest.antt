-- ===== src/Read/Newest.antt =====
-- The search of the entries of a chunk finds the newest version in sight.
use xtable.Prelude.{
  ℕ, ◌≡◌, ◌≤◌, ◌⊎◌, inl, inr, refl, sym, ◌∙◌, ap, true, Option, none, some, List, [], ◌∷◌, Elem,
  ltb, string_key, if◌then◌else◌, Bool-cases, arith,
}
use xtable.Store.{RecordKey}
use xtable.Chunk.{ChunkEntry}
use xtable.Read.{entry_matches, later, newest_match}

-- the last of the newest of two that may be there
later-cases : (o : Option ChunkEntry) (e : ChunkEntry) → (later o e ≡ o) ⊎ (later o e ≡ some e)
later-cases none e = inr refl
later-cases (some b) e = elim (Bool-cases (ltb e.commit_version b.commit_version)) [
  | inl older ↦ rw older (inl refl)
  | inr newer ↦ rw newer (inr refl)
]

-- what the search finds was there before, or is an entry that matches
pub newest_match-Elem :
    (key : RecordKey) (s : ℕ) (best : Option ChunkEntry) (es : List ChunkEntry) (e : ChunkEntry)
    → newest_match key s best es ≡ some e
    → (best ≡ some e) ⊎ (Elem e es × (entry_matches key s e ≡ true))
unfolding newest_match
newest_match-Elem key s best [] e h = inl h
newest_match-Elem key s best (x ∷ es) e h =
    elim (newest_match-Elem key s (if entry_matches key s x then later best x else best) es e h) [
      | inr (m, ok') ↦ inr (inr m, ok')
      | inl b ↦ elim (Bool-cases (entry_matches key s x)) [
        | inr no_match ↦ inl (rw no_match at b)
        | inl here ↦ elim (later-cases best x) [
          | inl old ↦ inl (sym old ∙ (rw here at b))
          | inr new ↦
              let same : x ≡ e = cc (new, (rw here at b)) in
              inr (inl (sym same), ap (entry_matches key s) (sym same) ∙ here)
        ]
      ]
    ]

-- at least as new as a version
abbrev pub IsFrom : ℕ → Option ChunkEntry → Type 0
IsFrom v none = ⊥
IsFrom v (some e) = v ≤ e.commit_version

later-IsFrom : (v : ℕ) (o : Option ChunkEntry) (x : ChunkEntry) → IsFrom v o → IsFrom v (later o x)
later-IsFrom v none x h = absurd h
later-IsFrom v (some b) x h = elim (Bool-cases (ltb x.commit_version b.commit_version)) [
  | inl older ↦ rw older h
  | inr newer ↦ rw newer (ground arith)
]

later_new-IsFrom : (o : Option ChunkEntry) (x : ChunkEntry) → IsFrom x.commit_version (later o x)
later_new-IsFrom none x = omega arith
later_new-IsFrom (some b) x = elim (Bool-cases (ltb x.commit_version b.commit_version)) [
  | inl older ↦ rw older (ground arith)
  | inr newer ↦ rw newer (omega arith)
]

newest_match-keeps :
    (key : RecordKey) (s v : ℕ) (best : Option ChunkEntry) (es : List ChunkEntry)
    → IsFrom v best
    → IsFrom v (newest_match key s best es)
unfolding newest_match
newest_match-keeps key s v best [] h = h
newest_match-keeps key s v best (x ∷ es) h = elim (Bool-cases (entry_matches key s x)) [
  | inl here ↦ rw here (newest_match-keeps key s v (later best x) es (later-IsFrom v best x h))
  | inr no_match ↦ rw no_match (newest_match-keeps key s v best es h)
]

-- The search of the entries of a chunk finds an entry at least as new as every entry of the record that
-- is in sight of the snapshot.
pub newest_match-IsFrom :
    (key : RecordKey) (s : ℕ) (best : Option ChunkEntry) (es : List ChunkEntry) (x : ChunkEntry)
    → Elem x es
    → entry_matches key s x ≡ true
    → IsFrom x.commit_version (newest_match key s best es)
unfolding newest_match
newest_match-IsFrom key s best [] x m h = elim m [ ]
newest_match-IsFrom key s best (y ∷ es) x (inr m) h =
    newest_match-IsFrom key s (if entry_matches key s y then later best y else best) es x m h
newest_match-IsFrom key s best (y ∷ es) x (inl same) h =
    let here : entry_matches key s y ≡ true = ap (entry_matches key s) (sym same) ∙ h in
    rw (here, same)
      (newest_match-keeps key s y.commit_version (later best y) es (later_new-IsFrom best y))
