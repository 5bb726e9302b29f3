-- ===== src/Store/Gc/Best.antt =====
-- The search of the record history: it finds the newest version in sight.
use xtable.Prelude.{
  ℕ, ◌≤◌, ◌≡◌, ◌⊎◌, inl, inr, refl, sym, ◌∙◌, ap, false, not, ◌||◌, Option, none, some, [], ◌∷◌,
  ltb, Elem, arith, Bool-cases, if◌then◌else◌, ◌==◌, nat_key, string_key, triple_key, pair_key,
  ==→eq, ==_self,
}
use xtable.Records.{StoredRecordVersion}
use xtable.Store.Defs.{RecordKey}
use xtable.Store.Gc.{better, best_version}
use xtable.Store.Gc.History.{History}

-- one step of the fold
abbrev next_best :
    RecordKey
    → ℕ
    → Option StoredRecordVersion
    → RecordKey
    → ℕ
    → StoredRecordVersion
    → Option StoredRecordVersion
next_best r s best q v stored = if not (q == r) || ltb s v then best else better best stored

next_best-keeps :
    (r : RecordKey) (s : ℕ) (x : StoredRecordVersion) (q : RecordKey) (v : ℕ)
    (stored : StoredRecordVersion)
    → (y : StoredRecordVersion) × (next_best r s (some x) q v stored ≡ some y)
      × (x.entry.commit_version ≤ y.entry.commit_version)
next_best-keeps r s x q v stored = elim (Bool-cases (not (q == r) || ltb s v)) [
  | inl skipped ↦ rw skipped (x, refl, omega arith)
  | inr seen ↦ elim (Bool-cases (ltb x.entry.commit_version stored.entry.commit_version)) [
    | inl newer ↦ rw (seen, newer) (stored, refl, ground arith)
    | inr older ↦ rw (seen, older) (x, refl, omega arith)
  ]
]

-- the result is never older than what the search has already
best_version-keeps :
    (r : RecordKey) (s : ℕ) (x : StoredRecordVersion) (rows : History)
    → (y : StoredRecordVersion) × (best_version r s (some x) rows ≡ some y)
      × (x.entry.commit_version ≤ y.entry.commit_version)
unfolding best_version
best_version-keeps r s x [] = (x, refl, omega arith)
best_version-keeps r s x (((q, v), stored) ∷ rows) =
    let (y, e, le) = next_best-keeps r s x q v stored in
    let (z, f, up) = best_version-keeps r s y rows in
    (z, ap (λ o. best_version r s o rows) e ∙ f, omega arith)

next_best-takes :
    (r : RecordKey) (s : ℕ) (best : Option StoredRecordVersion) (v : ℕ)
    (stored : StoredRecordVersion)
    → v ≤ s
    → (y : StoredRecordVersion) × (next_best r s best r v stored ≡ some y)
      × (stored.entry.commit_version ≤ y.entry.commit_version)
next_best-takes r s best v stored le =
    let below : ltb s v ≡ false = ground arith in rw (==_self r, below) (go best)
  where
    go :
        (o : Option StoredRecordVersion)
        → (y : StoredRecordVersion) × (better o stored ≡ some y)
          × (stored.entry.commit_version ≤ y.entry.commit_version)
    go none = (stored, refl, omega arith)
    go (some x) = elim (Bool-cases (ltb x.entry.commit_version stored.entry.commit_version)) [
      | inl newer ↦ rw newer (stored, refl, omega arith)
      | inr older ↦ rw older (x, refl, ground arith)
    ]

-- the result is not older than any row in sight
pub best_version-above :
    (r : RecordKey) (s : ℕ) (best : Option StoredRecordVersion) (v : ℕ)
    (stored : StoredRecordVersion) (rows : History)
    → v ≤ s
    → Elem ((r, v), stored) rows
    → (y : StoredRecordVersion) × (best_version r s best rows ≡ some y)
      × (stored.entry.commit_version ≤ y.entry.commit_version)
unfolding best_version
best_version-above r s best v stored [] le m = elim m [ ]
best_version-above r s best v stored (((q, w), st) ∷ rows) le (inr m) =
    best_version-above r s (next_best r s best q w st) v stored rows le m
best_version-above r s best v stored (((q, w), st) ∷ rows) le (inl e) =
    let (y, f, up) = next_best-takes r s best v stored le in
    let (z, g, higher) = best_version-keeps r s y rows in
    (
      z,
      ap
            (λ (x : (RecordKey × ℕ) × StoredRecordVersion).
              best_version r s (next_best r s best (x.0).0 (x.0).1 x.1) rows)
            (sym e)
          ∙ ap (λ o. best_version r s o rows) f
          ∙ g,
      omega arith,
    )

-- the result is a row in sight
pub best_version-Elem :
    (r : RecordKey) (s : ℕ) (best : Option StoredRecordVersion) (rows : History)
    (y : StoredRecordVersion)
    → best_version r s best rows ≡ some y
    → (best ≡ some y) ⊎ ((v : ℕ) × Elem ((r, v), y) rows × (v ≤ s))
unfolding best_version
best_version-Elem r s best [] y h = inl h
best_version-Elem r s best (((q, w), st) ∷ rows) y h =
    elim (best_version-Elem r s (next_best r s best q w st) rows y h) [
      | inr (v, there, le) ↦ inr (v, inr there, le)
      | inl e ↦ elim (Bool-cases (q == r)) [
        | inr other ↦ inl (rw other at e)
        | inl same ↦ elim (Bool-cases (ltb s w)) [
          | inl above ↦ inl (rw (same, above) at e)
          | inr below ↦ taken best (==→eq q r same) (ground arith) (rw (same, below) at e)
        ]
      ]
    ]
  where
    here : q ≡ r → st ≡ y → ◌≡◌ {A = (RecordKey × ℕ) × StoredRecordVersion} ((r, w), y) ((q, w), st)
    here e f = ap (λ x. ((x, w), y)) (sym e) ∙ ap (λ x. ((q, w), x)) (sym f)

    taken :
        (o : Option StoredRecordVersion)
        → q ≡ r
        → w ≤ s
        → better o st ≡ some y
        → (o ≡ some y) ⊎ ((v : ℕ) × Elem ((r, v), y) (((q, w), st) ∷ rows) × (v ≤ s))
    taken none e le k = inr (w, inl (here e (ground arith)), le)
    taken (some x) e le k = elim (Bool-cases (ltb x.entry.commit_version st.entry.commit_version)) [
      | inl newer ↦ inr (w, inl (here e (ground arith)), le)
      | inr older ↦ inl (rw older at k)
    ]
