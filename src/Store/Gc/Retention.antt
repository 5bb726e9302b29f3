-- ===== src/Store/Gc/Retention.antt =====
-- The collection of the record history: no registered snapshot loses the record that it reads.
use xtable.Prelude.{
  ℕ, ◌≤◌, ◌<◌, ◌≡◌, inl, inr, sym, ◌∙◌, ap, subst, Bool, true, false, not, Option, none, some, List,
  [], ◌∷◌, lookup, retain, Elem, arith, Option-cases, Bool-cases, nat_key, string_key, triple_key,
  pair_key,
}
use xtable.Prelude.Words.{u64_max}
use xtable.Records.{StoredRecordVersion}
use xtable.Store.Defs.{LocalStore, RecordKey}
use xtable.Store.Gc.{
  doomed, prune_history, best_version, get_record_version_at_snapshot, gc_chains_inner, threshold,
}
use xtable.Store.Gc.Versions.{among}
use xtable.Store.Gc.Chains.{min_key-le, threshold-le}
use xtable.Store.Gc.History.{History, IsHistory, history_row, history_unique, doomed_newer}
use xtable.Store.Gc.Best.{best_version-above, best_version-Elem}

module _ {A : Type 0} (p : A → Bool) where
  Elem-retain : (a : A) (xs : List A) → Elem a (retain p xs) → Elem a xs × (p a ≡ true)
  Elem-retain a [] m = elim m [ ]
  Elem-retain a (x ∷ xs) m = elim (Bool-cases (p x)) [
    | inl kept ↦ go kept (λ l. Elem-retain a xs l) (rw kept at m)
    | inr gone ↦ let (l, e) = Elem-retain a xs (rw gone at m) in (inr l, e)
  ]
    where
      go :
          p x ≡ true
          → (Elem a (retain p xs) → Elem a xs × (p a ≡ true))
          → Elem a (x ∷ retain p xs)
          → Elem a (x ∷ xs) × (p a ≡ true)
      go kept later (inl e) = (inl e, ap p e ∙ kept)
      go kept later (inr l) = let (m, e) = later l in (inr m, e)

  retain-Elem : (a : A) (xs : List A) → Elem a xs → p a ≡ true → Elem a (retain p xs)
  retain-Elem a [] m e = elim m [ ]
  retain-Elem a (x ∷ xs) (inl q) e = let kept : p x ≡ true = ap p (sym q) ∙ e in rw kept (inl q)
  retain-Elem a (x ∷ xs) (inr m) e = elim (Bool-cases (p x)) [
    | inl kept ↦ rw kept (inr (retain-Elem a xs m e))
    | inr gone ↦ rw gone (retain-Elem a xs m e)
  ]

-- the row that a snapshot from the threshold on reads stays
best_stays :
    (m s : ℕ) (r : RecordKey) (v : ℕ) (y : StoredRecordVersion) (rows : History)
    → IsHistory rows
    → m ≤ s
    → s ≤ u64_max
    → best_version r s none rows ≡ some y
    → y.entry.commit_version ≡ v
    → among v (doomed m r rows) ≡ false
best_stays m s r v y rows h le max e same = elim (Bool-cases (among v (doomed m r rows))) [
  | inr stays ↦ stays
  | inl goes ↦
      let (w, stored, there, below, lt) = doomed_newer m s r v rows h le max goes in
      let (z, f, up) = best_version-above r s none w stored rows below there in
      let stands = (history_row (r, w) stored rows h there).0 in
      let one : z ≡ y = cc in
      absurd (later (ap (λ (x : StoredRecordVersion). x.entry.commit_version) one) up stands lt)
]
  where
    later : {a b w : ℕ} → a ≡ y.entry.commit_version → b ≤ a → b ≡ w → v < w → ⊥
    later p q t l = omega arith

read-prune_history :
    (m s : ℕ) (r : RecordKey) (rows : History)
    → IsHistory rows
    → m ≤ s
    → s ≤ u64_max
    → best_version r s none (prune_history m rows) ≡ best_version r s none rows
unfolding prune_history
read-prune_history m s r rows h le max = elim (Option-cases (best_version r s none rows)) [
  | inl nothing ↦ elim (Option-cases (best_version r s none kept)) [
    | inl none' ↦ none' ∙ sym nothing
    | inr (z, f) ↦ elim (best_version-Elem r s none kept z f) [
      | inl bad ↦ absurd cc
      | inr (v, there, below) ↦
          let (y, e, up) =
            best_version-above r s none v z rows below (Elem-retain stays _ rows there).0 in
          absurd cc
    ]
  ]
  | inr (y, e) ↦ elim (best_version-Elem r s none rows y e) [
    | inl bad ↦ absurd cc
    | inr (v, there, below) ↦
        let at_v = (history_row (r, v) y rows h there).0 in
        let here : Elem ((r, v), y) kept =
          retain-Elem stays _ rows there (ap not (best_stays m s r v y rows h le max e at_v)) in
        let (z, f, up) = best_version-above r s none v y kept below here in
        elim (best_version-Elem r s none kept z f) [
          | inl bad ↦ absurd cc
          | inr (u, from, under) ↦
              let old = (Elem-retain stays _ rows from).0 in
              let at_u = (history_row (r, u) z rows h old).0 in
              let (x, g, down) = best_version-above r s none u z rows under old in
              let one : x ≡ y = cc in
              let same : u ≡ v =
                equal (ap (λ (x : StoredRecordVersion). x.entry.commit_version) one) up down at_u
                  at_v in
              f
              ∙ ap some (
                  history_unique r v z y rows h (subst (λ n. Elem ((r, n), z) rows) same old) there)
              ∙ sym e
        ]
  ]
]
  where
    stays : (RecordKey × ℕ) × StoredRecordVersion → Bool
    stays row = not (among row.0.1 (doomed m row.0.0 rows))

    kept : History
    kept = retain stays rows

    equal : {a b c u v : ℕ} → a ≡ b → b ≤ c → c ≤ a → c ≡ u → b ≡ v → u ≡ v
    equal p q t i j = omega arith

-- Garbage collection, with any requested minimum, leaves what a registered snapshot reads in the history
-- of a record, body included. Versions and snapshots are `u64` values, and the table is in order.
pub read_history-gc :
    (requested : Option ℕ) (s : LocalStore) (r : RecordKey) (snapshot n : ℕ)
    → lookup snapshot s.active_snapshots ≡ some n
    → snapshot ≤ u64_max
    → IsHistory s.record_versions
    → get_record_version_at_snapshot r snapshot (gc_chains_inner requested s).1
      ≡ get_record_version_at_snapshot r snapshot s
unfolding get_record_version_at_snapshot gc_chains_inner
read_history-gc requested s r snapshot n pinned max h =
    let low : threshold requested s ≤ snapshot =
      omega (arith, threshold-le requested s, min_key-le snapshot n s.active_snapshots pinned) in
    read-prune_history (threshold requested s) snapshot r s.record_versions h low max
