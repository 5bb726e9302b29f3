-- ===== src/Store/Gc/History.antt =====
-- The table of the record history: its order, and what the collection removes from it.
use xtable.Prelude.{
  ℕ, ◌-◌, ◌≤◌, ◌<◌, ◌≡◌, inl, inr, sym, ◌∙◌, ap, subst, Bool, true, false, Option, none, some, List,
  [], ◌∷◌, Map, leb, length, take, rposition, All, Elem, All-Elem, arith, Option-cases, Bool-cases,
  if◌then◌else◌, ◌==◌, nat_key, string_key, triple_key, pair_key, ==→eq,
}
use mathlib.Core.Option
use xtable.Prelude.Words.{u64_max}
use xtable.Records.{StoredRecordVersion}
use xtable.Store.Defs.{RecordKey}
use xtable.Store.Gc.{versions_of, history_keep_from, doomed}
use xtable.Store.Gc.Versions.{IsRising, among, sort_versions-IsRising, before_found, before_end}

abbrev pub History : Type 0
History = Map (RecordKey × ℕ) StoredRecordVersion

-- the table of the history: each row stands under the version of its entry, a `u64`, and the versions
-- of a record ascend
abbrev pub IsHistory : History → Type 0
IsHistory [] = Unit
IsHistory (((q, v), stored) ∷ rows) =
    (stored.entry.commit_version ≡ v)
    × (v ≤ u64_max)
    × All (λ row. (row.0).0 ≡ q → v < (row.0).1) rows
    × IsHistory rows

versions_of-above :
    (r : RecordKey) (v : ℕ) (rows : History)
    → All (λ row. (row.0).0 ≡ r → v < (row.0).1) rows
    → All (λ w. v < w) (versions_of r rows)
unfolding versions_of
versions_of-above r v [] h = tt
versions_of-above r v (((q, w), stored) ∷ rows) h = elim (Bool-cases (q == r)) [
  | inl same ↦ rw same (h.0 (==→eq q r same), versions_of-above r v rows h.1)
  | inr other ↦ rw other (versions_of-above r v rows h.1)
]

versions_of-IsRising :
    (r : RecordKey) (rows : History) → IsHistory rows → IsRising (versions_of r rows)
unfolding versions_of
versions_of-IsRising r [] h = tt
versions_of-IsRising r (((q, v), stored) ∷ rows) (_, _, above, rest) = elim (Bool-cases (q == r)) [
  | inl same ↦ rw same (
    versions_of-above r v rows
        (subst (λ x. All (λ row. (row.0).0 ≡ x → v < (row.0).1) rows) (==→eq q r same) above),
    versions_of-IsRising r rows rest,
  )
  | inr other ↦ rw other (versions_of-IsRising r rows rest)
]

Elem-versions_of :
    (r : RecordKey) (w : ℕ) (rows : History)
    → Elem w (versions_of r rows)
    → (stored : StoredRecordVersion) × Elem ((r, w), stored) rows
unfolding versions_of
Elem-versions_of r w [] m = elim m [ ]
Elem-versions_of r w (((q, v), stored) ∷ rows) m = elim (Bool-cases (q == r)) [
  | inl same ↦
      go (==→eq q r same) (λ l. Elem-versions_of r w rows l)
        (subst (λ b. Elem w (if b then v ∷ versions_of r rows else versions_of r rows)) same m)
  | inr other ↦
      let (st, there) =
        Elem-versions_of r w rows (
          subst (λ b. Elem w (if b then v ∷ versions_of r rows else versions_of r rows)) other m) in
      (st, inr there)
]
  where
    go :
        q ≡ r
        → (Elem w (versions_of r rows) → (st : StoredRecordVersion) × Elem ((r, w), st) rows)
        → Elem w (v ∷ versions_of r rows)
        → (st : StoredRecordVersion) × Elem ((r, w), st) (((q, v), stored) ∷ rows)
    go e later (inl p) =
        (stored, inl (ap (λ x. ((x, w), stored)) (sym e) ∙ ap (λ x. ((q, x), stored)) p))
    go e later (inr l) = let (st, there) = later l in (st, inr there)

pub history_row :
    (key : RecordKey × ℕ) (stored : StoredRecordVersion) (rows : History)
    → IsHistory rows
    → Elem (key, stored) rows
    → (stored.entry.commit_version ≡ key.1) × (key.1 ≤ u64_max)
history_row key stored [] h m = elim m [ ]
history_row key stored (((q, v), st) ∷ rows) h (inl e) =
    subst
      (λ (x : (RecordKey × ℕ) × StoredRecordVersion).
        ((x.1).entry.commit_version ≡ (x.0).1) × ((x.0).1 ≤ u64_max))
      (sym e) (h.0, h.1)
history_row key stored (((q, v), st) ∷ rows) h (inr m) = history_row key stored rows h.3 m

-- the key of the first row stands in no later one
history_apart :
    (r q : RecordKey) (v w : ℕ) (a b st : StoredRecordVersion) (rows : History)
    → IsHistory (((q, w), st) ∷ rows)
    → ◌≡◌ {A = (RecordKey × ℕ) × StoredRecordVersion} ((r, v), a) ((q, w), st)
    → Elem ((r, v), b) rows
    → ⊥
history_apart r q v w a b st rows h e n =
    let lt : w < v =
      All-Elem (λ (row : (RecordKey × ℕ) × StoredRecordVersion). (row.0).0 ≡ q → w < (row.0).1) rows
        h.2 n (ap (λ x. (x.0).0) e) in
    let same : v ≡ w = ap (λ x. (x.0).1) e in absurd (omega arith)

-- one row for each key
pub history_unique :
    (r : RecordKey) (v : ℕ) (a b : StoredRecordVersion) (rows : History)
    → IsHistory rows
    → Elem ((r, v), a) rows
    → Elem ((r, v), b) rows
    → a ≡ b
history_unique r v a b [] h m n = elim m [ ]
history_unique r v a b (((q, w), st) ∷ rows) h (inl e) (inl f) = ap (λ x. x.1) (e ∙ sym f)
history_unique r v a b (((q, w), st) ∷ rows) h (inr m) (inr n) = history_unique r v a b rows h.3 m n
history_unique r v a b (((q, w), st) ∷ rows) h (inl e) (inr n) =
    absurd (history_apart r q v w a b st rows h e n)
history_unique r v a b (((q, w), st) ∷ rows) h (inr m) (inl f) =
    absurd (history_apart r q v w b a st rows h f m)

-- a version that goes has a newer one that every snapshot from the threshold on sees
pub doomed_newer :
    (m s : ℕ) (r : RecordKey) (v : ℕ) (rows : History)
    → IsHistory rows
    → m ≤ s
    → s ≤ u64_max
    → among v (doomed m r rows) ≡ true
    → (w : ℕ) × (stored : StoredRecordVersion) × Elem ((r, w), stored) rows × (w ≤ s) × (v < w)
unfolding doomed
doomed_newer m s r v rows h le max d =
    let vs = versions_of r rows in
    let rising = versions_of-IsRising r rows h in
    let taken : among v (take (history_keep_from m vs) vs) ≡ true =
      subst (λ x. among v (take (history_keep_from m x) x) ≡ true)
        (sort_versions-IsRising vs rising) d in
    elim (Bool-cases (m == u64_max)) [
      | inl top ↦
          let (w, there, lt) = before_end vs v rising (closed top taken) in
          let (stored, row) = Elem-versions_of r w rows there in
          let fits = (history_row (r, w) stored rows h row).1 in
          (w, stored, row, at_top w (==→eq m u64_max top) fits, lt)
      | inr open' ↦ elim (Option-cases (rposition (λ w. leb w m) vs)) [
        | inl absent ↦ absurd (nothing open' absent taken)
        | inr (i, found) ↦
            let (w, there, below, lt) =
              before_found m vs i v rising found (opened i open' found taken) in
            let (stored, row) = Elem-versions_of r w rows there in (w, stored, row, omega arith, lt)
      ]
    ]
  where
    vs' : List ℕ
    vs' = versions_of r rows

    from : Bool → Option ℕ → ℕ
    from b o = if b then length vs' - 1 else Option.get_or o 0

    at_top : (w : ℕ) → m ≡ u64_max → w ≤ u64_max → w ≤ s
    at_top w e f = omega arith

    closed :
        (m == u64_max) ≡ true
        → among v (take (history_keep_from m vs') vs') ≡ true
        → among v (take (length vs' - 1) vs') ≡ true
    closed e k = subst (λ b. among v (take (from b (rposition (λ w. leb w m) vs')) vs') ≡ true) e k

    opened :
        (i : ℕ)
        → (m == u64_max) ≡ false
        → rposition (λ w. leb w m) vs' ≡ some i
        → among v (take (history_keep_from m vs') vs') ≡ true
        → among v (take i vs') ≡ true
    opened i e f k =
        subst (λ o. among v (take (from false o) vs') ≡ true) f
          (subst (λ b. among v (take (from b (rposition (λ w. leb w m) vs')) vs') ≡ true) e k)

    nothing :
        (m == u64_max) ≡ false
        → rposition (λ w. leb w m) vs' ≡ none
        → among v (take (history_keep_from m vs') vs') ≡ true
        → ⊥
    nothing e f k = clash (
        subst (λ o. among v (take (from false o) vs') ≡ true) f
          (subst (λ b. among v (take (from b (rposition (λ w. leb w m) vs')) vs') ≡ true) e k))
      where
        clash : false ≡ true → ⊥
        clash q = cc
