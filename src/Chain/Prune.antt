-- ===== src/Chain/Prune.antt =====
-- Pruning a chain below the oldest active snapshot loses nothing that a snapshot can still read.
use xtable.Prelude.{
  ℕ, zero, suc, ◌+◌, ◌-◌, ◌≤◌, ◌<◌, ◌≡◌, inl, inr, refl, ◌∙◌, sym, Bool, none, some, List, [], ◌∷◌,
  leb, length, last, drop, rposition, arith, Option-cases, Bool-cases, length-drop, if◌then◌else◌,
  ◌==◌, nat_key, ==→eq, All, All-drop, subst,
}
use xtable.Prelude.Words.{u64_max}
use xtable.Chain.{
  VersionEntry, VersionChain, visible, read_at_snapshot, latest_commit_version, keep_from,
  prune_below,
}
use xtable.Chain.Find.{find_last, find-reverse, find_last-drop, or_else}
use xtable.Chain.Order.{IsAscending, IsAscending-drop}

-- every version is a `u64`
abbrev pub Fits : List VersionEntry → Type 0
Fits es = All (λ e. e.commit_version ≤ u64_max) es

last-drop : (es : List VersionEntry) (n : ℕ) → n < length es → last (drop n es) ≡ last es
last-drop es zero h = refl
last-drop [] (suc n) h = absurd (omega arith)
last-drop (x ∷ []) (suc n) h = absurd (omega arith)
last-drop (x ∷ y ∷ es) (suc n) h = last-drop (y ∷ es) n (omega arith)

rposition-lt :
    (p : VersionEntry → Bool) (es : List VersionEntry) (i : ℕ)
    → rposition p es ≡ some i
    → i < length es
rposition-lt p [] i h = cc
rposition-lt p (x ∷ es) i h = elim (Option-cases (rposition p es)) [
  | inr (j, found) ↦ let lt = rposition-lt p es j found in ground arith
  | inl absent ↦ ground arith
]

-- at least one entry of a chain that has one stays
keep_from-lt : (m : ℕ) (c : VersionChain) → 0 < length c.entries → keep_from m c < length c.entries
unfolding keep_from
keep_from-lt m c h = elim (Option-cases (rposition (visible m) c.entries)) [
  | inr (i, found) ↦ let lt = rposition-lt (visible m) c.entries i found in ground arith
  | inl absent ↦ ground arith
]

-- with every entry in sight the last one is read
find_last-last :
    (s : ℕ) (es : List VersionEntry)
    → All (λ e. e.commit_version ≤ s) es
    → find_last (visible s) es ≡ last es
find_last-last s [] h = refl
find_last-last s (x ∷ []) h = ground arith
find_last-last s (x ∷ y ∷ es) h = rw (find_last-last s (y ∷ es) h.1) (some-or_else x y es)
  where
    some-or_else :
        (x y : VersionEntry) (es : List VersionEntry)
        → or_else (last (y ∷ es)) (if visible s x then some x else none) ≡ last (y ∷ es)
    some-or_else x y [] = refl
    some-or_else x y (z ∷ es) = some-or_else x z es

find_last-keep_from :
    (m s : ℕ) (c : VersionChain)
    → 1 < length c.entries
    → m ≤ s
    → s ≤ u64_max
    → Fits c.entries
    → find_last (visible s) (drop (keep_from m c) c.entries) ≡ find_last (visible s) c.entries
unfolding keep_from
find_last-keep_from m s c many le max fits = elim (Bool-cases (m == u64_max)) [
  | inl closed ↦
      let top : s ≡ u64_max = ground (arith, ==→eq m u64_max closed) in
      let seen = subst (λ t. All (λ e. e.commit_version ≤ t) c.entries) (sym top) fits in
      let n = length c.entries - 1 in
      rw closed (
        find_last-last s (drop n c.entries) (All-drop _ n c.entries seen)
        ∙ last-drop c.entries n (omega arith)
        ∙ sym (find_last-last s c.entries seen))
  | inr open' ↦ elim (Option-cases (rposition (visible m) c.entries)) [
    | inr (i, found) ↦
        let (y, kept, whole) =
          find_last-drop (visible m) (visible s) (λ x h. ground arith) c.entries i found in
        rw (open', found) (kept ∙ sym whole)
    | inl absent ↦ rw (open', absent) refl
  ]
]

-- Garbage collection is safe (invariant I8 of the source): a read at any snapshot that is not
-- older than the pruning threshold has the same result before and after the pruning. The versions
-- and the snapshot are `u64` values, and `u64::MAX` is the threshold of "no active reader".
pub read-prune :
    (c : VersionChain) (min_snapshot snapshot : ℕ)
    → min_snapshot ≤ snapshot
    → snapshot ≤ u64_max
    → Fits c.entries
    → read_at_snapshot (prune_below min_snapshot c).1 snapshot ≡ read_at_snapshot c snapshot
unfolding read_at_snapshot prune_below
read-prune c m s le max fits = elim (Bool-cases (leb (length c.entries) 1)) [
  | inl short ↦ rw short refl
  | inr long ↦ rw long (
      find-reverse (visible s) (drop (keep_from m c) c.entries)
      ∙ find_last-keep_from m s c (ground arith) le max fits
      ∙ sym (find-reverse (visible s) c.entries))
]

-- Pruning keeps the order of a chain, its newest version and, if there is one, at least one entry;
-- the number that it reports is the number of entries that are gone.
pub prune_below_keeps :
    (c : VersionChain) (min_snapshot : ℕ)
    → IsAscending c.entries
    → let (removed, pruned) = prune_below min_snapshot c in
      IsAscending pruned.entries
      × (latest_commit_version pruned ≡ latest_commit_version c)
      × (removed + length pruned.entries ≡ length c.entries)
      × (0 < length c.entries → 0 < length pruned.entries)
unfolding prune_below latest_commit_version
prune_below_keeps c m a = elim (Bool-cases (leb (length c.entries) 1)) [
  | inl short ↦ rw short (a, refl, omega arith, (λ h. h))
  | inr long ↦
      let k = keep_from m c in
      let lt = keep_from-lt m c (ground arith) in
      rw long (
        IsAscending-drop k c.entries a,
        rw (last-drop c.entries k lt) refl,
        omega (arith, length-drop k c.entries),
        (λ h. omega (arith, length-drop k c.entries)),
      )
]
