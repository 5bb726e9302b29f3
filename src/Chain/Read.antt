-- ===== src/Chain/Read.antt =====
-- A read at a snapshot returns the newest version that the snapshot sees.
use xtable.Prelude.{
  ℕ, ◌≤◌, ◌≡◌, refl, ◌↔◌, inl, inr, Option, none, some, List, [], ◌∷◌, Elem, All, arith,
  Option-cases, Bool-cases, All-Elem, ◌∙◌, sym, ap, subst,
}
use xtable.Chain.{VersionEntry, VersionChain, visible, read_at_snapshot}
use xtable.Chain.Find.{find_last, find-reverse}
use xtable.Chain.Order.{After, After-Elem, IsAscending}

-- The entry that a snapshot must see, stated of the entries as a set: one that is not newer than
-- the snapshot, and newest among those; or that there is none.
abbrev pub IsNewest : ℕ → List VersionEntry → Option VersionEntry → Type 0
IsNewest snapshot es none = After snapshot es
IsNewest snapshot es (some e) =
    Elem e es
    × (e.commit_version ≤ snapshot)
    × All (λ x. x.commit_version ≤ snapshot → x.commit_version ≤ e.commit_version) es

module _ (snapshot : ℕ) where
  After-find_last :
      (es : List VersionEntry) → find_last (visible snapshot) es ≡ none → After snapshot es
  After-find_last [] h = tt
  After-find_last (x ∷ es) h = ground (arith, After-find_last es)

  After→visible :
      (es : List VersionEntry) → After snapshot es → find_last (visible snapshot) es ≡ none
  After→visible [] a = refl
  After→visible (x ∷ es) a = ground (arith, After→visible es)

  -- what is not newer than `v` is not newer than `w` either
  bounded :
      (v : ℕ) (es : List VersionEntry)
      → After v es
      → After snapshot es
      → (w : ℕ) → All (λ x. x.commit_version ≤ snapshot → x.commit_version ≤ w) es
  bounded v [] a b w = tt
  bounded v (x ∷ es) a b w = ((λ h. absurd (omega arith)), bounded v es a.1 b.1 w)

  find_last-IsNewest :
      (es : List VersionEntry)
      → IsAscending es
      → IsNewest snapshot es (find_last (visible snapshot) es)
  find_last-IsNewest [] a = tt
  find_last-IsNewest (x ∷ es) a = elim (Option-cases (find_last (visible snapshot) es)) [
    | inr (y, found) ↦
        let (m, le, top) = rw found at (find_last-IsNewest es a.1) in
        rw found (inr m, le, ((λ _. ground (arith, After-Elem x.commit_version es y a.0 m)), top))
    | inl absent ↦
        let newer = After-find_last es absent in
        elim (Bool-cases (visible snapshot x)) [
          | inl seen ↦
              rw (absent, seen)
                (
                  inl refl,
                  ground arith,
                  ((λ _. omega arith), bounded x.commit_version es a.0 newer x.commit_version),
                )
          | inr unseen ↦ rw (absent, unseen) (ground arith, newer)
        ]
  ]

same-version :
    (es : List VersionEntry) (d e : VersionEntry)
    → IsAscending es
    → Elem d es
    → Elem e es
    → d.commit_version ≡ e.commit_version
    → d ≡ e
same-version [] d e a m n h = elim m [ ]
same-version (x ∷ es) d e a (inl p) (inl q) h = p ∙ sym q
same-version (x ∷ es) d e a (inl p) (inr n) h =
    let lt = After-Elem x.commit_version es e a.0 n in absurd (ground arith)
same-version (x ∷ es) d e a (inr m) (inl q) h =
    let lt = After-Elem x.commit_version es d a.0 m in absurd (ground arith)
same-version (x ∷ es) d e a (inr m) (inr n) h = same-version es d e a.1 m n h

IsNewest-unique :
    (snapshot : ℕ) (es : List VersionEntry) (o o' : Option VersionEntry)
    → IsAscending es
    → IsNewest snapshot es o
    → IsNewest snapshot es o'
    → o ≡ o'
IsNewest-unique s es none none a h k = refl
IsNewest-unique s es none (some e) a h k = let lt = After-Elem s es e h k.0 in absurd (omega arith)
IsNewest-unique s es (some d) none a h k = let lt = After-Elem s es d k h.0 in absurd (omega arith)
IsNewest-unique s es (some d) (some e) a h k =
    let below =
      All-Elem (λ x. x.commit_version ≤ s → x.commit_version ≤ d.commit_version) es h.2 k.0 k.1 in
    let above =
      All-Elem (λ x. x.commit_version ≤ s → x.commit_version ≤ e.commit_version) es k.2 h.0 h.1 in
    ap some (same-version es d e a h.0 k.0 (omega arith))

-- On a strictly ascending chain a read at a snapshot returns exactly the newest entry whose
-- version is at most the snapshot, and nothing exactly when there is none (invariant I3 of the
-- source): any value that meets that description is the result, and the result meets it.
pub read_at_snapshot_iff :
    (c : VersionChain) (snapshot : ℕ) (o : Option VersionEntry)
    → IsAscending c.entries
    → (read_at_snapshot c snapshot ≡ o) ↔ IsNewest snapshot c.entries o
unfolding read_at_snapshot
read_at_snapshot_iff c s o a =
    let newest = find_last-IsNewest s c.entries a in
    let e = find-reverse (visible s) c.entries in
    (
      (λ h. subst (IsNewest s c.entries) (sym e ∙ h) newest),
      (λ h. e ∙ IsNewest-unique s c.entries _ o a newest h),
    )
