-- ===== src/Chain/Order.antt =====
-- The order of a chain: strictly ascending commit versions.
use xtable.Prelude.{
  ℕ, zero, suc, ◌≤◌, ◌<◌, ◌≡◌, refl, ◌⊎◌, inl, inr, List, [], ◌∷◌, ◌++◌, last, some, drop, Elem,
  arith, All, last-append_singleton,
}
use xtable.Chain.{VersionEntry, VersionChain, latest_commit_version, append}

-- every entry is newer than `v`
abbrev pub After : ℕ → List VersionEntry → Type 0
After v = All (λ e. v < e.commit_version)

abbrev pub IsAscending : List VersionEntry → Type 0
IsAscending [] = Unit
IsAscending (e ∷ es) = After e.commit_version es × IsAscending es

abbrev pub Before : ℕ → List VersionEntry → Type 0
Before v = All (λ e. e.commit_version < v)

pub After-trans : (v w : ℕ) (es : List VersionEntry) → v ≤ w → After w es → After v es
After-trans v w [] h a = tt
After-trans v w (e ∷ es) h a = (omega arith, After-trans v w es h a.1)

pub After-Elem :
    (v : ℕ) (es : List VersionEntry) (e : VersionEntry)
    → After v es
    → Elem e es
    → v < e.commit_version
After-Elem v [] e a m = elim m [ ]
After-Elem v (x ∷ es) e a (inl p) = ground arith
After-Elem v (x ∷ es) e a (inr m) = After-Elem v es e a.1 m

IsAscending-snoc :
    (es : List VersionEntry) (e : VersionEntry)
    → IsAscending es
    → Before e.commit_version es
    → IsAscending (es ++ e ∷ [])
IsAscending-snoc [] e a b = (tt, tt)
IsAscending-snoc (x ∷ es) e a b = (after es a.0, IsAscending-snoc es e a.1 b.1)
  where
    after :
        (xs : List VersionEntry) → After x.commit_version xs → After x.commit_version (xs ++ e ∷ [])
    after [] h = (b.0, tt)
    after (y ∷ ys) h = (h.0, after ys h.1)

pub IsAscending-drop : (n : ℕ) (es : List VersionEntry) → IsAscending es → IsAscending (drop n es)
IsAscending-drop zero es a = a
IsAscending-drop (suc n) [] a = tt
IsAscending-drop (suc n) (e ∷ es) a = IsAscending-drop n es a.1

-- the last entry of an ascending list is the newest
latest-le :
    (es : List VersionEntry) (v : ℕ) (e : VersionEntry)
    → IsAscending es
    → last es ≡ some e
    → e.commit_version < v
    → Before v es
latest-le [] v e a h lt = tt
latest-le (x ∷ []) v e a h lt = (ground arith, tt)
latest-le (x ∷ y ∷ es) v e a h lt =
    let rest = latest-le (y ∷ es) v e a.1 h lt in (omega arith, rest)

last-cons :
    (x : VersionEntry) (es : List VersionEntry) → (e : VersionEntry) × (last (x ∷ es) ≡ some e)
last-cons x [] = (x, refl)
last-cons x (y ∷ es) = last-cons y es

-- A chain that accepts only newer entries stays strictly ascending (invariant I1 of the source).
pub append-IsAscending :
    (c : VersionChain) (e : VersionEntry)
    → IsAscending c.entries
    → (c.entries ≡ []) ⊎ (latest_commit_version c < e.commit_version)
    → IsAscending (append e c).entries
unfolding append latest_commit_version
append-IsAscending c e a h = IsAscending-snoc c.entries e a (older c.entries a h)
  where
    older :
        (es : List VersionEntry)
        → IsAscending es
        → (es ≡ [])
          ⊎ (latest_commit_version (record { key = c.key; entries = es }) < e.commit_version)
        → Before e.commit_version es
    older [] a h = tt
    older (x ∷ es) a (inl p) = absurd (ground arith)
    older (x ∷ es) a (inr lt) =
        let (n, p) = last-cons x es in latest-le (x ∷ es) e.commit_version n a p (ground arith)

pub latest-append :
    (c : VersionChain) (e : VersionEntry) → latest_commit_version (append e c) ≡ e.commit_version
unfolding append latest_commit_version
latest-append c e = rw (last-append_singleton c.entries e) refl
