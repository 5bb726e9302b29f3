-- ===== src/Store/Gc/Versions.antt =====
-- The versions of one record that the collection removes: each has a newer one that stays in sight.
use xtable.Prelude.{
  ℕ, suc, ◌-◌, ◌≤◌, ◌<◌, ◌≡◌, inl, inr, refl, sym, ◌∙◌, ap, subst, Bool, true, false, ◌||◌, some,
  List, [], ◌∷◌, leb, length, take, rposition, any, All, Elem, All-Elem, arith, Option-cases,
  Bool-cases, ◌==◌, nat_key, string_key, triple_key, pair_key, ==→eq,
}
use xtable.Store.Gc.{insert_version, sort_versions}

-- strictly ascending, as the table keeps the versions of a record
abbrev pub IsRising : List ℕ → Type 0
IsRising [] = Unit
IsRising (v ∷ vs) = All (λ w. v < w) vs × IsRising vs

insert_version-below : (v : ℕ) (vs : List ℕ) → All (λ w. v < w) vs → insert_version v vs ≡ v ∷ vs
unfolding insert_version
insert_version-below v [] h = refl
insert_version-below v (w ∷ ws) h = let lt = h.0 in ground arith

pub sort_versions-IsRising : (vs : List ℕ) → IsRising vs → sort_versions vs ≡ vs
unfolding sort_versions
sort_versions-IsRising [] h = refl
sort_versions-IsRising (v ∷ vs) h =
    ap (insert_version v) (sort_versions-IsRising vs h.1) ∙ insert_version-below v vs h.0

abbrev pub among : ℕ → List ℕ → Bool
among v vs = any (λ w. w == v) vs

-- the element that a search from the back finds
found-Elem :
    (m : ℕ) (vs : List ℕ) (i : ℕ)
    → rposition (λ v. leb v m) vs ≡ some i
    → (w : ℕ) × Elem w vs × (w ≤ m)
found-Elem m [] i h = absurd cc
found-Elem m (x ∷ xs) i h = elim (Option-cases (rposition (λ v. leb v m) xs)) [
  | inr (j, found) ↦ let (w, there, le) = found-Elem m xs j found in (w, inr there, le)
  | inl absent ↦ (x, inl refl, ground arith)
]

pub before_found :
    (m : ℕ) (vs : List ℕ) (i v : ℕ)
    → IsRising vs
    → rposition (λ w. leb w m) vs ≡ some i
    → among v (take i vs) ≡ true
    → (w : ℕ) × Elem w vs × (w ≤ m) × (v < w)
before_found m [] i v h found d = absurd cc
before_found m (x ∷ xs) i v h found d = elim (Option-cases (rposition (λ w. leb w m) xs)) [
  | inl absent ↦ absurd (first (ground arith) d)
  | inr (j, later) ↦
      let e : suc j ≡ i = ground arith in
      elim (Bool-cases (x == v)) [
        | inl same ↦
            let (w, there, le) = found-Elem m xs j later in
            (
              w,
              inr there,
              le,
              subst (λ u. u < w) (==→eq x v same) (All-Elem (λ u. x < u) xs h.0 there),
            )
        | inr other ↦
            let (w, there, le, lt) = before_found m xs j v h.1 later (tail j e other) in
            (w, inr there, le, lt)
      ]
]
  where
    first : 0 ≡ i → among v (take i (x ∷ xs)) ≡ true → ⊥
    first e k = clash (subst (λ n. among v (take n (x ∷ xs)) ≡ true) (sym e) k)
      where
        clash : false ≡ true → ⊥
        clash q = cc

    tail : (j : ℕ) → suc j ≡ i → (x == v) ≡ false → among v (take j xs) ≡ true
    tail j e other = go (subst (λ n. among v (take n (x ∷ xs)) ≡ true) (sym e) d)
      where
        go : ((x == v) || among v (take j xs)) ≡ true → among v (take j xs) ≡ true
        go q = ground arith

-- every version but the last has a newer one
before_last :
    (x : ℕ) (xs : List ℕ) (v : ℕ)
    → IsRising (x ∷ xs)
    → among v (take (length xs) (x ∷ xs)) ≡ true
    → (w : ℕ) × Elem w (x ∷ xs) × (v < w)
before_last x [] v h d = absurd cc
before_last x (y ∷ ys) v h d = elim (Bool-cases (x == v)) [
  | inl same ↦ (y, inr (inl refl), subst (λ u. u < y) (==→eq x v same) h.0.0)
  | inr other ↦ let (w, there, lt) = before_last y ys v h.1 (ground arith) in (w, inr there, lt)
]

pub before_end :
    (vs : List ℕ) (v : ℕ)
    → IsRising vs
    → among v (take (length vs - 1) vs) ≡ true
    → (w : ℕ) × Elem w vs × (v < w)
before_end [] v h d = absurd cc
before_end (x ∷ xs) v h d =
    before_last x xs v h (subst (λ n. among v (take n (x ∷ xs)) ≡ true) (omega arith) d)
