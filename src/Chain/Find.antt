-- ===== src/Chain/Find.antt =====
-- The searches from the back of a list: `iter().rev().find(p)` and `iter().rposition(p)`.
use xtable.Prelude.{
  ℕ, suc, ◌≡◌, refl, ◌∙◌, ap, Bool, true, inl, inr, Option, none, some, List, [], ◌∷◌, ◌++◌,
  reverse, find, drop, rposition, Option-cases, if◌then◌else◌, arith,
}
use mathlib.Core.List.{reverse-cons}

abbrev pub or_else {ℓ} : {A : Type ℓ} → Option A → Option A → Option A
or_else (some a) o = some a
or_else none o = o

module _ {ℓ} {A : Type ℓ} (p : A → Bool) where
  -- `rev().find(p)` as a recursion from the front
  abbrev pub find_last : List A → Option A
  find_last [] = none
  find_last (x ∷ xs) = or_else (find_last xs) (if p x then some x else none)

  find-append : (xs ys : List A) → find p (xs ++ ys) ≡ or_else (find p xs) (find p ys)
  find-append [] ys = refl
  find-append (x ∷ xs) ys = ground (arith, find-append xs ys)

  pub find-reverse : (xs : List A) → find p (reverse xs) ≡ find_last xs
  find-reverse [] = refl
  find-reverse (x ∷ xs) =
      ap (find p) (reverse-cons x xs)
      ∙ find-append (reverse xs) (x ∷ [])
      ∙ ap (λ o. or_else o (if p x then some x else none)) (find-reverse xs)

  or_else-some : (o : Option A) (x : A) → (y : A) × (or_else o (some x) ≡ some y)
  or_else-some (some y) x = (y, refl)
  or_else-some none x = (x, refl)

module _ {ℓ} {A : Type ℓ} (p q : A → Bool) (imp : (x : A) → p x ≡ true → q x ≡ true) where
  -- Dropping what stands before the last hit of a stricter test keeps the last hit.
  pub find_last-drop :
      (xs : List A) (i : ℕ)
      → rposition p xs ≡ some i
      → (y : A) × (find_last q (drop i xs) ≡ some y) × (find_last q xs ≡ some y)
  find_last-drop [] i h = cc
  find_last-drop (x ∷ xs) i h = elim (Option-cases (rposition p xs)) [
    | inr (j, found) ↦
        let (y, kept, whole) = find_last-drop xs j found in
        let e : suc j ≡ i = ground arith in rw (← e) (y, kept, rw whole refl)
    | inl absent ↦
        let e : 0 ≡ i = ground arith in
        let here : q x ≡ true = ground (arith, imp x) in
        let (y, kept) = or_else-some q (find_last q xs) x in rw (← e, here) (y, kept, kept)
  ]
