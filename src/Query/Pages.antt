-- ===== src/Query/Pages.antt =====
-- Pages of a query.
use xtable.Prelude.{
  ℕ, zero, suc, ◌+◌, ◌≡◌, ◌≤◌, refl, sym, ◌∙◌, ap, true, Option, none, some, List, [], ◌∷◌, ◌++◌,
  retain, take, drop, length, min, ltb, if◌then◌else◌, Bool-cases, inl, inr, arith,
}
use mathlib.Core.Option
use xtable.Query.{Numbers, Record, Query, passes, ordered, limited, cut, run}

module _ {A : Type 0} where
  drop-past : (n : ℕ) (xs : List A) → length xs ≤ n → drop n xs ≡ []
  drop-past zero [] h = refl
  drop-past zero (x ∷ xs) h = absurd (omega arith)
  drop-past (suc n) [] h = refl
  drop-past (suc n) (x ∷ xs) h = drop-past n xs (omega arith)

  drop-min : (n : ℕ) (xs : List A) → drop (min n (length xs)) xs ≡ drop n xs
  drop-min n xs = elim (Bool-cases (ltb (length xs) n)) [
    | inl past ↦
        drop-past (min n (length xs)) xs (ground arith) ∙ sym (drop-past n xs (ground arith))
    | inr within ↦ ap (λ k. drop k xs) (let e : min n (length xs) ≡ n = ground arith in e)
  ]

  skip_lem : (k : ℕ) (xs : List A) → (if ltb 0 k then drop k xs else xs) ≡ drop k xs
  skip_lem zero xs = refl
  skip_lem (suc n) xs = let on : ltb 0 (suc n) ≡ true = ground arith in rw on refl

  take-take : (n m : ℕ) (xs : List A) → take n xs ++ take m (drop n xs) ≡ take (n + m) xs
  take-take zero m xs = ap (λ k. take k xs) (let e : m ≡ 0 + m = omega arith in e)
  take-take (suc n) m [] =
      take_nil m ∙ ap (λ k. take {A = A} k []) (let e : suc (n + m) ≡ suc n + m = omega arith in e)
    where
      take_nil : (m : ℕ) → take {A = A} m [] ≡ []
      take_nil zero = refl
      take_nil (suc m) = refl
  take-take (suc n) m (x ∷ xs) =
      ap (λ ys. x ∷ ys) (take-take n m xs)
      ∙ ap (λ k. take k (x ∷ xs)) (let e : suc (n + m) ≡ suc n + m = omega arith in e)

  drop-drop : (n m : ℕ) (xs : List A) → drop m (drop n xs) ≡ drop (n + m) xs
  drop-drop zero m xs = ap (λ k. drop k xs) (let e : m ≡ 0 + m = omega arith in e)
  drop-drop (suc n) m [] =
      drop-past m [] (omega arith) ∙ sym (drop-past (suc n + m) [] (omega arith))
  drop-drop (suc n) m (x ∷ xs) =
      drop-drop n m xs
      ∙ ap (λ k. drop k (x ∷ xs)) (let e : suc (n + m) ≡ suc n + m = omega arith in e)

module _ {N : Type 0} ⦃numbers : Numbers N⦄ where
  -- the records of a query before it is cut into pages
  abbrev pub found : Query N → List (Record N) → Option (List (Record N))
  found q rs = ordered q.order_by (retain (passes q) rs)

  cut_lem : (q : Query N) (out : List (Record N)) → cut q out ≡ limited q.limit (drop q.offset out)
  cut_lem q out =
      ap (limited q.limit) (skip_lem (min q.offset (length out)) out ∙ drop-min q.offset out)

  abbrev pub page : Query N → ℕ → ℕ → Query N
  page q offset n = record q { offset = offset; limit = some n }

  -- two results, one after the other
  abbrev pub joined : Option (List (Record N)) → Option (List (Record N)) → Option (List (Record N))
  joined (some xs) (some ys) = some (xs ++ ys)
  joined none r = none
  joined (some xs) none = none

  cut-page :
      (q : Query N) (out : List (Record N)) (offset n m : ℕ)
      → cut (page q offset n) out ++ cut (page q (offset + n) m) out
        ≡ cut (page q offset (n + m)) out
  cut-page q out offset n m =
      rw
        (
          cut_lem (page q offset n) out,
          cut_lem (page q (offset + n) m) out,
          cut_lem (page q offset (n + m)) out,
          ← drop-drop offset n out,
        )
        (take-take n m (drop offset out))

  -- Pages tile the result of a query: a page and the page that begins where it ends are together the page
  -- of both their lengths, with no record lost and none twice, and all three or none have a result.
  pub run-page :
      (q : Query N) (rs : List (Record N)) (offset n m : ℕ)
      → joined (run (page q offset n) rs) (run (page q (offset + n) m) rs)
        ≡ run (page q offset (n + m)) rs
  unfolding run
  run-page q rs offset n m = go (found q rs)
    where
      go :
          (o : Option (List (Record N)))
          → joined
              (Option.map (cut (page q offset n)) o)
              (Option.map (cut (page q (offset + n) m)) o)
            ≡ Option.map (cut (page q offset (n + m))) o
      go none = refl
      go (some out) = ap some (cut-page q out offset n m)
