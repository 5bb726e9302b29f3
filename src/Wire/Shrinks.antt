-- ===== src/Wire/Shrinks.antt =====
-- No step with the cursor goes back.
use xtable.Prelude.{
  ℕ, zero, suc, ◌+◌, ◌≡◌, ◌≤◌, refl, ap, String, Option, none, some, [], ◌∷◌, length, inl, inr,
  Option-cases, arith,
}
use xtable.Records.{Bytes}
use xtable.Wire.Utf8.{from_utf8}
use xtable.Wire.{
  Parsed, done, failed, panicked, Parser, resume, ◌>>=◌, give, cons_front, split_at, number_of,
  read_le, slice_of, slice, byte, text_of, text,
}

-- a parser that succeeds takes at least so many bytes
abbrev pub Shrinks : {A : Type 0} → ℕ → Parser A → Type 0
Shrinks {A} k p =
    (buf : Bytes) (a : A) (rest : Bytes) → p buf ≡ done a rest → k + length rest ≤ length buf

pub Shrinks-bind :
    {A B : Type 0} (k : ℕ) (p : Parser A) (f : A → Parser B)
    → Shrinks k p
    → ((a : A) → Shrinks 0 (f a))
    → Shrinks k (p >>= f)
Shrinks-bind {A} {B} k p f h g buf b rest e = go (p buf) refl e
  where
    go : (r : Parsed A) → p buf ≡ r → resume r f ≡ done b rest → k + length rest ≤ length buf
    go (done a mid) q d = omega (arith, h buf a mid q, g a mid b rest d)
    go (failed error) q d = absurd (cc)
    go panicked q d = absurd (cc)

pub Shrinks-give : {A : Type 0} (a : A) → Shrinks 0 (give a)
Shrinks-give a buf b rest e = let same : buf ≡ rest = cc in omega (arith, ap length same)

pub split_at-length :
    (n : ℕ) (bs front back : Bytes)
    → split_at n bs ≡ some (front, back)
    → n + length back ≡ length bs
unfolding split_at
split_at-length zero bs front back e = let same : bs ≡ back = cc in omega (arith, ap length same)
split_at-length (suc n) [] front back e = absurd (cc)
split_at-length (suc n) (b ∷ bs) front back e =
    go (split_at n bs) refl e (λ f r. split_at-length n bs f r)
  where
    go :
        (o : Option (Bytes × Bytes))
        → split_at n bs ≡ o
        → ◌≡◌ {A = Option (Bytes × Bytes)} (cons_front b o) (some (front, back))
        → ((f r : Bytes)
            → ◌≡◌ {A = Option (Bytes × Bytes)} (split_at n bs) (some (f, r))
            → n + length r ≡ length bs)
        → suc n + length back ≡ suc (length bs)
    go none q d ih = absurd (cc)
    go (some (f, r)) q d ih = let same : r ≡ back = cc in omega (arith, ih f r q, ap length same)

pub Shrinks-read_le : (n : ℕ) → Shrinks n (read_le n)
unfolding read_le
Shrinks-read_le n buf a rest e = elim (Option-cases (split_at n buf)) [
  | inl short ↦ absurd (cc (short, e))
  | inr (p, found) ↦
      let same : p.1 ≡ rest = back p (rw found at e) in
      omega (arith, split_at-length n buf p.0 p.1 found, ap length same)
]
  where
    back : (p : Bytes × Bytes) → number_of (some p) ≡ done a rest → p.1 ≡ rest
    back (f, r) q = cc

pub Shrinks-slice : (n : ℕ) → Shrinks 0 (slice n)
unfolding slice
Shrinks-slice n buf a rest e = elim (Option-cases (split_at n buf)) [
  | inl short ↦ absurd (cc (short, e))
  | inr (p, found) ↦
      let same : p.1 ≡ rest = back p (rw found at e) in
      omega (arith, split_at-length n buf p.0 p.1 found, ap length same)
]
  where
    back : (p : Bytes × Bytes) → slice_of (some p) ≡ done a rest → p.1 ≡ rest
    back (f, r) q = cc

pub Shrinks-byte : Shrinks 0 byte
unfolding byte
Shrinks-byte [] a rest e = absurd (cc)
Shrinks-byte (b ∷ bs) a rest e = let same : bs ≡ rest = cc in omega (arith, ap length same)

pub Shrinks-text_of : (o : Option String) → Shrinks 0 (text_of o)
Shrinks-text_of none buf a rest e = absurd (cc)
Shrinks-text_of (some s) buf a rest e = Shrinks-give s buf a rest e

pub Shrinks-text : (n : ℕ) → Shrinks 0 (text n)
unfolding text
Shrinks-text n = Shrinks-bind 0 (slice n) _ (Shrinks-slice n) (λ bs. Shrinks-text_of (from_utf8 bs))
