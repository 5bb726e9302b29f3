-- ===== src/Wire/Reads.antt =====
-- What the parsers read from what the writers write: the rule for a sequence, and one for each step.
use xtable.Prelude.{
  ℕ, zero, suc, ◌*◌, ◌/◌, ◌≡◌, ◌<◌, refl, sym, ◌∙◌, ap, String, some, [], ◌∷◌, ◌++◌, length, arith,
}
use mathlib.Core.List.{append_assoc}
use xtable.Records.{Bytes}
use xtable.Wire.Utf8.{as_bytes, from_utf8, from_utf8-as_bytes}
use xtable.Wire.{
  le, from_le, done, Parser, resume, ◌>>=◌, give, split_at, number_of, read_le, slice_of, slice,
  byte, text_of, text,
}

-- from these bytes, whatever follows them, the parser takes this value and nothing of what follows
abbrev pub Reads : {A : Type 0} → Parser A → Bytes → A → Type 0
Reads p bs a = (rest : Bytes) → p (bs ++ rest) ≡ done a rest

pub Reads-bind :
    {A B : Type 0} (p : Parser A) (f : A → Parser B) (a : A) (b : B) (xs ys : Bytes)
    → Reads p xs a
    → Reads (f a) ys b
    → Reads (p >>= f) (xs ++ ys) b
Reads-bind p f a b xs ys h k rest =
    ap (λ zs. resume (p zs) f) (append_assoc xs ys rest)
    ∙ ap (λ r. resume r f) (h (ys ++ rest))
    ∙ k rest

pub Reads-give : {A : Type 0} (a : A) → Reads (give a) [] a
Reads-give a rest = refl

-- a last step that reads nothing
pub Reads-end :
    {A B : Type 0} (p : Parser A) (g : A → B) (a : A) (xs : Bytes)
    → Reads p xs a
    → Reads (p >>= (λ x. give (g x))) xs (g a)
Reads-end p g a xs h rest = ap (λ r. resume r (λ x. give (g x))) (h rest)

pub split_at-append : (xs rest : Bytes) → split_at (length xs) (xs ++ rest) ≡ some (xs, rest)
unfolding split_at
split_at-append [] rest = refl
split_at-append (x ∷ xs) rest = rw (split_at-append xs rest) refl

pub length-le : (size n : ℕ) → length (le size n) ≡ size
unfolding le
length-le zero n = refl
length-le (suc size) n = ap suc (length-le size (n / 256))

-- the numbers of so many bytes
abbrev pub capacity : ℕ → ℕ
capacity zero = 1
capacity (suc size) = 256 * capacity size

pub from_le-le : (size n : ℕ) → n < capacity size → from_le (le size n) ≡ n
unfolding le from_le
from_le-le zero n h = omega arith
from_le-le (suc size) n h = omega (arith, from_le-le size (n / 256) (omega arith))

pub Reads-le : (size n : ℕ) → n < capacity size → Reads (read_le size) (le size n) n
unfolding read_le
Reads-le size n h rest =
    ap (λ k. number_of (split_at k (le size n ++ rest))) (sym (length-le size n))
    ∙ ap number_of (split_at-append (le size n) rest)
    ∙ ap (λ k. done k rest) (from_le-le size n h)

-- a number that is not looked at
pub Reads-le_any : (size n : ℕ) → Reads (read_le size) (le size n) (from_le (le size n))
unfolding read_le
Reads-le_any size n rest =
    ap (λ k. number_of (split_at k (le size n ++ rest))) (sym (length-le size n))
    ∙ ap number_of (split_at-append (le size n) rest)

pub Reads-slice : (n : ℕ) (xs : Bytes) → length xs ≡ n → Reads (slice n) xs xs
unfolding slice
Reads-slice n xs e rest =
    ap (λ k. slice_of (split_at k (xs ++ rest))) (sym e) ∙ ap slice_of (split_at-append xs rest)

pub Reads-byte : (b : ℕ) → Reads byte (b ∷ []) b
unfolding byte
Reads-byte b rest = refl

pub Reads-text : (n : ℕ) (s : String) → length (as_bytes s) ≡ n → Reads (text n) (as_bytes s) s
unfolding text
Reads-text n s e rest =
    ap (λ r. resume r (λ bs. text_of (from_utf8 bs))) (Reads-slice n (as_bytes s) e rest)
    ∙ ap (λ o. text_of o rest) (from_utf8-as_bytes s)
