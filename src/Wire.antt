-- ===== src/Wire.antt =====
-- Byte strings as the sources write and read them: little-endian numbers, and a cursor that moves
-- through a slice. It models the methods of slices and of `from_utf8` that xtable-storage/src/chunk.rs
-- calls, and its `read_le`.
pub mod Utf8
pub mod Reads
pub mod Shrinks
mod Tests
use xtable.Prelude.{
  ℕ, zero, suc, ◌+◌, ◌*◌, ◌/◌, ◌%◌, ◌≡◌, String, Option, none, some, List, [], ◌∷◌, ◌++◌,
}
use xtable.Errors.{XtableError}
use xtable.Records.{Bytes}
use xtable.Wire.Utf8.{from_utf8}

-- `to_le_bytes` of a number that has this many bytes
unfoldable pub le : ℕ → ℕ → Bytes
le zero n = []
le (suc size) n = (n % 256) ∷ le size (n / 256)

-- `from_le_bytes`
unfoldable pub from_le : Bytes → ℕ
from_le [] = 0
from_le (b ∷ bs) = b + 256 * from_le bs

-- What a step with the cursor does: it ends with a value and the bytes ahead, fails, or panics, since a
-- slice or an index out of range does.
pub data Parsed (A : Type 0) : Type 0 where
  done : A → Bytes → Parsed A
  failed : XtableError → Parsed A
  panicked : Parsed A

-- a function of a slice and of `&mut pos`, given the bytes from the position on
abbrev pub Parser : Type 0 → Type 0
Parser A = Bytes → Parsed A

abbrev pub resume : {A B : Type 0} → Parsed A → (A → Parser B) → Parsed B
resume (done a rest) f = f a rest
resume (failed e) f = failed e
resume panicked f = panicked

infixl 5 ◌>>=◌ ◌>>◌
abbrev pub ◌>>=◌ : {A B : Type 0} → Parser A → (A → Parser B) → Parser B
◌>>=◌ p f buf = resume (p buf) f

abbrev pub ◌>>◌ : {B : Type 0} → Parser (Unit {0}) → Parser B → Parser B
p >> q = p >>= (λ _. q)

abbrev pub give : {A : Type 0} → A → Parser A
give a buf = done a buf

abbrev pub fail : {A : Type 0} → XtableError → Parser A
fail e buf = failed e

abbrev pub cons_front : ℕ → Option (Bytes × Bytes) → Option (Bytes × Bytes)
cons_front b none = none
cons_front b (some (front, back)) = some (b ∷ front, back)

-- the first so many bytes and the others, if there are so many
unfoldable pub split_at : ℕ → Bytes → Option (Bytes × Bytes)
split_at zero bs = some ([], bs)
split_at (suc n) [] = none
split_at (suc n) (b ∷ bs) = cons_front b (split_at n bs)

abbrev pub number_of : Option (Bytes × Bytes) → Parsed ℕ
number_of none = failed XtableError.storage
number_of (some (bs, rest)) = done (from_le bs) rest

-- `uN::from_le_bytes(read_le::<N>(buf, pos)?)`
unfoldable pub read_le : ℕ → Parser ℕ
read_le size buf = number_of (split_at size buf)

abbrev pub slice_of : Option (Bytes × Bytes) → Parsed Bytes
slice_of none = panicked
slice_of (some (bs, rest)) = done bs rest

-- `&buf[pos..pos + len]`
unfoldable pub slice : ℕ → Parser Bytes
slice len buf = slice_of (split_at len buf)

-- `buf[pos]`
unfoldable pub byte : Parser ℕ
byte [] = panicked
byte (b ∷ rest) = done b rest

abbrev pub text_of : Option String → Parser String
text_of none = fail XtableError.storage
text_of (some s) = give s

-- `from_utf8(&buf[pos..pos + len])?`
unfoldable pub text : ℕ → Parser String
text len = slice len >>= (λ bs. text_of (from_utf8 bs))
