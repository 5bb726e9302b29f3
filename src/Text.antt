-- ===== src/Text.antt =====
-- The methods of `str` and of `u32` that the sources use on keys, written out on the characters. It
-- models no code of its own.
pub mod Laws
mod Tests
use Prim.Native.Char.{Char, char, code}
use Prim.Native.String
use xtable.Prelude.{
  ℕ, zero, suc, ◌+◌, ◌-◌, ◌*◌, ◌/◌, ◌%◌, ◌≡◌, String, Bool, true, false, ◌&&◌, Option, none, some,
  List, [], ◌∷◌, ltb, leb, ◌==◌, nat_key, string_key, if◌then◌else◌,
}
use mathlib.Core.Option

infixl 5 ◌>>=◌
abbrev pub ◌>>=◌ {ℓ κ} : {A : Type ℓ} {B : Type κ} → Option A → (A → Option B) → Option B
none >>= f = none
some a >>= f = f a

unfoldable pub strip_prefix : String → String → Option String
strip_prefix String.[] s = some s
strip_prefix (String.◌∷◌ c p) String.[] = none
strip_prefix (String.◌∷◌ c p) (String.◌∷◌ d s) =
    let rest = strip_prefix p s in if code c == code d then rest else none

abbrev pub cons_text : Char → Option String → Option String
cons_text c o = Option.map (λ s. String.◌∷◌ c s) o

unfoldable pub strip_suffix : String → String → Option String
strip_suffix suffix String.[] = if suffix == "" then some "" else none
strip_suffix suffix (String.◌∷◌ c s) =
    let rest = strip_suffix suffix s in
    if suffix == String.◌∷◌ c s then some "" else cons_text c rest

abbrev pub cons_first : Char → Option (String × String) → Option (String × String)
cons_first c o = Option.map (λ p. (String.◌∷◌ c p.0, p.1)) o

-- the text before the first `/`, and the text after it
unfoldable pub split_slash : String → Option (String × String)
split_slash String.[] = none
split_slash (String.◌∷◌ c s) =
    let rest = split_slash s in if code c == b'/' then some ("", s) else cons_first c rest

abbrev pub cons_head : Char → List String → List String
cons_head c [] = String.◌∷◌ c "" ∷ []
cons_head c (s ∷ parts) = String.◌∷◌ c s ∷ parts

-- `split('/')`
unfoldable pub split : String → List String
split String.[] = "" ∷ []
split (String.◌∷◌ c s) =
    let rest = split s in if code c == b'/' then "" ∷ rest else cons_head c rest

unfoldable pub all_chars : (Char → Bool) → String → Bool
all_chars p String.[] = true
all_chars p (String.◌∷◌ c s) = p c && all_chars p s

abbrev pub u32_end : ℕ
u32_end = 4_294_967_296

-- the character at a place, and else the last one
abbrev pub nth : Char → String → ℕ → Char
nth d String.[] n = d
nth d (String.◌∷◌ c s) zero = c
nth d (String.◌∷◌ c s) (suc n) = nth d s n

abbrev pub digit : ℕ → Char
digit n = nth (char 57 tt) "012345678" n

-- the digits of a number that has at most `places` of them, before a text
unfoldable pub show_before : ℕ → ℕ → String → String
show_before zero n tail = tail
show_before (suc places) n tail =
    let more = show_before places (n / 10) (String.◌∷◌ (digit (n % 10)) tail) in
    if ltb n 10 then String.◌∷◌ (digit n) tail else more

-- `Display` of `u32`, which has at most ten digits
abbrev pub show_u32 : ℕ → String
show_u32 n = show_before 10 n ""

abbrev pub is_digit : Char → Bool
is_digit c = leb 48 (code c) && leb (code c) 57

abbrev pub next_value : ℕ → Char → ℕ
next_value n c = n * 10 + (code c - 48)

-- the digits of a text after those that make `n`, each step checked for overflow
unfoldable pub parse_digits : ℕ → String → Option ℕ
parse_digits n String.[] = some n
parse_digits n (String.◌∷◌ c s) =
    let rest = parse_digits (next_value n c) s in
    if is_digit c && ltb (next_value n c) u32_end then rest else none

-- `parse::<u32>()`: digits after an optional plus sign
unfoldable pub parse_u32 : String → Option ℕ
parse_u32 String.[] = none
parse_u32 (String.◌∷◌ c s) =
    if code c == b'+'
    then (if s == "" then none else parse_digits 0 s)
    else parse_digits 0 (String.◌∷◌ c s)
