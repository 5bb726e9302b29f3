-- ===== src/Wire/Utf8.antt =====
-- UTF-8: `as_bytes` of a text, and `from_utf8`.
use Prim.Native.Char.{Char, char, code, IsLt}
use Prim.Native.Nat.{compare, Ordering}
use xtable.Prelude.{
  ℕ, zero, suc, ◌+◌, ◌-◌, ◌*◌, ◌/◌, ◌%◌, ◌≡◌, ◌<◌, ◌≤◌, refl, String, true, false, ◌&&◌, Option,
  none, some, [], ◌∷◌, ◌++◌, ltb, leb, ◌==◌, nat_key, if◌then◌else◌, arith, tests, ltb→lt, inl, inr,
  Bool-cases, ◌∙◌, ap,
}
use mathlib.Core.Option
use xtable.Records.{Bytes}

abbrev pub char_bytes : ℕ → Bytes
char_bytes n =
    if ltb n 0x80
    then n ∷ []
    else if ltb n 0x800
    then (0xc0 + n / 64) ∷ (0x80 + n % 64) ∷ []
    else if ltb n 0x10000
    then (0xe0 + n / 4096) ∷ (0x80 + n / 64 % 64) ∷ (0x80 + n % 64) ∷ []
    else (0xf0 + n / 262144) ∷ (0x80 + n / 4096 % 64) ∷ (0x80 + n / 64 % 64) ∷ (0x80 + n % 64) ∷ []

unfoldable pub as_bytes : String → Bytes
as_bytes String.[] = []
as_bytes (String.◌∷◌ c s) = char_bytes (code c) ++ as_bytes s

-- the proof that a number is a scalar value, by the three comparisons that decide it
abbrev IsBoth : Ordering → Ordering → Type 0
IsBoth Ordering.lt o = IsLt o
IsBoth Ordering.eq _ = ⊥
IsBoth Ordering.gt _ = ⊥

abbrev IsScalar : Ordering → Ordering → Ordering → Type 0
IsScalar Ordering.lt _ _ = Unit
IsScalar Ordering.eq o p = IsBoth o p
IsScalar Ordering.gt o p = IsBoth o p

abbrev pub decide_both : (o p : Ordering) → Option (IsBoth o p)
decide_both Ordering.lt Ordering.lt = some tt
decide_both Ordering.lt Ordering.eq = none
decide_both Ordering.lt Ordering.gt = none
decide_both Ordering.eq p = none
decide_both Ordering.gt p = none

abbrev pub decide_scalar : (o p q : Ordering) → Option (IsScalar o p q)
decide_scalar Ordering.lt p q = some tt
decide_scalar Ordering.eq p q = decide_both p q
decide_scalar Ordering.gt p q = decide_both p q

-- `char::from_u32`
unfoldable pub to_char : ℕ → Option Char
to_char n =
    Option.map (λ p. char n p)
      (decide_scalar (compare n 55296) (compare 57343 n) (compare n 1114112))

abbrev pub push : ℕ → Option String → Option String
push n none = none
push n (some s) = Option.map (λ c. String.◌∷◌ c s) (to_char n)

-- with so many continuation bytes to come, the bits read so far, and the least value that may be
-- written with this length
unfoldable pub decode : ℕ → ℕ → ℕ → Bytes → Option String
decode zero acc least [] = some ""
decode (suc k) acc least [] = none
decode zero acc least (b ∷ bs) =
    let one = push b (decode 0 0 0 bs) in
    let two = decode 1 (b - 0xc0) 0x80 bs in
    let three = decode 2 (b - 0xe0) 0x800 bs in
    let four = decode 3 (b - 0xf0) 0x10000 bs in
    if ltb b 0x80
    then one
    else if leb 0xc2 b && ltb b 0xe0
    then two
    else if leb 0xe0 b && ltb b 0xf0
    then three
    else if leb 0xf0 b && ltb b 0xf5
    then four
    else none
decode (suc k) acc least (b ∷ bs) =
    let value = acc * 64 + (b - 0x80) in
    let last = push value (decode 0 0 0 bs) in
    let more = decode k value least bs in
    if leb 0x80 b && ltb b 0xc0
    then (if k == 0 then (if leb least value then last else none) else more)
    else none

-- `from_utf8`
abbrev pub from_utf8 : Bytes → Option String
from_utf8 = decode 0 0 0

decides_both : (o p : Ordering) (q : IsBoth o p) → decide_both o p ≡ some q
decides_both Ordering.lt Ordering.lt q = refl
decides_both Ordering.lt Ordering.eq q = elim q [ ]
decides_both Ordering.lt Ordering.gt q = elim q [ ]
decides_both Ordering.eq p q = elim q [ ]
decides_both Ordering.gt p q = elim q [ ]

decides_scalar : (o p q : Ordering) (r : IsScalar o p q) → decide_scalar o p q ≡ some r
decides_scalar Ordering.lt p q r = refl
decides_scalar Ordering.eq p q r = decides_both p q r
decides_scalar Ordering.gt p q r = decides_both p q r

to_char-code : (c : Char) → to_char (code c) ≡ some c
unfolding to_char
to_char-code (char n p) =
    rw (decides_scalar (compare n 55296) (compare 57343 n) (compare n 1114112) p) refl

decode-first1 : (n : ℕ) (bs : Bytes) → n < 0x80 → decode 0 0 0 (n ∷ bs) ≡ push n (decode 0 0 0 bs)
unfolding decode
decode-first1 n bs h = ground arith

decode-first2 :
    (d : ℕ) (bs : Bytes) → 2 ≤ d → d < 32 → decode 0 0 0 ((0xc0 + d) ∷ bs) ≡ decode 1 d 0x80 bs
unfolding decode
decode-first2 d bs l h =
    let e : 0xc0 + d - 0xc0 ≡ d = omega arith in
    let a : ltb (0xc0 + d) 0x80 ≡ false = ground arith in
    let b : (leb 0xc2 (0xc0 + d) && ltb (0xc0 + d) 0xe0) ≡ true = ground arith in rw (a, b, e) refl

decode-first3 : (d : ℕ) (bs : Bytes) → d < 16 → decode 0 0 0 ((0xe0 + d) ∷ bs) ≡ decode 2 d 0x800 bs
unfolding decode
decode-first3 d bs h =
    let e : 0xe0 + d - 0xe0 ≡ d = omega arith in
    let a : ltb (0xe0 + d) 0x80 ≡ false = ground arith in
    let b : (leb 0xc2 (0xe0 + d) && ltb (0xe0 + d) 0xe0) ≡ false = ground arith in
    let c : (leb 0xe0 (0xe0 + d) && ltb (0xe0 + d) 0xf0) ≡ true = ground arith in
    rw (a, b, c, e) refl

decode-first4 :
    (d : ℕ) (bs : Bytes) → d < 5 → decode 0 0 0 ((0xf0 + d) ∷ bs) ≡ decode 3 d 0x10000 bs
unfolding decode
decode-first4 d bs h =
    let e : 0xf0 + d - 0xf0 ≡ d = omega arith in
    let a : ltb (0xf0 + d) 0x80 ≡ false = ground arith in
    let b : (leb 0xc2 (0xf0 + d) && ltb (0xf0 + d) 0xe0) ≡ false = ground arith in
    let c : (leb 0xe0 (0xf0 + d) && ltb (0xf0 + d) 0xf0) ≡ false = ground arith in
    let f : (leb 0xf0 (0xf0 + d) && ltb (0xf0 + d) 0xf5) ≡ true = ground arith in
    rw (a, b, c, f, e) refl

decode-last :
    (n acc least d : ℕ) (bs : Bytes)
    → d < 64
    → acc * 64 + d ≡ n
    → least ≤ n
    → decode 1 acc least ((0x80 + d) ∷ bs) ≡ push n (decode 0 0 0 bs)
unfolding decode
decode-last n acc least d bs h e l =
    let value : acc * 64 + (0x80 + d - 0x80) ≡ n = omega arith in
    let a : (leb 0x80 (0x80 + d) && ltb (0x80 + d) 0xc0) ≡ true = ground arith in
    let b : leb least n ≡ true = ground arith in rw (a, value, b) refl

decode-more :
    (k acc least d : ℕ) (bs : Bytes)
    → d < 64
    → decode (suc (suc k)) acc least ((0x80 + d) ∷ bs) ≡ decode (suc k) (acc * 64 + d) least bs
unfolding decode
decode-more k acc least d bs h =
    let value : acc * 64 + (0x80 + d - 0x80) ≡ acc * 64 + d = omega arith in
    let a : (leb 0x80 (0x80 + d) && ltb (0x80 + d) 0xc0) ≡ true = ground arith in
    let b : (suc k == 0) ≡ false = ground arith in rw (a, b, value) refl

decode-char_bytes :
    (n : ℕ) (bs : Bytes)
    → n < 0x110000
    → decode 0 0 0 (char_bytes n ++ bs) ≡ push n (decode 0 0 0 bs)
decode-char_bytes n bs h = elim (Bool-cases (ltb n 0x80)) [
  | inl a ↦ rw a (decode-first1 n bs (ltb→lt n 0x80 a))
  | inr a ↦ elim (Bool-cases (ltb n 0x800)) [
    | inl b ↦
        rw (a, b)
          (decode-first2 (n / 64) _ (omega tests) (omega tests)
            ∙ decode-last n (n / 64) 0x80 (n % 64) bs (omega arith) (omega arith) (omega tests))
    | inr b ↦ elim (Bool-cases (ltb n 0x10000)) [
      | inl c ↦
          rw (a, b, c)
            (decode-first3 (n / 4096) _ (omega tests)
              ∙ decode-more 0 (n / 4096) 0x800 (n / 64 % 64) _ (omega arith)
              ∙ decode-last n (n / 4096 * 64 + n / 64 % 64) 0x800 (n % 64) bs (omega arith)
                  (omega arith) (omega tests))
      | inr c ↦
          rw (a, b, c)
            (decode-first4 (n / 262144) _ (omega tests)
              ∙ decode-more 1 (n / 262144) 0x10000 (n / 4096 % 64) _ (omega arith)
              ∙ decode-more 0 (n / 262144 * 64 + n / 4096 % 64) 0x10000 (n / 64 % 64) _
                  (omega arith)
              ∙ decode-last n ((n / 262144 * 64 + n / 4096 % 64) * 64 + n / 64 % 64) 0x10000
                  (n % 64) bs (omega arith) (omega arith) (omega tests))
    ]
  ]
]

code-lt : (c : Char) → code c < 0x110000
code-lt (char n p) = below (compare n 55296) refl p
  where
    below :
        (o : Ordering)
        → compare n 55296 ≡ o
        → IsScalar o (compare 57343 n) (compare n 1114112)
        → n < 0x110000
    below Ordering.lt e q = ground arith
    below Ordering.eq e q = ground arith
    below Ordering.gt e q = high (compare 57343 n) (compare n 1114112) refl q
      where
        high : (o r : Ordering) → compare n 1114112 ≡ r → IsBoth o r → n < 0x110000
        high Ordering.lt Ordering.lt f q = ground arith
        high Ordering.lt Ordering.eq f q = elim q [ ]
        high Ordering.lt Ordering.gt f q = elim q [ ]
        high Ordering.eq r f q = elim q [ ]
        high Ordering.gt r f q = elim q [ ]

-- A text is read back from its bytes.
pub from_utf8-as_bytes : (s : String) → from_utf8 (as_bytes s) ≡ some s
unfolding as_bytes decode
from_utf8-as_bytes String.[] = refl
from_utf8-as_bytes (String.◌∷◌ c s) =
    decode-char_bytes (code c) (as_bytes s) (code-lt c)
    ∙ ap (push (code c)) (from_utf8-as_bytes s)
    ∙ ap (Option.map (λ d. String.◌∷◌ d s)) (to_char-code c)
