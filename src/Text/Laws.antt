-- ===== src/Text/Laws.antt =====
-- What the methods on texts do to a text that is put together.
use Prim.Native.Char.{Char, code}
use Prim.Native.String.{◌++◌, count}
use Prim.Native.String.count
use text.Mathlib.TextLemmas.{cons-append, nil-append, length-append}
use xtable.Prelude.{
  ℕ, zero, suc, ◌+◌, ◌*◌, ◌/◌, ◌%◌, ◌<◌, ◌≡◌, ◌≢◌, refl, sym, ◌∙◌, ap, inl, inr, String, Bool, true,
  false, ◌&&◌, some, [], ◌∷◌, ltb, ◌==◌, ==_self, ne→==, Bool-cases, nat_key, string_key,
  if◌then◌else◌, arith,
}
use xtable.Text.{
  split, all_chars, split_slash, strip_prefix, strip_suffix, digit, show_before, show_u32,
  next_value, is_digit, parse_digits, parse_u32, u32_end,
}

abbrev pub not_slash : Char → Bool
not_slash c = if code c == b'/' then false else true

slash-append : (s : String) → "/" ++ s ≡ String.◌∷◌ "/" s
slash-append s = cons-append "/" String.[] s ∙ ap (String.◌∷◌ "/") (nil-append s)

-- `split` at the first slash
pub split-append :
    (a s : String) → all_chars not_slash a ≡ true → split (a ++ ("/" ++ s)) ≡ a ∷ split s
unfolding split all_chars
split-append String.[] s h = rw (nil-append ("/" ++ s), slash-append s) refl
split-append (String.◌∷◌ c a) s h =
    rw (cons-append c a ("/" ++ s)) (ground (arith, split-append a s))

pub split-all : (a : String) → all_chars not_slash a ≡ true → split a ≡ a ∷ []
unfolding split all_chars
split-all String.[] h = refl
split-all (String.◌∷◌ c a) h = ground (arith, split-all a)

pub all_chars-append :
    (p : Char → Bool) (a b : String)
    → all_chars p a ≡ true
    → all_chars p b ≡ true
    → all_chars p (a ++ b) ≡ true
unfolding all_chars
all_chars-append p String.[] b h k = rw (nil-append b) k
all_chars-append p (String.◌∷◌ c a) b h k =
    rw (cons-append c a b) (ground (arith, all_chars-append p a b))

code-digit : (d : ℕ) → d < 10 → code (digit d) ≡ 48 + d
code-digit zero h = refl
code-digit (suc zero) h = refl
code-digit (suc (suc zero)) h = refl
code-digit (suc (suc (suc zero))) h = refl
code-digit (suc (suc (suc (suc zero)))) h = refl
code-digit (suc (suc (suc (suc (suc zero))))) h = refl
code-digit (suc (suc (suc (suc (suc (suc zero)))))) h = refl
code-digit (suc (suc (suc (suc (suc (suc (suc zero))))))) h = refl
code-digit (suc (suc (suc (suc (suc (suc (suc (suc zero)))))))) h = refl
code-digit (suc (suc (suc (suc (suc (suc (suc (suc (suc n))))))))) h = omega arith

abbrev pub pow10 : ℕ → ℕ
pow10 zero = 1
pow10 (suc p) = 10 * pow10 p

parse_digits-step :
    (m d : ℕ) (c : Char) (tail : String)
    → code c ≡ 48 + d
    → d < 10
    → m * 10 + d < u32_end
    → parse_digits m (String.◌∷◌ c tail) ≡ parse_digits (m * 10 + d) tail
unfolding parse_digits
parse_digits-step m d c tail e h k =
    let value : next_value m c ≡ m * 10 + d = omega arith in
    let guard : (is_digit c && ltb (m * 10 + d) u32_end) ≡ true = ground arith in
    rw (value, guard) refl

ltb-below : (n m : ℕ) → n < m → ltb n m ≡ true
ltb-below n m h = ground arith

parse_digits-show_before :
    (p n : ℕ) (tail : String)
    → n < pow10 (suc p)
    → n < u32_end
    → parse_digits 0 (show_before (suc p) n tail) ≡ parse_digits n tail
unfolding show_before
parse_digits-show_before zero n tail h k =
    let below : n < 10 = omega arith in
    rw (ltb-below n 10 below) (
      parse_digits-step 0 n (digit n) tail (code-digit n below) below (omega arith)
      ∙ ap (λ m. parse_digits m tail) (omega arith))
parse_digits-show_before (suc p) n tail h k =
    let r = n % 10 in
    let q = n / 10 in
    elim (Bool-cases (ltb n 10)) [
      | inl small ↦
          let below : n < 10 = ground arith in
          rw small (
            parse_digits-step 0 n (digit n) tail (code-digit n below) below (omega arith)
            ∙ ap (λ m. parse_digits m tail) (omega arith))
      | inr large ↦ rw large (
          parse_digits-show_before p (n / 10) (String.◌∷◌ (digit (n % 10)) tail) (omega arith)
            (omega arith)
          ∙ parse_digits-step (n / 10) (n % 10) (digit (n % 10)) tail
              (code-digit (n % 10) (omega arith)) (omega arith) (omega arith)
          ∙ ap (λ m. parse_digits m tail) (omega arith))
    ]

no_suffix : (c : Char) (s suffix : String) → suffix ≢ String.◌∷◌ c (s ++ suffix)
no_suffix c s suffix e =
    let counts = ap count e ∙ count.cons c (s ++ suffix) ∙ ap suc (length-append s suffix) in
    omega arith

pub strip_suffix-append : (s suffix : String) → strip_suffix suffix (s ++ suffix) ≡ some s
unfolding strip_suffix
strip_suffix-append String.[] String.[] = rw (nil-append "") refl
strip_suffix-append String.[] (String.◌∷◌ c t) =
    rw (nil-append (String.◌∷◌ c t), ==_self (String.◌∷◌ c t)) refl
strip_suffix-append (String.◌∷◌ c s) suffix =
    rw
      (
        cons-append c s suffix,
        ne→== suffix (String.◌∷◌ c (s ++ suffix)) (no_suffix c s suffix),
        strip_suffix-append s suffix,
      )
      refl

pub strip_prefix-append : (p s : String) → strip_prefix p (p ++ s) ≡ some s
unfolding strip_prefix
strip_prefix-append String.[] s = rw (nil-append s) refl
strip_prefix-append (String.◌∷◌ c p) s =
    rw (cons-append c p s, ==_self (code c)) (strip_prefix-append p s)

pub split_slash-append :
    (a s : String) → all_chars not_slash a ≡ true → split_slash (a ++ ("/" ++ s)) ≡ some (a, s)
unfolding split_slash all_chars
split_slash-append String.[] s h = rw (nil-append ("/" ++ s), slash-append s) refl
split_slash-append (String.◌∷◌ c a) s h =
    rw (cons-append c a ("/" ++ s)) (ground (arith, split_slash-append a s))

all_chars-digit :
    (p : Char → Bool)
    → ((d : ℕ) → d < 10 → p (digit d) ≡ true)
    → (n : ℕ) → n < 10
    → (tail : String) → all_chars p tail ≡ true
    → all_chars p (String.◌∷◌ (digit n) tail) ≡ true
unfolding all_chars
all_chars-digit p h n k tail t = rw (h n k) t

pub all_chars-show_before :
    (p : Char → Bool)
    → ((d : ℕ) → d < 10 → p (digit d) ≡ true)
    → (places n : ℕ) (tail : String) → all_chars p tail ≡ true
    → all_chars p (show_before places n tail) ≡ true
unfolding show_before
all_chars-show_before p h zero n tail t = t
all_chars-show_before p h (suc places) n tail t = elim (Bool-cases (ltb n 10)) [
  | inl small ↦ rw small (all_chars-digit p h n (below n small) tail t)
  | inr large ↦ rw large (
      all_chars-show_before p h places (n / 10) _
        (all_chars-digit p h (n % 10) (omega arith) tail t))
]
  where
    below : (n : ℕ) → ltb n 10 ≡ true → n < 10
    below n e = ground arith

pub not_slash-digit : (d : ℕ) → d < 10 → not_slash (digit d) ≡ true
not_slash-digit d h = let e = code-digit d h in ground arith

-- a text that shows a number begins with a digit
show_before-cons :
    (places n : ℕ) (tail : String)
    → (d : ℕ) × (s : String) × (d < 10) × (show_before (suc places) n tail ≡ String.◌∷◌ (digit d) s)
unfolding show_before
show_before-cons zero n tail = elim (Bool-cases (ltb n 10)) [
  | inl small ↦ (n, tail, ground arith, rw small refl)
  | inr large ↦ (n % 10, tail, omega arith, rw large refl)
]
show_before-cons (suc places) n tail = elim (Bool-cases (ltb n 10)) [
  | inl small ↦ (n, tail, ground arith, rw small refl)
  | inr large ↦
      let (d, s, below, e) = show_before-cons places (n / 10) (String.◌∷◌ (digit (n % 10)) tail) in
      (d, s, below, rw large e)
]

parse_u32-digit :
    (d : ℕ) (s : String)
    → d < 10
    → parse_u32 (String.◌∷◌ (digit d) s) ≡ parse_digits 0 (String.◌∷◌ (digit d) s)
unfolding parse_u32
parse_u32-digit d s h =
    let e = code-digit d h in
    let plain : (code (digit d) == b'+') ≡ false = ground arith in rw plain refl

pub parse_u32-show_u32 : (n : ℕ) → n < u32_end → parse_u32 (show_u32 n) ≡ some n
unfolding parse_digits
parse_u32-show_u32 n h =
    let (d, s, below, e) = show_before-cons 9 n "" in
    ap parse_u32 e
    ∙ parse_u32-digit d s below
    ∙ ap (parse_digits 0) (sym e)
    ∙ parse_digits-show_before 9 n "" (omega arith) h
