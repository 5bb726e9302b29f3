-- ===== src/Chunk/NoFalseNegatives.antt =====
-- The bloom filter never denies a key that it was built of.
use Prim.Native.Nat.{bit_and, bit_or}
use xtable.Prelude.{
  ℕ, zero, suc, ◌+◌, ◌*◌, ◌/◌, ◌%◌, max, ◌≡◌, ◌<◌, ◌≤◌, refl, sym, ◌∙◌, ap, subst, Bool, true,
  false, ◌&&◌, ◌||◌, not, List, [], ◌∷◌, All, Elem, length, ltb, ◌==◌, nat_key, ==→eq, inl, inr,
  Bool-cases, arith,
}
use native.Mathlib.Nat.{mod-lt}
use xtable.Records.{Bytes}
use xtable.Chunk.{Codecs}
use xtable.Chunk.Bloom.{
  zeros, or_at, byte_at, bit, set_bit, has_bit, first_hash, second_hash, add_keys, build_bloom,
  bloom_may_contain,
}

-- a test of `count` numbers, from a first one on
tested : (ℕ → Bool) → ℕ → ℕ → Bool
tested test first zero = true
tested test first (suc count) = test first && tested test (first + 1) count

tested_lem :
    (test : ℕ → Bool) (first count : ℕ)
    → tested test first count ≡ true
    → (x : ℕ) → first ≤ x
    → x < first + count
    → test x ≡ true
unfolding tested
tested_lem test first zero all x above under = absurd (omega arith)
tested_lem test first (suc count) all x above under = elim (Bool-cases (first == x)) [
  | inl same ↦ subst (λ y. test y ≡ true) (==→eq first x same) (ground arith)
  | inr other ↦ tested_lem test (first + 1) count (ground arith) x (ground arith) (omega arith)
]

abbrev lit : ℕ → ℕ → Bool
lit b i = not (bit_and b (bit i) == 0)

-- of a byte and two places: the place that is set is lit, a place that was lit still is, and the result
-- is a byte
abbrev sets : ℕ → ℕ → ℕ → Bool
sets b i j =
    lit (bit_or b (bit i)) i
    && ((not (lit b j) || lit (bit_or b (bit i)) j) && ltb (bit_or b (bit i)) 256)

byte_table : tested (λ b. tested (λ i. tested (sets b i) 0 8) 0 8) 0 256 ≡ true
unfolding tested
byte_table = refl

sets-all : (b i j : ℕ) → b < 256 → i < 8 → j < 8 → sets b i j ≡ true
sets-all b i j hb hi hj =
    let of_byte =
      tested_lem (λ b. tested (λ i. tested (sets b i) 0 8) 0 8) 0 256 byte_table b (omega arith)
        hb in
    let of_place = tested_lem (λ i. tested (sets b i) 0 8) 0 8 of_byte i (omega arith) hi in
    tested_lem (sets b i) 0 8 of_place j (omega arith) hj

lit-set : (b i : ℕ) → b < 256 → i < 8 → lit (bit_or b (bit i)) i ≡ true
lit-set b i hb hi = let h = sets-all b i i hb hi hi in ground arith

lit_mono : (b i j : ℕ) → b < 256 → i < 8 → j < 8 → lit b j ≡ true → lit (bit_or b (bit i)) j ≡ true
lit_mono b i j hb hi hj l = let h = sets-all b i j hb hi hj in ground arith

or-lt : (b i : ℕ) → b < 256 → i < 8 → bit_or b (bit i) < 256
or-lt b i hb hi = let h = sets-all b i i hb hi hi in ground arith

abbrev IsBits : Bytes → Type 0
IsBits bits = All (λ b. b < 256) bits

byte_at-lt : (i : ℕ) (bits : Bytes) → IsBits bits → byte_at i bits < 256
unfolding byte_at
byte_at-lt i [] h = omega arith
byte_at-lt zero (b ∷ bs) h = h.0
byte_at-lt (suc i) (b ∷ bs) h = byte_at-lt i bs h.1

byte_at-or_self :
    (i m : ℕ) (bits : Bytes)
    → i < length bits
    → byte_at i (or_at i m bits) ≡ bit_or (byte_at i bits) m
unfolding byte_at or_at
byte_at-or_self i m [] h = absurd (omega arith)
byte_at-or_self zero m (b ∷ bs) h = refl
byte_at-or_self (suc i) m (b ∷ bs) h = byte_at-or_self i m bs (omega arith)

byte_at-or_other :
    (i j m : ℕ) (bits : Bytes) → (i == j) ≡ false → byte_at j (or_at i m bits) ≡ byte_at j bits
unfolding byte_at or_at
byte_at-or_other i j m [] h = refl
byte_at-or_other zero zero m (b ∷ bs) h = absurd (cc)
byte_at-or_other zero (suc j) m (b ∷ bs) h = refl
byte_at-or_other (suc i) zero m (b ∷ bs) h = refl
byte_at-or_other (suc i) (suc j) m (b ∷ bs) h = byte_at-or_other i j m bs (ground arith)

or_at-length : (i m : ℕ) (bits : Bytes) → length (or_at i m bits) ≡ length bits
unfolding or_at
or_at-length i m [] = refl
or_at-length zero m (b ∷ bs) = refl
or_at-length (suc i) m (b ∷ bs) = ap suc (or_at-length i m bs)

or_at-IsBits : (i k : ℕ) (bits : Bytes) → k < 8 → IsBits bits → IsBits (or_at i (bit k) bits)
unfolding or_at
or_at-IsBits i k [] l h = tt
or_at-IsBits zero k (b ∷ bs) l h = (or-lt b k h.0 l, h.1)
or_at-IsBits (suc i) k (b ∷ bs) l h = (h.0, or_at-IsBits i k bs l h.1)

set_bit-length : (p : ℕ) (bits : Bytes) → length (set_bit p bits) ≡ length bits
unfolding set_bit
set_bit-length p bits = or_at-length (p / 8) (bit (p % 8)) bits

set_bit-IsBits : (p : ℕ) (bits : Bytes) → IsBits bits → IsBits (set_bit p bits)
unfolding set_bit
set_bit-IsBits p bits h = or_at-IsBits (p / 8) (p % 8) bits (omega arith) h

has_bit-set_bit :
    (p : ℕ) (bits : Bytes) → p < length bits * 8 → IsBits bits → has_bit p (set_bit p bits) ≡ true
unfolding has_bit set_bit
has_bit-set_bit p bits l h =
    rw (byte_at-or_self (p / 8) (bit (p % 8)) bits (omega arith))
      (lit-set (byte_at (p / 8) bits) (p % 8) (byte_at-lt (p / 8) bits h) (omega arith))

has_bit_mono :
    (p q : ℕ) (bits : Bytes)
    → p < length bits * 8
    → IsBits bits
    → has_bit p bits ≡ true
    → has_bit p (set_bit q bits) ≡ true
unfolding has_bit set_bit
has_bit_mono p q bits l h e = elim (Bool-cases (q / 8 == p / 8)) [
  | inr other ↦ rw (byte_at-or_other (q / 8) (p / 8) (bit (q % 8)) bits other) e
  | inl same ↦
      let at : q / 8 ≡ p / 8 = ==→eq (q / 8) (p / 8) same in
      rw (at, byte_at-or_self (p / 8) (bit (q % 8)) bits (omega arith))
        (lit_mono (byte_at (p / 8) bits) (q % 8) (p % 8) (byte_at-lt (p / 8) bits h) (omega arith)
          (omega arith) e)
]

zeros-IsBits : (n : ℕ) → IsBits (zeros n)
unfolding zeros
zeros-IsBits zero = tt
zeros-IsBits (suc n) = (omega arith, zeros-IsBits n)

zeros-length : (n : ℕ) → length (zeros n) ≡ n
unfolding zeros
zeros-length zero = refl
zeros-length (suc n) = ap suc (zeros-length n)

within : (x total n : ℕ) → 0 < total → n ≡ total → x % total < n
within x total n pos e = subst (λ k. x % total < k) (sym e) (mod-lt x pos)

module _ (codecs : Codecs) where
  abbrev Holds : ℕ → Bytes → Bytes → Type 0
  Holds total key bits =
      (has_bit (first_hash codecs key % total) bits ≡ true)
      × (has_bit (second_hash codecs key % total) bits ≡ true)

  add_keys-keeps :
      (total : ℕ) (key : Bytes) (ks : List Bytes) (bits : Bytes)
      → 0 < total
      → length bits * 8 ≡ total
      → IsBits bits
      → Holds total key bits
      → Holds total key (add_keys codecs total ks bits)
  unfolding add_keys
  add_keys-keeps total key [] bits pos e h k = k
  add_keys-keeps total key (j ∷ ks) bits pos e h k =
      let p = first_hash codecs j % total in
      let q = second_hash codecs j % total in
      let once = set_bit p bits in
      let a : first_hash codecs key % total < length bits * 8 =
        within (first_hash codecs key) total (length bits * 8) pos e in
      let b : second_hash codecs key % total < length bits * 8 =
        within (second_hash codecs key) total (length bits * 8) pos e in
      let size = set_bit-length p bits in
      let size' = set_bit-length q once in
      let ha = set_bit-IsBits p bits h in
      add_keys-keeps total key ks (set_bit q once) pos (omega arith) (set_bit-IsBits q once ha) (
        has_bit_mono (first_hash codecs key % total) q once (omega arith) ha
            (has_bit_mono (first_hash codecs key % total) p bits a h k.0),
        has_bit_mono (second_hash codecs key % total) q once (omega arith) ha
            (has_bit_mono (second_hash codecs key % total) p bits b h k.1),
      )

  add_keys-Holds :
      (total : ℕ) (key : Bytes) (ks : List Bytes) (bits : Bytes)
      → 0 < total
      → length bits * 8 ≡ total
      → IsBits bits
      → Elem key ks
      → Holds total key (add_keys codecs total ks bits)
  unfolding add_keys
  add_keys-Holds total key [] bits pos e h m = elim m [ ]
  add_keys-Holds total key (j ∷ ks) bits pos e h (inr m) =
      let p = first_hash codecs j % total in
      let q = second_hash codecs j % total in
      let once = set_bit p bits in
      let size = set_bit-length p bits in
      let size' = set_bit-length q once in
      add_keys-Holds total key ks (set_bit q once) pos (omega arith)
        (set_bit-IsBits q once (set_bit-IsBits p bits h)) m
  add_keys-Holds total key (j ∷ ks) bits pos e h (inl same) =
      let p = first_hash codecs j % total in
      let q = second_hash codecs j % total in
      let once = set_bit p bits in
      let a : p < length bits * 8 = within (first_hash codecs j) total (length bits * 8) pos e in
      let b : q < length bits * 8 = within (second_hash codecs j) total (length bits * 8) pos e in
      let size = set_bit-length p bits in
      let size' = set_bit-length q once in
      let ha = set_bit-IsBits p bits h in
      add_keys-keeps total key ks (set_bit q once) pos (omega arith) (set_bit-IsBits q once ha) (
        subst (λ x. Holds total x (set_bit q once)) (sym same)
          (
            has_bit_mono p q once (omega arith) ha (has_bit-set_bit p bits a h),
            has_bit-set_bit q once (omega arith) ha,
          ))

  add_keys-length :
      (total : ℕ) (ks : List Bytes) (bits : Bytes)
      → length (add_keys codecs total ks bits) ≡ length bits
  unfolding add_keys
  add_keys-length total [] bits = refl
  add_keys-length total (k ∷ ks) bits =
      add_keys-length total ks _
      ∙ set_bit-length (second_hash codecs k % total) (set_bit (first_hash codecs k % total) bits)
      ∙ set_bit-length (first_hash codecs k % total) bits

  contains :
      (bloom key : Bytes)
      → Holds (length bloom * 8) key bloom
      → bloom_may_contain codecs bloom key ≡ true
  unfolding bloom_may_contain
  contains [] key h = refl
  contains (b ∷ bs) key h = rw (h.0, h.1) refl

  -- The bloom filter never denies a key that it was built of, whatever the hash function is.
  pub bloom_may_contain-build_bloom :
      (keys : List Bytes) (bits_per_key : ℕ) (key : Bytes)
      → Elem key keys
      → bloom_may_contain codecs (build_bloom codecs keys bits_per_key) key ≡ true
  unfolding build_bloom
  bloom_may_contain-build_bloom keys bits_per_key key m =
      let total_bytes = (max (max (length keys) 1 * bits_per_key) 64 + 7) / 8 in
      let size =
        add_keys-length (total_bytes * 8) keys (zeros total_bytes) ∙ zeros-length total_bytes in
      contains (add_keys codecs (total_bytes * 8) keys (zeros total_bytes)) key (
        subst (λ n. Holds (n * 8) key (add_keys codecs (total_bytes * 8) keys (zeros total_bytes)))
          (sym size)
          (add_keys-Holds (total_bytes * 8) key keys (zeros total_bytes) (omega arith)
            (ap (λ n. n * 8) (zeros-length total_bytes)) (zeros-IsBits total_bytes) m))
