-- ===== src/Chunk/Bloom.antt =====
-- xtable-storage/src/chunk.rs: the bloom filter.
use Prim.Native.Nat.{bit_and, bit_or}
use xtable.Prelude.{
  ℕ, zero, suc, ◌+◌, ◌*◌, ◌/◌, ◌%◌, ◌^◌, max, Bool, true, false, ◌&&◌, not, List, [], ◌∷◌, length,
  ◌==◌, nat_key, if◌then◌else◌,
}
use xtable.Records.{Bytes}
use xtable.Wire.{le}
use xtable.Chunk.{Codecs}

-- `vec![0u8; n]`
unfoldable pub zeros : ℕ → Bytes
zeros zero = []
zeros (suc n) = 0 ∷ zeros n

-- `bits[i] |= mask`
unfoldable pub or_at : ℕ → ℕ → Bytes → Bytes
or_at i mask [] = []
or_at zero mask (b ∷ bs) = bit_or b mask ∷ bs
or_at (suc i) mask (b ∷ bs) = b ∷ or_at i mask bs

-- `bits[i]`, whose index is below the length
unfoldable pub byte_at : ℕ → Bytes → ℕ
byte_at i [] = 0
byte_at zero (b ∷ bs) = b
byte_at (suc i) (b ∷ bs) = byte_at i bs

-- `1 << n` on a `u8`, with `n` below 8
abbrev pub bit : ℕ → ℕ
bit n = 2 ^ n

unfoldable pub set_bit : ℕ → Bytes → Bytes
set_bit pos bits = or_at (pos / 8) (bit (pos % 8)) bits

unfoldable pub has_bit : ℕ → Bytes → Bool
has_bit pos bits = not (bit_and (byte_at (pos / 8) bits) (bit (pos % 8)) == 0)

module _ (codecs : Codecs) where
  abbrev pub first_hash : Bytes → ℕ
  first_hash key = codecs.xxh3_64 key

  abbrev pub second_hash : Bytes → ℕ
  second_hash key = codecs.xxh3_64 (le 8 (codecs.xxh3_64 key))

  unfoldable pub add_keys : ℕ → List Bytes → Bytes → Bytes
  add_keys total_bits [] bits = bits
  add_keys total_bits (k ∷ ks) bits =
      add_keys total_bits ks
        (set_bit (second_hash k % total_bits) (set_bit (first_hash k % total_bits) bits))

  -- `total_bits.div_ceil(8)` bytes
  unfoldable pub build_bloom : List Bytes → ℕ → Bytes
  build_bloom keys bits_per_key =
      let total_bytes = (max (max (length keys) 1 * bits_per_key) 64 + 7) / 8 in
      add_keys (total_bytes * 8) keys (zeros total_bytes)

  abbrev pub is_empty : Bytes → Bool
  is_empty [] = true
  is_empty (b ∷ bs) = false

  unfoldable pub bloom_may_contain : Bytes → Bytes → Bool
  bloom_may_contain bloom key =
      let total = length bloom * 8 in
      if is_empty bloom
      then true
      else has_bit (first_hash key % total) bloom && has_bit (second_hash key % total) bloom
