-- ===== src/Chunk/FooterTrip.antt =====
-- A footer is read back from its bytes.
use xtable.Prelude.{
  ℕ, ◌-◌, ◌%◌, ◌≡◌, ◌<◌, ◌≤◌, refl, sym, ◌∙◌, ap, false, ◌||◌, not, ltb, List, [], ◌∷◌, ◌++◌,
  length, drop, length-append, arith,
}
use mathlib.Core.List.{append_assoc}
use xtable.Errors.{ok}
use xtable.Records.{Bytes}
use xtable.Wire.{le, Parser, done, resume, ◌>>=◌, read_le, slice}
use xtable.Wire.Reads.{Reads, Reads-bind, Reads-end, Reads-le, Reads-slice, length-le}
use xtable.Chunk.{
  ChunkFooter, KeyIndexEntry, Codecs, footer_magic, lift, footer_bytes, encode_footer, read_footer,
  decode_footer, same_bytes,
}

pub drop-append : (xs ys : Bytes) (n : ℕ) → length xs ≡ n → drop n (xs ++ ys) ≡ ys
drop-append [] ys n e = ap (λ k. drop k ys) (sym e)
drop-append (x ∷ xs) ys n e =
    ap (λ k. drop k (x ∷ (xs ++ ys))) (sym e) ∙ drop-append xs ys (length xs) refl

-- the lengths of a footer fit the four bytes that they are written in
pub record IsEncodable (f : ChunkFooter) (index : Bytes) : Type 0 where
  pub bloom : length f.bloom < 4294967296
  pub index_len : length index < 4294967296
  pub body_crc32c : f.body_crc32c < 4294967296

module _ (codecs : Codecs) where
  abbrev before_magic : ChunkFooter → Bytes → Bytes
  before_magic f index =
      le 4 (length f.bloom % 4294967296)
      ++ (f.bloom ++ (le 4 (length index % 4294967296) ++ (index ++ le 4 f.body_crc32c)))

  footer_bytes_assoc :
      (f : ChunkFooter) (index : Bytes)
      → before_magic f index ++ footer_magic ≡ footer_bytes codecs f index
  footer_bytes_assoc f index = simp append_assoc

  Reads-index :
      {B : Type 0} (f : ChunkFooter) (index : Bytes) (k : List KeyIndexEntry → Parser B)
      (next : Bytes) (b : B)
      → codecs.deserialize_index index ≡ ok f.key_index
      → Reads (k f.key_index) next b
      → Reads (lift (codecs.deserialize_index index) >>= k) next b
  Reads-index f index k next b e h rest = ap (λ r. resume (lift r (next ++ rest)) k) e ∙ h rest

  Reads-footer :
      (f : ChunkFooter) (index : Bytes)
      → IsEncodable f index
      → codecs.deserialize_index index ≡ ok f.key_index
      → Reads (read_footer codecs) (before_magic f index) f
  unfolding read_footer
  Reads-footer f index w law =
      Reads-bind (read_le 4) _ (length f.bloom % 4294967296) f _ _ (Reads-le 4 _ (omega arith)) (
        Reads-bind (slice _) _ f.bloom f f.bloom _ (Reads-slice _ f.bloom (fits32 f.bloom w.bloom))
          (Reads-bind (read_le 4) _ (length index % 4294967296) f _ _ (Reads-le 4 _ (omega arith)) (
            Reads-bind (slice _) _ index f index _ (Reads-slice _ index (fits32 index w.index_len))
              (Reads-index f index _ _ f law (
                Reads-end (read_le 4) _ f.body_crc32c (le 4 f.body_crc32c)
                  (Reads-le 4 _ w.body_crc32c))))))
    where
      fits32 : (bs : Bytes) → length bs < 4294967296 → length bs ≡ length bs % 4294967296
      fits32 bs h = omega arith

  magic_test :
      (xs : Bytes)
      → 4 ≤ length xs
      → (ltb (length (xs ++ footer_magic)) 8
          || not (
              same_bytes
                (drop (length (xs ++ footer_magic) - 4) (xs ++ footer_magic))
                footer_magic))
        ≡ false
  magic_test xs h =
      let size = length-append xs footer_magic in
      let long : ltb (length (xs ++ footer_magic)) 8 ≡ false = ground arith in
      rw (drop-append xs footer_magic (length (xs ++ footer_magic) - 4) (omega arith), long) refl

  -- A footer is read back from its bytes, if its lengths fit and bincode reads back the key index.
  pub decode_footer-encode_footer :
      (f : ChunkFooter) (index bytes : Bytes)
      → codecs.serialize_index f.key_index ≡ ok index
      → codecs.deserialize_index index ≡ ok f.key_index
      → IsEncodable f index
      → encode_footer codecs f ≡ ok bytes
      → decode_footer codecs bytes ≡ done f footer_magic
  unfolding encode_footer decode_footer
  decode_footer-encode_footer f index bytes s law w e =
      let out : footer_bytes codecs f index ≡ bytes = cc (rw (s, encode_footer) at e) in
      let xs = before_magic f index in
      rw (← out, ← footer_bytes_assoc f index, magic_test xs (long f index))
        (Reads-footer f index w law footer_magic)
    where
      long : (f : ChunkFooter) (index : Bytes) → 4 ≤ length (before_magic f index)
      long f index = omega (
        arith,
        length-append (le 4 (length f.bloom % 4294967296))
            (f.bloom ++ (le 4 (length index % 4294967296) ++ (index ++ le 4 f.body_crc32c))),
        length-le 4 (length f.bloom % 4294967296),
      )
