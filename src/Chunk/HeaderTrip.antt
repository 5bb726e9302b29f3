-- ===== src/Chunk/HeaderTrip.antt =====
-- A header and a footer are read back from their bytes.
use xtable.Prelude.{
  ℕ, suc, ◌%◌, ◌≡◌, ◌<◌, refl, sym, ◌∙◌, ap, String, false, ltb, ◌++◌, length, arith,
}
use mathlib.Core.List.{append_assoc}
use xtable.Records.{Bytes}
use xtable.Wire.{le, Parser, done, resume, ◌>>=◌, read_le, slice, text, split_at}
use xtable.Wire.Utf8.{as_bytes}
use xtable.Wire.Reads.{Reads, Reads-bind, Reads-end, Reads-le, Reads-slice, Reads-text}
use xtable.Chunk.{
  ChunkHeader, chunk_magic, chunk_version, field, encode_header, expect_magic, read_header,
  decode_header,
}

fits16 : (bs : Bytes) → length bs < 65536 → length bs ≡ length bs % 65536
fits16 bs h = omega arith

pub Reads-field :
    {B : Type 0} (f : Bytes → Parser B) (bs next : Bytes) (b : B)
    → length bs < 65536
    → Reads (f bs) next b
    → Reads (read_le 2 >>= (λ n. slice n >>= f)) (field bs next) b
Reads-field f bs next b h k =
    Reads-bind (read_le 2) (λ n. slice n >>= f) (length bs % 65536) b (le 2 (length bs % 65536))
      (bs ++ next) (Reads-le 2 _ (omega arith))
      (Reads-bind (slice _) f bs b bs next (Reads-slice _ bs (fits16 bs h)) k)

pub Reads-text-field :
    {B : Type 0} (f : String → Parser B) (s : String) (next : Bytes) (b : B)
    → length (as_bytes s) < 65536
    → Reads (f s) next b
    → Reads (read_le 2 >>= (λ n. text n >>= f)) (field (as_bytes s) next) b
Reads-text-field f s next b h k =
    Reads-bind (read_le 2) (λ n. text n >>= f) (length (as_bytes s) % 65536) b
      (le 2 (length (as_bytes s) % 65536)) (as_bytes s ++ next) (Reads-le 2 _ (omega arith))
      (Reads-bind (text _) f s b (as_bytes s) next (Reads-text _ s (fits16 (as_bytes s) h)) k)

pub Reads-number :
    {B : Type 0} (size n : ℕ) (f : ℕ → Parser B) (next : Bytes) (b : B)
    → Reads (read_le size) (le size n) n
    → Reads (f n) next b
    → Reads (read_le size >>= f) (le size n ++ next) b
Reads-number size n f next b h k = Reads-bind (read_le size) f n b (le size n) next h k

-- every length and number of a header fits the bytes that it is written in
pub record IsEncodable (h : ChunkHeader) : Type 0 where
  pub chunk_id : length (as_bytes h.chunk_id) < 65536
  pub space : length (as_bytes h.space) < 65536
  pub table : length (as_bytes h.table) < 65536
  pub key_min : length h.key_min < 65536
  pub key_max : length h.key_max < 65536
  pub created_at_ms : h.created_at_ms < 18446744073709551616
  pub compressed_body_len : h.compressed_body_len < 18446744073709551616
  pub uncompressed_len : h.uncompressed_len < 18446744073709551616
  pub record_count : h.record_count < 18446744073709551616

abbrev pub after_version : ChunkHeader → Bytes
after_version h = field (as_bytes h.chunk_id) (
    le 8 h.created_at_ms
    ++ (le 8 h.compressed_body_len
        ++ (le 8 h.uncompressed_len
            ++ (field (as_bytes h.space) (
                field (as_bytes h.table)
                  (field h.key_min (field h.key_max (le 8 h.record_count))))))))

Reads-header :
    (h : ChunkHeader) → IsEncodable h → Reads read_header (le 2 chunk_version ++ after_version h) h
unfolding read_header
Reads-header h w = Reads-number 2 chunk_version _ _ h (Reads-le 2 chunk_version (omega arith)) (
    Reads-text-field _ h.chunk_id _ h w.chunk_id (
      Reads-number 8 h.created_at_ms _ _ h (Reads-le 8 _ w.created_at_ms) (
        Reads-number 8 h.compressed_body_len _ _ h (Reads-le 8 _ w.compressed_body_len) (
          Reads-number 8 h.uncompressed_len _ _ h (Reads-le 8 _ w.uncompressed_len) (
            Reads-text-field _ h.space _ h w.space (
              Reads-text-field _ h.table _ h w.table (
                Reads-field _ h.key_min _ h w.key_min (
                  Reads-field _ h.key_max _ h w.key_max (
                    Reads-end (read_le 8) _ h.record_count (le 8 h.record_count)
                      (Reads-le 8 _ w.record_count))))))))))

pub expect-magic :
    (tail : Bytes)
    → expect_magic (chunk_magic ++ (le 2 chunk_version ++ tail))
      ≡ done tt (le 2 chunk_version ++ tail)
unfolding expect_magic split_at le
expect-magic tail =
    let long : ltb (suc (suc (suc (suc (suc (suc (length tail))))))) 6 ≡ false = ground arith in
    rw long refl

-- A header is read back from its bytes, and what follows it is left, if its lengths and numbers fit the
-- bytes that they are written in.
pub decode_header-encode_header :
    (h : ChunkHeader) → IsEncodable h → Reads decode_header (encode_header h) h
unfolding decode_header encode_header
decode_header-encode_header h w rest =
    let all = le 2 chunk_version ++ after_version h in
    ap (λ xs. decode_header (chunk_magic ++ xs))
      (append_assoc (le 2 chunk_version) (after_version h) rest)
    ∙ ap (λ r. resume r (λ _. read_header)) (expect-magic (after_version h ++ rest))
    ∙ ap read_header (sym (append_assoc (le 2 chunk_version) (after_version h) rest))
    ∙ Reads-header h w rest
