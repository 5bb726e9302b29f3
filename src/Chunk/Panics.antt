-- ===== src/Chunk/Panics.antt =====
-- A header that is cut short.
use xtable.Prelude.{ℕ, zero, suc, ◌≡◌, ◌<◌, refl, ◌∙◌, ap, none, [], ◌∷◌, ◌++◌, length, arith}
use xtable.Records.{Bytes}
use xtable.Wire.{le, panicked, resume, split_at, cons_front, slice, slice_of, text, text_of}
use xtable.Wire.Utf8.{from_utf8}
use xtable.Wire.Reads.{Reads-le}
use xtable.Chunk.{chunk_magic, chunk_version, read_header, decode_header}
use xtable.Chunk.HeaderTrip.{expect-magic}

split_at-none : (n : ℕ) (bs : Bytes) → length bs < n → split_at n bs ≡ none
unfolding split_at
split_at-none zero bs h = absurd (omega arith)
split_at-none (suc n) [] h = refl
split_at-none (suc n) (b ∷ bs) h = ap (cons_front b) (split_at-none n bs (omega arith))

text-panics : (n : ℕ) (bs : Bytes) → length bs < n → text n bs ≡ panicked
unfolding text slice
text-panics n bs h =
    ap (λ o. resume (slice_of o) (λ x. text_of (from_utf8 x))) (split_at-none n bs h)

-- A header that ends inside its chunk id makes the decoder panic: the length is read, and the slice of
-- that length is not tested.
pub decode_header-panics :
    (n : ℕ) (rest : Bytes)
    → n < 65536
    → length rest < n
    → decode_header (chunk_magic ++ (le 2 chunk_version ++ (le 2 n ++ rest))) ≡ panicked
unfolding decode_header read_header
decode_header-panics n rest small short =
    ap (λ r. resume r (λ _. read_header)) (expect-magic (le 2 n ++ rest))
    ∙ rw
        (
          Reads-le 2 chunk_version (omega arith) (le 2 n ++ rest),
          Reads-le 2 n small rest,
          text-panics n rest short,
        )
        refl
