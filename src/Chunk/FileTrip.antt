-- ===== src/Chunk/FileTrip.antt =====
-- The entries of a chunk file are read back from it.
use xtable.Prelude.{
  ℕ, ◌+◌, ◌-◌, ◌%◌, ◌≡◌, ◌<◌, refl, sym, ◌∙◌, ap, subst, String, false, some, List, [], ◌∷◌, ◌++◌,
  All, length, length-append, take, drop, ltb, arith,
}
use mathlib.Core.List.{append-nil, append_assoc}
use xtable.Errors.{ok, >>=-ok}
use xtable.Records.{Bytes}
use xtable.Wire.{le, done, number_of, split_at}
use xtable.Wire.Reads.{split_at-append, from_le-le, length-le}
use xtable.Chunk.{ChunkEntry, ChunkHeader, ChunkFooter, Codecs, encode_header, encode_footer}
use xtable.Chunk.Entry.{encode_entry, encode_entries, decode_body_entries}
use xtable.Chunk.HeaderTrip
use xtable.Chunk.HeaderTrip.{decode_header-encode_header}
use xtable.Chunk.FooterTrip.{drop-append}
use xtable.Chunk.EntryTrip
use xtable.Chunk.EntryTrip.{decode_body_entries-encode_entries}
use xtable.Chunk.Writer.{
  ChunkWriter, new_writer, append, header_of, footer_of, file_of, finalize, of_result, after_header,
  decompress_body,
}

take-append : (xs ys : Bytes) (n : ℕ) → length xs ≡ n → take n (xs ++ ys) ≡ xs
take-append [] ys n e = ap (λ k. take k ys) (sym e)
take-append (x ∷ xs) ys n e =
    ap (λ k. take k (x ∷ (xs ++ ys))) (sym e)
    ∙ ap (λ zs. x ∷ zs) (take-append xs ys (length xs) refl)

module _ (codecs : Codecs) where
  tail_number : (n : ℕ) → n < 4294967296 → number_of (split_at 4 (le 4 n)) ≡ done n []
  tail_number n h =
      ap number_of (
        ap (split_at 4) (sym (append-nil (le 4 n)))
        ∙ ap (λ k. split_at k (le 4 n ++ [])) (sym (length-le 4 n))
        ∙ split_at-append (le 4 n) [])
      ∙ ap (λ k. done k []) (from_le-le 4 n h)

  file_tail :
      (h : ChunkHeader) (z f : Bytes)
      → drop (length (file_of h z f) - 4) (file_of h z f) ≡ le 4 (length f % 4294967296)
  file_tail h z f =
      let front = encode_header h ++ (z ++ f) in
      let last = le 4 (length f % 4294967296) in
      let e : front ++ last ≡ file_of h z f = simp append_assoc in
      subst (λ x. drop (length x - 4) x ≡ last) e
        (drop-append front last (length (front ++ last) - 4)
          (omega (arith, length-append front last, length-le 4 (length f % 4294967296))))

  abbrev ahead_of : Bytes → Bytes → Bytes
  ahead_of z f = z ++ (f ++ le 4 (length f % 4294967296))

  file_sizes :
      (h : ChunkHeader) (z f : Bytes)
      → (length (file_of h z f) ≡ length (encode_header h) + (length z + (length f + 4)))
        × (length (ahead_of z f) ≡ length z + (length f + 4))
  file_sizes h z f =
      let last = le 4 (length f % 4294967296) in
      let a = length-append (encode_header h) (ahead_of z f) in
      let b = length-append z (f ++ last) in
      let c = length-append f last in
      let d = length-le 4 (length f % 4294967296) in (omega arith, omega arith)

  decompress_body-file :
      (h : ChunkHeader) (z f body : Bytes)
      → HeaderTrip.IsEncodable h
      → length f < 4294967296
      → codecs.decompress z ≡ ok body
      → decompress_body codecs (file_of h z f) ≡ done body []
  unfolding decompress_body
  decompress_body-file h z f body w small law =
      let (total, ahead) = file_sizes h z f in
      let number =
        ap number_of (ap (split_at 4) (file_tail h z f))
        ∙ tail_number (length f % 4294967296) (omega arith) in
      let fits : ltb (length (file_of h z f)) (length (file_of h z f) - length (ahead_of z f) + 4)
          ≡ false =
        ground arith in
      let inside : ltb (length (file_of h z f) - 4 - length f % 4294967296)
            (length (file_of h z f) - length (ahead_of z f))
          ≡ false =
        ground arith in
      ap (after_header codecs (file_of h z f)) (decode_header-encode_header h w (ahead_of z f))
      ∙ (rw (fits, number, inside)
          (ap (λ n. of_result (codecs.decompress (take n (ahead_of z f)))) (omega arith)
            ∙ ap (λ x. of_result (codecs.decompress x)) (take-append z _ (length z) refl)
            ∙ ap (of_result) law))

  -- the entries go to the writer one by one
  abbrev pub append_all : List ChunkEntry → ChunkWriter → ChunkWriter
  append_all [] w = w
  append_all (e ∷ es) w = append_all es (append codecs e w)

  append_all-body :
      (es : List ChunkEntry) (w : ChunkWriter)
      → (append_all es w).body ≡ w.body ++ encode_entries codecs es
  unfolding encode_entries append
  append_all-body [] w = sym (append-nil w.body)
  append_all-body (e ∷ es) w =
      append_all-body es (append codecs e w)
      ∙ append_assoc w.body (encode_entry codecs e) (encode_entries codecs es)

  -- The entries that a chunk file is written of are read back from it in their order: the body is
  -- decompressed from the file, and its entries are decoded. zstd gives back what it compressed, every
  -- entry and the header can be encoded, the footer is shorter than 4 GiB, and there is room for the number of
  -- entries expected.
  pub chunk-roundtrips :
      (chunk_id space table : String) (es : List ChunkEntry) (now : ℕ) (file : Bytes)
      (h : ChunkHeader) (f : ChunkFooter) (expected : ℕ)
      → ltb codecs.entry_capacity expected ≡ false
      → ((body z : Bytes) → codecs.compress body ≡ ok z → codecs.decompress z ≡ ok body)
      → All EntryTrip.IsEncodable es
      → finalize codecs (append_all es (new_writer chunk_id space table)) now ≡ ok (file, h, f)
      → HeaderTrip.IsEncodable h
      → ((bytes : Bytes) → encode_footer codecs f ≡ ok bytes → length bytes < 4294967296)
      → (body : Bytes) × (decompress_body codecs file ≡ done body [])
        × (decode_body_entries codecs expected body ≡ some (done es []))
  unfolding finalize
  chunk-roundtrips chunk_id space table es now file h f expected room law ws run wh small =
      let w = append_all es (new_writer chunk_id space table) in
      let (z, compressed, rest) = >>=-ok (codecs.compress w.body) _ run in
      let (footer, encoded, last) = >>=-ok (encode_footer codecs (footer_of codecs w)) _ rest in
      let parts = unpack _ _ last in
      let name : header_of w now z ≡ h = ap (λ p. p.1) parts in
      let tail : footer_of codecs w ≡ f = ap (λ p. p.2) parts in
      let content = append_all-body es (new_writer chunk_id space table) in
      let short = small footer (subst (λ x. encode_footer codecs x ≡ ok footer) tail encoded) in
      (
        encode_entries codecs es,
        ap (decompress_body codecs) (sym (ap (λ p. p.0) parts))
            ∙ decompress_body-file (header_of w now z) z footer w.body
                (subst HeaderTrip.IsEncodable (sym name) wh) short (law w.body z compressed)
            ∙ ap (λ x. done x []) content,
        decode_body_entries-encode_entries codecs es expected ws room,
      )
    where
      unpack : (p q : Bytes × ChunkHeader × ChunkFooter) → ok p ≡ ok q → p ≡ q
      unpack p q e = cc
