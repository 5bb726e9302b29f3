-- ===== src/Chunk/Ends.antt =====
-- The loop over a body ends.
use xtable.Prelude.{
  ℕ, zero, suc, ◌≡◌, ◌≤◌, refl, ◌∙◌, ap, none, some, List, [], ◌∷◌, length, ltb, inl, inr,
  Bool-cases, arith,
}
use xtable.Records.{Bytes}
use xtable.Wire.Utf8.{from_utf8}
use xtable.Wire.{Parsed, done, failed, panicked, Parser, read_le, slice, byte, text}
use xtable.Wire.Shrinks.{
  Shrinks, Shrinks-bind, Shrinks-give, Shrinks-read_le, Shrinks-slice, Shrinks-byte,
  Shrinks-text_of, Shrinks-text,
}
use xtable.Chunk.{Codecs, ChunkEntry}
use xtable.Chunk.Entry.{
  next_part, split_nul, part_text, optional_text, read_meta, decode_payload, decode_entry,
  with_entry, decode_entries, decode_body_entries,
}

loose : {A : Type 0} (k : ℕ) (p : Parser A) → Shrinks k p → Shrinks 0 p
loose k p h buf a rest e = omega (arith, h buf a rest e)

Shrinks-optional : (n : ℕ) → Shrinks 0 (optional_text n)
Shrinks-optional n = elim (Bool-cases (ltb 0 n)) [
  | inl some' ↦ rw some' (Shrinks-bind 0 (text n) _ (Shrinks-text n) (λ s. Shrinks-give (some s)))
  | inr none' ↦ rw none' (Shrinks-give none)
]

Shrinks-meta : (n : ℕ) → Shrinks 0 (read_meta n)
unfolding read_meta
Shrinks-meta zero = Shrinks-give []
Shrinks-meta (suc n) = Shrinks-bind 0 byte _ Shrinks-byte (λ klen.
    Shrinks-bind 0 (text klen) _ (Shrinks-text klen) (λ k.
      Shrinks-bind 0 byte _ Shrinks-byte (λ vlen.
        Shrinks-bind 0 (text vlen) _ (Shrinks-text vlen) (λ v.
          Shrinks-bind 0 (read_meta n) _ (Shrinks-meta n)
            (λ pairs. Shrinks-give ((k, v) ∷ pairs))))))

Shrinks-payload : Shrinks 2 decode_payload
unfolding decode_payload
Shrinks-payload = Shrinks-bind 2 (read_le 2) _ (Shrinks-read_le 2) (λ key_len.
    Shrinks-bind 0 (slice key_len) _ (Shrinks-slice key_len) (λ key.
      Shrinks-bind 0 (part_text (next_part (split_nul key))) _
        (Shrinks-text_of (from_utf8 (next_part (split_nul key)).0))
        (λ space.
          Shrinks-bind 0 (part_text (next_part (next_part (split_nul key)).1)) _
            (Shrinks-text_of (from_utf8 (next_part (next_part (split_nul key)).1).0))
            (λ table.
              Shrinks-bind 0 (part_text (next_part (next_part (next_part (split_nul key)).1).1)) _
                (Shrinks-text_of
                  (from_utf8 (next_part (next_part (next_part (split_nul key)).1).1).0))
                (λ record_id.
                  Shrinks-bind 0 (read_le 4) _ (loose 4 _ (Shrinks-read_le 4)) (λ value_len.
                    Shrinks-bind 0 (slice value_len) _ (Shrinks-slice value_len) (λ value.
                      Shrinks-bind 0 byte _ Shrinks-byte (λ ct_len.
                        Shrinks-bind 0 (optional_text ct_len) _ (Shrinks-optional ct_len)
                          (λ content_type. Shrinks-bind 0 byte _ Shrinks-byte (λ um_count.
                            Shrinks-bind 0 (read_meta um_count) _ (Shrinks-meta um_count)
                              (λ user_meta.
                                Shrinks-bind 0 (read_le 4) _ (loose 4 _ (Shrinks-read_le 4))
                                  (λ schema_version. Shrinks-bind 0 byte _ Shrinks-byte (λ txn_len.
                                    Shrinks-bind 0 (text txn_len) _ (Shrinks-text txn_len)
                                      (λ txn_id.
                                        Shrinks-bind 0 (read_le 8) _ (loose 8 _ (Shrinks-read_le 8))
                                          (λ commit_version.
                                            Shrinks-bind 0 (read_le 8) _
                                              (loose 8 _ (Shrinks-read_le 8))
                                              (λ wal_seq.
                                                Shrinks-bind 0 byte _ Shrinks-byte
                                                  (λ flags. Shrinks-give _)))))))))))))))))

Shrinks-entry : Shrinks 2 decode_entry
unfolding decode_entry
Shrinks-entry = Shrinks-bind 2 decode_payload _ Shrinks-payload (λ entry.
    Shrinks-bind 0 (read_le 4) _ (loose 4 _ (Shrinks-read_le 4)) (λ crc. Shrinks-give entry))

decode_entries_total :
    (fuel : ℕ) (body : Bytes)
    → length body ≤ fuel
    → (r : Parsed (List ChunkEntry)) × (decode_entries fuel body ≡ some r)
unfolding decode_entries
decode_entries_total zero [] h = (done [] [], refl)
decode_entries_total (suc fuel) [] h = (done [] [], refl)
decode_entries_total zero (b ∷ bs) h = absurd (omega arith)
decode_entries_total (suc fuel) (b ∷ bs) h =
    go (decode_entry (b ∷ bs)) refl (λ rest l. decode_entries_total fuel rest l)
  where
    attach :
        (e : ChunkEntry) (o : Parsed (List ChunkEntry))
        → (r : Parsed (List ChunkEntry)) × (with_entry e (some o) ≡ some r)
    attach e (done es rest) = (done (e ∷ es) rest, refl)
    attach e (failed error) = (failed error, refl)
    attach e panicked = (panicked, refl)

    go :
        (p : Parsed ChunkEntry)
        → decode_entry (b ∷ bs) ≡ p
        → ((rest : Bytes)
            → length rest ≤ fuel
            → (r : Parsed (List ChunkEntry)) × (decode_entries fuel rest ≡ some r))
        → (r : Parsed (List ChunkEntry)) × (decode_entries (suc fuel) (b ∷ bs) ≡ some r)
    go (done e rest) q ih =
        let (o, found) = ih rest (omega (arith, Shrinks-entry (b ∷ bs) e rest q)) in
        let (r, out) = attach e o in (r, rw (q, decode_entries) (ap (with_entry e) found ∙ out))
    go (failed error) q ih = (failed error, rw (q, decode_entries) refl)
    go panicked q ih = (panicked, rw (q, decode_entries) refl)

-- The loop over a body ends, whatever its bytes and the number of entries expected are.
pub decode_body_entries_total :
    (codecs : Codecs) (expected : ℕ) (body : Bytes)
    → (r : Parsed (List ChunkEntry)) × (decode_body_entries codecs expected body ≡ some r)
unfolding decode_body_entries
decode_body_entries_total codecs expected body =
    elim (Bool-cases (ltb codecs.entry_capacity expected)) [
      | inl large ↦ (panicked, rw large refl)
      | inr room ↦
          let (r, e) = decode_entries_total (length body) body (omega arith) in (r, rw room e)
    ]
