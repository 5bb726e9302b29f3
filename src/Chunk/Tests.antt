-- ===== src/Chunk/Tests.antt =====
-- Runs of the chunk format, with codecs that stand for the other packages.
use xtable.Prelude.{
  ltb, ℕ, zero, suc, ◌+◌, ◌*◌, ◌%◌, ◌≡◌, ◌<◌, refl, sym, ◌∙◌, subst, String, true, false, some,
  none, List, [], ◌∷◌, ◌++◌, All, inl, inr, map, length, take, drop, arith,
}
use xtable.Errors.{ok}
use xtable.Records.{Bytes}
use xtable.Wire.{le, from_le, Parsed, done, panicked, read_le, split_at, slice}
use xtable.Wire.Utf8.{as_bytes}
use xtable.Chunk.{
  ChunkEntry, ChunkHeader, KeyIndexEntry, ChunkFooter, Codecs, encode_header, decode_header,
  encode_footer, decode_footer, compose_key_bytes, chunk_magic, chunk_version, footer_bytes,
}
use xtable.Chunk.Entry.{
  encode_entry, encode_entries, entry_payload, encode_meta, decode_body_entries, decode_entry,
  decode_entries, decode_payload,
}
use xtable.Chunk.Bloom.{
  build_bloom, bloom_may_contain, add_keys, set_bit, or_at, zeros, has_bit, byte_at,
}
use xtable.Chunk.Writer.{
  ChunkWriter, new_writer, append, sample_keys, finalize, decompress_body, header_of, footer_of,
  entry_key, file_of, min_from, max_from,
}
use xtable.Chunk.HeaderTrip
use xtable.Chunk.HeaderTrip.{decode_header-encode_header}
use xtable.Chunk.FooterTrip
use xtable.Chunk.FooterTrip.{decode_footer-encode_footer}
use xtable.Chunk.EntryTrip
use xtable.Chunk.FileTrip.{append_all, chunk-roundtrips}
use xtable.Chunk.Ends.{decode_body_entries_total}
use xtable.Chunk.Panics.{decode_header-panics}
use xtable.Chunk.NoFalseNegatives.{bloom_may_contain-build_bloom}
use xtable.Chunk.Index.{AtMost, header_of-AtMost}

abbrev write_index : List KeyIndexEntry → Bytes
write_index [] = []
write_index (k ∷ ks) =
    length k.key_bytes ∷ (k.key_bytes ++ (k.body_offset ∷ k.commit_version ∷ write_index ks))

abbrev numbered : Bytes → Bytes → List KeyIndexEntry → List KeyIndexEntry
numbered key (offset ∷ version ∷ _) later =
    (record { key_bytes = key; body_offset = offset; commit_version = version }) ∷ later
numbered key rest later = later

abbrev parse_index : ℕ → Bytes → List KeyIndexEntry
parse_index zero bs = []
parse_index (suc n) [] = []
parse_index (suc n) (len ∷ bs) =
    let later = parse_index n (drop (len + 2) bs) in numbered (take len bs) (drop len bs) later

abbrev sum_of : Bytes → ℕ
sum_of [] = 7
sum_of (b ∷ bs) = b + 31 * sum_of bs

abbrev plain : Codecs
plain = record {
  compress = ok;
  decompress = ok;
  crc32 = sum_of;
  xxh3_64 = λ bs. sum_of bs % 18446744073709551616;
  entry_capacity = 1_000_000;
  serialize_index = λ ks. ok (write_index ks);
  deserialize_index = λ bs. ok (parse_index (length bs) bs);
}

abbrev entry_of : String → ℕ → Bytes → ChunkEntry
entry_of record_id version value = record {
  space = "s";
  table = "t";
  record_id = record_id;
  value = value;
  commit_version = version;
  txn_id = "x1";
  deleted = false;
  content_type = some "json";
  user_meta = ("k", "v") ∷ [];
  schema_version = 3;
  wal_seq = 9;
}

abbrev gone : ChunkEntry
gone = record (entry_of "b" 6 []) { deleted = true; content_type = none; user_meta = [] }

abbrev two : List ChunkEntry
two = entry_of "a" 5 (1 ∷ 2 ∷ []) ∷ gone ∷ []

runs : Unit {0}
unfolding encode_entry encode_entries entry_payload encode_meta decode_body_entries decode_entry
    build_bloom bloom_may_contain add_keys set_bit or_at zeros has_bit byte_at sample_keys append
    finalize decompress_body compose_key_bytes encode_header decode_header encode_footer
    decode_footer min_from max_from le as_bytes decode_entries decode_payload read_le split_at slice
    from_le
runs = tt

abbrev writer : ChunkWriter
writer = append_all plain two (new_writer "c1" "s" "t")

abbrev header : ChunkHeader
header = header_of writer 77 (encode_entries plain two)

abbrev footer : ChunkFooter
footer = footer_of plain writer

abbrev footer_file : Bytes
footer_file = footer_bytes plain footer (write_index footer.key_index)

header_bounds :
    ◌≡◌ {A = Bytes × Bytes}
      (header.key_min, header.key_max)
      (compose_key_bytes "s" "t" "a", compose_key_bytes "s" "t" "b")
unfolding runs
header_bounds = refl

one_sample :
    footer.key_index
    ≡ (record { key_bytes = compose_key_bytes "s" "t" "a"; body_offset = 0; commit_version = 5 })
      ∷ []
unfolding runs
one_sample = refl

two-IsEncodable : All EntryTrip.IsEncodable two
unfolding runs
two-IsEncodable = (of_a, (of_gone, tt))
  where
    of_a : EntryTrip.IsEncodable (entry_of "a" 5 (1 ∷ 2 ∷ []))
    of_a = record {
      space = (omega arith, tt);
      table = (omega arith, tt);
      record_id = (omega arith, tt);
      key = omega arith;
      value = omega arith;
      content_type = (omega arith, omega arith);
      meta_count = omega arith;
      user_meta = ((omega arith, omega arith), tt);
      schema_version = omega arith;
      txn_id = omega arith;
      commit_version = omega arith;
      wal_seq = omega arith;
    }

    of_gone : EntryTrip.IsEncodable gone
    of_gone = record {
      space = (omega arith, tt);
      table = (omega arith, tt);
      record_id = (omega arith, tt);
      key = omega arith;
      value = omega arith;
      content_type = tt;
      meta_count = omega arith;
      user_meta = tt;
      schema_version = omega arith;
      txn_id = omega arith;
      commit_version = omega arith;
      wal_seq = omega arith;
    }

header-IsEncodable : HeaderTrip.IsEncodable header
unfolding runs
header-IsEncodable = record {
  chunk_id = omega arith;
  space = omega arith;
  table = omega arith;
  key_min = omega arith;
  key_max = omega arith;
  created_at_ms = omega arith;
  compressed_body_len = omega arith;
  uncompressed_len = omega arith;
  record_count = omega arith;
}

footer-IsEncodable : FooterTrip.IsEncodable footer (write_index footer.key_index)
unfolding runs
footer-IsEncodable = record {
  bloom = omega arith;
  index_len = omega arith;
  body_crc32c = omega arith;
}

footer-encodes : encode_footer plain footer ≡ ok footer_file
unfolding runs
footer-encodes = refl

footer_file-short : length footer_file < 4294967296
unfolding runs
footer_file-short = omega arith

same_ok : (a b : Bytes) → ok a ≡ ok b → a ≡ b
same_ok a b e = cc

footer-short : (bytes : Bytes) → encode_footer plain footer ≡ ok bytes → length bytes < 4294967296
footer-short bytes e =
    subst (λ bs. length bs < 4294967296) (same_ok footer_file bytes (sym footer-encodes ∙ e))
      footer_file-short

chunk_file : Bytes
unfolding runs
chunk_file = file_of header (encode_entries plain two) footer_file

finalizes :
    finalize plain writer 77
    ≡ ok (file_of header (encode_entries plain two) footer_file, header, footer)
unfolding runs
finalizes = refl

index-law :
    ok (parse_index (length (write_index footer.key_index)) (write_index footer.key_index))
    ≡ ok footer.key_index
unfolding runs
index-law = refl

zstd-law : (body z : Bytes) → plain.compress body ≡ ok z → plain.decompress z ≡ ok body
zstd-law body z e = sym e

has_room : ltb plain.entry_capacity 2 ≡ false
has_room = ground arith

chunk-roundtrips_example :
    (body : Bytes) × (decompress_body plain (file_of header (encode_entries plain two) footer_file)
      ≡ done body [])
    × (decode_body_entries plain 2 body ≡ some (done two []))
chunk-roundtrips_example =
    chunk-roundtrips plain "c1" "s" "t" two 77
      (file_of header (encode_entries plain two) footer_file) header footer 2 has_room zstd-law
      two-IsEncodable finalizes header-IsEncodable footer-short

decode_body_entries_total_example :
    (r : Parsed (List ChunkEntry)) × (decode_body_entries plain 1 (3 ∷ 0 ∷ 1 ∷ []) ≡ some r)
decode_body_entries_total_example = decode_body_entries_total plain 1 (3 ∷ 0 ∷ 1 ∷ [])

cut_body : decode_body_entries plain 1 (3 ∷ 0 ∷ 1 ∷ []) ≡ some panicked
unfolding runs
cut_body = refl

decode_header-panics_example :
    decode_header (chunk_magic ++ (le 2 chunk_version ++ (le 2 5 ++ (b'c' ∷ [])))) ≡ panicked
decode_header-panics_example = decode_header-panics 5 (b'c' ∷ []) (omega arith) (omega arith)

abbrev two_keys : List Bytes
two_keys = map entry_key two

bloom_may_contain-build_bloom_example :
    bloom_may_contain plain (build_bloom plain two_keys 10) (entry_key gone) ≡ true
bloom_may_contain-build_bloom_example =
    bloom_may_contain-build_bloom plain two_keys 10 (entry_key gone) (inr (inl refl))

-- the filter is not full
denied : bloom_may_contain plain (build_bloom plain two_keys 10) (1 ∷ []) ≡ false
unfolding runs
denied = refl

header_of-AtMost_example :
    All (λ e. AtMost header.key_min (entry_key e) × AtMost (entry_key e) header.key_max) two
header_of-AtMost_example = header_of-AtMost plain "c1" "s" "t" two 77 (encode_entries plain two)
