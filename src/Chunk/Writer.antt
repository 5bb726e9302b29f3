-- ===== src/Chunk/Writer.antt =====
-- xtable-storage/src/chunk.rs: the writer of a chunk file, and `decompress_body`.
use xtable.Prelude.{
  ℕ, ◌+◌, ◌-◌, ◌%◌, String, Bool, true, false, List, [], ◌∷◌, ◌++◌, ltb, length, drop, take, ◌==◌,
  nat_key, if◌then◌else◌,
}
use xtable.Errors.{XtableError, Result, ok, err, ◌>>=◌}
use xtable.Records.{Bytes}
use xtable.Wire.{Parsed, done, failed, panicked, le, number_of, split_at}
use xtable.Chunk.{
  ChunkEntry, ChunkHeader, KeyIndexEntry, ChunkFooter, Codecs, compose_key_bytes, encode_header,
  decode_header, encode_footer, bloom_bits_per_key, key_index_sample_every,
}
use xtable.Chunk.Entry.{encode_entry}
use xtable.Chunk.Bloom.{build_bloom}

pub record ChunkWriter : Type 0 where
  pub chunk_id : String
  pub space : String
  pub table : String
  pub body : Bytes
  pub entries : List ChunkEntry
  pub keys : List Bytes

abbrev pub new_writer : String → String → String → ChunkWriter
new_writer chunk_id space table = record {
  chunk_id = chunk_id;
  space = space;
  table = table;
  body = [];
  entries = [];
  keys = [];
}

abbrev pub entry_key : ChunkEntry → Bytes
entry_key e = compose_key_bytes e.space e.table e.record_id

-- the order of byte strings
abbrev pub bytes_lt : Bytes → Bytes → Bool
bytes_lt [] [] = false
bytes_lt [] (b ∷ bs) = true
bytes_lt (a ∷ as') [] = false
bytes_lt (a ∷ as') (b ∷ bs) =
    let rest = bytes_lt as' bs in if ltb a b then true else if a == b then rest else false

-- `iter().min()` and `iter().max()`, from the first element on
unfoldable pub min_from : Bytes → List Bytes → Bytes
min_from best [] = best
min_from best (k ∷ ks) = min_from (if bytes_lt k best then k else best) ks

unfoldable pub max_from : Bytes → List Bytes → Bytes
max_from best [] = best
max_from best (k ∷ ks) = max_from (if bytes_lt k best then best else k) ks

abbrev pub min_key : List Bytes → Bytes
min_key [] = []
min_key (k ∷ ks) = min_from k ks

abbrev pub max_key : List Bytes → Bytes
max_key [] = []
max_key (k ∷ ks) = max_from k ks

abbrev pub header_of : ChunkWriter → ℕ → Bytes → ChunkHeader
header_of w now compressed = record {
  chunk_id = w.chunk_id;
  created_at_ms = now;
  compressed_body_len = length compressed;
  uncompressed_len = length w.body;
  space = w.space;
  table = w.table;
  key_min = min_key w.keys;
  key_max = max_key w.keys;
  record_count = length w.entries;
}

abbrev pub file_of : ChunkHeader → Bytes → Bytes → Bytes
file_of header compressed footer =
    encode_header header ++ (compressed ++ (footer ++ le 4 (length footer % 4294967296)))

abbrev pub of_result : Result Bytes → Parsed Bytes
of_result (ok bs) = done bs []
of_result (err e) = failed e

module _ (codecs : Codecs) where
  unfoldable pub append : ChunkEntry → ChunkWriter → ChunkWriter
  append e w = record w {
    keys = w.keys ++ (entry_key e ∷ []);
    body = w.body ++ encode_entry codecs e;
    entries = w.entries ++ (e ∷ []);
  }

  -- the loop of the key index, from an index and an offset on
  unfoldable pub sample_keys : ℕ → ℕ → List ChunkEntry → List KeyIndexEntry
  sample_keys i offset [] = []
  sample_keys i offset (e ∷ es) =
      let rest = sample_keys (i + 1) (offset + length (encode_entry codecs e)) es in
      if i % key_index_sample_every == 0
      then (record {
        key_bytes = entry_key e;
        body_offset = offset;
        commit_version = e.commit_version;
      })
        ∷ rest
      else rest

  abbrev pub footer_of : ChunkWriter → ChunkFooter
  footer_of w = record {
    bloom = build_bloom codecs w.keys bloom_bits_per_key;
    key_index = sample_keys 0 0 w.entries;
    body_crc32c = codecs.crc32 w.body % 4294967296;
  }

  unfoldable pub finalize : ChunkWriter → ℕ → Result (Bytes × ChunkHeader × ChunkFooter)
  finalize w now = do
    compressed ← codecs.compress w.body
    let header = header_of w now compressed
    let footer = footer_of w
    footer_bytes ← encode_footer codecs footer
    ok (file_of header compressed footer_bytes, header, footer)

  -- `&file[body_offset..body_end]`, where the bytes from the offset on are given with the length of the file
  abbrev pub body_slice : ℕ → ℕ → Bytes → Parsed Bytes
  body_slice body_offset body_end ahead =
      if ltb body_end body_offset
      then panicked
      else of_result (codecs.decompress (take (body_end - body_offset) ahead))

  abbrev pub with_footer_len : ℕ → ℕ → Bytes → Parsed ℕ → Parsed Bytes
  with_footer_len total body_offset ahead (done footer_len _) =
      body_slice body_offset (total - 4 - footer_len) ahead
  with_footer_len total body_offset ahead (failed e) = failed e
  with_footer_len total body_offset ahead panicked = panicked

  abbrev pub after_header : Bytes → Parsed ChunkHeader → Parsed Bytes
  after_header file (done _ ahead) =
      let total = length file in
      let body_offset = total - length ahead in
      if ltb total (body_offset + 4)
      then failed XtableError.storage
      else with_footer_len total body_offset ahead (number_of (split_at 4 (drop (total - 4) file)))
  after_header file (failed e) = failed e
  after_header file panicked = panicked

  unfoldable pub decompress_body : Bytes → Parsed Bytes
  decompress_body file = after_header file (decode_header file)
