-- ===== src/Chunk.antt =====
-- xtable-storage/src/chunk.rs: the file format of a flushed memtable. zstd, crc32fast, xxh3 and bincode
-- are other packages: `Codecs` holds what the code calls of them.
pub mod Entry
pub mod Bloom
pub mod Writer
pub mod HeaderTrip
pub mod FooterTrip
pub mod EntryTrip
pub mod FileTrip
pub mod Ends
pub mod Panics
pub mod NoFalseNegatives
pub mod Index
mod Tests
use mathlib.Core.Option
use xtable.Prelude.{
  ℕ, zero, suc, ◌+◌, ◌-◌, ◌%◌, String, Bool, true, false, not, ◌||◌, ◌&&◌, Option, none, some, List,
  [], ◌∷◌, ◌++◌, ltb, length, drop, ◌==◌, nat_key, if◌then◌else◌,
}
use xtable.Errors.{XtableError, Result, ok, err}
use xtable.Records.{Bytes}
use xtable.Wire.{
  le, Parsed, done, failed, panicked, Parser, resume, ◌>>=◌, give, fail, split_at, read_le, slice,
  text,
}
use xtable.Wire.Utf8.{as_bytes}

-- `b"XTC1"` and `b"XTCF"`
abbrev pub chunk_magic : Bytes
chunk_magic = b'X' ∷ b'T' ∷ b'C' ∷ b'1' ∷ []

abbrev pub footer_magic : Bytes
footer_magic = b'X' ∷ b'T' ∷ b'C' ∷ b'F' ∷ []

abbrev pub chunk_version : ℕ
chunk_version = 1

abbrev pub bloom_bits_per_key : ℕ
bloom_bits_per_key = 10

abbrev pub key_index_sample_every : ℕ
key_index_sample_every = 256

pub record ChunkEntry : Type 0 where
  pub space : String
  pub table : String
  pub record_id : String
  pub value : Bytes
  pub commit_version : ℕ
  pub txn_id : String
  pub deleted : Bool
  pub content_type : Option String
  pub user_meta : List (String × String)
  pub schema_version : ℕ
  pub wal_seq : ℕ

pub record ChunkHeader : Type 0 where
  pub chunk_id : String
  pub created_at_ms : ℕ
  pub compressed_body_len : ℕ
  pub uncompressed_len : ℕ
  pub space : String
  pub table : String
  pub key_min : Bytes
  pub key_max : Bytes
  pub record_count : ℕ

pub record KeyIndexEntry : Type 0 where
  pub key_bytes : Bytes
  pub body_offset : ℕ
  pub commit_version : ℕ

pub record ChunkFooter : Type 0 where
  pub bloom : Bytes
  pub key_index : List KeyIndexEntry
  pub body_crc32c : ℕ

-- what the code calls of other packages: `zstd::encode_all` and `decode_all`, `crc32fast::hash`,
-- `xxh3_64`, and bincode on the key index
pub record Codecs : Type 0 where
  pub compress : Bytes → Result Bytes
  pub decompress : Bytes → Result Bytes
  pub crc32 : Bytes → ℕ
  pub xxh3_64 : Bytes → ℕ
  pub serialize_index : List KeyIndexEntry → Result Bytes
  pub deserialize_index : Bytes → Result (List KeyIndexEntry)
  -- the most entries that a vector can reserve room for, by the size that the compiler gives an entry
  pub entry_capacity : ℕ

-- `(len as u16).to_le_bytes()` and the bytes, before what follows
abbrev pub field : Bytes → Bytes → Bytes
field bs next = le 2 (length bs % 65536) ++ (bs ++ next)

unfoldable pub encode_header : ChunkHeader → Bytes
encode_header h =
    chunk_magic
    ++ (le 2 chunk_version
        ++ (field (as_bytes h.chunk_id) (
            le 8 h.created_at_ms
            ++ (le 8 h.compressed_body_len
                ++ (le 8 h.uncompressed_len
                    ++ (field (as_bytes h.space) (
                        field (as_bytes h.table)
                          (field h.key_min (field h.key_max (le 8 h.record_count))))))))))

abbrev pub same_bytes : Bytes → Bytes → Bool
same_bytes [] [] = true
same_bytes [] (b ∷ bs) = false
same_bytes (a ∷ as') [] = false
same_bytes (a ∷ as') (b ∷ bs) = a == b && same_bytes as' bs

abbrev pub after_magic : Option (Bytes × Bytes) → Parsed (Unit {0})
after_magic none = failed XtableError.storage
after_magic (some (front, rest)) =
    if same_bytes front chunk_magic then done tt rest else failed XtableError.storage

-- the length and the first four bytes are tested before anything is read
unfoldable pub expect_magic : Parser (Unit {0})
expect_magic buf =
    if ltb (length buf) 6 then failed XtableError.storage else after_magic (split_at 4 buf)

abbrev pub require : Bool → Parser (Unit {0})
require true = give tt
require false = fail XtableError.storage

-- what follows the magic bytes
unfoldable pub read_header : Parser ChunkHeader
read_header = do
  version ← read_le 2
  _ ← require (version == chunk_version)
  id_len ← read_le 2
  chunk_id ← text id_len
  created_at_ms ← read_le 8
  compressed_body_len ← read_le 8
  uncompressed_len ← read_le 8
  space_len ← read_le 2
  space ← text space_len
  table_len ← read_le 2
  table ← text table_len
  min_len ← read_le 2
  key_min ← slice min_len
  max_len ← read_le 2
  key_max ← slice max_len
  record_count ← read_le 8
  give (record {
    chunk_id = chunk_id;
    created_at_ms = created_at_ms;
    compressed_body_len = compressed_body_len;
    uncompressed_len = uncompressed_len;
    space = space;
    table = table;
    key_min = key_min;
    key_max = key_max;
    record_count = record_count;
  })

-- the header, and what is ahead of it: `body_offset` is the number of bytes before that
unfoldable pub decode_header : Parser ChunkHeader
decode_header = do _ ← expect_magic; read_header

abbrev pub lift : {A : Type 0} → Result A → Parser A
lift (ok a) = give a
lift (err e) = fail e

module _ (codecs : Codecs) where
  abbrev pub footer_bytes : ChunkFooter → Bytes → Bytes
  footer_bytes f index =
      le 4 (length f.bloom % 4294967296)
      ++ (f.bloom
          ++ (le 4 (length index % 4294967296) ++ (index ++ (le 4 f.body_crc32c ++ footer_magic))))

  unfoldable pub encode_footer : ChunkFooter → Result Bytes
  encode_footer f = elim (codecs.serialize_index f.key_index) [
    | ok index ↦ ok (footer_bytes f index)
    | err e ↦ err e
  ]

  unfoldable pub read_footer : Parser ChunkFooter
  read_footer = do
    bloom_len ← read_le 4
    bloom ← slice bloom_len
    ki_len ← read_le 4
    index ← slice ki_len
    key_index ← lift (codecs.deserialize_index index)
    body_crc32c ← read_le 4
    give (record { bloom = bloom; key_index = key_index; body_crc32c = body_crc32c })

  unfoldable pub decode_footer : Parser ChunkFooter
  decode_footer buf =
      if ltb (length buf) 8 || not (same_bytes (drop (length buf - 4) buf) footer_magic)
      then failed XtableError.storage
      else read_footer buf

-- `space\x00table\x00record_id`
unfoldable pub compose_key_bytes : String → String → String → Bytes
compose_key_bytes space table record_id =
    as_bytes space ++ (0 ∷ (as_bytes table ++ (0 ∷ as_bytes record_id)))
