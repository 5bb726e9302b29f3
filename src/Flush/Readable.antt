-- ===== src/Flush/Readable.antt =====
-- xtable-storage/src/flush.rs and read.rs together: a reader after a flush.
use xtable.Prelude.{
  ltb, ℕ, ◌≡◌, ◌<◌, String, false, List, ◌∷◌, map, All, length, string_key, triple_key, nat_key,
}
use mathlib.Core.Option
use xtable.Errors.{ok}
use xtable.Records.{Bytes}
use xtable.Memtable.{MemEntry, MemTable}
use xtable.Chunk.{ChunkEntry, ChunkHeader, ChunkFooter, Codecs, encode_footer}
use xtable.Chunk.Writer.{ChunkWriter, new_writer, finalize, footer_of}
use xtable.Chunk.HeaderTrip
use xtable.Chunk.EntryTrip
use xtable.Chunk.FileTrip.{append_all}
use xtable.World.{World}
use xtable.Read.{version_span}
use xtable.Flush.{chunk_entry, visible_rows}
use xtable.Flush.Finds.{IsKeyed}

-- the entries and the header fit the chunk format, and the footer is shorter than 4 GiB
pub record IsWritable (codecs : Codecs) (writer : ChunkWriter) (es : List ChunkEntry) (now : ℕ)
    : Type 0 where
  pub entries : All EntryTrip.IsEncodable es
  pub header :
      (file : Bytes) (h : ChunkHeader) (f : ChunkFooter)
      → finalize codecs writer now ≡ ok (file, h, f)
      → HeaderTrip.IsEncodable h
  pub footer :
      (bytes : Bytes)
      → encode_footer codecs (footer_of codecs writer) ≡ ok bytes
      → length bytes < 4294967296

module _ (codecs : Codecs) where
  module _ (law : (body z : Bytes) → codecs.compress body ≡ ok z → codecs.decompress z ≡ ok body)
      (mt : MemTable) (c : String) (now : ℕ) (e : MemEntry) (es : List MemEntry)
      (rows : visible_rows mt.rows ≡ e ∷ es) (keyed : IsKeyed mt.rows)
      (writable : IsWritable codecs
        (append_all codecs (map chunk_entry (e ∷ es)) (new_writer c e.key.0 e.key.1))
        (map chunk_entry (e ∷ es))
        now)
      (room : ltb codecs.entry_capacity (version_span mt.version_min mt.version_max) ≡ false) where
    abbrev entries : List ChunkEntry
    entries = map chunk_entry (e ∷ es)

    abbrev writer : ChunkWriter
    writer = append_all codecs entries (new_writer c e.key.0 e.key.1)
