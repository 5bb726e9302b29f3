-- ===== src/Flush/Names.antt =====
-- xtable-storage/src/flush.rs: the shard of a chunk and the key of its object.
use Prim.Native.String.{◌++◌}
use xtable.Prelude.{ℕ, ◌%◌, String}
use xtable.Records.{Bytes}
use xtable.Chunk.{ChunkHeader, Codecs}
use xtable.Text.{show_u32}

-- `u8`, the low byte of the hash
unfoldable pub compute_shard : Codecs → Bytes → ℕ
compute_shard codecs key_min = codecs.xxh3_64 key_min % 256

-- the text that `format!` makes
abbrev pub s3_key : Codecs → ChunkHeader → String → String
s3_key codecs h chunk_id =
    "_xtable/"
    ++ (h.space
        ++ ("/"
            ++ (h.table
                ++ ("/"
                    ++ (show_u32 (compute_shard codecs h.key_min)
                        ++ ("/" ++ (chunk_id ++ ".xtc")))))))
