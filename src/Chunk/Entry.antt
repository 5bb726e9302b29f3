-- ===== src/Chunk/Entry.antt =====
-- xtable-storage/src/chunk.rs: the entries of a body.
use xtable.Prelude.{
  ℕ, zero, suc, ◌%◌, String, Bool, true, false, Option, none, some, List, [], ◌∷◌, ◌++◌, ltb,
  length, ◌==◌, nat_key, if◌then◌else◌,
}
use xtable.Records.{Bytes}
use xtable.Wire.{
  le, Parsed, done, failed, panicked, Parser, ◌>>=◌, give, read_le, slice, byte, text, text_of,
}
use xtable.Wire.Utf8.{as_bytes, from_utf8}
use xtable.Chunk.{ChunkEntry, Codecs, field, compose_key_bytes}

-- `put_u8(n as u8)`
abbrev pub put_u8 : ℕ → Bytes
put_u8 n = (n % 256) ∷ []

-- a length in one byte and the bytes, before what follows
abbrev pub short_field : Bytes → Bytes → Bytes
short_field bs next = put_u8 (length bs) ++ (bs ++ next)

unfoldable pub encode_meta : List (String × String) → Bytes
encode_meta [] = []
encode_meta ((k, v) ∷ pairs) =
    short_field (as_bytes k) (short_field (as_bytes v) (encode_meta pairs))

-- `content_type.as_deref().unwrap_or("")`
abbrev pub or_empty : Option String → String
or_empty none = ""
or_empty (some s) = s

abbrev pub flags_of : Bool → ℕ
flags_of true = 1
flags_of false = 0

-- what the checksum of an entry is taken of
unfoldable pub entry_payload : ChunkEntry → Bytes
entry_payload e = field (compose_key_bytes e.space e.table e.record_id) (
    le 4 (length e.value % 4294967296)
    ++ (e.value
        ++ (short_field (as_bytes (or_empty e.content_type)) (
            put_u8 (length e.user_meta)
            ++ (encode_meta e.user_meta
                ++ (le 4 e.schema_version
                    ++ (short_field (as_bytes e.txn_id) (
                        le 8 e.commit_version
                        ++ (le 8 e.wal_seq ++ put_u8 (flags_of e.deleted))))))))))

-- `crc32fast::hash` gives a `u32`
unfoldable pub encode_entry : Codecs → ChunkEntry → Bytes
encode_entry codecs e = entry_payload e ++ le 4 (codecs.crc32 (entry_payload e) % 4294967296)

abbrev pub cons_head : ℕ → List Bytes → List Bytes
cons_head b [] = (b ∷ []) ∷ []
cons_head b (part ∷ parts) = (b ∷ part) ∷ parts

-- `split(|b| *b == 0)`
unfoldable pub split_nul : Bytes → List Bytes
split_nul [] = [] ∷ []
split_nul (b ∷ bs) = let rest = split_nul bs in if b == 0 then [] ∷ rest else cons_head b rest

-- `parts.next().unwrap_or(b"")`, and the parts that are left
abbrev pub next_part : List Bytes → Bytes × List Bytes
next_part [] = ([], [])
next_part (part ∷ parts) = (part, parts)

abbrev pub part_text : Bytes × List Bytes → Parser String
part_text parts = text_of (from_utf8 parts.0)

abbrev pub optional_text : ℕ → Parser (Option String)
optional_text len = if ltb 0 len then text len >>= (λ s. give (some s)) else give none

unfoldable pub read_meta : ℕ → Parser (List (String × String))
read_meta zero = give []
read_meta (suc count) = do
  klen ← byte
  k ← text klen
  vlen ← byte
  v ← text vlen
  pairs ← read_meta count
  give ((k, v) ∷ pairs)

unfoldable pub decode_payload : Parser ChunkEntry
decode_payload = do
  key_len ← read_le 2
  key ← slice key_len
  let first = next_part (split_nul key)
  let second = next_part first.1
  let third = next_part second.1
  space ← part_text first
  table ← part_text second
  record_id ← part_text third
  value_len ← read_le 4
  value ← slice value_len
  ct_len ← byte
  content_type ← optional_text ct_len
  um_count ← byte
  user_meta ← read_meta um_count
  schema_version ← read_le 4
  txn_len ← byte
  txn_id ← text txn_len
  commit_version ← read_le 8
  wal_seq ← read_le 8
  flags ← byte
  give (record {
    space = space;
    table = table;
    record_id = record_id;
    value = value;
    commit_version = commit_version;
    txn_id = txn_id;
    deleted = flags % 2 == 1;
    content_type = content_type;
    user_meta = user_meta;
    schema_version = schema_version;
    wal_seq = wal_seq;
  })

-- the checksum is read and not compared
unfoldable pub decode_entry : Parser ChunkEntry
decode_entry = do entry ← decode_payload; _ ← read_le 4; give entry

abbrev pub with_entry :
    ChunkEntry → Option (Parsed (List ChunkEntry)) → Option (Parsed (List ChunkEntry))
with_entry e none = none
with_entry e (some (done es rest)) = some (done (e ∷ es) rest)
with_entry e (some (failed error)) = some (failed error)
with_entry e (some panicked) = some panicked

-- the loop of `decode_body_entries`; `none` if the fuel runs out
unfoldable pub decode_entries : ℕ → Bytes → Option (Parsed (List ChunkEntry))
decode_entries fuel [] = some (done [] [])
decode_entries zero (b ∷ bs) = none
decode_entries (suc fuel) (b ∷ bs) = elim (decode_entry (b ∷ bs)) [
  | done e rest ↦ with_entry e (decode_entries fuel rest)
  | failed error ↦ some (failed error)
  | panicked ↦ some panicked
]

-- `with_capacity` panics when the room for the expected entries cannot be reserved
unfoldable pub decode_body_entries : Codecs → ℕ → Bytes → Option (Parsed (List ChunkEntry))
decode_body_entries codecs expected_count body =
    let entries = decode_entries (length body) body in
    if ltb codecs.entry_capacity expected_count then some panicked else entries

unfoldable pub encode_entries : Codecs → List ChunkEntry → Bytes
encode_entries codecs [] = []
encode_entries codecs (e ∷ es) = encode_entry codecs e ++ encode_entries codecs es
