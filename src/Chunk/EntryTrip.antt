-- ===== src/Chunk/EntryTrip.antt =====
-- The entries of a body are read back from its bytes.
use xtable.Prelude.{
  ℕ, zero, suc, ◌%◌, ◌≡◌, ◌<◌, ◌≤◌, refl, ◌∙◌, ap, String, Bool, true, false, Option, none, some,
  List, [], ◌∷◌, ◌++◌, All, length, length-append, ltb, ◌==◌, nat_key, arith,
}
use xtable.Records.{Bytes}
use xtable.Wire.{le, done, Parser, resume, ◌>>=◌, give, read_le, slice, byte, text, text_of}
use xtable.Wire.Utf8.{as_bytes, from_utf8, from_utf8-as_bytes}
use xtable.Wire.Reads.{
  Reads, Reads-bind, Reads-end, Reads-give, Reads-le, Reads-le_any, Reads-slice, Reads-byte,
  Reads-text, length-le,
}
use xtable.Chunk.{ChunkEntry, Codecs, compose_key_bytes}
use xtable.Chunk.Entry.{
  put_u8, short_field, encode_meta, or_empty, flags_of, entry_payload, encode_entry, split_nul,
  next_part, optional_text, read_meta, decode_payload, decode_entry, with_entry, decode_entries,
  decode_body_entries, encode_entries,
}
use xtable.Chunk.HeaderTrip.{Reads-field, Reads-number}

abbrev pub IsNulFree : Bytes → Type 0
IsNulFree bs = All (λ b. 0 < b) bs

split_nul-append : (a rest : Bytes) → IsNulFree a → split_nul (a ++ (0 ∷ rest)) ≡ a ∷ split_nul rest
unfolding split_nul
split_nul-append [] rest h = refl
split_nul-append (b ∷ a) rest h =
    let pos = h.0 in
    let other : (b == 0) ≡ false = ground arith in rw (other, split_nul-append a rest h.1) refl

split_nul-all : (a : Bytes) → IsNulFree a → split_nul a ≡ a ∷ []
unfolding split_nul
split_nul-all [] h = refl
split_nul-all (b ∷ a) h =
    let pos = h.0 in
    let other : (b == 0) ≡ false = ground arith in rw (other, split_nul-all a h.1) refl

-- a key is split into its three texts
pub split_nul-compose :
    (space table record_id : String)
    → IsNulFree (as_bytes space)
    → IsNulFree (as_bytes table)
    → IsNulFree (as_bytes record_id)
    → split_nul (compose_key_bytes space table record_id)
      ≡ as_bytes space ∷ as_bytes table ∷ as_bytes record_id ∷ []
unfolding compose_key_bytes
split_nul-compose space table record_id s t r =
    split_nul-append (as_bytes space) _ s
    ∙ ap (λ ps. as_bytes space ∷ ps)
        (split_nul-append (as_bytes table) _ t
          ∙ ap (λ ps. as_bytes table ∷ ps) (split_nul-all (as_bytes record_id) r))

abbrev pub IsShort : String → Type 0
IsShort s = length (as_bytes s) < 256

abbrev pub IsContentType : Option String → Type 0
IsContentType none = Unit
IsContentType (some s) = (0 < length (as_bytes s)) × IsShort s

-- the lengths and numbers of an entry fit the bytes that they are written in, no text of its key has a
-- zero byte, and its content type is not empty
pub record IsEncodable (e : ChunkEntry) : Type 0 where
  pub space : IsNulFree (as_bytes e.space)
  pub table : IsNulFree (as_bytes e.table)
  pub record_id : IsNulFree (as_bytes e.record_id)
  pub key : length (compose_key_bytes e.space e.table e.record_id) < 65536
  pub value : length e.value < 4294967296
  pub content_type : IsContentType e.content_type
  pub meta_count : length e.user_meta < 256
  pub user_meta : All (λ (pair : String × String). IsShort pair.0 × IsShort pair.1) e.user_meta
  pub schema_version : e.schema_version < 4294967296
  pub txn_id : IsShort e.txn_id
  pub commit_version : e.commit_version < 18446744073709551616
  pub wal_seq : e.wal_seq < 18446744073709551616

short_len : (s : String) → IsShort s → length (as_bytes s) ≡ length (as_bytes s) % 256
short_len s h = omega arith

Reads-short :
    {B : Type 0} (f : String → Parser B) (s : String) (next : Bytes) (b : B)
    → IsShort s
    → Reads (f s) next b
    → Reads (byte >>= (λ n. text n >>= f)) (short_field (as_bytes s) next) b
Reads-short f s next b h k =
    Reads-bind byte (λ n. text n >>= f) (length (as_bytes s) % 256) b (put_u8 (length (as_bytes s)))
      (as_bytes s ++ next) (Reads-byte _)
      (Reads-bind (text _) f s b (as_bytes s) next (Reads-text _ s (short_len s h)) k)

-- a text that is at hand
Reads-known :
    {B : Type 0} (bs : Bytes) (s : String) (f : String → Parser B) (next : Bytes) (b : B)
    → bs ≡ as_bytes s
    → Reads (f s) next b
    → Reads (text_of (from_utf8 bs) >>= f) next b
Reads-known bs s f next b e k rest =
    ap (λ o. resume (text_of o (next ++ rest)) f) (ap from_utf8 e ∙ from_utf8-as_bytes s) ∙ k rest

Reads-optional :
    (ct : Option String)
    → IsContentType ct
    → Reads (optional_text (length (as_bytes (or_empty ct)) % 256)) (as_bytes (or_empty ct)) ct
unfolding as_bytes
Reads-optional none h = λ rest. refl
Reads-optional (some s) h =
    let positive : ltb 0 (length (as_bytes s) % 256) ≡ true = more s h.0 h.1 in
    rw positive (Reads-end (text _) some s (as_bytes s) (Reads-text _ s (short_len s h.1)))
  where
    more :
        (s : String)
        → 0 < length (as_bytes s)
        → IsShort s
        → ltb 0 (length (as_bytes s) % 256) ≡ true
    more s p q = ground arith

Reads-meta :
    (pairs : List (String × String))
    → All (λ (pair : String × String). IsShort pair.0 × IsShort pair.1) pairs
    → Reads (read_meta (length pairs)) (encode_meta pairs) pairs
unfolding read_meta encode_meta
Reads-meta [] h = Reads-give []
Reads-meta ((k, v) ∷ pairs) h = Reads-short _ k _ _ h.0.0 (
    Reads-short _ v _ _ h.0.1 (
      Reads-end (read_meta (length pairs)) (λ ps. (k, v) ∷ ps) pairs (encode_meta pairs)
        (Reads-meta pairs h.1)))

Reads-count :
    (pairs : List (String × String))
    → length pairs < 256
    → All (λ (pair : String × String). IsShort pair.0 × IsShort pair.1) pairs
    → Reads (read_meta (length pairs % 256)) (encode_meta pairs) pairs
Reads-count pairs h w =
    let e : length pairs % 256 ≡ length pairs = omega arith in rw e (Reads-meta pairs w)

-- a byte that is written by `put_u8`
Reads-u8 :
    {B : Type 0} (n : ℕ) (f : ℕ → Parser B) (next : Bytes) (b : B)
    → Reads (f (n % 256)) next b
    → Reads (byte >>= f) (put_u8 n ++ next) b
Reads-u8 n f next b k = Reads-bind byte f (n % 256) b (put_u8 n) next (Reads-byte (n % 256)) k

pub Reads-payload : (e : ChunkEntry) → IsEncodable e → Reads decode_payload (entry_payload e) e
unfolding decode_payload entry_payload
Reads-payload e w =
    let parts = split_nul-compose e.space e.table e.record_id w.space w.table w.record_id in
    Reads-field _ (compose_key_bytes e.space e.table e.record_id) _ e w.key (
      Reads-known _ e.space _ _ e (ap (λ ps. (next_part ps).0) parts) (
        Reads-known _ e.table _ _ e (ap (λ ps. (next_part (next_part ps).1).0) parts) (
          Reads-known _ e.record_id _ _ e
            (ap (λ ps. (next_part (next_part (next_part ps).1).1).0) parts)
            (Reads-bind (read_le 4) _ (length e.value % 4294967296) e _ _
              (Reads-le 4 _ (omega arith))
              (Reads-bind (slice _) _ e.value e e.value _
                (Reads-slice _ e.value (fits32 e.value w.value))
                (Reads-u8 (length (as_bytes (or_empty e.content_type))) _ _ e (
                  Reads-bind (optional_text _) _ e.content_type e _ _
                    (Reads-optional e.content_type w.content_type)
                    (Reads-u8 (length e.user_meta) _ _ e (
                      Reads-bind (read_meta _) _ e.user_meta e _ _
                        (Reads-count e.user_meta w.meta_count w.user_meta)
                        (Reads-number 4 e.schema_version _ _ e (Reads-le 4 _ w.schema_version) (
                          Reads-short _ e.txn_id _ e w.txn_id (
                            Reads-number 8 e.commit_version _ _ e (Reads-le 8 _ w.commit_version) (
                              Reads-number 8 e.wal_seq _ _ e (Reads-le 8 _ w.wal_seq) (
                                Reads-u8 (flags_of e.deleted) _ [] e (λ rest.
                                  ap (λ b. done (record e { deleted = b }) rest)
                                    (flag e.deleted))))))))))))))))
  where
    fits32 : (bs : Bytes) → length bs < 4294967296 → length bs ≡ length bs % 4294967296
    fits32 bs h = omega arith

    flag : (b : Bool) → (flags_of b % 256 % 2 == 1) ≡ b
    flag true = refl
    flag false = refl

pub Reads-entry :
    (codecs : Codecs) (e : ChunkEntry)
    → IsEncodable e
    → Reads decode_entry (encode_entry codecs e) e
unfolding decode_entry encode_entry
Reads-entry codecs e w =
    Reads-bind decode_payload _ e e (entry_payload e) _ (Reads-payload e w)
      (λ rest. ap (λ r. resume r (λ _. give e)) (Reads-le_any 4 _ rest))

entry-long : (codecs : Codecs) (e : ChunkEntry) → 0 < length (encode_entry codecs e)
unfolding encode_entry entry_payload
entry-long codecs e = omega (
  arith,
  length-append (entry_payload e) (le 4 (codecs.crc32 (entry_payload e) % 4294967296)),
  length-le 4 (codecs.crc32 (entry_payload e) % 4294967296),
)

pub decode_entries-step :
    (codecs : Codecs) (e : ChunkEntry) (fuel : ℕ) (rest : Bytes)
    → IsEncodable e
    → decode_entries (suc fuel) (encode_entry codecs e ++ rest)
      ≡ with_entry e (decode_entries fuel rest)
unfolding decode_entries
decode_entries-step codecs e fuel rest w =
    step (encode_entry codecs e ++ rest) (Reads-entry codecs e w rest)
      (omega (arith, entry-long codecs e, length-append (encode_entry codecs e) rest))
  where
    step :
        (buf : Bytes)
        → decode_entry buf ≡ done e rest
        → 0 < length buf
        → decode_entries (suc fuel) buf ≡ with_entry e (decode_entries fuel rest)
    step [] h l = absurd (omega arith)
    step (b ∷ bs) h l = rw (h, decode_entries) refl

decodes_back :
    (codecs : Codecs) (es : List ChunkEntry) (fuel : ℕ)
    → All IsEncodable es
    → length (encode_entries codecs es) ≤ fuel
    → decode_entries fuel (encode_entries codecs es) ≡ some (done es [])
unfolding encode_entries decode_entries
decodes_back codecs [] fuel w l = refl
decodes_back codecs (e ∷ es) zero w l = absurd (
    omega (
      arith,
      entry-long codecs e,
      length-append (encode_entry codecs e) (encode_entries codecs es),
    ))
decodes_back codecs (e ∷ es) (suc fuel) w l =
    decode_entries-step codecs e fuel (encode_entries codecs es) w.0
    ∙ ap (with_entry e) (
        decodes_back codecs es fuel w.1 (
          omega (
            arith,
            entry-long codecs e,
            length-append (encode_entry codecs e) (encode_entries codecs es),
          )))

-- The entries of a body are read back from its bytes in their order, if each can be encoded and there is room
-- for the number expected.
pub decode_body_entries-encode_entries :
    (codecs : Codecs) (es : List ChunkEntry) (expected : ℕ)
    → All IsEncodable es
    → ltb codecs.entry_capacity expected ≡ false
    → decode_body_entries codecs expected (encode_entries codecs es) ≡ some (done es [])
unfolding decode_body_entries
decode_body_entries-encode_entries codecs es expected w room =
    rw room (decodes_back codecs es (length (encode_entries codecs es)) w (omega arith))
