-- ===== src/SchemaKey/Laws.antt =====
-- The keys that are built are read back.
use Prim.Native.Char.{Char}
use xtable.Prelude.{ℕ, ◌≡◌, refl, String, true, false, ◌==◌, nat_key, string_key, arith}
use xtable.Errors.{ok, >>=-ok}
use xtable.Text.{all_chars}
use xtable.Text.Laws.{not_slash}
use xtable.SchemaKey.{
  schema_seg, is_safe, validate_segment, schema_key, record_key, record_text, schema_text,
  unless_reserved,
}

not_slash-of_safe : (c : Char) → is_safe c ≡ true → not_slash c ≡ true
not_slash-of_safe c h = ground arith

all_chars-not_slash : (s : String) → all_chars is_safe s ≡ true → all_chars not_slash s ≡ true
unfolding all_chars
all_chars-not_slash String.[] h = refl
all_chars-not_slash (String.◌∷◌ c s) h = ground (arith, not_slash-of_safe c, all_chars-not_slash s)

-- a segment that is accepted has no slash
segment-not_slash :
    (seg : String) (u : Unit) → validate_segment seg ≡ ok u → all_chars not_slash seg ≡ true
unfolding validate_segment
segment-not_slash seg u h = all_chars-not_slash seg (ground arith)

pub record_key-ok :
    (space table record_id key : String)
    → record_key space table record_id ≡ ok key
    → (all_chars not_slash space ≡ true)
      × (all_chars not_slash table ≡ true)
      × (all_chars not_slash record_id ≡ true)
      × ((table == schema_seg) ≡ false)
      × (key ≡ record_text space table record_id)
unfolding record_key
record_key-ok space table record_id key h =
    let (a, space_ok, rest) = >>=-ok (validate_segment space) _ h in
    let (b, table_ok, rest) = >>=-ok (validate_segment table) _ rest in
    let (c, id_ok, last) = >>=-ok (validate_segment record_id) _ rest in
    let (free, e) = unreserved _ last in
    (
      segment-not_slash space a space_ok,
      segment-not_slash table b table_ok,
      segment-not_slash record_id c id_ok,
      free,
      e,
    )
  where
    unreserved :
        (text : String)
        → unless_reserved table text ≡ ok key
        → ((table == schema_seg) ≡ false) × (key ≡ text)
    unreserved text e = ground arith

pub schema_key-ok :
    (space name : String) (version : ℕ) (key : String)
    → schema_key space name version ≡ ok key
    → (all_chars not_slash space ≡ true)
      × (all_chars not_slash name ≡ true)
      × (key ≡ schema_text space name version)
unfolding schema_key
schema_key-ok space name version key h =
    let (a, space_ok, rest) = >>=-ok (validate_segment space) _ h in
    let (b, name_ok, last) = >>=-ok (validate_segment name) _ rest in
    (segment-not_slash space a space_ok, segment-not_slash name b name_ok, made _ last)
  where
    made : (text : String) → ok text ≡ ok key → key ≡ text
    made text e = cc
