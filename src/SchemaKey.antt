-- ===== src/SchemaKey.antt =====
-- xtable-schema/src/key.rs: the storage keys of records and of the versions of schemas.
pub mod Parse
pub mod Laws
pub mod RoundTrip
mod Tests
use Prim.Native.Char.{Char, code}
use Prim.Native.String.{◌++◌, len}
use xtable.Prelude.{
  ℕ, ◌≡◌, String, Bool, true, false, ◌&&◌, ◌||◌, not, Option, none, some, List, [], ◌∷◌, ltb, leb,
  ◌==◌, nat_key, string_key, if◌then◌else◌,
}
use xtable.Errors.{XtableError, Result, ok, err, ◌>>=◌}
use xtable.Text.{all_chars, show_u32}

abbrev pub xt_prefix : String
xt_prefix = "_xtable"

abbrev pub schema_seg : String
schema_seg = "_schema"

abbrev pub is_ascii_alphanumeric : Char → Bool
is_ascii_alphanumeric c =
    (leb b'0' (code c) && leb (code c) b'9')
    || (leb b'A' (code c) && leb (code c) b'Z')
    || (leb b'a' (code c) && leb (code c) b'z')

abbrev pub is_safe : Char → Bool
is_safe c =
    is_ascii_alphanumeric c || code c == b'.' || code c == b'_' || code c == b'-' || code c == b':'

unfoldable pub validate_segment : String → Result (Unit {0})
validate_segment seg =
    if seg == ""
    then err XtableError.invalid_argument
    else if ltb 128 (len seg)
    then err XtableError.invalid_argument
    else if not (all_chars is_safe seg)
    then err XtableError.invalid_argument
    else ok tt

-- the texts that `format!` makes
abbrev pub schema_text : String → String → ℕ → String
schema_text space name version =
    xt_prefix
    ++ ("/"
        ++ (space
            ++ ("/"
                ++ (schema_seg
                    ++ ("/" ++ (name ++ ("/" ++ ("v" ++ (show_u32 version ++ ".json")))))))))

unfoldable pub schema_key : String → String → ℕ → Result String
schema_key space name version = do
  _ ← validate_segment space
  _ ← validate_segment name
  ok (schema_text space name version)

abbrev pub record_text : String → String → String → String
record_text space table record_id =
    xt_prefix ++ ("/" ++ (space ++ ("/" ++ (table ++ ("/" ++ (record_id ++ ".json"))))))

abbrev pub unless_reserved : String → String → Result String
unless_reserved table key = if table == schema_seg then err XtableError.invalid_argument else ok key

unfoldable pub record_key : String → String → String → Result String
record_key space table record_id = do
  _ ← validate_segment space
  _ ← validate_segment table
  _ ← validate_segment record_id
  unless_reserved table (record_text space table record_id)

pub record SchemaKeyParts : Type 0 where
  pub space : String
  pub name : String
  pub version : ℕ

pub record RecordKeyParts : Type 0 where
  pub space : String
  pub table : String
  pub record_id : String
