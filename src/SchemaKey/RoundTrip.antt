-- ===== src/SchemaKey/RoundTrip.antt =====
-- The parsers on the keys that are built: here and in the coordinator.

use Prim.Native.String.{◌++◌}
use text.Mathlib.TextLemmas.{append_assoc}
use xtable.Prelude.{ℕ, ◌≡◌, ◌<◌, refl, sym, String, true, none, some, [], ◌∷◌, string_key}
use xtable.Errors.{ok}
use xtable.Text.{split, all_chars, show_u32, u32_end}
use xtable.Text.Laws.{
  not_slash, split-append, split-all, all_chars-append, all_chars-show_before, not_slash-digit,
  strip_suffix-append, strip_prefix-append, split_slash-append, parse_u32-show_u32,
}
use xtable.SchemaKey.{xt_prefix, schema_seg, schema_key, record_key, record_text, schema_text}
use xtable.SchemaKey.Parse.{parse_schema_key, parse_record_key}
use xtable.SchemaKey.Laws.{record_key-ok, schema_key-ok}
use xtable.Coordinator.Keys

abbrev IsFree : String → Type 0
IsFree s = all_chars not_slash s ≡ true

IsFree-literals : IsFree xt_prefix × IsFree schema_seg × IsFree ".json" × IsFree "v"
unfolding all_chars
IsFree-literals = (refl, refl, refl, refl)

split-record_text :
    (space table record_id : String)
    → IsFree space
    → IsFree table
    → IsFree record_id
    → split (record_text space table record_id)
      ≡ xt_prefix ∷ space ∷ table ∷ (record_id ++ ".json") ∷ []
split-record_text space table record_id s t r =
    rw
      (
        split-append xt_prefix (space ++ ("/" ++ (table ++ ("/" ++ (record_id ++ ".json")))))
            IsFree-literals.0,
        split-append space (table ++ ("/" ++ (record_id ++ ".json"))) s,
        split-append table (record_id ++ ".json") t,
        split-all (record_id ++ ".json")
            (all_chars-append not_slash record_id ".json" r IsFree-literals.2),
      )
      refl

abbrev version_part : ℕ → String
version_part version = "v" ++ (show_u32 version ++ ".json")

version_part-IsFree : (version : ℕ) → IsFree (version_part version)
unfolding all_chars
version_part-IsFree version =
    all_chars-append not_slash "v" (show_u32 version ++ ".json") IsFree-literals.3 (
      all_chars-append not_slash (show_u32 version) ".json"
        (all_chars-show_before not_slash not_slash-digit 10 version "" refl) IsFree-literals.2)

split-schema_text :
    (space name : String) (version : ℕ)
    → IsFree space
    → IsFree name
    → split (schema_text space name version)
      ≡ xt_prefix ∷ space ∷ schema_seg ∷ name ∷ version_part version ∷ []
split-schema_text space name version s n =
    let last = "v" ++ (show_u32 version ++ ".json") in
    rw
      (
        split-append xt_prefix (space ++ ("/" ++ (schema_seg ++ ("/" ++ (name ++ ("/" ++ last))))))
            IsFree-literals.0,
        split-append space (schema_seg ++ ("/" ++ (name ++ ("/" ++ last)))) s,
        split-append schema_seg (name ++ ("/" ++ last)) IsFree-literals.1,
        split-append name last n,
        split-all last (version_part-IsFree version),
      )
      refl

-- A record key that is built is read back as its parts, and is not taken for the key of a schema.
pub parse_record_key-record_key :
    (space table record_id key : String)
    → record_key space table record_id ≡ ok key
    → (parse_record_key key ≡ some (record { space = space; table = table; record_id = record_id }))
      × (parse_schema_key key ≡ none)
unfolding parse_record_key parse_schema_key
parse_record_key-record_key space table record_id key h =
    let (s, t, r, free, e) = record_key-ok space table record_id key h in
    rw
      (
        e,
        split-record_text space table record_id s t r,
        free,
        strip_suffix-append record_id ".json",
      )
      (refl, refl)

-- The key of a version of a schema that is built is read back as its parts, if the version is a `u32`,
-- and is not taken for a record key.
pub parse_schema_key-schema_key :
    (space name : String) (version : ℕ) (key : String)
    → version < u32_end
    → schema_key space name version ≡ ok key
    → (parse_schema_key key ≡ some (record { space = space; name = name; version = version }))
      × (parse_record_key key ≡ none)
unfolding parse_record_key parse_schema_key
parse_schema_key-schema_key space name version key small h =
    let (s, n, e) = schema_key-ok space name version key h in
    rw
      (
        e,
        split-schema_text space name version s n,
        strip_prefix-append "v" (show_u32 version ++ ".json"),
        strip_suffix-append (show_u32 version) ".json",
        parse_u32-show_u32 version small,
      )
      (refl, refl)

-- The coordinator reads the same parts in a record key that the schema layer builds.
pub parse-record_key :
    (space table record_id key : String)
    → record_key space table record_id ≡ ok key
    → Keys.parse_record_key key ≡ some (space, table, record_id)
unfolding Keys.parse_record_key
parse-record_key space table record_id key h =
    let (s, t, r, free, e) = record_key-ok space table record_id key h in
    let tail = table ++ ("/" ++ (record_id ++ ".json")) in
    rw
      (
        e,
        sym (append_assoc xt_prefix "/" (space ++ ("/" ++ tail))),
        strip_prefix-append "_xtable/" (space ++ ("/" ++ tail)),
        split_slash-append space tail s,
        split_slash-append table (record_id ++ ".json") t,
        free,
        strip_suffix-append record_id ".json",
      )
      refl
