-- ===== src/SchemaKey/Tests.antt =====
-- Runs of the builders and the parsers, and the theorems on them at those keys.
use xtable.Prelude.{◌≡◌, refl, arith, true, false, none, some}
use xtable.Errors.{XtableError, ok, err}
use xtable.Text
use xtable.Coordinator.Keys
use xtable.SchemaKey.{validate_segment, schema_key, record_key}
use xtable.SchemaKey.Parse.{parse_schema_key, parse_record_key, is_structured_key}
use xtable.SchemaKey.RoundTrip.{
  parse_record_key-record_key, parse_schema_key-schema_key, parse-record_key,
}

keys : Unit {0}
unfolding validate_segment schema_key record_key parse_schema_key parse_record_key Text.split
    Text.all_chars Text.strip_prefix Text.strip_suffix Text.show_before Text.parse_digits
    Text.parse_u32
keys = tt

schema_format : schema_key "acme" "task" 3 ≡ ok "_xtable/acme/_schema/task/v3.json"
unfolding keys
schema_format = refl

record_format : record_key "acme" "tasks" "rec_1" ≡ ok "_xtable/acme/tasks/rec_1.json"
unfolding keys
record_format = refl

no_empty_space : schema_key "" "n" 1 ≡ err XtableError.invalid_argument
unfolding keys
no_empty_space = refl

no_blank : schema_key "with space" "n" 1 ≡ err XtableError.invalid_argument
unfolding keys
no_blank = refl

no_slash : schema_key "ok" "ok/.." 1 ≡ err XtableError.invalid_argument
unfolding keys
no_slash = refl

no_reserved_table : record_key "ok" "_schema" "x" ≡ err XtableError.invalid_argument
unfolding keys
no_reserved_table = refl

structured : is_structured_key "_xtable/s/_schema/n/v1.json" ≡ true
unfolding keys
structured = refl

not_structured : is_structured_key "_xtable/foo/bar" ≡ false
unfolding keys
not_structured = refl

-- a version with zeros in front is read, though no builder makes it
leading_zeros : is_structured_key "_xtable/s/_schema/n/v007.json" ≡ true
unfolding keys
leading_zeros = refl

parse_record_key-record_key_example :
    (parse_record_key "_xtable/acme/tasks/rec_1.json"
      ≡ some (record { space = "acme"; table = "tasks"; record_id = "rec_1" }))
    × (parse_schema_key "_xtable/acme/tasks/rec_1.json" ≡ none)
parse_record_key-record_key_example =
    parse_record_key-record_key "acme" "tasks" "rec_1" "_xtable/acme/tasks/rec_1.json" record_format

parse_schema_key-schema_key_example :
    (parse_schema_key "_xtable/acme/_schema/task/v3.json"
      ≡ some (record { space = "acme"; name = "task"; version = 3 }))
    × (parse_record_key "_xtable/acme/_schema/task/v3.json" ≡ none)
parse_schema_key-schema_key_example =
    parse_schema_key-schema_key "acme" "task" 3 "_xtable/acme/_schema/task/v3.json" (ground arith)
      schema_format

parse-record_key_example :
    Keys.parse_record_key "_xtable/acme/tasks/rec_1.json" ≡ some ("acme", "tasks", "rec_1")
parse-record_key_example =
    parse-record_key "acme" "tasks" "rec_1" "_xtable/acme/tasks/rec_1.json" record_format
