-- ===== src/SchemaKey/Parse.antt =====
-- xtable-schema/src/key.rs: the parsers of the storage keys.
use xtable.Prelude.{
  String, Bool, true, false, not, ◌||◌, Option, none, some, List, [], ◌∷◌, ◌==◌, string_key,
}
use xtable.Text.{split, strip_prefix, strip_suffix, parse_u32, ◌>>=◌}
use xtable.SchemaKey.{xt_prefix, schema_seg, SchemaKeyParts, RecordKeyParts}

-- `it.next()?`
abbrev pub next : List String → Option (String × List String)
next [] = none
next (part ∷ it) = some (part, it)

-- `if !test { return None }`
abbrev pub require : Bool → Option (Unit {0})
require true = some tt
require false = none

abbrev pub is_done : List String → Bool
is_done [] = true
is_done (part ∷ it) = false

unfoldable pub parse_schema_key : String → Option SchemaKeyParts
parse_schema_key key = do
  (first, it) ← next (split key)
  _ ← require (first == xt_prefix)
  (space, it) ← next it
  (seg, it) ← next it
  _ ← require (seg == schema_seg)
  (name, it) ← next it
  (last, it) ← next it
  _ ← require (is_done it)
  v ← strip_prefix "v" last
  v_str ← strip_suffix ".json" v
  version ← parse_u32 v_str
  some (record { space = space; name = name; version = version })

unfoldable pub parse_record_key : String → Option RecordKeyParts
parse_record_key key = do
  (first, it) ← next (split key)
  _ ← require (first == xt_prefix)
  (space, it) ← next it
  (second, it) ← next it
  _ ← require (not (second == schema_seg))
  (last, it) ← next it
  _ ← require (is_done it)
  record_id ← strip_suffix ".json" last
  some (record { space = space; table = second; record_id = record_id })

abbrev pub is_some {ℓ} : {A : Type ℓ} → Option A → Bool
is_some none = false
is_some (some a) = true

abbrev pub is_structured_key : String → Bool
is_structured_key key = is_some (parse_schema_key key) || is_some (parse_record_key key)
